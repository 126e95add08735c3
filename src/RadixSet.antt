-- ===== src/RadixSet.antt =====
-- `radix_set` of include/art/radix_set.h over an `ar_tree`, which it uses for keys of at most six
-- bytes: the values are the keys.
pub mod Membership
use cpp_art.Base.{ℕ, zero, suc, Bool, true, false, List}
use cpp_art.Tree.Key.{Key, key_eq}
use cpp_art.Tree.Find.{Iterator, end, at, Outcome, done, throws, bad_access}
use cpp_art.ArTree.{ArTree, init, insert_unique, insert_range, assign_unique, erase_unique}
use cpp_art.ArTree as Tree
use cpp_art.ArTree.Iterate as Iterate
use cpp_art.ArTree.Emplace.{emplace_unique}

module _ {K : Type 0} (transform : K → Key) (key_size : ℕ) where
  -- a set from a range or an initializer list of keys
  unfoldable pub from_range : List K → Outcome (ArTree K)
  from_range l = insert_range transform key_size init l

  -- assignment of an initializer list
  unfoldable pub assign_list : ArTree K → List K → Outcome (ArTree K)
  assign_list s l = assign_unique transform key_size s l

  unfoldable pub insert : ArTree K → K → Outcome (ArTree K × Iterator K × Bool)
  insert s k = insert_unique transform key_size s k

  unfoldable pub emplace : ArTree K → K → Outcome (ArTree K × Iterator K × Bool)
  emplace s k = emplace_unique transform key_size s k

  unfoldable pub erase : ArTree K → K → Outcome (ArTree K × ℕ)
  erase s k = erase_unique transform key_size s (transform k)

  -- iterators are compared as pointers to leaves, of which a tree has one for a key
  unfoldable pub same_iterator : Iterator K → Iterator K → Bool
  same_iterator end end = true
  same_iterator (at v) (at w) = key_eq key_size (transform v) (transform w)
  same_iterator _ _ = false

  -- `erase(first, last)`, with `fuel` rounds of its loop left
  unfoldable pub erase_range :
      ℕ → ArTree K → Iterator K → Iterator K → Outcome (ArTree K × Iterator K)
  erase_range zero s first last = throws
  erase_range (suc fuel) s first last = elim (same_iterator first last) [
    | true ↦ done (s, last)
    | false ↦ elim first [
      | end ↦ bad_access
      | at v ↦ elim (Iterate.erase_at transform key_size s v) [
        | done (s', next) ↦ erase_range fuel s' next last
        | throws ↦ throws
        | bad_access ↦ bad_access
      ]
    ]
  ]

  unfoldable pub find : ArTree K → K → Outcome (Iterator K)
  find s k = Tree.find transform key_size s (transform k)

  -- `count`
  unfoldable pub count : ArTree K → K → Outcome ℕ
  count s k = elim (find s k) [
    | done end ↦ done 0
    | done (at v) ↦ done 1
    | throws ↦ throws
    | bad_access ↦ bad_access
  ]

  unfoldable pub lower_bound : ArTree K → K → Outcome (Iterator K)
  lower_bound s k = Iterate.lower_bound transform key_size s (transform k)

  unfoldable pub upper_bound : ArTree K → K → Outcome (Iterator K)
  upper_bound s k = Iterate.upper_bound transform key_size s (transform k)

  unfoldable pub equal_range : ArTree K → K → Outcome (Iterator K × Iterator K)
  equal_range s k = Iterate.equal_range transform key_size s (transform k)

  unfoldable pub begin : ArTree K → Outcome (Iterator K)
  begin s = Iterate.begin transform key_size s
