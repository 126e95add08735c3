-- ===== src/RadixMap.antt =====
-- `radix_map` of include/art/radix_map.h over an `ar_tree`, which it uses for keys of at most six
-- bytes: an iterator is at a pair of a key and a mapped value.
pub mod Element
pub mod Rep
pub mod Integers
pub mod IntegerPrograms
use cpp_art.Base.{
  ℕ, zero, suc, Bool, true, false, ltb, ◌==◌, if◌then◌else◌, Option, none, some, List,
}
use cpp_art.Tree.Key.{Key, key_eq}
use cpp_art.Tree.Find.{Iterator, end, at, Outcome, done, throws, bad_access}
use cpp_art.ArTree.{ArTree, init, insert_unique, insert_range, assign_unique, erase_unique}
use cpp_art.ArTree as Tree
use cpp_art.ArTree.Iterate as Iterate
use cpp_art.ArTree.Emplace.{emplace_unique}

-- `value_compare`, on the bytes from `i` on of keys of which `r` are left
unfoldable pub value_compare : ℕ → ℕ → Key → Key → Bool
value_compare zero i x y = false
value_compare (suc r) i x y =
    let rest = value_compare r (suc i) x y in
    if ltb (x i) (y i) then true else if ltb (y i) (x i) then false else rest

-- `Select1st`, then the key transformation
abbrev pub key_of_pair : {K T : Type 0} → (K → Key) → K × T → Key
key_of_pair transform v = transform v.0

module _ {K T : Type 0} (transform : K → Key) (key_size : ℕ) where
  -- a map from a range or an initializer list of pairs
  unfoldable pub from_range : List (K × T) → Outcome (ArTree (K × T))
  from_range l = insert_range (key_of_pair transform) key_size init l

  -- assignment of an initializer list
  unfoldable pub assign_list : ArTree (K × T) → List (K × T) → Outcome (ArTree (K × T))
  assign_list m l = assign_unique (key_of_pair transform) key_size m l

  unfoldable pub insert :
      ArTree (K × T) → K × T → Outcome (ArTree (K × T) × Iterator (K × T) × Bool)
  insert m x = insert_unique (key_of_pair transform) key_size m x

  unfoldable pub emplace :
      ArTree (K × T) → K → T → Outcome (ArTree (K × T) × Iterator (K × T) × Bool)
  emplace m k v = emplace_unique (key_of_pair transform) key_size m (k, v)

  unfoldable pub erase : ArTree (K × T) → K → Outcome (ArTree (K × T) × ℕ)
  erase m k = erase_unique (key_of_pair transform) key_size m (transform k)

  -- iterators are compared as pointers to leaves, of which a tree has one for a key
  unfoldable pub same_iterator : Iterator (K × T) → Iterator (K × T) → Bool
  same_iterator end end = true
  same_iterator (at v) (at w) = key_eq key_size (transform v.0) (transform w.0)
  same_iterator _ _ = false

  -- `erase(first, last)`, with `fuel` rounds of its loop left
  unfoldable pub erase_range :
      ℕ
      → ArTree (K × T)
      → Iterator (K × T)
      → Iterator (K × T)
      → Outcome (ArTree (K × T) × Iterator (K × T))
  erase_range zero m first last = throws
  erase_range (suc fuel) m first last = elim (same_iterator first last) [
    | true ↦ done (m, last)
    | false ↦ elim first [
      | end ↦ bad_access
      | at v ↦ elim (Iterate.erase_at (key_of_pair transform) key_size m v) [
        | done (m', next) ↦ erase_range fuel m' next last
        | throws ↦ throws
        | bad_access ↦ bad_access
      ]
    ]
  ]

  unfoldable pub find : ArTree (K × T) → K → Outcome (Iterator (K × T))
  find m k = Tree.find (key_of_pair transform) key_size m (transform k)

  -- `count`
  unfoldable pub count : ArTree (K × T) → K → Outcome ℕ
  count m k = elim (find m k) [
    | done end ↦ done 0
    | done (at v) ↦ done 1
    | throws ↦ throws
    | bad_access ↦ bad_access
  ]

  -- `at`; `none` is the exception `out_of_range`
  unfoldable pub at_key : ArTree (K × T) → K → Outcome (Option T)
  at_key m k = elim (find m k) [
    | done end ↦ done none
    | done (at v) ↦ done (some v.1)
    | throws ↦ throws
    | bad_access ↦ bad_access
  ]

  -- `operator[]` with the value `mapped_type()`: the map after it, and the value referred to
  unfoldable pub index : T → ArTree (K × T) → K → Outcome (ArTree (K × T) × T)
  index blank m k = elim (find m k) [
    | done (at v) ↦ done (m, v.1)
    | done end ↦ elim (emplace m k blank) [
      | done (m', at w, inserted) ↦ done (m', w.1)
      | done (m', end, inserted) ↦ bad_access
      | throws ↦ throws
      | bad_access ↦ bad_access
    ]
    | throws ↦ throws
    | bad_access ↦ bad_access
  ]

  unfoldable pub lower_bound : ArTree (K × T) → K → Outcome (Iterator (K × T))
  lower_bound m k = Iterate.lower_bound (key_of_pair transform) key_size m (transform k)

  unfoldable pub upper_bound : ArTree (K × T) → K → Outcome (Iterator (K × T))
  upper_bound m k = Iterate.upper_bound (key_of_pair transform) key_size m (transform k)

  unfoldable pub equal_range : ArTree (K × T) → K → Outcome (Iterator (K × T) × Iterator (K × T))
  equal_range m k = Iterate.equal_range (key_of_pair transform) key_size m (transform k)

  unfoldable pub begin : ArTree (K × T) → Outcome (Iterator (K × T))
  begin m = Iterate.begin (key_of_pair transform) key_size m
