-- ===== src/RadixMap/Element.antt =====
-- Element access of `radix_map` in include/art/radix_map.h.
use cpp_art.Base.{
  ℕ, zero, suc, ◌+◌, ◌≡◌, Bool, true, false, if◌then◌else◌, none, some, refl, sym, ◌∙◌, arith, inl,
  inr, Bool-cases,
}
use cpp_art.Tree.Key.{Key, key_eq, IsBytes}
use cpp_art.Tree.Find.{Iterator, end, at, Outcome, done}
use cpp_art.Tree.Walk.{key_less}
use cpp_art.ArTree.{ArTree, insert_unique, IsValid}
use cpp_art.ArTree as Tree
use cpp_art.ArTree.Laws.{find_returns, insert_unique_lem, InsertResult, refused, accepted}
use cpp_art.ArTree.Contract.{find_same_key}
use cpp_art.ArTree.Emplace.Same.{emplace_unique-eq-insert_unique}
use cpp_art.RadixMap.{value_compare, key_of_pair, find, emplace, at_key, index}

-- The order of `value_compare` is that of `memcmp` on the bytes of the keys.
pub value_compare-eq-key_less : (r i : ℕ) (x y : Key) → value_compare r i x y ≡ key_less r i x y
unfolding value_compare key_less
value_compare-eq-key_less zero i x y = refl
value_compare-eq-key_less (suc r) i x y = ground (arith, value_compare-eq-key_less r (suc i) x y)

module _ {K T : Type 0} (transform : K → Key) (key_size : ℕ) where
  at-end :
      (m : ArTree (K × T)) (k : K)
      → find transform key_size m k ≡ done end
      → at_key transform key_size m k ≡ done none
  unfolding at_key
  at-end m k h = rw (h, at_key) refl

  at-there :
      (m : ArTree (K × T)) (k : K) (v : K × T)
      → find transform key_size m k ≡ done (at v)
      → at_key transform key_size m k ≡ done (some v.1)
  unfolding at_key
  at-there m k v h = rw (h, at_key) refl

  index-there :
      (blank : T) (m : ArTree (K × T)) (k : K) (v : K × T)
      → find transform key_size m k ≡ done (at v)
      → index transform key_size blank m k ≡ done (m, v.1)
  unfolding index
  index-there blank m k v h = rw (h, index) refl

  index-new :
      (blank : T) (m m' : ArTree (K × T)) (k : K) (w : K × T) (b : Bool)
      → find transform key_size m k ≡ done end
      → emplace transform key_size m k blank ≡ done (m', at w, b)
      → index transform key_size blank m k ≡ done (m', w.1)
  unfolding index
  index-new blank m m' k w b h e = rw (h, index) (rw (e, index) refl)

  at_same_find :
      (m m' : ArTree (K × T)) (j : K)
      → find transform key_size m' j ≡ find transform key_size m j
      → at_key transform key_size m' j ≡ at_key transform key_size m j
  unfolding at_key
  at_same_find m m' j h = rw (h, at_key) refl

  abbrev Indexed : T → ArTree (K × T) → K → K → Type 0
  Indexed blank m k j =
      (m' : ArTree (K × T)) × (v : T) × (fresh : Bool) × (index transform key_size blank m k
        ≡ done (m', v))
      × IsValid (key_of_pair transform) key_size m'
      × (m'.count ≡ (if fresh then m.count + 1 else m.count))
      × (at_key transform key_size m k ≡ done (if fresh then none else some v))
      × ((if fresh then v else blank) ≡ blank)
      × (at_key transform key_size m' j ≡ (
          if key_eq key_size (transform j) (transform k)
          then done (some v)
          else at_key transform key_size m j))

  index_there_lem :
      (bytes : (k : K) → IsBytes (transform k)) (blank : T) (m : ArTree (K × T)) (k j : K)
      (w : K × T)
      → IsValid (key_of_pair transform) key_size m
      → find transform key_size m k ≡ done (at w)
      → Indexed blank m k j
  unfolding find
  index_there_lem bytes blank m k j w v f = (
    m,
    w.1,
    false,
    index-there blank m k w f,
    v,
    refl,
    at-there m k w f,
    refl,
    elim (Bool-cases (key_eq key_size (transform j) (transform k))) [
      | inl same ↦ rw same (
          at-there m j w (
            find_same_key (key_of_pair transform) key_size m (transform j) (transform k) (bytes k) v
              same
            ∙ f))
      | inr ne ↦ rw ne refl
    ],
  )

  index_new_lem :
      (bytes : (k : K) → IsBytes (transform k)) (blank : T) (m : ArTree (K × T)) (k j : K)
      → IsValid (key_of_pair transform) key_size m
      → find transform key_size m k ≡ done end
      → {o : Outcome (ArTree (K × T) × Iterator (K × T) × Bool)}
      → emplace transform key_size m k blank ≡ o
      → InsertResult (key_of_pair transform) key_size (λ x. bytes x.0) m (k, blank) o
      → Indexed blank m k j
  unfolding find
  index_new_lem bytes blank m k j v f e (refused w o g) = absurd (cc (sym f ∙ g))
  index_new_lem bytes blank m k j v f e (accepted m' o v' c g h) = (
    m',
    blank,
    true,
    index-new blank m m' k (k, blank) true f (e ∙ o),
    v',
    c,
    at-end m k f,
    refl,
    elim (Bool-cases (key_eq key_size (transform j) (transform k))) [
      | inl same ↦ rw same (at-there m' j (k, blank) (h (transform j) (bytes j) ∙ rw same refl))
      | inr ne ↦ rw ne (at_same_find m m' j (h (transform j) (bytes j) ∙ rw ne refl))
    ],
  )

  -- In a map that holds the tree's invariant, over keys whose transformed form is made of bytes,
  -- `operator[]` returns a map and a value. The map holds the invariant. If `at` finds nothing for
  -- the key before, the count is one larger and the value is `mapped_type()`; or the count is kept
  -- and the value is what `at` finds. After it `at` finds the value for any key that transforms to
  -- the same bytes, and what it found before for any other.
  pub index_contract :
      (bytes : (k : K) → IsBytes (transform k)) (blank : T) (m : ArTree (K × T)) (k j : K)
      → IsValid (key_of_pair transform) key_size m
      → (m' : ArTree (K × T)) × (v : T) × (fresh : Bool) × (index transform key_size blank m k
          ≡ done (m', v))
        × IsValid (key_of_pair transform) key_size m'
        × (m'.count ≡ (if fresh then m.count + 1 else m.count))
        × (at_key transform key_size m k ≡ done (if fresh then none else some v))
        × ((if fresh then v else blank) ≡ blank)
        × (at_key transform key_size m' j ≡ (
            if key_eq key_size (transform j) (transform k)
            then done (some v)
            else at_key transform key_size m j))
  unfolding find emplace
  index_contract bytes blank m k j v =
      let (i, f) = find_returns (key_of_pair transform) key_size m (transform k) v (bytes k) in
      case i f
    where
      case :
          (i : Iterator (K × T))
          → Tree.find (key_of_pair transform) key_size m (transform k) ≡ done i
          → Indexed blank m k j
      case end f =
          index_new_lem bytes blank m k j v f
            (emplace_unique-eq-insert_unique (key_of_pair transform) key_size (λ x. bytes x.0) m
              (k, blank) v)
            (insert_unique_lem (key_of_pair transform) key_size (λ x. bytes x.0) m (k, blank) v)
      case (at w) f = index_there_lem bytes blank m k j w v f
