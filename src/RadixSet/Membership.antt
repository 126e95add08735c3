-- ===== src/RadixSet/Membership.antt =====
-- Membership in a `radix_set` of include/art/radix_set.h.
use cpp_art.Base.{ℕ, ◌≡◌, Bool, true, false, if◌then◌else◌, refl, ◌∙◌, inl, inr, Bool-cases}
use cpp_art.Tree.Key.{Key, key_eq, IsBytes}
use cpp_art.Tree.Find.{Iterator, end, at, done}
use cpp_art.ArTree.{ArTree, IsValid}
use cpp_art.ArTree.Laws.{insert_unique_lem, refused, accepted}
use cpp_art.ArTree.Erasure.{erase_unique_lem, absent, removed}
use cpp_art.ArTree.Contract.{find_same_key}
use cpp_art.RadixSet.{insert, erase, find, count}

module _ {K : Type 0} (transform : K → Key) (key_size : ℕ) where
  count-at :
      (s : ArTree K) (k w : K)
      → find transform key_size s k ≡ done (at w)
      → count transform key_size s k ≡ done 1
  unfolding count
  count-at s k w h = rw (h, count) refl

  count-end :
      (s : ArTree K) (k : K)
      → find transform key_size s k ≡ done end
      → count transform key_size s k ≡ done 0
  unfolding count
  count-end s k h = rw (h, count) refl

  count_same :
      (s s' : ArTree K) (k : K)
      → find transform key_size s' k ≡ find transform key_size s k
      → count transform key_size s' k ≡ count transform key_size s k
  unfolding count
  count_same s s' k h = rw (h, count) refl

  -- In a set that holds the tree's invariant, over keys whose transformed form is made of bytes,
  -- `insert` of a key returns a set that holds the invariant, in which the key counts once and any
  -- key that transforms to other bytes as often as before; the flag is set exactly where the key
  -- did not count before.
  pub count-insert :
      (bytes : (k : K) → IsBytes (transform k)) (s : ArTree K) (k j : K)
      → IsValid transform key_size s
      → (s' : ArTree K) × (i : Iterator K) × (inserted : Bool) × (insert transform key_size s k
          ≡ done (s', i, inserted))
        × IsValid transform key_size s'
        × (count transform key_size s k ≡ done (if inserted then 0 else 1))
        × (count transform key_size s' j ≡ (
            if key_eq key_size (transform j) (transform k)
            then done 1
            else count transform key_size s j))
  unfolding insert find
  count-insert bytes s k j v = elim (insert_unique_lem transform key_size bytes s k v) [
    | refused w o f ↦ (
      s,
      at w,
      false,
      o,
      v,
      count-at s k w f,
      elim (Bool-cases (key_eq key_size (transform j) (transform k))) [
        | inl same ↦ rw same (
            count-at s j w
              (find_same_key transform key_size s (transform j) (transform k) (bytes k) v same ∙ f))
        | inr ne ↦ rw ne refl
      ],
    )
    | accepted s' o v' c f g ↦ (
      s',
      at k,
      true,
      o,
      v',
      count-end s k f,
      elim (Bool-cases (key_eq key_size (transform j) (transform k))) [
        | inl same ↦ rw same (count-at s' j k (g (transform j) (bytes j) ∙ rw same refl))
        | inr ne ↦ rw ne (count_same s s' j (g (transform j) (bytes j) ∙ rw ne refl))
      ],
    )
  ]

  -- In a set that holds the tree's invariant, over keys whose transformed form is made of bytes,
  -- `erase` of a key returns a set that holds the invariant, in which the key does not count and any
  -- key that transforms to other bytes counts as before; it returns how often the key counted.
  pub count-erase :
      (bytes : (k : K) → IsBytes (transform k)) (s : ArTree K) (k j : K)
      → IsValid transform key_size s
      → (s' : ArTree K) × (n : ℕ) × (erase transform key_size s k ≡ done (s', n))
        × IsValid transform key_size s'
        × (count transform key_size s k ≡ done n)
        × (count transform key_size s' j ≡ (
            if key_eq key_size (transform j) (transform k)
            then done 0
            else count transform key_size s j))
  unfolding erase find
  count-erase bytes s k j v =
      elim (erase_unique_lem transform key_size s (transform k) (bytes k) v) [
        | absent o f ↦ (
          s,
          0,
          o,
          v,
          count-end s k f,
          elim (Bool-cases (key_eq key_size (transform j) (transform k))) [
            | inl same ↦ rw same (
                count-end s j (
                  find_same_key transform key_size s (transform j) (transform k) (bytes k) v same
                  ∙ f))
            | inr ne ↦ rw ne refl
          ],
        )
        | removed s' w o f v' c g ↦ (
          s',
          1,
          o,
          v',
          count-at s k w f,
          elim (Bool-cases (key_eq key_size (transform j) (transform k))) [
            | inl same ↦ rw same (count-end s' j (g (transform j) (bytes j) ∙ rw same refl))
            | inr ne ↦ rw ne (count_same s s' j (g (transform j) (bytes j) ∙ rw ne refl))
          ],
        )
      ]
