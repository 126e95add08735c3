-- ===== src/Node/Sorted/Removal.antt =====
-- `erase` of a sorted node as a change to what `find` returns.
use cpp_art.Base.{
  ℕ, ◌+◌, ◌-◌, ◌<◌, ◌≡◌, inl, inr, false, arith, Pointer, ltb, ◌==◌, eq_or_ne, lt_or_le,
  if◌then◌else◌,
}
use cpp_art.Node.Sorted.{Sorted, position, find, erase, IsValid}
use cpp_art.Node.Sorted.Find.{find_at, find_nowhere, at, nowhere, locate}

module _ {P : Type 0} ⦃pt : Pointer P⦄ where
  pub count-erase :
      {cap : ℕ} {n : Sorted P} (b : ℕ)
      → IsValid cap n
      → pt.is_null (find n b) ≡ false
      → (erase n b).count + 1 ≡ n.count
  unfolding erase find
  count-erase {n = n} b v held = ground (arith, pt.is_null-null)

  -- Where the byte has a child, the loop stops at its index.
  pub held_at :
      {cap : ℕ} {n : Sorted P} (b : ℕ)
      → IsValid cap n
      → pt.is_null (find n b) ≡ false
      → (position n.keys b n.count 0 < n.count) × (n.keys (position n.keys b n.count 0) ≡ b)
  unfolding find
  held_at {n = n} b v held = ground (arith, pt.is_null-null)

  module _ (n : Sorted P) (b : ℕ) where
    erase_key :
        (j : ℕ)
        → j + 1 < n.count
        → position n.keys b n.count 0 < n.count
        → (erase n b).keys j
          ≡ (if ltb j (position n.keys b n.count 0) then n.keys j else n.keys (j + 1))
    unfolding erase
    erase_key j h k = ground arith

    erase_child :
        (j : ℕ)
        → j + 1 < n.count
        → position n.keys b n.count 0 < n.count
        → (erase n b).children j
          ≡ (if ltb j (position n.keys b n.count 0) then n.children j else n.children (j + 1))
    unfolding erase
    erase_child j h k = ground arith

  pub erase-IsValid :
      {cap : ℕ} {n : Sorted P} (b : ℕ)
      → IsValid cap n
      → pt.is_null (find n b) ≡ false
      → IsValid cap (erase n b)
  erase-IsValid {n = n} b v held = record {
    fits = omega (arith, count-erase b v held, v.fits);
    ascending = λ i j h k. ground (
      arith,
      count-erase b v held,
      held_at b v held,
      erase_key n b i,
      erase_key n b j,
      v.ascending i j,
      v.ascending i (j + 1),
      v.ascending (i + 1) (j + 1),
    );
    byte = λ i h.
        ground (
          arith,
          count-erase b v held,
          held_at b v held,
          erase_key n b i,
          v.byte i,
          v.byte (i + 1),
        );
    present = λ i h. ground (
      arith,
      count-erase b v held,
      held_at b v held,
      erase_child n b i,
      v.present i,
      v.present (i + 1),
    );
  }

  -- An erased byte has no child, and every other byte keeps its child.
  pub find-erase :
      {cap : ℕ} {n : Sorted P} (b : ℕ) (c : ℕ)
      → IsValid cap n
      → pt.is_null (find n b) ≡ false
      → find (erase n b) c ≡ (if c == b then pt.null else find n c)
  find-erase {n = n} b c v held =
      let v' = erase-IsValid b v held in
      let pos = position n.keys b n.count 0 in
      let here = held_at b v held in
      elim (eq_or_ne c b) [
        | inl e ↦ ground (
          arith,
          find_nowhere (erase n b) {b = c} (λ i h. ground (
            arith,
            here,
            erase_key n b i,
            count-erase b v held,
            v.ascending i pos,
            v.ascending pos (i + 1),
          )),
        )
        | inr ne ↦ elim (locate n c) [
          | at i h e ↦ elim (lt_or_le i pos) [
            | inl less ↦ ground (
              arith,
              here,
              find_at i v h e,
              find_at i {b = c} v',
              erase_key n b i,
              erase_child n b i,
              count-erase b v held,
            )
            | inr more ↦ ground (
              arith,
              here,
              find_at i v h e,
              find_at (i - 1) {b = c} v',
              erase_key n b (i - 1),
              erase_child n b (i - 1),
              count-erase b v held,
            )
          ]
          | nowhere out ↦ ground (
            arith,
            here,
            find_nowhere n out,
            find_nowhere (erase n b) {b = c} (λ i h.
                ground (arith, here, erase_key n b i, count-erase b v held, out i, out (i + 1))),
          )
        ]
      ]
