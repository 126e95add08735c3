-- ===== src/Node/Growth/Fill.antt =====
-- From `_Node_16` to `_Node_48`.
use cpp_art.Base.{
  ℕ, zero, suc, ◌≡◌, ◌≢◌, true, ◌<◌, ◌≤◌, Pointer, Array, arith, not, inl, inr, eq_or_ne,
  count_below, count_below_gain, count_below_empty, count_below_prefix, refl, copy_n, ◌==◌,
}
use cpp_art.Node.Sorted
use cpp_art.Node.Sorted.{Sorted}
use cpp_art.Node.Sorted.Find.{find_at, find_nowhere, at, nowhere, locate}
use cpp_art.Node.Indexed
use cpp_art.Node.Indexed.{Indexed, used, empty_marker}
use cpp_art.Node.Growth.{fill_index, node_48_of_16, nulls}

fill_index_absent :
    (keys : Array ℕ) (n c : ℕ) → ((i : ℕ) → i < n → keys i ≢ c) → fill_index keys n c ≡ empty_marker
unfolding fill_index
fill_index_absent keys zero c h = refl
fill_index_absent keys (suc n) c h =
    ground (arith, h n, fill_index_absent keys n c (λ i k. h i (omega arith)))

fill_index_at :
    (keys : Array ℕ) (n i : ℕ)
    → ((i j : ℕ) → i < j → j < n → keys i < keys j)
    → i < n
    → fill_index keys n (keys i) ≡ i
unfolding fill_index
fill_index_at keys zero i asc h = absurd (omega arith)
fill_index_at keys (suc n) i asc h = elim (eq_or_ne i n) [
  | inl e ↦ ground arith
  | inr ne ↦ ground (arith, asc i n, fill_index_at keys n i (λ j k p q. asc j k p (omega arith)))
]

-- Each round of the loop puts one more byte to use.
fill_index_counted :
    (keys : Array ℕ) (n : ℕ)
    → ((i j : ℕ) → i < j → j < n → keys i < keys j)
    → ((i : ℕ) → i < n → keys i < 256)
    → n ≤ 48
    → count_below 256 (λ b. not (fill_index keys n b == empty_marker)) ≡ n
fill_index_counted keys zero asc small h =
    count_below_empty 256 (λ b. not (fill_index keys zero b == empty_marker))
      (λ i k. unfold fill_index in refl)
fill_index_counted keys (suc n) asc small h = ground (
  arith,
  fill_index_counted keys n (λ i j k l. asc i j k (omega arith)) (λ i k. small i (omega arith))
      (omega arith),
  count_below_gain 256 (λ b. not (fill_index keys n b == empty_marker))
      (λ b. not (fill_index keys (suc n) b == empty_marker)) (keys n) (small n (omega arith))
      (ground (arith, fill_index_absent keys n (keys n) (λ i k. ground (arith, asc i n))))
      (unfold fill_index in ground arith) (λ j k ne. unfold fill_index in ground arith),
)

module _ {P : Type 0} ⦃pt : Pointer P⦄ where
  module _ {n : Sorted P} (v : Sorted.IsValid 16 n) (e : n.count ≡ 16) where
    ascending : (i j : ℕ) → i < j → j < 16 → n.keys i < n.keys j
    ascending i j h k = v.ascending i j h (omega arith)

    index_at : (i : ℕ) → i < 16 → fill_index n.keys 16 (n.keys i) ≡ i
    index_at i h = fill_index_at n.keys 16 i ascending h

    pub find-node_48_of_16 : (c : ℕ) → Indexed.find (node_48_of_16 n) c ≡ Sorted.find n c
    find-node_48_of_16 c = elim (locate n c) [
      | at i h k ↦ unfold node_48_of_16 Indexed.find in ground (arith, find_at i v h k, index_at i)
      | nowhere out ↦
          unfold node_48_of_16 Indexed.find in
          ground
            (arith, find_nowhere n out, fill_index_absent n.keys 16 c (λ i h. out i (omega arith)))
    ]

    -- A byte in use is the key at its index.
    index_used :
        (b : ℕ)
        → used (node_48_of_16 n) b ≡ true
        → (fill_index n.keys 16 b < 16) × (n.keys (fill_index n.keys 16 b) ≡ b)
    index_used b u = elim (locate n b) [
      | at i h k ↦ unfold node_48_of_16 in ground (arith, index_at i)
      | nowhere out ↦ absurd (
          unfold node_48_of_16 in
          ground (arith, fill_index_absent n.keys 16 b (λ i h. out i (omega arith))))
    ]

    pub node_48_of_16-IsValid : Indexed.IsValid (node_48_of_16 n)
    node_48_of_16-IsValid = record {
      bytes_counted =
          unfold node_48_of_16 in
          fill_index_counted n.keys 16 ascending (λ i h. v.byte i (omega arith)) (omega arith);
      slots_counted =
          unfold node_48_of_16 in
          count_below_prefix (λ i. not (pt.is_null (copy_n 16 n.children nulls i))) 16 48
            (λ i h. ground (arith, v.present i)) (λ i h. ground (arith, pt.is_null-null))
            (omega arith);
      in_range = λ b h u. unfold node_48_of_16 in omega (arith, index_used b u);
      present = λ b h u.
          unfold node_48_of_16 in
          ground (arith, index_used b u, v.present (fill_index n.keys 16 b));
      distinct =
          λ b c h k u w q. unfold node_48_of_16 in ground (arith, index_used b u, index_used c w);
    }
