-- ===== src/Node/Growth/Copies.antt =====
-- Between `_Node_4` and `_Node_16`, and from `_Node_48` to `_Node_256`.
use cpp_art.Base.{ℕ, ◌≡◌, false, ◌<◌, Pointer, arith, sym, ◌==◌, if◌then◌else◌, count_below_ext}
use cpp_art.Node.Sorted
use cpp_art.Node.Sorted.{Sorted}
use cpp_art.Node.Sorted.Find.{find_at, find_nowhere, at, nowhere, locate}
use cpp_art.Node.Indexed
use cpp_art.Node.Indexed.{Indexed, used}
use cpp_art.Node.Direct
use cpp_art.Node.Direct.{Direct, held}
use cpp_art.Node.Direct.Change.{find-eq-child}
use cpp_art.Node.Growth.{node_4_of_leaf, node_4_of_16, node_16_of_4, node_256_of_48}

module _ {P : Type 0} ⦃pt : Pointer P⦄ where
  -- Sorted nodes with the same entries in use find the same.
  same_entries :
      {cap cap' : ℕ} {n m : Sorted P}
      → Sorted.IsValid cap n
      → Sorted.IsValid cap' m
      → m.count ≡ n.count
      → ((i : ℕ) → i < n.count → m.keys i ≡ n.keys i)
      → ((i : ℕ) → i < n.count → m.children i ≡ n.children i)
      → (c : ℕ) → Sorted.find m c ≡ Sorted.find n c
  same_entries {n = n} {m} v w e ks cs c = elim (locate n c) [
    | at i h k ↦ ground (arith, find_at i v h k, find_at i {b = c} w, ks i h, cs i h)
    | nowhere out ↦
        ground
          (arith, find_nowhere n out, find_nowhere m {b = c} (λ i h. ground (arith, ks i, out i)))
  ]

  pub node_16_of_4-IsValid :
      {n : Sorted P} → Sorted.IsValid 4 n → n.count ≡ 4 → Sorted.IsValid 16 (node_16_of_4 n)
  unfolding node_16_of_4
  node_16_of_4-IsValid {n} v e = record {
    fits = omega arith;
    ascending = λ i j h k. ground (arith, v.ascending i j);
    byte = λ i h. ground (arith, v.byte i);
    present = λ i h. ground (arith, v.present i);
  }

  pub find-node_16_of_4 :
      {n : Sorted P}
      → Sorted.IsValid 4 n
      → n.count ≡ 4
      → (c : ℕ) → Sorted.find (node_16_of_4 n) c ≡ Sorted.find n c
  find-node_16_of_4 v e =
      same_entries v (node_16_of_4-IsValid v e) (unfold node_16_of_4 in sym e)
        (λ i h. unfold node_16_of_4 in ground arith) (λ i h. unfold node_16_of_4 in ground arith)

  pub node_4_of_16-IsValid :
      {n : Sorted P} → Sorted.IsValid 16 n → n.count ≡ 4 → Sorted.IsValid 4 (node_4_of_16 n)
  unfolding node_4_of_16
  node_4_of_16-IsValid {n} v e = record {
    fits = omega arith;
    ascending = λ i j h k. ground (arith, v.ascending i j);
    byte = λ i h. ground (arith, v.byte i);
    present = λ i h. ground (arith, v.present i);
  }

  pub find-node_4_of_16 :
      {n : Sorted P}
      → Sorted.IsValid 16 n
      → n.count ≡ 4
      → (c : ℕ) → Sorted.find (node_4_of_16 n) c ≡ Sorted.find n c
  find-node_4_of_16 v e =
      same_entries v (node_4_of_16-IsValid v e) (unfold node_4_of_16 in sym e)
        (λ i h. unfold node_4_of_16 in ground arith) (λ i h. unfold node_4_of_16 in ground arith)

  pub node_4_of_leaf-IsValid :
      (p : P) (b : ℕ) → pt.is_null p ≡ false → b < 256 → Sorted.IsValid 4 (node_4_of_leaf p b)
  unfolding node_4_of_leaf
  node_4_of_leaf-IsValid p b solid small = record {
    fits = omega arith;
    ascending = λ i j h k. absurd (omega arith);
    byte = λ i h. ground arith;
    present = λ i h. ground arith;
  }

  pub find-node_4_of_leaf :
      (p : P) (b c : ℕ) → Sorted.find (node_4_of_leaf p b) c ≡ (if c == b then p else pt.null)
  unfolding node_4_of_leaf Sorted.find Sorted.position
  find-node_4_of_leaf p b c = ground arith

  pub find-node_256_of_48 :
      (n : Indexed P) (c : ℕ) → Direct.find (node_256_of_48 n) c ≡ Indexed.find n c
  find-node_256_of_48 n c =
      unfold node_256_of_48 Indexed.find in ground (arith, find-eq-child (node_256_of_48 n) c)

  pub node_256_of_48-IsValid :
      {n : Indexed P} → Indexed.IsValid n → n.count ≡ 48 → Direct.IsValid (node_256_of_48 n)
  unfolding node_256_of_48
  node_256_of_48-IsValid {n} v e = record {
    counted = ground (
      arith,
      v.bytes_counted,
      count_below_ext 256 (used n) (held (node_256_of_48 n))
          (λ i h. ground (arith, v.present i, pt.is_null-null)),
    );
  }
