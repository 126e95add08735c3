-- ===== src/PrefixTree/Insert/Tiebreak.antt =====
-- The node of include/art/ar_prefix_tree.h that replaces a leaf with another key.
use cpp_art.Base.{
  Option-cases, ℕ, ◌+◌, ◌-◌, ◌%◌, ◌^◌, ◌≡◌, ◌≢◌, ◌<◌, ◌≤◌, true, false, some, refl, sym, arith, inl,
  inr, lt_or_le, ne→==, ◌==◌, not, first_from, first_from-some, first_from_before, first_from-none,
}
use mathlib.Core.Path.{subst}
use cpp_art.Node.Growth.{node_4_of_leaf, zeros}
use cpp_art.Node.Sorted
use cpp_art.Node.Body
use cpp_art.PrefixTree.{Inner, leaf, of_inner, node_pointer}
use cpp_art.PrefixTree.Prefix.Steps.{Wf-leaf}
use cpp_art.PrefixTree.Insert.{tiebreak, copy_range, capped}
use cpp_art.PrefixTree.Insert.Lone.{
  lone, find-lone, Member-lone, lone-Member, lone-Counted, lone-Open,
}
use cpp_art.PrefixTree.Insert.Open.{Grown, Grown-same, open_insert}
use cpp_art.Tree.Key.{Key, key_eq, IsBytes, Agree, Agree→key_eq}

module _ {V : Type 0} (key_of : V → Key) where
  -- The node at depth `d` with the leaves of `w` and `x`, whose keys differ at byte `j`.
  abbrev pub fork : ℕ → ℕ → V → V → Inner V
  fork d j w x = record {
    head = record {
      depth = d;
      prefix_length = (j - d) % 2 ^ 16;
      prefix = copy_range (capped ((j - d) % 2 ^ 16)) (key_of x) d zeros;
    };
    body = Body.node_4 (Sorted.insert (node_4_of_leaf (leaf w) (key_of w j)) (key_of x j) (leaf x));
  }

module _ {V : Type 0} (key_of : V → Key) (key_size : ℕ) (short : key_size ≤ 2 ^ 16)
    (bytes : (v : V) → IsBytes (key_of v)) where
  pub fork-Grown :
      (d j : ℕ) (w x : V)
      → Agree j (key_of w) (key_of x)
      → d ≤ j
      → j < key_size
      → key_of x j ≢ key_of w j
      → Grown key_of key_size d x (leaf w) (of_inner (fork key_of d j w x))
  unfolding Body.insert
  fork-Grown d j w x a l h ne =
      let e : d + (j - d) % 2 ^ 16 ≡ j = omega arith in
      let head = (fork key_of d j w x).head in
      let start = lone head (leaf w) (key_of w j) in
      subst
        (λ (c : ℕ). Grown key_of key_size d x (leaf w) (
          of_inner (record {
            head = head;
            body =
                Body.node_4
                  (Sorted.insert (node_4_of_leaf (leaf w) (key_of w j)) (key_of x c) (leaf x));
          })))
        e
        (Grown-same key_of key_size d x (leaf w) (of_inner start) _
          (λ v m. lone-Member head (leaf w) (key_of w j) v (bytes w j) m)
          (λ v m. Member-lone head (leaf w) (key_of w j) v m)
          (λ k m. lone-Counted head (leaf w) (key_of w j) k (bytes w j) m)
          (open_insert key_of key_size bytes 0 d x start
            (lone-Open key_of key_size 0 d x head (leaf w) (key_of w j) refl (omega arith)
              (λ i p q. ground arith) (bytes w j) refl
              (Wf-leaf key_of key_size 0 _ _ w (λ i p. ground (arith, a i))))
            (rw (e, find-lone, ne→== (key_of x j) (key_of w j) ne) refl)))

  -- Of two keys that differ and agree up to a depth, the loop finds the first byte at which they
  -- do, and the new node holds both leaves.
  pub tiebreak_lem :
      (d : ℕ) (w x : V)
      → d ≤ key_size
      → Agree d (key_of w) (key_of x)
      → key_eq key_size (key_of x) (key_of w) ≡ false
      → (n : Inner V) × (tiebreak key_of key_size d w x ≡ some n)
        × Grown key_of key_size d x (leaf w) (of_inner n)
  unfolding tiebreak
  tiebreak_lem d w x h a ne =
      let p = λ (j : ℕ). not (key_of x j == key_of w j) in
      elim (Option-cases (first_from p (key_size - d) d)) [
        | inl (j, e) ↦
            let f = first_from-some p (key_size - d) d j e in
            (
              _,
              rw (tiebreak, e) refl,
              fork-Grown d j w x
                  (λ i l. elim (lt_or_le i d) [
                    | inl early ↦ a i early
                    | inr late ↦ ground (arith, first_from_before p (key_size - d) d j i e)
                  ])
                  f.0 (omega (arith, f)) (ground (arith, f)),
            )
        | inr e ↦
            let same : key_eq key_size (key_of x) (key_of w) ≡ true =
              Agree→key_eq key_size (key_of x) (key_of w) (λ i l. elim (lt_or_le i d) [
                | inl early ↦ sym (a i early)
                | inr late ↦ ground (arith, first_from-none p (key_size - d) d i e)
              ]) in
            absurd (ground arith)
      ]
