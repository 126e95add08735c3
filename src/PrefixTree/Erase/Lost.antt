-- ===== src/PrefixTree/Erase/Lost.antt =====
-- What `erase_unique` of include/art/ar_prefix_tree.h makes of a subtree, at the node above the
-- leaf and at the nodes above that.
use cpp_art.Base.{
  sum_below_change, ℕ, suc, ◌+◌, ◌^◌, ◌≡◌, ◌≢◌, ◌<◌, ◌≤◌, true, false, refl, arith, inl, inr,
  eq_or_ne, ◌==◌, eq→==, ne→==, if◌then◌else◌, sum_below,
}
use cpp_art.Node.Body
use cpp_art.Node.Body.Laws.{erase-IsValid, find-erase, size-erase, min_size-erase}
use cpp_art.PrefixTree.{
  Node, Inner, null, leaf, of_inner, node_pointer, is_null, Member, here, below, Counted,
  in_children, no_leaf,
}
use cpp_art.PrefixTree.Wf.{InnerWf, Wf}
use cpp_art.PrefixTree.Prefix.Steps.{
  Wf-null, Wf-Agree, Member-leaf, Member-of_inner, Counted-of_inner, not-Member_null,
  InnerWf-Member, Counted-leaf,
}
use cpp_art.PrefixTree.Erase.{shrink_step, compress_step}
use cpp_art.PrefixTree.Erase.Fixed.{Thin}
use cpp_art.PrefixTree.Erase.Fix.{fix_lem}
use cpp_art.Tree.Key.{Key, key_eq, IsBytes, Agree, key_eq_ne}
use cpp_art.Tree.Find.{done}

module _ {V : Type 0} (key_of : V → Key) (key_size : ℕ) where
  -- The one value with the key is gone, every other stays, and the invariant holds.
  pub record Lost (d : ℕ) (k : Key) (t t' : Node V) : Type 0 where
    pub layers : ℕ
    pub wf : Wf key_of key_size layers d k t'
    pub solid : is_null t' ≡ false
    pub kept : (v : V) → Member v t → key_eq key_size k (key_of v) ≡ false → Member v t'
    pub only : (v : V) → Member v t' → Member v t × (key_eq key_size k (key_of v) ≡ false)
    pub fewer : (m : ℕ) → Counted t m → (j : ℕ) × (m ≡ suc j) × Counted t' j
    pub had : (w : V) × Member w t × (key_eq key_size k (key_of w) ≡ true)

  -- At the node above the leaf.
  module _ (short : key_size ≤ 2 ^ 16) (r d : ℕ) (k : Key) (n : Inner V) (w : V) (bytes : IsBytes k)
      (i : InnerWf key_of key_size d k (Wf key_of key_size r) n)
      (along : Agree (d + n.head.prefix_length) i.line k)
      (there : Body.find n.body (k (d + n.head.prefix_length)) ≡ leaf w)
      (same : key_eq key_size k (key_of w) ≡ true) where
    abbrev branch : ℕ
    branch = k (d + n.head.prefix_length)

    abbrev without : Inner V
    without = record n { body = Body.erase n.body branch }

    held : is_null (Body.find n.body branch) ≡ false
    held = rw there refl

    find-without :
        (c : ℕ)
        → c < 256
        → Body.find without.body c ≡ (if c == branch then null else Body.find n.body c)
    find-without c h = find-erase n.body branch c i.valid (bytes (d + n.head.prefix_length)) h held

    gone : Body.find without.body branch ≡ null
    gone = ground (arith, find-without branch (bytes (d + n.head.prefix_length)))

    as_before : (c : ℕ) → c < 256 → c ≢ branch → Body.find without.body c ≡ Body.find n.body c
    as_before c h ne = ground (arith, find-without c h)

    without-Thin : Thin key_of key_size key_size d k without
    without-Thin = record {
      at_depth = i.at_depth;
      valid = erase-IsValid n.body branch i.valid (bytes (d + n.head.prefix_length)) held;
      sized = omega (
        arith,
        i.roomy,
        size-erase n.body branch i.valid (bytes (d + n.head.prefix_length)) held,
        min_size-erase n.body branch,
      );
      span = i.span;
      stored = λ j h l. ground (arith, i.stored j h l, along (d + j));
      children = λ c h. elim (eq_or_ne c branch) [
        | inl p ↦ rw (p, gone) (Wf-null key_of key_size key_size _ _)
        | inr p ↦ rw (as_before c h p) (
            Wf-Agree key_of key_size r key_size _ _ _ (Body.find n.body c) (omega arith)
              (λ j l. ground (arith, along j)) (i.children c h))
      ];
    }

    -- A value below another byte has another key.
    other_key :
        (c : ℕ) (v : V)
        → c < 256
        → c ≢ branch
        → Member v (Body.find n.body c)
        → key_eq key_size k (key_of v) ≡ false
    other_key c v h ne m =
        key_eq_ne key_size (d + n.head.prefix_length) k (key_of v) i.span
          (ground (arith, (InnerWf-Member key_of key_size r d k n c v i h m).1))

    pub leaf_Lost :
        (t : Node V) × (compress_step
            (shrink_step (record n { body = Body.erase n.body (k (d + n.head.prefix_length)) }))
          ≡ done t)
        × Lost d k (of_inner n) t
    leaf_Lost =
        let (t, e, f) = fix_lem key_of key_size short key_size d k without bytes without-Thin in
        (
          t,
          e,
          record {
            layers = f.layers;
            wf = f.wf;
            solid = f.solid;
            kept = λ v m ne.
                let (c, h, l) = Member-of_inner n v m in
                elim (eq_or_ne c branch) [
                  | inl p ↦
                      let is_w : v ≡ w = Member-leaf w v (rw (p, there) at l) in
                      absurd (ground arith)
                  | inr p ↦ f.into v (below without c refl h (rw (as_before c h p) l))
                ];
            only = λ v m.
                let (c, h, l) = Member-of_inner without v (f.out v m) in
                elim (eq_or_ne c branch) [
                  | inl p ↦ absurd (not-Member_null v (rw (p, gone) at l))
                  | inr p ↦
                      let l' : Member v (Body.find n.body c) = rw (as_before c h p) at l in
                      (below n c refl h l', other_key c v h p l')
                ];
            fewer = λ m q.
                let (g, s, all) = Counted-of_inner n m q in
                let one : g branch ≡ 1 =
                  Counted-leaf w (g branch)
                    (rw there at (all branch (bytes (d + n.head.prefix_length)))) in
                let less = λ (c : ℕ). if c == branch then 0 else g c in
                (
                  sum_below 256 less,
                  ground (
                    arith,
                    s,
                    one,
                    sum_below_change 256 g less branch (bytes (d + n.head.prefix_length))
                        (λ j h ne. ground arith),
                  ),
                  f.count (sum_below 256 less) (
                      in_children without less refl refl (λ c h. elim (eq_or_ne c branch) [
                        | inl p ↦ rw (eq→== c branch p, p, gone) (no_leaf refl)
                        | inr p ↦ rw (ne→== c branch p, as_before c h p) (all c h)
                      ])),
                );
            had = (w, below n branch refl (bytes (d + n.head.prefix_length)) (here there), same);
          },
        )
