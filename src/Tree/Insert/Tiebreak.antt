-- ===== src/Tree/Insert/Tiebreak.antt =====
-- The chain of `_Node_4`s that replaces a leaf.
use cpp_art.Base.{
  sum_below, sum_below_zero, sum_below_change, ℕ, zero, suc, ◌+◌, ◌≡◌, ◌≢◌, ◌<◌, ◌≤◌, true, false,
  some, refl, ◌∙◌, if◌then◌else◌, ◌==◌, eq→==, ne→==, eq_or_ne, inl, inr, arith, set,
}
use cpp_art.Node.Sorted
use cpp_art.Node.Sorted.{Sorted}
use cpp_art.Node.Body
use cpp_art.Node.Body.{Body}
use cpp_art.Tree.{Node, Inner, null, leaf, of_inner, node_pointer, is_leaf, is_null}
use cpp_art.Tree.Key.{
  Key, key_eq, IsBytes, Agree, Agree→key_eq, key_eq_ne, key_eq_sym, Agree-extend,
}
use cpp_art.Tree.Find.{end, at, done, find_loop}
use cpp_art.Tree.Find.Steps.{
  Wf-null, Wf-set, Wf-leaf, Wf-of_inner, find_loop-of_inner, find_loop-leaf, find_loop-null,
  is_leaf-of_inner, is_null-of_inner,
}
use cpp_art.Tree.Wf.{Wf}
use cpp_art.Tree.Leaves.{leaves, leaves-null, leaves-leaf, leaves-of_inner}
use cpp_art.Tree.Insert.{tiebreak}
use cpp_art.Tree.Insert.Fork.{
  fork, joint, fork-IsValid, find-fork, count-fork, joint-IsValid, find-joint, count-joint,
}

module _ {V : Type 0} (key_of : V → Key) (key_size : ℕ) (bytes : (v : V) → IsBytes (key_of v)) where
  -- What an insertion of `x` makes of the subtree `t` at depth `d`.
  pub record Grown (r d : ℕ) (x : V) (t t' : Node V) : Type 0 where
    pub wf : Wf key_of r d (key_of x) t'
    pub not_leaf : is_leaf t' ≡ false
    pub solid : is_null t' ≡ false
    pub more : leaves r t' ≡ suc (leaves r t)
    pub fresh : find_loop key_of key_size (suc r) d t (key_of x) ≡ done end
    pub finds :
        (k : Key)
        → IsBytes k
        → Agree d k (key_of x)
        → find_loop key_of key_size (suc r) d t' k ≡ (
            if key_eq key_size k (key_of x)
            then done (at x)
            else find_loop key_of key_size (suc r) d t k)

  -- An inner node at depth `d` whose children are right is what the insertion makes.
  pub Grown-of :
      (r d : ℕ) (x : V) (t : Node V) (m : Body (Node V))
      → Body.IsValid m
      → 0 < Body.size m
      → (2 < Body.min_size m → Body.min_size m ≤ Body.size m)
      → ((c : ℕ) → c < 256 → is_leaf (Body.find m c) ≡ true → 2 ≤ Body.size m)
      → ((c : ℕ) → c < 256 → Wf key_of r (suc d) (set (key_of x) d c) (Body.find m c))
      → sum_below 256 (λ c. leaves r (Body.find m c)) ≡ suc (leaves (suc r) t)
      → find_loop key_of key_size (suc (suc r)) d t (key_of x) ≡ done end
      → ((k : Key)
          → IsBytes k
          → Agree d k (key_of x)
          → find_loop key_of key_size (suc r) (suc d) (Body.find m (k d)) k ≡ (
              if key_eq key_size k (key_of x)
              then done (at x)
              else find_loop key_of key_size (suc (suc r)) d t k))
      → Grown (suc r) d x t (of_inner (record { depth = d; body = m }))
  Grown-of r d x t m valid sized roomy leaf_sized children more fresh finds = record {
    wf = Wf-of_inner key_of r d (key_of x) _ (record {
      at_depth = refl;
      valid = valid;
      sized = sized;
      roomy = roomy;
      leaf_sized = leaf_sized;
      children = children;
    });
    not_leaf = is_leaf-of_inner _;
    solid = is_null-of_inner _;
    more = leaves-of_inner r (record { depth = d; body = m }) ∙ more;
    fresh = fresh;
    finds = λ k b a.
        find_loop-of_inner key_of key_size (suc r) d (record { depth = d; body = m }) k
        ∙ finds k b a;
  }

  no_leaves : (r : ℕ) → sum_below 256 (λ c. leaves {V = V} r null) ≡ 0
  no_leaves r = sum_below_zero 256 (λ c. leaves {V = V} r null) (λ c h. leaves-null V r)

  below_joint :
      (r d : ℕ) (w : V) (t : Node V)
      → is_null t ≡ false
      → sum_below 256 (λ c. leaves r (Sorted.find (joint key_of w d t) c)) ≡ leaves r t
  below_joint r d w t solid = ground (
    arith,
    no_leaves r,
    leaves-null V r,
    find-joint key_of bytes w d t (key_of w d) solid,
    sum_below_change 256 (λ c. leaves {V = V} r null)
        (λ c. leaves r (Sorted.find (joint key_of w d t) c)) (key_of w d) (bytes w d)
        (λ j h ne. ground (arith, find-joint key_of bytes w d t j solid)),
  )

  one_leaf :
      (r d : ℕ) (w : V)
      → sum_below 256 (λ c. leaves r (if c == key_of w d then leaf w else null)) ≡ 1
  one_leaf r d w = ground (
    arith,
    no_leaves r,
    leaves-null V r,
    leaves-leaf r w,
    sum_below_change 256 (λ c. leaves {V = V} r null)
        (λ c. leaves r (if c == key_of w d then leaf w else null)) (key_of w d) (bytes w d)
        (λ j h ne. ground arith),
  )

  two_leaves :
      (r d : ℕ) (w x : V)
      → key_of w d ≢ key_of x d
      → sum_below 256 (λ c. leaves r (Sorted.find (fork key_of w x d) c))
        ≡ suc (leaves (suc r) (leaf w))
  two_leaves r d w x differ = ground (
    arith,
    one_leaf r d w,
    leaves-null V r,
    leaves-leaf r x,
    leaves-leaf (suc r) w,
    find-fork key_of bytes w x d (key_of x d) differ,
    sum_below_change 256 (λ c. leaves r (if c == key_of w d then leaf w else null))
        (λ c. leaves r (Sorted.find (fork key_of w x d) c)) (key_of x d) (bytes x d)
        (λ j h ne. ground (arith, find-fork key_of bytes w x d j differ)),
  )

  leaf_fresh :
      (f d : ℕ) (w x : V)
      → key_eq key_size (key_of x) (key_of w) ≡ false
      → find_loop key_of key_size (suc f) d (leaf w) (key_of x) ≡ done end
  leaf_fresh f d w x ne = rw (find_loop-leaf, ne)

  fork-Grown :
      (r d : ℕ) (w x : V)
      → suc r + d ≡ key_size
      → Agree d (key_of w) (key_of x)
      → key_eq key_size (key_of x) (key_of w) ≡ false
      → key_of w d ≢ key_of x d
      → Grown
          (suc r)
          d
          x
          (leaf w)
          (of_inner (record { depth = d; body = Body.node_4 (fork key_of w x d) }))
  unfolding Body.size Body.min_size Body.find
  fork-Grown r d w x e a ne differ =
      Grown-of r d x (leaf w) (Body.node_4 (fork key_of w x d))
        (fork-IsValid key_of bytes w x d differ) (omega (arith, count-fork key_of bytes w x d))
        (λ h. absurd (omega arith)) (λ c h l. omega (arith, count-fork key_of bytes w x d))
        (λ c h. elim (eq_or_ne c (key_of x d)) [
          | inl p ↦
              rw (find-fork key_of bytes w x d c differ, eq→== c (key_of x d) p)
                (Wf-leaf key_of r (suc d) _ x (λ j l. ground arith))
          | inr p ↦ elim (eq_or_ne c (key_of w d)) [
            | inl q ↦
                rw
                  (
                    find-fork key_of bytes w x d c differ,
                    ne→== c (key_of x d) p,
                    eq→== c (key_of w d) q,
                  )
                  (Wf-leaf key_of r (suc d) _ w (λ j l. ground (arith, a j)))
            | inr q ↦
                rw
                  (
                    find-fork key_of bytes w x d c differ,
                    ne→== c (key_of x d) p,
                    ne→== c (key_of w d) q,
                  )
                  (Wf-null key_of r (suc d) _)
          ]
        ])
        (two_leaves r d w x differ) (leaf_fresh (suc r) d w x ne)
        (λ k b ag. ground (
          arith,
          find-fork key_of bytes w x d (k d) differ,
          find_loop-leaf key_of key_size r (suc d) x k,
          find_loop-leaf key_of key_size r (suc d) w k,
          find_loop-null key_of key_size r (suc d) k,
          find_loop-leaf key_of key_size (suc r) d w k,
          key_eq_ne key_size d k (key_of w),
          key_eq_ne key_size d k (key_of x),
        ))

  joint-Grown :
      (r d : ℕ) (w x : V) (t : Node V)
      → suc r + d ≡ key_size
      → Agree d (key_of w) (key_of x)
      → key_eq key_size (key_of x) (key_of w) ≡ false
      → key_of w d ≡ key_of x d
      → Grown r (suc d) x (leaf w) t
      → Grown
          (suc r)
          d
          x
          (leaf w)
          (of_inner (record { depth = d; body = Body.node_4 (joint key_of w d t) }))
  unfolding Body.size Body.min_size Body.find
  joint-Grown r d w x t e a ne same g =
      Grown-of r d x (leaf w) (Body.node_4 (joint key_of w d t))
        (joint-IsValid key_of bytes w d t g.solid) (omega (arith, count-joint key_of bytes w d t))
        (λ h. absurd (omega arith))
        (λ c h l. absurd (ground (arith, find-joint key_of bytes w d t c g.solid, g.not_leaf)))
        (λ c h. elim (eq_or_ne c (key_of w d)) [
          | inl p ↦
              rw (find-joint key_of bytes w d t c g.solid, eq→== c (key_of w d) p)
                (Wf-set key_of r d c (key_of x) t (p ∙ same) g.wf)
          | inr p ↦
              rw (find-joint key_of bytes w d t c g.solid, ne→== c (key_of w d) p)
                (Wf-null key_of r (suc d) _)
        ])
        (omega (arith, below_joint r d w t g.solid, g.more, leaves-leaf r w, leaves-leaf (suc r) w))
        (leaf_fresh (suc r) d w x ne)
        (λ k b ag. ground (
          arith,
          find-joint key_of bytes w d t (k d) g.solid,
          find_loop-null key_of key_size r (suc d) k,
          find_loop-leaf key_of key_size r (suc d) w k,
          find_loop-leaf key_of key_size (suc r) d w k,
          key_eq_ne key_size d k (key_of w),
          key_eq_ne key_size d k (key_of x),
          Agree-extend d k (key_of x) ag,
          g.finds k b,
        ))

  pub tiebreak_lem :
      (r d : ℕ) (w x : V)
      → r + d ≡ key_size
      → Agree d (key_of w) (key_of x)
      → key_eq key_size (key_of x) (key_of w) ≡ false
      → (n : Inner V) × (tiebreak key_of key_size r d w x ≡ some n)
        × Grown r d x (leaf w) (of_inner n)
  unfolding tiebreak fork joint
  tiebreak_lem zero d w x e a ne = absurd (
      ground (
        arith,
        key_eq_sym key_size (key_of x) (key_of w),
        Agree→key_eq key_size (key_of w) (key_of x) (λ j h. a j (omega arith)),
      ))
  tiebreak_lem (suc r) d w x e a ne = elim (eq_or_ne (key_of w d) (key_of x d)) [
    | inl same ↦
        let (n, made, g) =
          tiebreak_lem r (suc d) w x (omega arith) (λ j h. ground (arith, a j)) ne in
        (
          _,
          rw (eq→== (key_of w d) (key_of x d) same, made),
          joint-Grown r d w x (of_inner n) e a ne same g,
        )
    | inr differ ↦
        (_, rw (ne→== (key_of w d) (key_of x d) differ), fork-Grown r d w x e a ne differ)
  ]
