-- ===== src/Tree/Find/Steps.antt =====
-- How `find` walks, and when two inner nodes of a subtree hold the invariant and find alike.
use cpp_art.Base.{
  ap, Bool, true, ◌+◌, ℕ, zero, suc, ◌≡◌, false, if◌then◌else◌, refl, sym, ◌∙◌, fun_ext, set, arith,
}
use mathlib.Core.Path.{subst}
use cpp_art.Node.Body
use cpp_art.Tree.{
  Node, Inner, null, leaf, of_inner, view-of_inner, node_pointer, is_leaf, is_null, null_case,
  leaf_case, inner_case, node_case,
}
use cpp_art.Tree.Key.{Key, key_eq, IsBytes, Agree, key_eq→Agree, key_eq_congr}
use cpp_art.Tree.Find.{Iterator, end, at, done, find_loop}
use cpp_art.Tree.Wf.{InnerWf, Wf}

module _ {V : Type 0} where
  pub is_leaf-of_inner : (n : Inner V) → is_leaf (of_inner n) ≡ false
  is_leaf-of_inner n = rw view-of_inner

  pub is_null-of_inner : (n : Inner V) → is_null (of_inner n) ≡ false
  is_null-of_inner n = rw view-of_inner

set_own : (path : Key) (d c : ℕ) → c ≡ path d → path ≡ set path d c
set_own path d c e = fun_ext (λ j. ground arith)

module _ {V : Type 0} (key_of : V → Key) where
  pub Wf-null : (r d : ℕ) (path : Key) → Wf key_of r d path null
  Wf-null zero d path = tt
  Wf-null (suc r) d path = tt

  pub Wf-leaf :
      (r d : ℕ) (path : Key) (v : V) → Agree d (key_of v) path → Wf key_of r d path (leaf v)
  Wf-leaf zero d path v h = h
  Wf-leaf (suc r) d path v h = h

  pub Agree-Wf_leaf :
      (r d : ℕ) (path : Key) (v : V) → Wf key_of r d path (leaf v) → Agree d (key_of v) path
  Agree-Wf_leaf zero d path v h = h
  Agree-Wf_leaf (suc r) d path v h = h

  pub Wf-of_inner :
      (r d : ℕ) (path : Key) (n : Inner V)
      → InnerWf key_of d path (Wf key_of r (suc d)) n
      → Wf key_of (suc r) d path (of_inner n)
  Wf-of_inner r d path n h = rw view-of_inner h

  pub InnerWf-of_Wf :
      (r d : ℕ) (path : Key) (n : Inner V)
      → Wf key_of (suc r) d path (of_inner n)
      → InnerWf key_of d path (Wf key_of r (suc d)) n
  InnerWf-of_Wf r d path n h = rw view-of_inner at h

  -- There is no inner node at the depth of a whole key.
  pub not-Wf-zero : (d : ℕ) (path : Key) (n : Inner V) → ¬ (Wf key_of zero d path (of_inner n))
  not-Wf-zero d path n h = rw view-of_inner at h

  -- The path to a child at the path's own byte is the path.
  pub Wf-set :
      (r d c : ℕ) (path : Key) (t : Node V)
      → c ≡ path d
      → Wf key_of r (suc d) path t
      → Wf key_of r (suc d) (set path d c) t
  Wf-set r d c path t e h = subst (λ p. Wf key_of r (suc d) p t) (set_own path d c e) h

  pub Wf-unset :
      (r d c : ℕ) (path : Key) (t : Node V)
      → c ≡ path d
      → Wf key_of r (suc d) (set path d c) t
      → Wf key_of r (suc d) path t
  Wf-unset r d c path t e h = subst (λ p. Wf key_of r (suc d) p t) (sym (set_own path d c e)) h

  -- The invariant reads only the first bytes of the path.
  pub Wf-Agree :
      (r d : ℕ) (p q : Key) (t : Node V) → Agree d p q → Wf key_of r d p t → Wf key_of r d q t
  Wf-Agree zero d p q t a w = elim (node_case t) [
    | null_case e ↦ rw e (Wf-null zero d q)
    | leaf_case v e ↦
        rw e (Wf-leaf zero d q v (λ j h. Agree-Wf_leaf zero d p v (rw e at w) j h ∙ a j h))
    | inner_case n e ↦ absurd (not-Wf-zero d p n (rw e at w))
  ]
  Wf-Agree (suc r) d p q t a w = elim (node_case t) [
    | null_case e ↦ rw e (Wf-null (suc r) d q)
    | leaf_case v e ↦
        rw e (Wf-leaf (suc r) d q v (λ j h. Agree-Wf_leaf (suc r) d p v (rw e at w) j h ∙ a j h))
    | inner_case n e ↦
        let i = InnerWf-of_Wf r d p n (rw e at w) in
        rw e (
          Wf-of_inner r d q n (record {
            at_depth = i.at_depth;
            valid = i.valid;
            sized = i.sized;
            roomy = i.roomy;
            leaf_sized = i.leaf_sized;
            children = λ c h.
                Wf-Agree r (suc d) (set p d c) (set q d c) _ (λ j k. ground (arith, a j))
                  (i.children c h);
          }))
  ]

module _ {V : Type 0} (key_of : V → Key) (key_size : ℕ) where
  pub find_loop-of_inner :
      (f d : ℕ) (n : Inner V) (k : Key)
      → find_loop key_of key_size (suc f) d (of_inner n) k
        ≡ find_loop key_of key_size f (suc d) (Body.find n.body (k d)) k
  unfolding find_loop
  find_loop-of_inner f d n k = rw (view-of_inner n, find_loop)

  pub find_loop-leaf :
      (f d : ℕ) (v : V) (k : Key)
      → find_loop key_of key_size (suc f) d (leaf v) k
        ≡ done (if key_eq key_size k (key_of v) then at v else end)
  unfolding find_loop
  find_loop-leaf f d v k = refl

  pub find_loop-null : (f d : ℕ) (k : Key) → find_loop key_of key_size (suc f) d null k ≡ done end
  unfolding find_loop
  find_loop-null f d k = refl

  -- With a round for each byte left and one more, the loop of `find` returns.
  pub find_loop_returns :
      (r d : ℕ) (path : Key) (t : Node V) (k : Key)
      → IsBytes k
      → Wf key_of r d path t
      → (i : Iterator V) × (find_loop key_of key_size (suc r) d t k ≡ done i)
  find_loop_returns zero d path t k b w = elim (node_case t) [
    | null_case e ↦ (end, rw e (find_loop-null zero d k))
    | leaf_case v e ↦
        (if key_eq key_size k (key_of v) then at v else end, rw e (find_loop-leaf zero d v k))
    | inner_case n e ↦ absurd (not-Wf-zero key_of d path n (rw e at w))
  ]
  find_loop_returns (suc r) d path t k b w = elim (node_case t) [
    | null_case e ↦ (end, rw e (find_loop-null (suc r) d k))
    | leaf_case v e ↦
        (if key_eq key_size k (key_of v) then at v else end, rw e (find_loop-leaf (suc r) d v k))
    | inner_case n e ↦
        let w' = InnerWf-of_Wf key_of r d path n (rw e at w) in
        let (i, f) =
          find_loop_returns r (suc d) (set path d (k d)) (Body.find n.body (k d)) k b
            (w'.children (k d) (b d)) in
        (i, rw e (find_loop-of_inner (suc r) d n k ∙ f))
  ]

  -- Keys that are equal find the same.
  pub find_loop_same_key :
      (r d : ℕ) (path : Key) (t : Node V) (j k : Key)
      → r + d ≡ key_size
      → IsBytes k
      → key_eq key_size j k ≡ true
      → Wf key_of r d path t
      → find_loop key_of key_size (suc r) d t j ≡ find_loop key_of key_size (suc r) d t k
  find_loop_same_key zero d path t j k s b e w = elim (node_case t) [
    | null_case p ↦ rw p (find_loop-null zero d j ∙ sym (find_loop-null zero d k))
    | leaf_case v p ↦ rw p (
        find_loop-leaf zero d v j
        ∙ ap (λ (x : Bool). done (if x then at v else end)) (key_eq_congr key_size j k (key_of v) e)
        ∙ sym (find_loop-leaf zero d v k))
    | inner_case n p ↦ absurd (not-Wf-zero key_of d path n (rw p at w))
  ]
  find_loop_same_key (suc r) d path t j k s b e w = elim (node_case t) [
    | null_case p ↦ rw p (find_loop-null (suc r) d j ∙ sym (find_loop-null (suc r) d k))
    | leaf_case v p ↦ rw p (
        find_loop-leaf (suc r) d v j
        ∙ ap (λ (x : Bool). done (if x then at v else end)) (key_eq_congr key_size j k (key_of v) e)
        ∙ sym (find_loop-leaf (suc r) d v k))
    | inner_case n p ↦
        let same : j d ≡ k d = key_eq→Agree key_size j k e d (omega arith) in
        let i = InnerWf-of_Wf key_of r d path n (rw p at w) in
        rw p (
          find_loop-of_inner (suc r) d n j
          ∙ ap (λ (c : ℕ). find_loop key_of key_size (suc r) (suc d) (Body.find n.body c) j) same
          ∙ find_loop_same_key r (suc d) (set path d (k d)) (Body.find n.body (k d)) j k
              (omega arith) b e (i.children (k d) (b d))
          ∙ sym (find_loop-of_inner (suc r) d n k))
  ]
