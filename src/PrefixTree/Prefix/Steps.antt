-- ===== src/PrefixTree/Prefix/Steps.antt =====
-- The invariant of a subtree of include/art/ar_prefix_tree.h at each kind of node, and its members.
use cpp_art.Base.{sum_below, ap, ℕ, zero, suc, ◌+◌, ◌≡◌, ◌<◌, ◌≤◌, false, refl, sym, ◌∙◌, arith}
use mathlib.Core.Path.{subst}
use cpp_art.Node.Body
use cpp_art.Tree.Key.{Key, Agree}
use cpp_art.PrefixTree.{
  Node, Inner, View, view, null, leaf, of_inner, view-of_inner, node_pointer, is_leaf, is_null,
  null_case, leaf_case, inner_case, node_case, Member, here, below, Counted, no_leaf, one_leaf,
  in_children,
}
use cpp_art.PrefixTree.Wf.{InnerWf, Wf}

module _ {V : Type 0} where
  pub is_leaf-of_inner : (n : Inner V) → is_leaf (of_inner n) ≡ false
  is_leaf-of_inner n = rw view-of_inner

  pub is_null-of_inner : (n : Inner V) → is_null (of_inner n) ≡ false
  is_null-of_inner n = rw view-of_inner

  -- A node pointer to an inner node determines the node.
  pub of_inner_inj : (n m : Inner V) → of_inner n ≡ of_inner m → n ≡ m
  of_inner_inj n m e =
      let same : View.an_inner n ≡ View.an_inner m =
        sym (view-of_inner n) ∙ ap view e ∙ view-of_inner m in
      cc

  pub Member-leaf : (v w : V) → Member w (leaf v) → w ≡ v
  Member-leaf v w (here e) = cc
  Member-leaf v w (below n c e h m) =
      absurd (let bad : View.a_leaf v ≡ View.an_inner n = ap view e ∙ view-of_inner n in cc)

  pub not-Member_null : (w : V) → ¬ (Member w null)
  not-Member_null w (here e) = absurd cc
  not-Member_null w (below n c e h m) =
      absurd (let bad : View.nothing ≡ View.an_inner n = ap view e ∙ view-of_inner n in cc)

  -- A member of an inner node is one of a child.
  pub Member-of_inner :
      (n : Inner V) (w : V)
      → Member w (of_inner n)
      → (c : ℕ) × (c < 256) × Member w (Body.find n.body c)
  Member-of_inner n w (here e) =
      absurd (let bad : View.an_inner n ≡ View.a_leaf w = sym (view-of_inner n) ∙ ap view e in cc)
  Member-of_inner n w (below m c e h i) =
      (c, h, subst (λ (x : Inner V). Member w (Body.find x.body c)) (sym (of_inner_inj n m e)) i)

  pub Counted-null : (k : ℕ) → Counted {V = V} null k → k ≡ 0
  Counted-null k (no_leaf e) = refl
  Counted-null k (one_leaf v e) = absurd cc
  Counted-null k (in_children n f e s all) =
      absurd (let bad : View.nothing ≡ View.an_inner n = ap view e ∙ view-of_inner n in cc)

  pub Counted-leaf : (v : V) (k : ℕ) → Counted (leaf v) k → k ≡ 1
  Counted-leaf v k (no_leaf e) = absurd cc
  Counted-leaf v k (one_leaf w e) = refl
  Counted-leaf v k (in_children n f e s all) =
      absurd (let bad : View.a_leaf v ≡ View.an_inner n = ap view e ∙ view-of_inner n in cc)

  -- The leaves of an inner node are those of its children.
  pub Counted-of_inner :
      (n : Inner V) (k : ℕ)
      → Counted (of_inner n) k
      → (f : ℕ → ℕ) × (k ≡ sum_below 256 f)
        × ((c : ℕ) → c < 256 → Counted (Body.find n.body c) (f c))
  Counted-of_inner n k (no_leaf e) =
      absurd (let bad : View.an_inner n ≡ View.nothing = sym (view-of_inner n) ∙ ap view e in cc)
  Counted-of_inner n k (one_leaf v e) =
      absurd (let bad : View.an_inner n ≡ View.a_leaf v = sym (view-of_inner n) ∙ ap view e in cc)
  Counted-of_inner n k (in_children m f e s all) = (
    f,
    s,
    subst (λ (x : Inner V). (c : ℕ) → c < 256 → Counted (Body.find x.body c) (f c))
        (sym (of_inner_inj n m e)) all,
  )

module _ {V : Type 0} (key_of : V → Key) (key_size : ℕ) where
  pub Wf-null : (r d : ℕ) (path : Key) → Wf key_of key_size r d path null
  Wf-null zero d path = tt
  Wf-null (suc r) d path = tt

  pub Wf-leaf :
      (r d : ℕ) (path : Key) (v : V)
      → Agree d (key_of v) path
      → Wf key_of key_size r d path (leaf v)
  Wf-leaf zero d path v h = h
  Wf-leaf (suc r) d path v h = h

  pub Agree-Wf_leaf :
      (r d : ℕ) (path : Key) (v : V)
      → Wf key_of key_size r d path (leaf v)
      → Agree d (key_of v) path
  Agree-Wf_leaf zero d path v h = h
  Agree-Wf_leaf (suc r) d path v h = h

  pub Wf-of_inner :
      (r d : ℕ) (path : Key) (n : Inner V)
      → InnerWf key_of key_size d path (Wf key_of key_size r) n
      → Wf key_of key_size (suc r) d path (of_inner n)
  Wf-of_inner r d path n h = rw view-of_inner h

  pub InnerWf-of_Wf :
      (r d : ℕ) (path : Key) (n : Inner V)
      → Wf key_of key_size (suc r) d path (of_inner n)
      → InnerWf key_of key_size d path (Wf key_of key_size r) n
  InnerWf-of_Wf r d path n h = rw view-of_inner at h

  pub not-Wf-zero :
      (d : ℕ) (path : Key) (n : Inner V) → ¬ (Wf key_of key_size zero d path (of_inner n))
  not-Wf-zero d path n h = rw view-of_inner at h

  -- The layers of a subtree are at most as many as the bytes below its depth, and the invariant
  -- reads only the first bytes of the path.
  pub Wf-Agree :
      (r s d : ℕ) (p q : Key) (t : Node V)
      → key_size ≤ s + d
      → Agree d p q
      → Wf key_of key_size r d p t
      → Wf key_of key_size s d q t
  Wf-Agree zero s d p q t b a w = elim (node_case t) [
    | null_case e ↦ rw e (Wf-null s d q)
    | leaf_case v e ↦
        rw e (Wf-leaf s d q v (λ j h. Agree-Wf_leaf zero d p v (rw e at w) j h ∙ a j h))
    | inner_case n e ↦ absurd (not-Wf-zero d p n (rw e at w))
  ]
  Wf-Agree (suc r) zero d p q t b a w = elim (node_case t) [
    | null_case e ↦ rw e (Wf-null zero d q)
    | leaf_case v e ↦
        rw e (Wf-leaf zero d q v (λ j h. Agree-Wf_leaf (suc r) d p v (rw e at w) j h ∙ a j h))
    | inner_case n e ↦ let i = InnerWf-of_Wf r d p n (rw e at w) in absurd (omega (arith, i.span))
  ]
  Wf-Agree (suc r) (suc s) d p q t b a w = elim (node_case t) [
    | null_case e ↦ rw e (Wf-null (suc s) d q)
    | leaf_case v e ↦
        rw e (Wf-leaf (suc s) d q v (λ j h. Agree-Wf_leaf (suc r) d p v (rw e at w) j h ∙ a j h))
    | inner_case n e ↦
        let i = InnerWf-of_Wf r d p n (rw e at w) in
        rw e (
          Wf-of_inner s d q n (record {
            at_depth = i.at_depth;
            valid = i.valid;
            roomy = i.roomy;
            span = i.span;
            line = i.line;
            onward = λ j h. i.onward j h ∙ a j h;
            bytes = i.bytes;
            stored = i.stored;
            children = λ c h.
                Wf-Agree r s (suc (d + n.head.prefix_length)) _ _ _ (omega arith) (λ j k. refl)
                  (i.children c h);
          }))
  ]

  -- Every value's key agrees with the path, and so do the keys below a node with its prefix.
  pub Wf-Member :
      (r d : ℕ) (path : Key) (t : Node V) (v : V)
      → Wf key_of key_size r d path t
      → Member v t
      → Agree d (key_of v) path
  Wf-Member zero d path t v w (here e) = Agree-Wf_leaf zero d path v (rw e at w)
  Wf-Member zero d path t v w (below n c e h m) = absurd (not-Wf-zero d path n (rw e at w))
  Wf-Member (suc r) d path t v w (here e) = Agree-Wf_leaf (suc r) d path v (rw e at w)
  Wf-Member (suc r) d path t v w (below n c e h m) =
      let i = InnerWf-of_Wf r d path n (rw e at w) in
      let a = Wf-Member r _ _ (Body.find n.body c) v (i.children c h) m in
      λ j k. ground (arith, a j, i.onward j k)

  -- A value below the child at a byte has that byte after the prefix.
  pub InnerWf-Member :
      (r d : ℕ) (path : Key) (n : Inner V) (c : ℕ) (v : V)
      → (i : InnerWf key_of key_size d path (Wf key_of key_size r) n) → c < 256
      → Member v (Body.find n.body c)
      → Agree (d + n.head.prefix_length) (key_of v) i.line
        × (key_of v (d + n.head.prefix_length) ≡ c)
  InnerWf-Member r d path n c v i h m =
      let a = Wf-Member r _ _ (Body.find n.body c) v (i.children c h) m in
      (λ j k. ground (arith, a j), ground (arith, a (d + n.head.prefix_length)))
