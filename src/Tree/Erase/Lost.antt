-- ===== src/Tree/Erase/Lost.antt =====
-- What an erasure makes of a subtree, and of one inner node's body.
use cpp_art.Base.{
  ℕ, suc, ◌+◌, ◌≡◌, ◌<◌, ◌≤◌, true, false, refl, ◌∙◌, if◌then◌else◌, ◌==◌, eq→==, ne→==, eq_or_ne,
  inl, inr, arith, set, sum_below, sum_below_change, sum_below_ext, ap,
}
use cpp_art.Node.Body
use cpp_art.Node.Body.{Body}
use cpp_art.Node.Body.Laws.{
  erase-IsValid, find-erase, size-erase, update_child_ptr-IsValid, find-update_child_ptr,
  size-update_child_ptr, min_size-update_child_ptr,
}
use cpp_art.Node.Body.Resize.{Resized}
use cpp_art.Tree.{Node, Inner, null, leaf, of_inner, node_pointer, is_leaf, is_null}
use cpp_art.Tree.Key.{
  Key, key_eq, IsBytes, Agree, key_eq_ne, Agree-extend, key_eq_sym, key_eq_trans,
}
use cpp_art.Tree.Find.{end, at, done, find_loop}
use cpp_art.Tree.Find.Steps.{
  Wf-null, Wf-set, Wf-of_inner, find_loop-of_inner, find_loop-leaf, find_loop-null,
  is_null-of_inner,
}
use cpp_art.Tree.Wf.{InnerWf, Wf}
use cpp_art.Tree.Leaves.{leaves, leaves-null, leaves-leaf, leaves-of_inner}

module _ {V : Type 0} (key_of : V → Key) (key_size : ℕ) where
  -- The subtree `t'` is `t` without the leaf of the key `k`, which was there.
  pub record Lost (r d : ℕ) (k : Key) (t t' : Node V) : Type 0 where
    pub wf : Wf key_of r d k t'
    pub solid : is_null t' ≡ false
    pub fewer : suc (leaves r t') ≡ leaves r t
    pub gone : V
    pub had : find_loop key_of key_size (suc r) d t k ≡ done (at gone)
    pub finds :
        (j : Key)
        → IsBytes j
        → Agree d j k
        → find_loop key_of key_size (suc r) d t' j
          ≡ (if key_eq key_size j k then done end else find_loop key_of key_size (suc r) d t j)

  -- The same of the body of an inner node at depth `d`, which may be underfull yet.
  pub record LostBelow (r d : ℕ) (k : Key) (t : Node V) (m : Body (Node V)) : Type 0 where
    pub valid : Body.IsValid m
    pub sized : 0 < Body.size m
    pub children : (c : ℕ) → c < 256 → Wf key_of r (suc d) (set k d c) (Body.find m c)
    pub fewer : suc (sum_below 256 (λ c. leaves r (Body.find m c))) ≡ leaves (suc r) t
    pub gone : V
    pub had : find_loop key_of key_size (suc (suc r)) d t k ≡ done (at gone)
    pub finds :
        (j : Key)
        → IsBytes j
        → Agree d j k
        → find_loop key_of key_size (suc r) (suc d) (Body.find m (j d)) j ≡ (
            if key_eq key_size j k then done end else find_loop key_of key_size (suc (suc r)) d t j)

  -- A body that is not underfull makes an inner node.
  pub Lost-of :
      (r d : ℕ) (k : Key) (t : Node V) (m : Body (Node V))
      → LostBelow r d k t m
      → (2 < Body.min_size m → Body.min_size m ≤ Body.size m)
      → ((c : ℕ) → c < 256 → is_leaf (Body.find m c) ≡ true → 2 ≤ Body.size m)
      → Lost (suc r) d k t (of_inner (record { depth = d; body = m }))
  Lost-of r d k t m b roomy leaf_sized = record {
    wf = Wf-of_inner key_of r d k _ (record {
      at_depth = refl;
      valid = b.valid;
      sized = b.sized;
      roomy = roomy;
      leaf_sized = leaf_sized;
      children = b.children;
    });
    solid = is_null-of_inner _;
    fewer = omega (arith, leaves-of_inner r (record { depth = d; body = m }), b.fewer);
    gone = b.gone;
    had = b.had;
    finds = λ j h a.
        find_loop-of_inner key_of key_size (suc r) d (record { depth = d; body = m }) j
        ∙ b.finds j h a;
  }

  -- A change of class keeps what the body holds.
  pub LostBelow-Resized :
      (r d : ℕ) (k : Key) (t : Node V) (n m : Body (Node V))
      → Resized n m
      → LostBelow r d k t n
      → LostBelow r d k t m
  LostBelow-Resized r d k t n m s b = record {
    valid = s.valid;
    sized = omega (arith, s.same_size, b.sized);
    children = λ c h. rw (s.same_find c h) (b.children c h);
    fewer = omega (
      arith,
      b.fewer,
      sum_below_ext 256 (λ c. leaves r (Body.find n c)) (λ c. leaves r (Body.find m c))
          (λ c h. ap (leaves r) (s.same_find c h)),
    );
    gone = b.gone;
    had = b.had;
    finds = λ j h a. rw (s.same_find (j d) (h d)) (b.finds j h a);
  }

  -- The leaf of the key is erased from its node.
  pub erase-LostBelow :
      (r d : ℕ) (k : Key) (n : Inner V) (w : V)
      → suc r + d ≡ key_size
      → IsBytes k
      → InnerWf key_of d k (Wf key_of r (suc d)) n
      → Body.find n.body (k d) ≡ leaf w
      → key_eq key_size k (key_of w) ≡ true
      → LostBelow r d k (of_inner n) (Body.erase n.body (k d))
  erase-LostBelow r d k n w e bytes i here same = record {
    valid = erase-IsValid n.body (k d) i.valid (bytes d) held;
    sized =
        ground (
          arith,
          i.leaf_sized (k d) (bytes d),
          here,
          size-erase n.body (k d) i.valid (bytes d) held,
        );
    children = λ c h. elim (eq_or_ne c (k d)) [
      | inl p ↦ rw (look c h, eq→== c (k d) p) (Wf-null key_of r (suc d) _)
      | inr p ↦ rw (look c h, ne→== c (k d) p) (i.children c h)
    ];
    fewer = ground (
      arith,
      leaves-of_inner r n,
      here,
      leaves-leaf r w,
      leaves-null V r,
      look (k d) (bytes d),
      sum_below_change 256 (λ c. leaves r (Body.find n.body c))
          (λ c. leaves r (Body.find (Body.erase n.body (k d)) c)) (k d) (bytes d)
          (λ j h ne. ground (arith, look j h)),
    );
    gone = w;
    had = ground (
      arith,
      find_loop-of_inner key_of key_size (suc r) d n k,
      here,
      find_loop-leaf key_of key_size r (suc d) w k,
    );
    finds = λ j h a. ground (
      arith,
      look (j d) (h d),
      here,
      find_loop-of_inner key_of key_size (suc r) d n j,
      find_loop-null key_of key_size r (suc d) j,
      find_loop-leaf key_of key_size r (suc d) w j,
      key_eq_ne key_size d j k,
      key_eq_trans key_size j k (key_of w),
      key_eq_trans key_size j (key_of w) k,
      key_eq_sym key_size k (key_of w),
    );
  }
    where
      held : is_null (Body.find n.body (k d)) ≡ false
      held = rw here

      look :
          (c : ℕ)
          → c < 256
          → Body.find (Body.erase n.body (k d)) c ≡ (if c == k d then null else Body.find n.body c)
      look c h = find-erase n.body (k d) c i.valid (bytes d) h held

  -- A child that the erasure changed is written into its parent.
  pub update_LostBelow :
      (r d : ℕ) (k : Key) (n : Inner V) (t : Node V)
      → suc r + d ≡ key_size
      → IsBytes k
      → InnerWf key_of d k (Wf key_of r (suc d)) n
      → is_null (Body.find n.body (k d)) ≡ false
      → Lost r (suc d) k (Body.find n.body (k d)) t
      → LostBelow r d k (of_inner n) (Body.update_child_ptr n.body (k d) t)
  update_LostBelow r d k n t e bytes i held g = record {
    valid = update_child_ptr-IsValid n.body (k d) t i.valid (bytes d) g.solid;
    sized = omega (arith, i.sized, size-update_child_ptr n.body (k d) t);
    children = λ c h. elim (eq_or_ne c (k d)) [
      | inl p ↦ rw (look c h, eq→== c (k d) p) (Wf-set key_of r d c k t p g.wf)
      | inr p ↦ rw (look c h, ne→== c (k d) p) (i.children c h)
    ];
    fewer = ground (
      arith,
      leaves-of_inner r n,
      g.fewer,
      look (k d) (bytes d),
      sum_below_change 256 (λ c. leaves r (Body.find n.body c))
          (λ c. leaves r (Body.find (Body.update_child_ptr n.body (k d) t) c)) (k d) (bytes d)
          (λ j h ne. ground (arith, look j h)),
    );
    gone = g.gone;
    had = find_loop-of_inner key_of key_size (suc r) d n k ∙ g.had;
    finds = λ j h a. ground (
      arith,
      look (j d) (h d),
      find_loop-of_inner key_of key_size (suc r) d n j,
      g.finds j h,
      Agree-extend d j k a,
      key_eq_ne key_size d j k,
    );
  }
    where
      look :
          (c : ℕ)
          → c < 256
          → Body.find (Body.update_child_ptr n.body (k d) t) c
            ≡ (if c == k d then t else Body.find n.body c)
      look c h = find-update_child_ptr n.body (k d) t c i.valid (bytes d) h held g.solid

  pub update_Lost :
      (r d : ℕ) (k : Key) (n : Inner V) (t : Node V)
      → suc r + d ≡ key_size
      → IsBytes k
      → InnerWf key_of d k (Wf key_of r (suc d)) n
      → is_null (Body.find n.body (k d)) ≡ false
      → (is_leaf t ≡ true → 2 ≤ Body.size n.body)
      → Lost r (suc d) k (Body.find n.body (k d)) t
      → Lost
          (suc r)
          d
          k
          (of_inner n)
          (of_inner (record { depth = d; body = Body.update_child_ptr n.body (k d) t }))
  update_Lost r d k n t e bytes i held wide g =
      Lost-of r d k (of_inner n) (Body.update_child_ptr n.body (k d) t)
        (update_LostBelow r d k n t e bytes i held g)
        (λ h. omega (
          arith,
          i.roomy,
          size-update_child_ptr n.body (k d) t,
          min_size-update_child_ptr n.body (k d) t,
        ))
        (λ c h l. ground (
          arith,
          find-update_child_ptr n.body (k d) t c i.valid (bytes d) h held g.solid,
          size-update_child_ptr n.body (k d) t,
          wide,
          i.leaf_sized c h,
        ))
