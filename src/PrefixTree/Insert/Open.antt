-- ===== src/PrefixTree/Insert/Open.antt =====
-- A new leaf in an inner node of include/art/ar_prefix_tree.h that has room for it.
use cpp_art.Base.{
  sum_below_change, ℕ, suc, ◌+◌, ◌≡◌, ◌≢◌, ◌<◌, ◌≤◌, ◌⊎◌, false, refl, arith, inl, inr, set,
  eq_or_ne, ◌==◌, eq→==, ne→==, if◌then◌else◌,
}
use cpp_art.Node.Body
use cpp_art.Node.Body.{Body}
use cpp_art.Node.Body.Laws.{insert-IsValid, find-insert, size-insert, min_size-insert}
use cpp_art.PrefixTree.{
  Node, Inner, null, leaf, of_inner, node_pointer, is_null, Member, here, below, Counted, one_leaf,
  in_children,
}
use cpp_art.PrefixTree.Wf.{InnerWf, Wf, max_prefix_length}
use cpp_art.PrefixTree.Prefix.Steps.{
  Wf-leaf, Wf-of_inner, Wf-Member, Member-leaf, not-Member_null, Member-of_inner, Counted-null,
  Counted-of_inner, is_null-of_inner,
}
use cpp_art.Tree.Key.{Key, key_eq, IsBytes, key_eq_ne}

module _ {V : Type 0} (key_of : V → Key) (key_size : ℕ) where
  -- An inner node on the way of `x`'s key, prefix included, that may take one child more.
  pub record Open (r d : ℕ) (x : V) (n : Inner V) : Type 0 where
    pub at_depth : n.head.depth ≡ d
    pub valid : Body.IsValid n.body
    pub room : Body.size n.body < Body.max_size n.body
    pub sized : Body.min_size n.body ≤ Body.size n.body + 1
    pub span : d + n.head.prefix_length < key_size
    pub stored :
        (j : ℕ)
        → j < n.head.prefix_length
        → j < max_prefix_length
        → n.head.prefix j ≡ key_of x (d + j)
    pub children :
        (c : ℕ)
        → c < 256
        → Wf key_of key_size r
            (suc (d + n.head.prefix_length))
            (set (key_of x) (d + n.head.prefix_length) c)
            (Body.find n.body c)

  -- What an insertion of `x` makes of the subtree `t` at depth `d`: `x` is a value more, its key
  -- is new, and the invariant holds.
  pub record Grown (d : ℕ) (x : V) (t t' : Node V) : Type 0 where
    pub layers : ℕ
    pub wf : Wf key_of key_size layers d (key_of x) t'
    pub solid : is_null t' ≡ false
    pub added : Member x t'
    pub kept : (v : V) → Member v t → Member v t'
    pub only : (v : V) → Member v t' → (v ≡ x) ⊎ Member v t
    pub more : (k : ℕ) → Counted t k → Counted t' (suc k)
    pub fresh : (v : V) → Member v t → key_eq key_size (key_of x) (key_of v) ≡ false

  -- A subtree with the same values grows alike.
  pub Grown-same :
      (d : ℕ) (x : V) (t s t' : Node V)
      → ((v : V) → Member v t → Member v s)
      → ((v : V) → Member v s → Member v t)
      → ((k : ℕ) → Counted t k → Counted s k)
      → Grown d x s t'
      → Grown d x t t'
  Grown-same d x t s t' into out count g = record {
    layers = g.layers;
    wf = g.wf;
    solid = g.solid;
    added = g.added;
    kept = λ v m. g.kept v (into v m);
    only = λ v m. elim (g.only v m) [ inl e ↦ inl e | inr i ↦ inr (out v i) ];
    more = λ k m. g.more k (count k m);
    fresh = λ v m. g.fresh v (into v m);
  }

module _ {V : Type 0} (key_of : V → Key) (key_size : ℕ) (bytes : (v : V) → IsBytes (key_of v)) where
  module _ (r d : ℕ) (x : V) (n : Inner V) (o : Open key_of key_size r d x n) where
    -- the byte of the new leaf
    slot : ℕ
    slot = key_of x (d + n.head.prefix_length)

    with_leaf : Inner V
    with_leaf = record n { body = Body.insert n.body slot (leaf x) }

    find-with_leaf :
        (c : ℕ)
        → Body.find n.body slot ≡ null
        → c < 256
        → Body.find with_leaf.body c ≡ (if c == slot then leaf x else Body.find n.body c)
    unfolding with_leaf slot
    find-with_leaf c free h =
        find-insert n.body slot (leaf x) c o.valid o.room (bytes x (d + n.head.prefix_length)) h
          free refl

    with_leaf-InnerWf :
        Body.find n.body slot ≡ null
        → InnerWf key_of key_size d (key_of x) (Wf key_of key_size r) with_leaf
    unfolding with_leaf slot
    with_leaf-InnerWf free = record {
      at_depth = o.at_depth;
      valid =
          insert-IsValid n.body slot (leaf x) o.valid o.room (bytes x (d + n.head.prefix_length))
            free refl;
      roomy =
          omega (
            arith,
            o.sized,
            size-insert n.body slot (leaf x),
            min_size-insert n.body slot (leaf x),
          );
      span = o.span;
      line = key_of x;
      onward = λ j h. refl;
      bytes = λ j h. bytes x (d + j);
      stored = o.stored;
      children = λ c h. elim (eq_or_ne c slot) [
        | inl p ↦
            rw (find-with_leaf c free h, eq→== c slot p)
              (Wf-leaf key_of key_size r _ _ x (λ j l. ground arith))
        | inr p ↦ rw (find-with_leaf c free h, ne→== c slot p) (o.children c h)
      ];
    }

    -- The node with the leaf is what the insertion makes of the node.
    pub open_insert :
        Body.find n.body (key_of x (d + n.head.prefix_length)) ≡ null
        → Grown key_of key_size d x (of_inner n) (
            of_inner (record n {
              body = Body.insert n.body (key_of x (d + n.head.prefix_length)) (leaf x);
            }))
    unfolding with_leaf slot
    open_insert free = record {
      layers = suc r;
      wf = Wf-of_inner key_of key_size r d (key_of x) with_leaf (with_leaf-InnerWf free);
      solid = is_null-of_inner with_leaf;
      added = below with_leaf slot refl small (here (at_slot free));
      kept = λ v m.
          let (c, h, i) = Member-of_inner n v m in
          below with_leaf c refl h (rw (away free c h (held free c v i)) i);
      only = λ v m.
          let (c, h, i) = Member-of_inner with_leaf v m in
          elim (eq_or_ne c slot) [
            | inl p ↦ inl (Member-leaf x v (rw (p, at_slot free) at i))
            | inr p ↦ inr (below n c refl h (rw (away free c h p) at i))
          ];
      more = λ k m.
          let (f, s, all) = Counted-of_inner n k m in
          in_children with_leaf (λ c. if c == slot then 1 else f c) refl
            (ground (
              arith,
              s,
              Counted-null (f slot) (rw free at (all slot small)),
              sum_below_change 256 f (λ c. if c == slot then 1 else f c) slot small
                  (λ j h ne. ground arith),
            ))
            (λ c h. elim (eq_or_ne c slot) [
              | inl p ↦ rw (eq→== c slot p, p) (one_leaf x (at_slot free))
              | inr p ↦ rw (ne→== c slot p, away free c h p) (all c h)
            ]);
      fresh = λ v m.
          let (c, h, i) = Member-of_inner n v m in
          let away_from : key_of v (d + n.head.prefix_length) ≡ c = ground (
            arith,
            Wf-Member key_of key_size r _ _ (Body.find n.body c) v (o.children c h) i
                (d + n.head.prefix_length),
          ) in
          key_eq_ne key_size (d + n.head.prefix_length) (key_of x) (key_of v) o.span
            (ground (arith, held free c v i));
    }
      where
        small : slot < 256
        small = bytes x (d + n.head.prefix_length)

        at_slot : Body.find n.body slot ≡ null → Body.find with_leaf.body slot ≡ leaf x
        at_slot free = ground (arith, find-with_leaf slot free small)

        away :
            Body.find n.body slot ≡ null
            → (c : ℕ) → c < 256
            → c ≢ slot
            → Body.find with_leaf.body c ≡ Body.find n.body c
        away free c h ne = ground (arith, find-with_leaf c free h)

        held :
            Body.find n.body slot ≡ null
            → (c : ℕ) (v : V) → Member v (Body.find n.body c)
            → c ≢ slot
        held free c v i p = not-Member_null v (rw (p, free) at i)
