-- ===== src/Tree/Erase/Fix.antt =====
-- Lemmas about `fix_after_erase` of include/art/ar_tree.h at the node in which a leaf was erased.
use cpp_art.Base.{
  ℕ, suc, ◌+◌, ◌≡◌, ◌≢◌, ◌<◌, ◌≤◌, true, false, refl, sym, ap, ◌∙◌, inl, inr, arith, some, lt_or_le,
  eq_or_ne,
}
use cpp_art.Node.Sorted.{Sorted}
use cpp_art.Node.Sorted.Find.{find_at}
use cpp_art.Node.Body
use cpp_art.Node.Body.{Body}
use cpp_art.Node.Body.Laws.{only_child, two-le-min_size}
use cpp_art.Node.Body.Resize.{shrink_lem}
use cpp_art.Tree.{
  Node, Inner, view, leaf, null, of_inner, view-of_inner, node_pointer, is_leaf, is_null, Ancestors,
  null_case, leaf_case, inner_case, node_case,
}
use cpp_art.Tree.Key.{Key}
use cpp_art.Tree.Find.{done}
use cpp_art.Tree.Find.Steps.{is_leaf-of_inner}
use cpp_art.Tree.Insert.{plug}
use cpp_art.Tree.Erase.{
  size, min_size, shrink, compress, shrink_round, shrink_after_erase, fix_after_erase,
}
use cpp_art.Tree.Erase.Lost.{Lost, LostBelow, Lost-of, LostBelow-Resized}
use cpp_art.Tree.Erase.Collapse.{collapse_Lost}
use cpp_art.Tree.Erase.Settle.{
  Chain, settle, settle-inner, compress-settle, compress-inner, compress-node, round_done,
  round_next, round_last,
}

module _ {V : Type 0} where
  abbrev inner : ℕ → Body (Node V) → Inner V
  inner d m = record { depth = d; body = m }

  size-inner : (n : Inner V) → size (view (of_inner n)) ≡ Body.size n.body
  size-inner n = rw view-of_inner (unfold size in refl)

  min_size-inner : (n : Inner V) → min_size (view (of_inner n)) ≡ Body.min_size n.body
  min_size-inner n = rw view-of_inner (unfold min_size in refl)

  -- A round on an inner node that shrinks, and on one that cannot.
  shrink_round_changed :
      (k : Key) (depth : ℕ) (n : Inner V) (s : Node V) (above : Ancestors V)
      → shrink n ≡ (s, true)
      → shrink_round k depth (view (of_inner n)) above
        ≡ some ((compress k depth s 1 above).0, (compress k depth s 1 above).1, true)
  unfolding shrink_round
  shrink_round_changed k depth n s above e = rw view-of_inner (rw e)

  shrink_round_same :
      (k : Key) (depth : ℕ) (n : Inner V) (s : Node V) (above : Ancestors V)
      → shrink n ≡ (s, false)
      → shrink_round k depth (view (of_inner n)) above ≡ some (of_inner n, above, false)
  unfolding shrink_round
  shrink_round_same k depth n s above e = rw view-of_inner (rw e)

  fixed_to :
      (k : Key) (n : Inner V) (above above' : Ancestors V) (t : Node V)
      → shrink_after_erase 2 k n.depth (of_inner n) above ≡ done (t, above')
      → fix_after_erase k n above ≡ done (plug k above' t)
  unfolding fix_after_erase
  fixed_to k n above above' t e = rw (e, fix_after_erase)

  -- A node that is not underfull stays.
  stays :
      (k : Key) (n : Inner V) (above : Ancestors V)
      → Body.min_size n.body ≤ Body.size n.body
      → fix_after_erase k n above ≡ done (settle k above (of_inner n))
  stays k n above h =
      fixed_to k n above above (of_inner n)
        (round_done 1 k n.depth (of_inner n) above (omega (arith, size-inner n, min_size-inner n)))
      ∙ ap (λ (t : Node V). done t) (sym (settle-inner k above (of_inner n) (is_leaf-of_inner n)))

  shrink-large :
      (d : ℕ) (m : Body (Node V))
      → 2 < Body.min_size m
      → shrink (inner d m) ≡ (of_inner (inner d (Body.shrink m)), true)
  unfolding shrink Body.min_size
  shrink-large d (Body.node_4 b) h = absurd (omega arith)
  shrink-large d (Body.node_16 b) h = refl
  shrink-large d (Body.node_48 b) h = refl
  shrink-large d (Body.node_256 b) h = refl

  -- An underfull node of a larger class shrinks.
  shrinks :
      (k : Key) (d : ℕ) (m : Body (Node V)) (above : Ancestors V)
      → 2 < Body.min_size m
      → Body.size m < Body.min_size m
      → Body.min_size (Body.shrink m) < Body.size (Body.shrink m)
      → fix_after_erase k (inner d m) above
        ≡ done (settle k above (of_inner (inner d (Body.shrink m))))
  shrinks k d m above large short enough =
      let s = inner d (Body.shrink m) in
      fixed_to k (inner d m) above above (of_inner s) (
        round_next 1 k d (of_inner (inner d m)) (of_inner s) above above
          (omega (arith, size-inner (inner d m), min_size-inner (inner d m)))
          (shrink_round_changed k d (inner d m) (of_inner s) above (shrink-large d m large)
            ∙ rw (compress-inner k d 1 (of_inner s) above (is_leaf-of_inner s)))
        ∙ round_done 0 k d (of_inner s) above (omega (arith, size-inner s, min_size-inner s)))
      ∙ ap (λ (t : Node V). done t) (sym (settle-inner k above (of_inner s) (is_leaf-of_inner s)))

  small_4 :
      (d : ℕ) (b : Sorted (Node V))
      → b.count ≡ 1
      → size (view (of_inner (inner d (Body.node_4 b))))
        < min_size (view (of_inner (inner d (Body.node_4 b))))
  unfolding Body.size Body.min_size
  small_4 d b one =
      omega (arith, size-inner (inner d (Body.node_4 b)), min_size-inner (inner d (Body.node_4 b)))

  shrink_4_leaf :
      (d : ℕ) (b : Sorted (Node V)) (u : V)
      → b.children 0 ≡ leaf u
      → shrink (inner d (Body.node_4 b)) ≡ (leaf u, true)
  unfolding shrink
  shrink_4_leaf d b u here = rw here

  shrink_4_inner :
      (d : ℕ) (b : Sorted (Node V))
      → is_leaf (b.children 0) ≡ false
      → shrink (inner d (Body.node_4 b)) ≡ (of_inner (inner d (Body.node_4 b)), false)
  unfolding shrink
  shrink_4_inner d b h = rw h

  -- A `_Node_4` with one leaf is replaced by it.
  collapses :
      (k : Key) (d : ℕ) (b : Sorted (Node V)) (u : V) (above : Ancestors V)
      → Chain d above
      → b.count ≡ 1
      → b.children 0 ≡ leaf u
      → fix_after_erase k (inner d (Body.node_4 b)) above ≡ done (settle k above (leaf u))
  collapses k d b u above c one here =
      let n = inner d (Body.node_4 b) in
      let p = compress k d (leaf u) 1 above in
      fixed_to k n above p.1 (leaf u) (
        round_next 1 k d (of_inner n) (leaf u) above p.1 (small_4 d b one) (
          shrink_round_changed k d n (leaf u) above (shrink_4_leaf d b u here)
          ∙ ap (λ (t : Node V). some (t, p.1, true)) (compress-node k d 1 (leaf u) above))
        ∙ round_done 0 k d (leaf u) p.1 (unfold size min_size in omega arith))
      ∙ ap (λ (t : Node V). done t)
          (rw (← compress-settle k d d 1 (leaf u) above c (omega arith), compress-node))

  -- A `_Node_4` with one inner node stays.
  one_way :
      (k : Key) (d : ℕ) (b : Sorted (Node V)) (above : Ancestors V)
      → b.count ≡ 1
      → is_leaf (b.children 0) ≡ false
      → fix_after_erase k (inner d (Body.node_4 b)) above
        ≡ done (settle k above (of_inner (inner d (Body.node_4 b))))
  one_way k d b above one here =
      let n = inner d (Body.node_4 b) in
      fixed_to k n above above (of_inner n) (
        round_last 1 k d (of_inner n) (of_inner n) above above (small_4 d b one)
          (shrink_round_same k d n (of_inner n) above (shrink_4_inner d b here)))
      ∙ ap (λ (t : Node V). done t) (sym (settle-inner k above (of_inner n) (is_leaf-of_inner n)))

module _ {V : Type 0} (key_of : V → Key) (key_size : ℕ) where
  -- What takes the place of the node in which the leaf was erased.
  pub record Fixed (r d : ℕ) (k : Key) (t : Node V) (m : Body (Node V)) (above : Ancestors V)
      : Type 0 where
    pub result : Node V
    pub returns : fix_after_erase k (inner d m) above ≡ done (settle k above result)
    pub lost : Lost key_of key_size (suc r) d k t result

  fix_small :
      (r d : ℕ) (k : Key) (t : Node V) (b : Sorted (Node V)) (above : Ancestors V)
      → suc r + d ≡ key_size
      → Chain d above
      → LostBelow key_of key_size r d k t (Body.node_4 b)
      → b.count ≡ 1
      → Fixed r d k t (Body.node_4 b) above
  fix_small r d k t b above e c l one = elim (node_case (b.children 0)) [
    | null_case q ↦ absurd (ground (arith, l.valid.present 0))
    | leaf_case u q ↦ record {
      result = leaf u;
      returns = collapses k d b u above c one q;
      lost =
          collapse_Lost key_of key_size r d k t (Body.node_4 b) (b.keys 0) u e l
            (l.valid.byte 0 (omega arith)) (first_child ∙ q) alone;
    }
    | inner_case n q ↦ record {
      result = of_inner (inner d (Body.node_4 b));
      returns = one_way k d b above one (rw q (is_leaf-of_inner n));
      lost =
          Lost-of key_of key_size r d k t (Body.node_4 b) l
            (λ h. absurd (unfold Body.min_size in omega arith)) (λ c h g. absurd (no_leaf n q c g));
    }
  ]
    where
      first_child : Body.find (Body.node_4 b) (b.keys 0) ≡ b.children 0
      first_child = unfold Body.find in find_at 0 l.valid (omega arith) refl

      held : is_null (Body.find (Body.node_4 b) (b.keys 0)) ≡ false
      held = rw first_child (l.valid.present 0 (omega arith))

      alone : (x : ℕ) → x ≢ b.keys 0 → Body.find (Body.node_4 b) x ≡ null
      alone x ne =
          only_child (Body.node_4 b) (b.keys 0) x l.valid (unfold Body.min_size in omega arith)
            (unfold Body.size in omega arith) held ne

      no_leaf :
          (n : Inner V)
          → b.children 0 ≡ of_inner n
          → (c : ℕ) → is_leaf (Body.find (Body.node_4 b) c) ≡ true
          → ⊥
      no_leaf n q c g = elim (eq_or_ne c (b.keys 0)) [
        | inl p ↦ ground (arith, p, first_child, q, is_leaf-of_inner n)
        | inr p ↦ ground (arith, alone c p)
      ]

  fix_large :
      (r d : ℕ) (k : Key) (t : Node V) (m : Body (Node V)) (above : Ancestors V)
      → LostBelow key_of key_size r d k t m
      → 2 < Body.min_size m
      → Body.size m < Body.min_size m
      → Body.min_size m ≤ Body.size m + 1
      → Fixed r d k t m above
  fix_large r d k t m above l large short near =
      let (same, enough) = shrink_lem m l.valid (omega arith) large in
      record {
        result = of_inner (inner d (Body.shrink m));
        returns = shrinks k d m above large short enough;
        lost =
            Lost-of key_of key_size r d k t (Body.shrink m)
              (LostBelow-Resized key_of key_size r d k t m (Body.shrink m) same l)
              (λ h. omega (arith, enough))
              (λ c h g. omega (arith, enough, two-le-min_size (Body.shrink m)));
      }

  small_case :
      (r d : ℕ) (k : Key) (t : Node V) (m : Body (Node V)) (above : Ancestors V)
      → suc r + d ≡ key_size
      → Chain d above
      → LostBelow key_of key_size r d k t m
      → Body.min_size m ≤ 2
      → Body.size m < Body.min_size m
      → Fixed r d k t m above
  unfolding Body.min_size Body.size
  small_case r d k t (Body.node_4 b) above e c l few short =
      let sized : 0 < Body.size (Body.node_4 b) = l.sized in
      fix_small r d k t b above e c l (omega arith)
  small_case r d k t (Body.node_16 b) above e c l few short = absurd (omega arith)
  small_case r d k t (Body.node_48 b) above e c l few short = absurd (omega arith)
  small_case r d k t (Body.node_256 b) above e c l few short = absurd (omega arith)

  -- After the erasure the node stays, shrinks, or is replaced by its only leaf.
  pub fix_lem :
      (r d : ℕ) (k : Key) (t : Node V) (m : Body (Node V)) (above : Ancestors V)
      → suc r + d ≡ key_size
      → Chain d above
      → LostBelow key_of key_size r d k t m
      → (2 < Body.min_size m → Body.min_size m ≤ Body.size m + 1)
      → Fixed r d k t m above
  fix_lem r d k t m above e c l near = elim (lt_or_le (Body.size m) (Body.min_size m)) [
    | inr enough ↦ record {
      result = of_inner (inner d m);
      returns = stays k (inner d m) above enough;
      lost =
          Lost-of key_of key_size r d k t m l (λ h. enough)
            (λ c h g. omega (arith, two-le-min_size m));
    }
    | inl short ↦ elim (lt_or_le 2 (Body.min_size m)) [
      | inl large ↦ fix_large r d k t m above l large short (near large)
      | inr few ↦ small_case r d k t m above e c l few short
    ]
  ]
