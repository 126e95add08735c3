-- ===== src/PrefixTree/Erase/Fix.antt =====
-- Lemmas about `fix_after_erase` of include/art/ar_prefix_tree.h.
use cpp_art.Base.{
  ℕ, suc, ◌+◌, ◌^◌, ◌≡◌, ◌<◌, ◌≤◌, refl, ◌∙◌, arith, inl, inr, lt_or_le, lt→ltb, le→ltb, ne→==,
  eq→==,
}
use cpp_art.Node.Sorted.{Sorted}
use cpp_art.Node.Body
use cpp_art.Node.Body.{Body}
use cpp_art.Node.Body.Laws.{two-le-min_size}
use cpp_art.Node.Body.Resize.{shrink_lem, Resized}
use cpp_art.PrefixTree.{
  Header, Node, Inner, leaf, of_inner, view-of_inner, node_pointer, below, in_children, null_case,
  leaf_case, inner_case, node_case, not_null,
}
use cpp_art.PrefixTree.Prefix.Steps.{
  Wf-leaf, Wf-of_inner, Agree-Wf_leaf, Member-of_inner, Counted-of_inner, is_null-of_inner,
}
use cpp_art.PrefixTree.Erase.{shrink, shrink_step, compress_step, compress_node_into_child}
use cpp_art.PrefixTree.Erase.Fixed.{Thin, Fixed}
use cpp_art.PrefixTree.Erase.Join.{
  find-first, Member-one_way, one_way-Member, Counted-one_way, compress_node_into_child_lem,
}
use cpp_art.Tree.Key.{Key, IsBytes}
use cpp_art.Tree.Find.{done}

module _ {V : Type 0} where
  -- A node that is not one-way is not compressed.
  compress_step_stays :
      (h : Header) (b : Body (Node V))
      → 2 ≤ Body.size b
      → compress_step (of_inner (record { head = h; body = b }))
        ≡ done (of_inner (record { head = h; body = b }))
  unfolding compress_step Body.size
  compress_step_stays h (Body.node_4 b) l =
      rw (compress_step, view-of_inner, ne→== b.count 1 (omega arith)) refl
  compress_step_stays h (Body.node_16 b) l = rw (compress_step, view-of_inner) refl
  compress_step_stays h (Body.node_48 b) l = rw (compress_step, view-of_inner) refl
  compress_step_stays h (Body.node_256 b) l = rw (compress_step, view-of_inner) refl

  shrink_step_stays :
      (n : Inner V) → Body.min_size n.body ≤ Body.size n.body → shrink_step n ≡ of_inner n
  unfolding shrink_step
  shrink_step_stays n l = rw (shrink_step, le→ltb (Body.size n.body) (Body.min_size n.body) l) refl

  shrink_step_large :
      (h : Header) (b : Body (Node V))
      → 2 < Body.min_size b
      → Body.size b < Body.min_size b
      → shrink_step (record { head = h; body = b })
        ≡ of_inner (record { head = h; body = Body.shrink b })
  unfolding shrink_step shrink Body.min_size
  shrink_step_large h (Body.node_4 b) l s = absurd (omega arith)
  shrink_step_large h (Body.node_16 b) l s = rw (shrink_step, lt→ltb _ _ s) refl
  shrink_step_large h (Body.node_48 b) l s = rw (shrink_step, lt→ltb _ _ s) refl
  shrink_step_large h (Body.node_256 b) l s = rw (shrink_step, lt→ltb _ _ s) refl

  shrink_step_leaf :
      (h : Header) (b : Sorted (Node V)) (u : V)
      → b.count ≡ 1
      → b.children 0 ≡ leaf u
      → shrink_step (record { head = h; body = Body.node_4 b }) ≡ leaf u
  unfolding shrink_step shrink Body.size Body.min_size
  shrink_step_leaf h b u one p = rw (shrink_step, lt→ltb b.count 2 (omega arith), p) refl

  shrink_step_inner :
      (h : Header) (b : Sorted (Node V)) (c : Inner V)
      → b.count ≡ 1
      → b.children 0 ≡ of_inner c
      → shrink_step (record { head = h; body = Body.node_4 b })
        ≡ of_inner (record { head = h; body = Body.node_4 b })
  unfolding shrink_step shrink Body.size Body.min_size
  shrink_step_inner h b c one p =
      rw (shrink_step, lt→ltb b.count 2 (omega arith), p, view-of_inner) refl

  -- A one-way node whose child is a leaf is gone after `shrink`, above another it is compressed.
  one_way_leaf :
      (h : Header) (b : Sorted (Node V)) (u : V)
      → b.count ≡ 1
      → b.children 0 ≡ leaf u
      → compress_step (shrink_step (record { head = h; body = Body.node_4 b })) ≡ done (leaf u)
  unfolding compress_step
  one_way_leaf h b u one p = rw (shrink_step_leaf h b u one p) refl

  one_way_inner :
      (h : Header) (b : Sorted (Node V)) (c : Inner V)
      → b.count ≡ 1
      → b.children 0 ≡ of_inner c
      → compress_step (shrink_step (record { head = h; body = Body.node_4 b }))
        ≡ compress_node_into_child h b
  unfolding compress_step
  one_way_inner h b c one p =
      rw (shrink_step_inner h b c one p, compress_step, view-of_inner, eq→== b.count 1 one) refl

module _ {V : Type 0} (key_of : V → Key) (key_size : ℕ) (short : key_size ≤ 2 ^ 16) where
  -- A node of the same header that finds the same children and is not underfull.
  same_Fixed :
      (r d : ℕ) (k : Key) (h : Header) (b m : Body (Node V))
      → IsBytes k
      → Thin key_of key_size r d k (record { head = h; body = b })
      → Resized b m
      → Body.min_size m ≤ Body.size m
      → Fixed key_of key_size d k
          (of_inner (record { head = h; body = b }))
          (of_inner (record { head = h; body = m }))
  same_Fixed r d k h b m bytes t same full = record {
    layers = suc r;
    wf =
        Wf-of_inner key_of key_size r d k (record { head = h; body = m })
          (record {
            at_depth = t.at_depth;
            valid = same.valid;
            roomy = full;
            span = t.span;
            line = k;
            onward = λ j l. refl;
            bytes = λ j l. bytes (d + j);
            stored = t.stored;
            children = λ c l. rw (same.same_find c l) (t.children c l);
          });
    solid = is_null-of_inner (record { head = h; body = m });
    into = λ v i.
        let (c, l, q) = Member-of_inner (record { head = h; body = b }) v i in
        below (record { head = h; body = m }) c refl l (rw (same.same_find c l) q);
    out = λ v i.
        let (c, l, q) = Member-of_inner (record { head = h; body = m }) v i in
        below (record { head = h; body = b }) c refl l (rw (same.same_find c l) at q);
    count = λ u i.
        let (f, s, all) = Counted-of_inner (record { head = h; body = b }) u i in
        in_children (record { head = h; body = m }) f refl s
          (λ c l. rw (same.same_find c l) (all c l));
  }

  -- A one-way node.
  one_way_Fixed :
      (r d : ℕ) (k : Key) (h : Header) (b : Sorted (Node V))
      → IsBytes k
      → Thin key_of key_size r d k (record { head = h; body = Body.node_4 b })
      → b.count ≡ 1
      → (t : Node V) × (compress_step (shrink_step (record { head = h; body = Body.node_4 b }))
          ≡ done t)
        × Fixed key_of key_size d k (of_inner (record { head = h; body = Body.node_4 b })) t
  one_way_Fixed r d k h b bytes t one = elim (node_case (b.children 0)) [
    | null_case p ↦ absurd (not_null (b.children 0) (t.valid.present 0 (omega arith)) p)
    | leaf_case u p ↦ (
      leaf u,
      one_way_leaf h b u one p,
      record {
        layers = r;
        wf = Wf-leaf key_of key_size r d k u (λ j l. ground (
          arith,
          Agree-Wf_leaf key_of key_size r _ _ u
              (rw (find-first h b t.valid one, p) at
                (t.children (b.keys 0) (t.valid.byte 0 (omega arith))))
              j,
        ));
        solid = refl;
        into = λ v m. rw p at (Member-one_way h b t.valid one v m);
        out = λ v m. one_way-Member h b t.valid one v (rw p m);
        count = λ m q. rw p at (Counted-one_way h b t.valid one m q);
      },
    )
    | inner_case c p ↦
        let (s, e, f) =
          compress_node_into_child_lem key_of key_size short r d k h b c bytes t one p in
        (s, one_way_inner h b c one p ∙ e, f)
  ]

  -- A `_Node_4` that is underfull has one child.
  underfull :
      (r d : ℕ) (k : Key) (h : Header) (b : Body (Node V))
      → IsBytes k
      → Thin key_of key_size r d k (record { head = h; body = b })
      → Body.min_size b ≤ 2
      → Body.size b < Body.min_size b
      → (t : Node V) × (compress_step (shrink_step (record { head = h; body = b })) ≡ done t)
        × Fixed key_of key_size d k (of_inner (record { head = h; body = b })) t
  unfolding Body.size Body.min_size
  underfull r d k h (Body.node_4 b) bytes t few l =
      one_way_Fixed r d k h b bytes t (omega (arith, t.sized))
  underfull r d k h (Body.node_16 b) bytes t few l = absurd (omega arith)
  underfull r d k h (Body.node_48 b) bytes t few l = absurd (omega arith)
  underfull r d k h (Body.node_256 b) bytes t few l = absurd (omega arith)

  -- After a child went, the node is put in order: its values stay, and the invariant holds.
  pub fix_lem :
      (r d : ℕ) (k : Key) (n : Inner V)
      → IsBytes k
      → Thin key_of key_size r d k n
      → (t : Node V) × (compress_step (shrink_step n) ≡ done t)
        × Fixed key_of key_size d k (of_inner n) t
  fix_lem r d k n bytes t = elim (lt_or_le (Body.size n.body) (Body.min_size n.body)) [
    | inl l ↦ elim (lt_or_le 2 (Body.min_size n.body)) [
      | inl large ↦
          let (same, more) = shrink_lem n.body t.valid (omega (arith, t.sized)) large in
          (
            of_inner (record n { body = Body.shrink n.body }),
            rw (shrink_step_large n.head n.body large l) (
                compress_step_stays n.head (Body.shrink n.body)
                  (omega (arith, more, two-le-min_size (Body.shrink n.body)))),
            same_Fixed r d k n.head n.body (Body.shrink n.body) bytes t same (omega (arith, more)),
          )
      | inr few ↦ underfull r d k n.head n.body bytes t few l
    ]
    | inr full ↦ (
      of_inner n,
      rw (shrink_step_stays n full)
          (compress_step_stays n.head n.body (omega (arith, two-le-min_size n.body))),
      same_Fixed r d k n.head n.body n.body bytes t
          (record { valid = t.valid; same_size = refl; same_find = λ c l. refl }) full,
    )
  ]
