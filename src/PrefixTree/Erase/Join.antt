-- ===== src/PrefixTree/Erase/Join.antt =====
-- `compress_node_into_child` of include/art/ar_prefix_tree.h.
use cpp_art.Base.{
  sum_below_change, sum_below_zero, ℕ, zero, suc, ◌+◌, ◌-◌, ◌%◌, ◌^◌, ◌≡◌, ◌≢◌, ◌<◌, ◌≤◌, refl, sym,
  arith, inl, inr, set, eq_or_ne, lt_or_le, ◌==◌, if◌then◌else◌, Array, ltb,
}
use mathlib.Core.Path.{subst}
use cpp_art.Node.Sorted
use cpp_art.Node.Sorted.{Sorted}
use cpp_art.Node.Sorted.Find.{find_at}
use cpp_art.Node.Body
use cpp_art.Node.Body.{Body}
use cpp_art.Node.Body.Laws.{only_child}
use cpp_art.PrefixTree.{
  Header, Node, Inner, null, of_inner, view-of_inner, node_pointer, Member, below, Counted,
  in_children,
}
use cpp_art.PrefixTree.Wf.{InnerWf, Wf, max_prefix_length}
use cpp_art.PrefixTree.Prefix.Steps.{
  Wf-of_inner, InnerWf-of_Wf, not-Wf-zero, Member-of_inner, Counted-of_inner, Counted-null,
  not-Member_null, is_null-of_inner,
}
use cpp_art.PrefixTree.Erase.{joined_prefix, joined, compress_node_into_child}
use cpp_art.PrefixTree.Erase.Fixed.{Thin, Fixed}
use cpp_art.Tree.Key.{Key, IsBytes}
use cpp_art.Tree.Find.{done}

-- The bytes of the new prefix: the node's, its key byte, the child's, up to the array's end.
joined_prefix_lem :
    (h : Header) (b : ℕ) (child : Array ℕ) (j : ℕ)
    → j < max_prefix_length
    → joined_prefix h b child j ≡ (
        if ltb j h.prefix_length
        then h.prefix j
        else (if j == h.prefix_length then b else child (j - (h.prefix_length + 1))))
unfolding joined_prefix
joined_prefix_lem h b child j l = ground arith

-- A `_Node_4` with one child has the values of that child.
module _ {V : Type 0} (h : Header) (b : Sorted (Node V)) (v : Sorted.IsValid 4 b)
    (one : b.count ≡ 1) where
  pub find-first : Body.find (Body.node_4 b) (b.keys 0) ≡ b.children 0
  unfolding Body.find
  find-first = find_at 0 v (omega arith) refl

  pub find-other : (c : ℕ) → c ≢ b.keys 0 → Body.find (Body.node_4 b) c ≡ null
  unfolding Body.size Body.min_size
  find-other c ne =
      only_child (Body.node_4 b) (b.keys 0) c v (omega arith) (omega arith)
        (rw find-first (v.present 0 (omega arith))) ne

  pub Member-one_way :
      (w : V)
      → Member w (of_inner (record { head = h; body = Body.node_4 b }))
      → Member w (b.children 0)
  Member-one_way w m =
      let (c, l, i) = Member-of_inner (record { head = h; body = Body.node_4 b }) w m in
      elim (eq_or_ne c (b.keys 0)) [
        | inl p ↦ rw (p, find-first) at i
        | inr p ↦ absurd (not-Member_null w (rw (find-other c p) at i))
      ]

  pub one_way-Member :
      (w : V)
      → Member w (b.children 0)
      → Member w (of_inner (record { head = h; body = Body.node_4 b }))
  one_way-Member w m =
      below (record { head = h; body = Body.node_4 b }) (b.keys 0) refl (v.byte 0 (omega arith))
        (rw find-first m)

  pub Counted-one_way :
      (k : ℕ)
      → Counted (of_inner (record { head = h; body = Body.node_4 b })) k
      → Counted (b.children 0) k
  Counted-one_way k m =
      let (f, s, all) = Counted-of_inner (record { head = h; body = Body.node_4 b }) k m in
      let small : b.keys 0 < 256 = v.byte 0 (omega arith) in
      let here : Counted (b.children 0) (f (b.keys 0)) = rw find-first at (all (b.keys 0) small) in
      let total : f (b.keys 0) ≡ k = ground (
        arith,
        s,
        sum_below_zero 256 (λ c. 0) (λ c l. refl),
        sum_below_change 256 (λ c. 0) f (b.keys 0) small
            (λ c l ne. Counted-null (f c) (rw (find-other c ne) at (all c l))),
      ) in
      rw total at here

module _ {V : Type 0} (key_of : V → Key) (key_size : ℕ) (short : key_size ≤ 2 ^ 16) where
  -- The child of a one-way node, with the node's prefix and byte before its own prefix.
  joined-InnerWf :
      (r s d : ℕ) (k : Key) (h : Header) (b : Sorted (Node V)) (c : Inner V)
      → IsBytes k
      → Thin key_of key_size r d k (record { head = h; body = Body.node_4 b })
      → b.keys 0 < 256
      → InnerWf key_of key_size
          (suc (d + h.prefix_length))
          (set k (d + h.prefix_length) (b.keys 0))
          (Wf key_of key_size s)
          c
      → InnerWf key_of key_size d k
          (Wf key_of key_size s)
          (record c { head = joined h (b.keys 0) c.head })
  joined-InnerWf r s d k h b c bytes t small i =
      let e : d + (c.head.prefix_length + (h.prefix_length + 1)) % 2 ^ 16
          ≡ suc (d + h.prefix_length) + c.head.prefix_length =
        omega (arith, i.span) in
      record {
        at_depth = t.at_depth;
        valid = i.valid;
        roomy = i.roomy;
        span = omega (arith, i.span);
        line = i.line;
        onward = λ j l. ground (arith, i.onward j);
        bytes = λ j l. elim (lt_or_le j h.prefix_length) [
          | inl early ↦ ground (arith, i.onward (d + j), bytes (d + j))
          | inr late ↦ elim (eq_or_ne j h.prefix_length) [
            | inl p ↦ ground (arith, i.onward (d + j))
            | inr p ↦
                let q : suc (d + h.prefix_length) + (j - (h.prefix_length + 1)) ≡ d + j =
                  omega arith in
                rw q at (i.bytes (j - (h.prefix_length + 1)) (omega arith))
          ]
        ];
        stored = λ j l m. elim (lt_or_le j h.prefix_length) [
          | inl early ↦ ground (
            arith,
            joined_prefix_lem h (b.keys 0) c.head.prefix j m,
            i.onward (d + j),
            t.stored j,
          )
          | inr late ↦ elim (eq_or_ne j h.prefix_length) [
            | inl p ↦
                ground (arith, joined_prefix_lem h (b.keys 0) c.head.prefix j m, i.onward (d + j))
            | inr p ↦
                let q : suc (d + h.prefix_length) + (j - (h.prefix_length + 1)) ≡ d + j =
                  omega arith in
                let own : c.head.prefix (j - (h.prefix_length + 1)) ≡ i.line (d + j) =
                  rw q at (i.stored (j - (h.prefix_length + 1)) (omega arith) (omega arith)) in
                ground (arith, joined_prefix_lem h (b.keys 0) c.head.prefix j m, own)
          ]
        ];
        children = λ x l.
            subst (λ (q : ℕ). Wf key_of key_size s (suc q) (set i.line q x) (Body.find c.body x))
              (sym e) (i.children x l);
      }

  -- A one-way node above an inner node is joined with it.
  pub compress_node_into_child_lem :
      (r d : ℕ) (k : Key) (h : Header) (b : Sorted (Node V)) (c : Inner V)
      → IsBytes k
      → Thin key_of key_size r d k (record { head = h; body = Body.node_4 b })
      → b.count ≡ 1
      → b.children 0 ≡ of_inner c
      → (t : Node V) × (compress_node_into_child h b ≡ done t)
        × Fixed key_of key_size d k (of_inner (record { head = h; body = Body.node_4 b })) t
  unfolding compress_node_into_child
  compress_node_into_child_lem zero d k h b c bytes t one p = absurd (
      not-Wf-zero key_of key_size _ _ c (
        rw (find-first h b t.valid one, p) at
          (t.children (b.keys 0) (t.valid.byte 0 (omega arith)))))
  compress_node_into_child_lem (suc r) d k h b c bytes t one p =
      let small : b.keys 0 < 256 = t.valid.byte 0 (omega arith) in
      let i =
        InnerWf-of_Wf key_of key_size r _ _ c
          (rw (find-first h b t.valid one, p) at (t.children (b.keys 0) small)) in
      let n = record c { head = joined h (b.keys 0) c.head } in
      (
        of_inner n,
        rw (compress_node_into_child, p, view-of_inner) refl,
        record {
          layers = suc r;
          wf =
              Wf-of_inner key_of key_size r d k n
                (joined-InnerWf (suc r) r d k h b c bytes t small i);
          solid = is_null-of_inner n;
          into = λ v m.
              let (x, l, q) = Member-of_inner c v (rw p at (Member-one_way h b t.valid one v m)) in
              below n x refl l q;
          out = λ v m.
              let (x, l, q) = Member-of_inner n v m in
              one_way-Member h b t.valid one v (rw p (below c x refl l q));
          count = λ m q.
              let (f, s, all) =
                Counted-of_inner c m (rw p at (Counted-one_way h b t.valid one m q)) in
              in_children n f refl s all;
        },
      )
