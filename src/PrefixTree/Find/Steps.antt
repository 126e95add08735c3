-- ===== src/PrefixTree/Find/Steps.antt =====
-- Lemmas about the loop of `find` of include/art/ar_prefix_tree.h.
use cpp_art.Base.{
  ℕ, zero, suc, ◌+◌, ◌≡◌, ◌<◌, ◌≤◌, true, false, refl, arith, inl, inr, eq_or_ne, lt→ltb, le→ltb,
  Bool-cases, ap, if◌then◌else◌,
}
use cpp_art.Node.Body
use cpp_art.Tree.Key.{Key, key_eq, IsBytes, key_eq_ne}
use cpp_art.Tree.Find.{Iterator, end, at, Outcome, done}
use cpp_art.PrefixTree.{
  Node, Inner, null, leaf, of_inner, view-of_inner, node_pointer, null_case, leaf_case, inner_case,
  node_case, Member, here, below,
}
use cpp_art.PrefixTree.Wf.{InnerWf, Wf}
use cpp_art.PrefixTree.Prefix.{pes_prefix_mismatch_pos}
use cpp_art.PrefixTree.Prefix.Least.{pes_prefix_mismatch_pos_lem, Mismatch}
use cpp_art.PrefixTree.Prefix.Steps.{
  InnerWf-of_Wf, not-Wf-zero, Member-leaf, not-Member_null, Member-of_inner, InnerWf-Member,
}
use cpp_art.PrefixTree.Find.{find_loop}

module _ {V : Type 0} (key_of : V → Key) (key_size : ℕ) where
  -- What a lookup of `key` in the subtree should give: a value of the subtree with that key, or
  -- the end when it has none.
  pub data Found (t : Node V) (key : Key) : Outcome (Iterator V) → Type 0 where
    hit :
        {o : Outcome (Iterator V)} (v : V)
        → o ≡ done (at v)
        → Member v t
        → key_eq key_size key (key_of v) ≡ true
        → Found t key o
    miss :
        {o : Outcome (Iterator V)}
        → o ≡ done end
        → ((v : V) → Member v t → key_eq key_size key (key_of v) ≡ false)
        → Found t key o

  find_loop-null :
      (f d : ℕ) (key : Key) → d ≤ key_size → find_loop key_of key_size (suc f) d null key ≡ done end
  unfolding find_loop
  find_loop-null f d key h = rw (find_loop, lt→ltb d (key_size + 1) (omega arith)) refl

  find_loop-leaf :
      (f d : ℕ) (v : V) (key : Key)
      → d ≤ key_size
      → find_loop key_of key_size (suc f) d (leaf v) key
        ≡ done (if key_eq key_size key (key_of v) then at v else end)
  unfolding find_loop
  find_loop-leaf f d v key h = rw (find_loop, lt→ltb d (key_size + 1) (omega arith)) refl

  find_loop_past :
      (f d : ℕ) (n : Inner V) (key : Key)
      → d ≤ key_size
      → pes_prefix_mismatch_pos n.head key < n.head.prefix_length
      → find_loop key_of key_size (suc f) d (of_inner n) key ≡ done end
  unfolding find_loop
  find_loop_past f d n key h l =
      rw (find_loop, lt→ltb d (key_size + 1) (omega arith), view-of_inner, lt→ltb _ _ l) refl

  find_loop-of_inner :
      (f d : ℕ) (n : Inner V) (key : Key)
      → d ≤ key_size
      → pes_prefix_mismatch_pos n.head key ≡ n.head.prefix_length
      → find_loop key_of key_size (suc f) d (of_inner n) key
        ≡ find_loop key_of key_size f
            (suc (d + n.head.prefix_length))
            (Body.find n.body (key (d + n.head.prefix_length)))
            key
  unfolding find_loop
  find_loop-of_inner f d n key h e =
      rw
        (
          find_loop,
          lt→ltb d (key_size + 1) (omega arith),
          view-of_inner,
          le→ltb (pes_prefix_mismatch_pos n.head key) n.head.prefix_length (omega arith),
        )
        (ap
          (λ (p : ℕ).
            find_loop key_of key_size f (suc (d + p)) (Body.find n.body (key (d + p))) key)
          e)

  leaf_Found :
      (f d : ℕ) (v : V) (key : Key)
      → d ≤ key_size
      → Found (leaf v) key (find_loop key_of key_size (suc f) d (leaf v) key)
  leaf_Found f d v key h = elim (Bool-cases (key_eq key_size key (key_of v))) [
    | inl same ↦ hit v (rw (find_loop-leaf f d v key h, same) refl) (here refl) same
    | inr ne ↦ miss (rw (find_loop-leaf f d v key h, ne) refl) (λ w m. rw (Member-leaf v w m) ne)
  ]

  -- A lookup in a child that the key leads to is the lookup in the node.
  child_Found :
      (r d : ℕ) (path : Key) (n : Inner V) (key : Key) (o : Outcome (Iterator V))
      → InnerWf key_of key_size d path (Wf key_of key_size r) n
      → IsBytes key
      → Found (Body.find n.body (key (d + n.head.prefix_length))) key o
      → Found (of_inner n) key o
  child_Found r d path n key o i b (hit v e m same) =
      hit v e (below n _ refl (b (d + n.head.prefix_length)) m) same
  child_Found r d path n key o i b (miss e out) = miss e (λ v m.
      let (c, h, m') = Member-of_inner n v m in
      elim (eq_or_ne (key (d + n.head.prefix_length)) c) [
        | inl at_c ↦ out v (rw at_c m')
        | inr ne ↦
            key_eq_ne key_size (d + n.head.prefix_length) key (key_of v) i.span
              (ground (arith, (InnerWf-Member key_of key_size r d path n c v i h m').1))
      ])

  -- A key that leaves the prefix is no key below the node.
  past_Found :
      (r d : ℕ) (path : Key) (n : Inner V) (key : Key) (pos : ℕ)
      → (i : InnerWf key_of key_size d path (Wf key_of key_size r) n) → Mismatch d pos n i.line key
      → pos < n.head.prefix_length
      → (v : V) → Member v (of_inner n)
      → key_eq key_size key (key_of v) ≡ false
  past_Found r d path n key pos i m l v inside =
      let (c, h, m') = Member-of_inner n v inside in
      let along = (InnerWf-Member key_of key_size r d path n c v i h m').0 in
      key_eq_ne key_size (d + pos) key (key_of v) (omega (arith, i.span))
        (ground (arith, along (d + pos), m.other l))

  -- At an inner node, from what the next round does below it.
  inner_Found :
      (r f d : ℕ) (path : Key) (n : Inner V) (key : Key)
      → d ≤ key_size
      → IsBytes key
      → InnerWf key_of key_size d path (Wf key_of key_size r) n
      → Found (Body.find n.body (key (d + n.head.prefix_length))) key (
          find_loop key_of key_size f
            (suc (d + n.head.prefix_length))
            (Body.find n.body (key (d + n.head.prefix_length)))
            key)
      → Found (of_inner n) key (find_loop key_of key_size (suc f) d (of_inner n) key)
  inner_Found r f d path n key h b i rest =
      elim (pes_prefix_mismatch_pos_lem key_of key_size r d path key n i) [
        | inl all ↦ rw (find_loop-of_inner f d n key h all) (child_Found r d path n key _ i b rest)
        | inr (l, m) ↦ miss (find_loop_past f d n key h l) (past_Found r d path n key _ i m l)
      ]

  -- In a subtree that holds the invariant, with a round for each byte left and one more, the
  -- lookup of a key of bytes returns a value of the subtree with that key, or the end if there is
  -- none.
  pub find_loop_lem :
      (r f d : ℕ) (path : Key) (t : Node V) (key : Key)
      → key_size ≤ f + d
      → d ≤ key_size
      → IsBytes key
      → Wf key_of key_size r d path t
      → Found t key (find_loop key_of key_size (suc f) d t key)
  find_loop_lem zero f d path t key e h b w = elim (node_case t) [
    | null_case p ↦ rw p (miss (find_loop-null f d key h) (λ v m. absurd (not-Member_null v m)))
    | leaf_case v p ↦ rw p (leaf_Found f d v key h)
    | inner_case n p ↦ absurd (not-Wf-zero key_of key_size d path n (rw p at w))
  ]
  find_loop_lem (suc r) zero d path t key e h b w = elim (node_case t) [
    | null_case p ↦ rw p (miss (find_loop-null zero d key h) (λ v m. absurd (not-Member_null v m)))
    | leaf_case v p ↦ rw p (leaf_Found zero d v key h)
    | inner_case n p ↦
        let i = InnerWf-of_Wf key_of key_size r d path n (rw p at w) in
        absurd (omega (arith, i.span))
  ]
  find_loop_lem (suc r) (suc f) d path t key e h b w = elim (node_case t) [
    | null_case p ↦
        rw p (miss (find_loop-null (suc f) d key h) (λ v m. absurd (not-Member_null v m)))
    | leaf_case v p ↦ rw p (leaf_Found (suc f) d v key h)
    | inner_case n p ↦
        let i = InnerWf-of_Wf key_of key_size r d path n (rw p at w) in
        rw p (
          inner_Found r (suc f) d path n key h b i (
            find_loop_lem r f _ _ (Body.find n.body (key (d + n.head.prefix_length))) key
              (omega arith) i.span b (i.children _ (b (d + n.head.prefix_length)))))
  ]
