-- ===== src/PrefixTree/Prefix/Least.antt =====
-- `minimum` and the mismatch of a key with a prefix, of include/art/ar_prefix_tree.h.
use cpp_art.Base.{
  Option-cases, ◌⊎◌, ℕ, zero, suc, ◌+◌, ◌-◌, ◌≡◌, ◌≢◌, ◌<◌, ◌≤◌, false, none, some, refl, ◌∙◌,
  arith, inl, inr, lt_or_le, lt→ltb, le→ltb, first_from, first_from-some, first_from_before,
  first_from-none,
}
use cpp_art.Node.Body
use cpp_art.Node.Body.Laws.{two-le-min_size}
use cpp_art.Node.Body.Order.{min_slot_lem}
use cpp_art.PrefixTree.{
  Node, Inner, of_inner, view-of_inner, node_pointer, is_null, not_null, null_case, leaf_case,
  inner_case, node_case, Member, here, below,
}
use cpp_art.PrefixTree.Wf.{InnerWf, Wf, max_prefix_length}
use cpp_art.PrefixTree.Prefix.{
  minimum, pes_prefix_mismatch_pos, pessimistic_length, stored_mismatch, pes_prefix_mismatch_pos,
  rest_mismatch_pos, prefix_mismatch_pos, differs_from_key, differs_from_prefix,
}
use cpp_art.PrefixTree.Prefix.Steps.{
  InnerWf-of_Wf, Wf-Agree, Member-of_inner, not-Wf-zero, InnerWf-Member, is_null-of_inner,
  Wf-of_inner,
}
use cpp_art.Tree.Key.{Key, Agree}
use cpp_art.Tree.Find.{done}

module _ {V : Type 0} (key_of : V → Key) (key_size : ℕ) where
  minimum-of_inner :
      (f : ℕ) (n : Inner V) (i : ℕ)
      → Body.min_slot n.body ≡ some i
      → minimum (suc f) (of_inner n) ≡ minimum f (Body.child n.body i)
  unfolding minimum
  minimum-of_inner f n i e = rw (view-of_inner, minimum) (rw (e, minimum) refl)

  -- `minimum` returns a value of the subtree.
  pub minimum_lem :
      (f r d : ℕ) (path : Key) (t : Node V)
      → r < f
      → Wf key_of key_size r d path t
      → is_null t ≡ false
      → (v : V) × (minimum f t ≡ done v) × Member v t
  minimum_lem zero r d path t h w solid = absurd (omega arith)
  minimum_lem (suc f) zero d path t h w solid = elim (node_case t) [
    | null_case p ↦ absurd (not_null t solid p)
    | leaf_case v p ↦ (v, rw p (unfold minimum in refl), here p)
    | inner_case n p ↦ absurd (not-Wf-zero key_of key_size d path n (rw p at w))
  ]
  minimum_lem (suc f) (suc r) d path t h w solid = elim (node_case t) [
    | null_case p ↦ absurd (not_null t solid p)
    | leaf_case v p ↦ (v, rw p (unfold minimum in refl), here p)
    | inner_case n p ↦
        let i = InnerWf-of_Wf key_of key_size r d path n (rw p at w) in
        let (s, slot, l) =
          min_slot_lem n.body i.valid (omega (arith, i.roomy, two-le-min_size n.body)) in
        let (v, m, inside) =
          minimum_lem f r _ _ (Body.child n.body s) (omega arith)
            (rw l.is at (i.children l.byte l.small)) l.solid in
        (v, rw p (minimum-of_inner f n s slot ∙ m), below n l.byte p l.small (rw l.is inside))
  ]

  -- A value below an inner node, whose key goes along the node's prefix.
  pub inner_minimum :
      (r d : ℕ) (path : Key) (n : Inner V)
      → (i : InnerWf key_of key_size d path (Wf key_of key_size r) n)
      → (v : V) × (minimum (suc key_size) (of_inner n) ≡ done v)
        × Member v (of_inner n)
        × Agree (d + n.head.prefix_length) (key_of v) i.line
  inner_minimum r d path n i =
      let all = Wf-of_inner key_of key_size r d path n i in
      let (v, m, inside) =
        minimum_lem (suc key_size) key_size d path (of_inner n) (omega arith)
          (Wf-Agree key_of key_size (suc r) key_size d path path (of_inner n) (omega arith)
            (λ j h. refl) all)
          (is_null-of_inner n) in
      let (c, h, below_c) = Member-of_inner n v inside in
      (v, m, inside, (InnerWf-Member key_of key_size r d path n c v i h below_c).0)

-- What the position of a mismatch tells of a key at depth `d`.
pub record Mismatch {V : Type 0} (d pos : ℕ) (n : Inner V) (line key : Key) : Type 0 where
  pub within : pos ≤ n.head.prefix_length
  pub same : (j : ℕ) → j < pos → key (d + j) ≡ line (d + j)
  pub other : pos < n.head.prefix_length → key (d + pos) ≢ line (d + pos)

module _ {V : Type 0} (key_of : V → Key) (key_size : ℕ) where
  pub stored_some :
      (r d : ℕ) (path key : Key) (n : Inner V) (pos : ℕ)
      → (i : InnerWf key_of key_size d path (Wf key_of key_size r) n)
      → stored_mismatch n.head key ≡ some pos
      → Mismatch d pos n i.line key × (pos < n.head.prefix_length)
  unfolding stored_mismatch
  stored_some r d path key n pos i e =
      let p = differs_from_prefix n.head key in
      let found = first_from-some p (pessimistic_length n.head) 0 pos e in
      (
        record {
          within = ground (arith, found);
          same = λ j h. ground (
            arith,
            found,
            first_from_before p (pessimistic_length n.head) 0 pos j e,
            i.at_depth,
            i.stored j,
          );
          other = λ h. ground (arith, found, i.at_depth, i.stored pos);
        },
        ground (arith, found),
      )

  pub stored_none :
      (r d : ℕ) (path key : Key) (n : Inner V) (j : ℕ)
      → (i : InnerWf key_of key_size d path (Wf key_of key_size r) n)
      → stored_mismatch n.head key ≡ none
      → j < n.head.prefix_length
      → j < max_prefix_length
      → key (d + j) ≡ i.line (d + j)
  unfolding stored_mismatch
  stored_none r d path key n j i e h k = ground (
    arith,
    first_from-none (differs_from_prefix n.head key) (pessimistic_length n.head) 0 j e,
    i.at_depth,
    i.stored j,
  )

  -- The part of the prefix that the node does not store.
  pub rest_mismatch_pos_lem :
      (r d : ℕ) (path key : Key) (n : Inner V)
      → (i : InnerWf key_of key_size d path (Wf key_of key_size r) n)
      → ((j : ℕ) → j < max_prefix_length → key (d + j) ≡ i.line (d + j))
      → max_prefix_length < n.head.prefix_length
      → (pos : ℕ) × (rest_mismatch_pos key_of key_size n key ≡ done pos)
        × Mismatch d pos n i.line key
  unfolding rest_mismatch_pos
  rest_mismatch_pos_lem r d path key n i start long =
      let (v, least, inside, along) = inner_minimum key_of key_size r d path n i in
      let p = differs_from_key n.head.depth (key_of v) key in
      let l = n.head.prefix_length - max_prefix_length in
      elim (Option-cases (first_from p l max_prefix_length)) [
        | inl (pos, e) ↦
            let found = first_from-some p l max_prefix_length pos e in
            (
              pos,
              rw (least, rest_mismatch_pos, e) refl,
              record {
                within = omega (arith, found);
                same = λ j h. elim (lt_or_le j max_prefix_length) [
                  | inl small ↦ start j small
                  | inr large ↦ ground (
                    arith,
                    first_from_before p l max_prefix_length pos j e,
                    i.at_depth,
                    along (d + j),
                    found,
                  )
                ];
                other = λ h. ground (arith, found, i.at_depth, along (d + pos));
              },
            )
        | inr e ↦ (
          n.head.prefix_length,
          rw (least, rest_mismatch_pos, e) refl,
          record {
            within = omega arith;
            same = λ j h. elim (lt_or_le j max_prefix_length) [
              | inl small ↦ start j small
              | inr large ↦
                  ground
                    (arith, first_from-none p l max_prefix_length j e, i.at_depth, along (d + j))
            ];
            other = λ h. absurd (omega arith);
          },
        )
      ]

  -- With enough levels for `minimum`, and under the invariant, `prefix_mismatch_pos` returns.
  pub prefix_mismatch_pos_lem :
      (r d : ℕ) (path key : Key) (n : Inner V)
      → (i : InnerWf key_of key_size d path (Wf key_of key_size r) n)
      → (pos : ℕ) × (prefix_mismatch_pos key_of key_size n key ≡ done pos)
        × Mismatch d pos n i.line key
  unfolding prefix_mismatch_pos
  prefix_mismatch_pos_lem r d path key n i = elim (Option-cases (stored_mismatch n.head key)) [
    | inl (pos, e) ↦ (pos, rw (e, prefix_mismatch_pos) refl, (stored_some r d path key n pos i e).0)
    | inr e ↦ elim (lt_or_le max_prefix_length n.head.prefix_length) [
      | inl long ↦
          rw (e, prefix_mismatch_pos, lt→ltb max_prefix_length n.head.prefix_length long)
            (rest_mismatch_pos_lem r d path key n i
              (λ j h. stored_none r d path key n j i e (omega arith) h) long)
      | inr short ↦ (
        n.head.prefix_length,
        rw (e, prefix_mismatch_pos, le→ltb max_prefix_length n.head.prefix_length short) refl,
        record {
          within = omega arith;
          same = λ j h. stored_none r d path key n j i e h (omega arith);
          other = λ h. absurd (omega arith);
        },
      )
    ]
  ]

  -- The stored part of the prefix ends in a mismatch, or none is seen.
  pub pes_prefix_mismatch_pos_lem :
      (r d : ℕ) (path key : Key) (n : Inner V)
      → (i : InnerWf key_of key_size d path (Wf key_of key_size r) n)
      → (pes_prefix_mismatch_pos n.head key ≡ n.head.prefix_length)
        ⊎ ((pes_prefix_mismatch_pos n.head key < n.head.prefix_length)
            × Mismatch d (pes_prefix_mismatch_pos n.head key) n i.line key)
  unfolding pes_prefix_mismatch_pos
  pes_prefix_mismatch_pos_lem r d path key n i = elim (Option-cases (stored_mismatch n.head key)) [
    | inl (pos, e) ↦
        let (m, small) = stored_some r d path key n pos i e in
        inr (rw (pes_prefix_mismatch_pos, e) (small, m))
    | inr e ↦ inl (rw (pes_prefix_mismatch_pos, e) refl)
  ]
