-- ===== src/PrefixTree/Erase/Loop.antt =====
-- Lemmas about the loop of `erase_unique` of include/art/ar_prefix_tree.h.
use cpp_art.Base.{
  sum_below, sum_below_change, ℕ, zero, suc, ◌+◌, ◌-◌, ◌^◌, ◌≡◌, ◌≢◌, ◌<◌, ◌≤◌, ◌∷◌, false, Option,
  none, some, refl, ◌∙◌, ap, arith, inl, inr, eq_or_ne, lt_or_le, ◌==◌, eq→==, ne→==, lt→ltb,
  le→ltb, if◌then◌else◌, Bool-cases,
}
use cpp_art.Node.Body
use cpp_art.PrefixTree.{
  Node, Inner, null, leaf, of_inner, view-of_inner, node_pointer, is_null, Ancestors, Member, below,
  in_children, null_case, leaf_case, inner_case, node_case,
}
use cpp_art.PrefixTree.Wf.{InnerWf, Wf}
use cpp_art.PrefixTree.Prefix.{prefix_mismatch_pos}
use cpp_art.PrefixTree.Prefix.Least.{Mismatch, prefix_mismatch_pos_lem}
use cpp_art.PrefixTree.Prefix.Steps.{
  Wf-Agree, Member-leaf, Member-of_inner, Counted-of_inner, not-Member_null, InnerWf-Member,
  InnerWf-of_Wf, is_null-of_inner,
}
use cpp_art.PrefixTree.Replace.{plug_at_depth, at_branch, elsewhere, updated-Wf}
use cpp_art.PrefixTree.Insert.{plug}
use cpp_art.PrefixTree.Erase.{fix_after_erase, erase_leaf, erase_loop}
use cpp_art.PrefixTree.Erase.Lost.{Lost, leaf_Lost}
use cpp_art.Tree.Key.{Key, key_eq, IsBytes, Agree, key_eq_ne}
use cpp_art.Tree.Find.{Outcome, done}

module _ {V : Type 0} (key_of : V → Key) (key_size : ℕ) where
  -- A child that the erasure changed.
  module _ (r d : ℕ) (k : Key) (n : Inner V) (t : Node V) (bytes : IsBytes k)
      (i : InnerWf key_of key_size d k (Wf key_of key_size r) n)
      (along : Agree (d + n.head.prefix_length) i.line k)
      (held : is_null (Body.find n.body (k (d + n.head.prefix_length))) ≡ false)
      (g : Lost key_of key_size
        (suc (d + n.head.prefix_length))
        k
        (Body.find n.body (k (d + n.head.prefix_length)))
        t) where
    abbrev branch : ℕ
    branch = k (d + n.head.prefix_length)

    abbrev updated : Inner V
    updated = record n { body = Body.update_child_ptr n.body branch t }

    small : branch < 256
    small = bytes (d + n.head.prefix_length)

    here_now : Body.find updated.body branch ≡ t
    here_now = at_branch key_of key_size r g.layers d k n t bytes i along held g.wf g.solid

    as_before : (c : ℕ) → c < 256 → c ≢ branch → Body.find updated.body c ≡ Body.find n.body c
    as_before = elsewhere key_of key_size r g.layers d k n t bytes i along held g.wf g.solid

    update_Lost : Lost key_of key_size d k (of_inner n) (of_inner updated)
    update_Lost = record {
      layers = suc key_size;
      wf = updated-Wf key_of key_size r g.layers d k n t bytes i along held g.wf g.solid;
      solid = is_null-of_inner updated;
      kept = λ v m ne.
          let (c, h, l) = Member-of_inner n v m in
          elim (eq_or_ne c branch) [
            | inl p ↦ below updated branch refl small (rw here_now (g.kept v (rw p at l) ne))
            | inr p ↦ below updated c refl h (rw (as_before c h p) l)
          ];
      only = λ v m.
          let (c, h, l) = Member-of_inner updated v m in
          elim (eq_or_ne c branch) [
            | inl p ↦
                let (q, ne) = g.only v (rw (p, here_now) at l) in (below n branch refl small q, ne)
            | inr p ↦
                let l' : Member v (Body.find n.body c) = rw (as_before c h p) at l in
                (
                  below n c refl h l',
                  key_eq_ne key_size (d + n.head.prefix_length) k (key_of v) i.span
                      (ground (arith, (InnerWf-Member key_of key_size r d k n c v i h l').1)),
                )
          ];
      fewer = λ m q.
          let (f, s, all) = Counted-of_inner n m q in
          let (j, e, fewer) = g.fewer (f branch) (all branch small) in
          let less = λ (c : ℕ). if c == branch then j else f c in
          (
            sum_below 256 less,
            ground (arith, s, e, sum_below_change 256 f less branch small (λ j h ne. ground arith)),
            in_children updated less refl refl (λ c h. elim (eq_or_ne c branch) [
              | inl p ↦ rw (eq→== c branch p, p, here_now) fewer
              | inr p ↦ rw (ne→== c branch p, as_before c h p) (all c h)
            ]),
          );
      had = let (w, m, same) = g.had in (w, below n branch refl small m, same);
    }

  -- No value of the subtree has the key, or the changed subtree is put under the ancestors.
  pub data Erased (d : ℕ) (above : Ancestors V) (t : Node V) (k : Key)
      : Outcome (Option (Node V)) → Type 0 where
    missing :
        {o : Outcome (Option (Node V))}
        → o ≡ done none
        → ((v : V) → Member v t → key_eq key_size k (key_of v) ≡ false)
        → Erased d above t k o
    erased :
        {o : Outcome (Option (Node V))} (t' : Node V)
        → o ≡ done (some (plug k above t'))
        → Lost key_of key_size d k t t'
        → Erased d above t k o

  -- A key that leaves the prefix.
  past_Erased :
      (f r d pos : ℕ) (above : Ancestors V) (n : Inner V) (k : Key)
      → (i : InnerWf key_of key_size d k (Wf key_of key_size r) n)
      → prefix_mismatch_pos key_of key_size n k ≡ done pos
      → Mismatch d pos n i.line k
      → pos < n.head.prefix_length
      → Erased d above (of_inner n) k (erase_loop key_of key_size (suc f) d above n k)
  unfolding erase_loop
  past_Erased f r d pos above n k i e m l =
      missing
        (rw
          (
            erase_loop,
            lt→ltb d key_size (omega (arith, i.span)),
            e,
            lt→ltb pos n.head.prefix_length l,
          )
          refl)
        (λ v inside.
          let (c, h, m') = Member-of_inner n v inside in
          let along = (InnerWf-Member key_of key_size r d k n c v i h m').0 in
          key_eq_ne key_size (d + pos) k (key_of v) (omega (arith, i.span))
            (ground (arith, along (d + pos), m.other l)))

  -- A key that goes along the prefix to a byte without a child, or to a leaf with another key.
  absent_Erased :
      (r d : ℕ) (above : Ancestors V) (n : Inner V) (k : Key) (o : Outcome (Option (Node V)))
      → (i : InnerWf key_of key_size d k (Wf key_of key_size r) n) → o ≡ done none
      → ((v : V)
          → Member v (Body.find n.body (k (d + n.head.prefix_length)))
          → key_eq key_size k (key_of v) ≡ false)
      → Erased d above (of_inner n) k o
  absent_Erased r d above n k o i e out = missing e (λ v inside.
      let (c, h, m) = Member-of_inner n v inside in
      elim (eq_or_ne c (k (d + n.head.prefix_length))) [
        | inl p ↦ out v (rw p at m)
        | inr p ↦
            key_eq_ne key_size (d + n.head.prefix_length) k (key_of v) i.span
              (ground (arith, (InnerWf-Member key_of key_size r d k n c v i h m).1))
      ])

  erase_loop-null :
      (f d p : ℕ) (above : Ancestors V) (n : Inner V) (k : Key)
      → d < key_size
      → prefix_mismatch_pos key_of key_size n k ≡ done p
      → n.head.prefix_length ≤ p
      → Body.find n.body (k (d + p)) ≡ null
      → erase_loop key_of key_size (suc f) d above n k ≡ done none
  unfolding erase_loop
  erase_loop-null f d p above n k h e l g =
      rw (erase_loop, lt→ltb d key_size h, e, le→ltb p n.head.prefix_length l, g) refl

  erase_loop-leaf :
      (f d p : ℕ) (above : Ancestors V) (n : Inner V) (k : Key) (w : V)
      → d < key_size
      → prefix_mismatch_pos key_of key_size n k ≡ done p
      → n.head.prefix_length ≤ p
      → Body.find n.body (k (d + p)) ≡ leaf w
      → erase_loop key_of key_size (suc f) d above n k
        ≡ erase_leaf key_of key_size (d + p) above n w k
  unfolding erase_loop
  erase_loop-leaf f d p above n k w h e l g =
      rw (erase_loop, lt→ltb d key_size h, e, le→ltb p n.head.prefix_length l, g) refl

  erase_loop-inner :
      (f d p : ℕ) (above : Ancestors V) (n : Inner V) (k : Key) (c : Inner V)
      → d < key_size
      → prefix_mismatch_pos key_of key_size n k ≡ done p
      → n.head.prefix_length ≤ p
      → Body.find n.body (k (d + p)) ≡ of_inner c
      → erase_loop key_of key_size (suc f) d above n k
        ≡ erase_loop key_of key_size f (suc (d + p)) (n ∷ above) c k
  unfolding erase_loop
  erase_loop-inner f d p above n k c h e l g =
      rw (erase_loop, lt→ltb d key_size h, e, le→ltb p n.head.prefix_length l, g, view-of_inner)
        refl

  -- A leaf below the node.
  leaf_Erased :
      (short : key_size ≤ 2 ^ 16) (r d : ℕ) (above : Ancestors V) (n : Inner V) (k : Key) (w : V)
      → IsBytes k
      → (i : InnerWf key_of key_size d k (Wf key_of key_size r) n)
      → Agree (d + n.head.prefix_length) i.line k
      → Body.find n.body (k (d + n.head.prefix_length)) ≡ leaf w
      → Erased d above
          (of_inner n)
          k
          (erase_leaf key_of key_size (d + n.head.prefix_length) above n w k)
  unfolding erase_leaf fix_after_erase
  leaf_Erased short r d above n k w bytes i along g =
      elim (Bool-cases (key_eq key_size k (key_of w))) [
        | inl same ↦
            let (t, e, lost) = leaf_Lost key_of key_size short r d k n w bytes i along g same in
            erased t (rw (erase_leaf, same, fix_after_erase, e) refl) lost
        | inr ne ↦
            absent_Erased r d above n k _ i (rw (erase_leaf, ne) refl)
              (λ v m. rw (Member-leaf w v (rw g at m)) ne)
      ]

  child_InnerWf :
      (r d : ℕ) (n : Inner V) (k : Key) (c : Inner V)
      → IsBytes k
      → (i : InnerWf key_of key_size d k (Wf key_of key_size r) n)
      → Agree (d + n.head.prefix_length) i.line k
      → Body.find n.body (k (d + n.head.prefix_length)) ≡ of_inner c
      → InnerWf key_of key_size (suc (d + n.head.prefix_length)) k (Wf key_of key_size key_size) c
  child_InnerWf r d n k c bytes i along g = InnerWf-of_Wf key_of key_size key_size _ k c (
      Wf-Agree key_of key_size r (suc key_size) _ _ k (of_inner c) (omega arith)
        (λ j l. ground (arith, along j))
        (rw g at (i.children _ (bytes (d + n.head.prefix_length)))))

  -- At an inner node, from what the next round does below it.
  child_Erased :
      (r d : ℕ) (above : Ancestors V) (n : Inner V) (k : Key) (c : Inner V)
      → (o : Outcome (Option (Node V))) → IsBytes k
      → (i : InnerWf key_of key_size d k (Wf key_of key_size r) n)
      → Agree (d + n.head.prefix_length) i.line k
      → Body.find n.body (k (d + n.head.prefix_length)) ≡ of_inner c
      → Erased (suc (d + n.head.prefix_length)) (n ∷ above) (of_inner c) k o
      → Erased d above (of_inner n) k o
  child_Erased r d above n k c o bytes i along g (missing e out) =
      absent_Erased r d above n k o i e (λ v m. out v (rw g at m))
  child_Erased r d above n k c o bytes i along g (erased t e lost) =
      erased _ (e ∙ ap (λ (s : Node V). done (some s)) (plug_at_depth k d n above t i.at_depth))
        (update_Lost r d k n t bytes i along (rw g (is_null-of_inner c)) (rw g lost))

  -- At an inner node that holds the invariant, and with a round for each byte left, the loop of
  -- `erase_unique` returns. Either no value of the subtree has the key; or the outcome is the
  -- tree with a changed subtree put under the ancestors, which holds the invariant and has one
  -- leaf less, all values of the old one but the one with the key, and no other.
  pub erase_loop_lem :
      (short : key_size ≤ 2 ^ 16) (f r d : ℕ) (above : Ancestors V) (n : Inner V) (k : Key)
      → IsBytes k
      → key_size ≤ f + d
      → InnerWf key_of key_size d k (Wf key_of key_size r) n
      → Erased d above (of_inner n) k (erase_loop key_of key_size f d above n k)
  erase_loop_lem short zero r d above n k bytes e i = absurd (omega (arith, i.span))
  erase_loop_lem short (suc f) r d above n k bytes e i =
      let (pos, at_pos, m) = prefix_mismatch_pos_lem key_of key_size r d k k n i in
      elim (lt_or_le pos n.head.prefix_length) [
        | inl l ↦ past_Erased f r d pos above n k i at_pos m l
        | inr l ↦
            let all : pos ≡ n.head.prefix_length = omega (arith, m.within) in
            let start : d < key_size = omega (arith, i.span) in
            let whole : prefix_mismatch_pos key_of key_size n k ≡ done n.head.prefix_length =
              rw all at at_pos in
            let along : Agree (d + n.head.prefix_length) i.line k = λ j h. elim (lt_or_le j d) [
              | inl early ↦ i.onward j early
              | inr late ↦ ground (arith, m.same (j - d))
            ] in
            let up_to : n.head.prefix_length ≤ n.head.prefix_length = omega arith in
            elim (node_case (Body.find n.body (k (d + n.head.prefix_length)))) [
              | null_case g ↦
                  absent_Erased r d above n k _ i
                    (erase_loop-null f d n.head.prefix_length above n k start whole up_to g)
                    (λ v q. absurd (not-Member_null v (rw g at q)))
              | leaf_case w g ↦
                  rw (erase_loop-leaf f d n.head.prefix_length above n k w start whole up_to g)
                    (leaf_Erased short r d above n k w bytes i along g)
              | inner_case c g ↦
                  rw (erase_loop-inner f d n.head.prefix_length above n k c start whole up_to g) (
                    child_Erased r d above n k c _ bytes i along g (
                      erase_loop_lem short f key_size (suc (d + n.head.prefix_length)) (n ∷ above) c
                        k bytes (omega arith) (child_InnerWf r d n k c bytes i along g)))
            ]
      ]
