-- ===== src/PrefixTree/Insert/Descend.antt =====
-- How the loop of `insert_unique` of include/art/ar_prefix_tree.h goes through an inner node.
use cpp_art.Base.{
  sum_below_change, ℕ, suc, ◌+◌, ◌-◌, ◌^◌, ◌≡◌, ◌≢◌, ◌<◌, ◌≤◌, true, false, some, refl, ◌∙◌, ap,
  arith, inl, inr, eq_or_ne, lt_or_le, ◌==◌, eq→==, ne→==, if◌then◌else◌, lt→ltb, le→ltb, ◌∷◌,
}
use cpp_art.Node.Body
use cpp_art.Node.Body.{Body}
use cpp_art.PrefixTree.{
  Node, Inner, null, leaf, of_inner, node_pointer, is_null, Ancestors, Member, below, Counted,
  in_children,
}
use cpp_art.PrefixTree.Wf.{InnerWf, Wf}
use cpp_art.PrefixTree.Prefix.Least.{Mismatch, prefix_mismatch_pos_lem}
use cpp_art.PrefixTree.Prefix.Steps.{
  Member-of_inner, Counted-of_inner, is_null-of_inner, InnerWf-Member,
}
use cpp_art.PrefixTree.Insert.{Placed, existing, placed, plug, match_prefix, insert_below}
use cpp_art.PrefixTree.Replace.{plug_at_depth, at_branch, elsewhere, updated-Wf}
use cpp_art.PrefixTree.Insert.Open.{Open, Grown, Grown-same, open_insert}
use cpp_art.PrefixTree.Insert.Split.{Parted, split_prefix_into_parent_lem}
use cpp_art.Tree.Key.{Key, key_eq, IsBytes, Agree, key_eq_ne}
use cpp_art.Tree.Find.{Outcome, done}
use cpp_art.Tree.Insert.{make_room}

module _ {V : Type 0} (key_of : V → Key) (key_size : ℕ) (short : key_size ≤ 2 ^ 16) where
  -- The key goes along the whole prefix, or the prefix is split.
  pub data Matched (r d : ℕ) (x : V) (n : Inner V)
      (i : InnerWf key_of key_size d (key_of x) (Wf key_of key_size r) n)
      : Outcome (Inner V × ℕ) → Type 0 where
    whole :
        {o : Outcome (Inner V × ℕ)}
        → o ≡ done (n, n.head.prefix_length)
        → Agree (d + n.head.prefix_length) i.line (key_of x)
        → Matched r d x n i o
    parted :
        {o : Outcome (Inner V × ℕ)} (m : ℕ) (parent : Inner V)
        → o ≡ done (parent, m)
        → (apart : Mismatch d m n i.line (key_of x)) → (inside : m < n.head.prefix_length)
        → Parted key_of key_size short r d x n m i apart inside parent
        → Matched r d x n i o

  pub match_prefix_lem :
      (r d : ℕ) (x : V) (n : Inner V)
      → (i : InnerWf key_of key_size d (key_of x) (Wf key_of key_size r) n)
      → Matched r d x n i (match_prefix key_of key_size n (key_of x))
  unfolding match_prefix
  match_prefix_lem r d x n i =
      let (m, e, apart) = prefix_mismatch_pos_lem key_of key_size r d (key_of x) (key_of x) n i in
      elim (lt_or_le m n.head.prefix_length) [
        | inl inside ↦
            let (parent, made, p) =
              split_prefix_into_parent_lem key_of key_size short r d x n m i apart inside in
            parted m parent (rw (match_prefix, e, lt→ltb m n.head.prefix_length inside, made) refl)
              apart inside p
        | inr past ↦
            let all : m ≡ n.head.prefix_length = omega (arith, apart.within) in
            whole
              (rw (match_prefix, e, le→ltb m n.head.prefix_length past)
                (ap (λ (p : ℕ). done (n, p)) all))
              (λ j h. elim (lt_or_le j d) [
                | inl l ↦ i.onward j l
                | inr l ↦ ground (arith, apart.same (j - d))
              ])
      ]

module _ {V : Type 0} (key_of : V → Key) (key_size : ℕ) where
  -- The key is in the subtree and nothing changes, or the changed subtree is put under the
  -- ancestors.
  pub data Inserted (d : ℕ) (above : Ancestors V) (t : Node V) (x : V)
      : Outcome (Placed V) → Type 0 where
    found :
        {o : Outcome (Placed V)} (w : V)
        → o ≡ done (existing w)
        → Member w t
        → key_eq key_size (key_of x) (key_of w) ≡ true
        → Inserted d above t x o
    grew :
        {o : Outcome (Placed V)} (t' : Node V)
        → o ≡ done (placed (plug (key_of x) above t'))
        → Grown key_of key_size d x t t'
        → Inserted d above t x o

module _ {V : Type 0} (key_of : V → Key) (key_size : ℕ) (bytes : (v : V) → IsBytes (key_of v)) where
  -- A new leaf below the nearest ancestor, which has room, or has it after growing.
  pub below_Inserted :
      (r d m : ℕ) (above : Ancestors V) (n : Inner V) (b : Body (Node V)) (x : V) (t : Node V)
      → make_room n.body ≡ some b
      → Open key_of key_size r d x (record n { body = b })
      → Body.find b (key_of x (d + n.head.prefix_length)) ≡ null
      → m ≡ n.head.prefix_length
      → ((v : V) → Member v t → Member v (of_inner (record n { body = b })))
      → ((v : V) → Member v (of_inner (record n { body = b })) → Member v t)
      → ((k : ℕ) → Counted t k → Counted (of_inner (record n { body = b })) k)
      → Inserted key_of key_size d above t x
          (insert_below key_of key_size (suc (d + m)) (n ∷ above) x)
  unfolding insert_below
  below_Inserted r d m above n b x t made o free e into out count =
      let last : suc (d + m) - 1 ≡ d + n.head.prefix_length = omega arith in
      grew
        (of_inner
          (record n { body = Body.insert b (key_of x (d + n.head.prefix_length)) (leaf x) }))
        (rw (insert_below, made)
          (λ i. done (
            placed (
              plug (key_of x) above
                (of_inner (record n { body = Body.insert b (key_of x (last i)) (leaf x) }))))))
        (Grown-same key_of key_size d x t (of_inner (record n { body = b })) _ into out count
          (open_insert key_of key_size bytes r d x (record n { body = b }) o free))

  -- A child that the insertion changed.
  module _ (r d : ℕ) (x : V) (n : Inner V) (t : Node V)
      (i : InnerWf key_of key_size d (key_of x) (Wf key_of key_size r) n)
      (along : Agree (d + n.head.prefix_length) i.line (key_of x))
      (held : is_null (Body.find n.body (key_of x (d + n.head.prefix_length))) ≡ false)
      (g : Grown key_of key_size
        (suc (d + n.head.prefix_length))
        x
        (Body.find n.body (key_of x (d + n.head.prefix_length)))
        t) where
    branch : ℕ
    branch = key_of x (d + n.head.prefix_length)

    updated : Inner V
    updated = record n { body = Body.update_child_ptr n.body branch t }

    small : branch < 256
    unfolding branch
    small = bytes x (d + n.head.prefix_length)

    here_now : Body.find updated.body branch ≡ t
    unfolding updated branch
    here_now =
        at_branch key_of key_size r g.layers d (key_of x) n t (bytes x) i along held g.wf g.solid

    as_before : (c : ℕ) → c < 256 → c ≢ branch → Body.find updated.body c ≡ Body.find n.body c
    unfolding updated branch
    as_before =
        elsewhere key_of key_size r g.layers d (key_of x) n t (bytes x) i along held g.wf g.solid

    update_Grown : Grown key_of key_size d x (of_inner n) (of_inner updated)
    unfolding updated branch
    update_Grown = record {
      layers = suc key_size;
      wf =
          updated-Wf key_of key_size r g.layers d (key_of x) n t (bytes x) i along held g.wf
            g.solid;
      solid = is_null-of_inner updated;
      added = below updated branch refl small (rw here_now g.added);
      kept = λ v m.
          let (c, h, l) = Member-of_inner n v m in
          elim (eq_or_ne c branch) [
            | inl p ↦ below updated branch refl small (rw here_now (g.kept v (rw p at l)))
            | inr p ↦ below updated c refl h (rw (as_before c h p) l)
          ];
      only = λ v m.
          let (c, h, l) = Member-of_inner updated v m in
          elim (eq_or_ne c branch) [
            | inl p ↦ elim (g.only v (rw (p, here_now) at l)) [
              | inl e ↦ inl e
              | inr q ↦ inr (below n branch refl small q)
            ]
            | inr p ↦ inr (below n c refl h (rw (as_before c h p) at l))
          ];
      more = λ k m.
          let (f, s, all) = Counted-of_inner n k m in
          in_children updated (λ c. if c == branch then suc (f branch) else f c) refl
            (ground (
              arith,
              s,
              sum_below_change 256 f (λ c. if c == branch then suc (f branch) else f c) branch small
                  (λ j h ne. ground arith),
            ))
            (λ c h. elim (eq_or_ne c branch) [
              | inl p ↦ rw (eq→== c branch p, p, here_now) (g.more (f branch) (all branch small))
              | inr p ↦ rw (ne→== c branch p, as_before c h p) (all c h)
            ]);
      fresh = λ v m.
          let (c, h, l) = Member-of_inner n v m in
          elim (eq_or_ne c branch) [
            | inl p ↦ g.fresh v (rw p at l)
            | inr p ↦
                key_eq_ne key_size (d + n.head.prefix_length) (key_of x) (key_of v) i.span
                  (ground (arith, (InnerWf-Member key_of key_size r d (key_of x) n c v i h l).1))
          ];
    }

    pub update_Inserted :
        {o : Outcome (Placed V)} (above : Ancestors V)
        → o ≡ done (placed (plug (key_of x) (n ∷ above) t))
        → Inserted key_of key_size d above (of_inner n) x o
    unfolding updated branch
    update_Inserted above e =
        grew (of_inner updated)
          (e
            ∙ ap (λ (s : Node V). done (placed s))
                (plug_at_depth (key_of x) d n above t i.at_depth))
          update_Grown
