-- ===== src/PrefixTree/Insert/Loop.antt =====
-- Lemmas about the loop of `insert_unique` of include/art/ar_prefix_tree.h.
use cpp_art.Base.{
  ℕ, zero, suc, ◌+◌, ◌^◌, ◌≡◌, ◌<◌, ◌≤◌, [], ◌∷◌, false, some, refl, ◌∙◌, sym, ap, arith, inl, inr,
  ne→==, lt→ltb, Bool-cases,
}
use cpp_art.Node.Body
use cpp_art.Node.Body.{Body}
use cpp_art.Node.Body.Laws.{two-le-min_size}
use cpp_art.PrefixTree.{
  Node, Inner, null, leaf, eq_null, not_null, of_inner, view-of_inner, node_pointer, is_null,
  Ancestors, null_case, leaf_case, inner_case, node_case, Member, here, Counted, in_children, below,
}
use cpp_art.PrefixTree.Wf.{InnerWf, Wf}
use cpp_art.PrefixTree.Prefix.Steps.{
  Wf-Agree, Agree-Wf_leaf, InnerWf-of_Wf, not-Wf-zero, Member-of_inner, Counted-of_inner,
}
use cpp_art.PrefixTree.Insert.{placed, plug, split_leaf, insert_below, insert_loop, match_prefix}
use cpp_art.PrefixTree.Insert.Open.{Open}
use cpp_art.PrefixTree.Insert.Descend.{
  whole, parted, match_prefix_lem, Inserted, found, grew, below_Inserted, update_Inserted,
}
use cpp_art.PrefixTree.Insert.Tiebreak.{tiebreak_lem}
use cpp_art.Tree.Key.{Key, key_eq, IsBytes, Agree}
use cpp_art.Tree.Find.{done}
use cpp_art.Tree.Insert.{make_room}
use cpp_art.Tree.Insert.Room.{make_room_lem}

-- The bytes at which the ancestors of a node at depth `d` branch come before `d`.
abbrev pub Above : {V : Type 0} → ℕ → Ancestors V → Type 0
Above d [] = Unit
Above d (n ∷ above) = (n.head.depth + n.head.prefix_length < d) × Above d above

Above-mono : {V : Type 0} (d e : ℕ) (above : Ancestors V) → d ≤ e → Above d above → Above e above
Above-mono d e [] l h = tt
Above-mono d e (n ∷ above) l h = (omega arith, Above-mono d e above l h.1)

-- Ancestors read only the bytes above them.
plug-Agree :
    {V : Type 0} (d : ℕ) (k j : Key) (above : Ancestors V) (t : Node V)
    → Agree d k j
    → Above d above
    → plug k above t ≡ plug j above t
unfolding plug
plug-Agree d k j [] t a h = refl
plug-Agree d k j (n ∷ above) t a h =
    rw (a (n.head.depth + n.head.prefix_length) h.0) (plug-Agree d k j above _ a h.1)

-- A node that is not full has room as it is.
make_room_free :
    {V : Type 0} (b : Body (Node V)) → Body.size b < Body.max_size b → make_room b ≡ some b
unfolding make_room
make_room_free b h = rw (make_room, ne→== (Body.size b) (Body.max_size b) (omega arith)) refl

module _ {V : Type 0} (key_of : V → Key) (key_size : ℕ) (short : key_size ≤ 2 ^ 16)
    (bytes : (v : V) → IsBytes (key_of v)) where
  insert_loop-null :
      (f d : ℕ) (above : Ancestors V) (x : V)
      → d ≤ key_size
      → insert_loop key_of key_size (suc f) d above null x ≡ insert_below key_of key_size d above x
  unfolding insert_loop
  insert_loop-null f d above x h = rw (insert_loop, lt→ltb d (key_size + 1) (omega arith)) refl

  insert_loop-of_inner :
      (f d m : ℕ) (above : Ancestors V) (n p : Inner V) (x : V)
      → d ≤ key_size
      → match_prefix key_of key_size n (key_of x) ≡ done (p, m)
      → insert_loop key_of key_size (suc f) d above (of_inner n) x
        ≡ insert_loop key_of key_size f
            (suc (d + m))
            (p ∷ above)
            (Body.find p.body (key_of x (d + m)))
            x
  unfolding insert_loop
  insert_loop-of_inner f d m above n p x h e =
      rw (insert_loop, lt→ltb d (key_size + 1) (omega arith), view-of_inner, e) refl

  -- At a leaf.
  leaf_Inserted :
      (f d : ℕ) (above : Ancestors V) (w x : V)
      → d ≤ key_size
      → Agree d (key_of w) (key_of x)
      → Above d above
      → Inserted key_of key_size d above
          (leaf w)
          x
          (insert_loop key_of key_size (suc f) d above (leaf w) x)
  unfolding insert_loop split_leaf
  leaf_Inserted f d above w x l a h = elim (Bool-cases (key_eq key_size (key_of x) (key_of w))) [
    | inl same ↦
        found w (rw (insert_loop, lt→ltb d (key_size + 1) (omega arith), same) refl) (here refl)
          same
    | inr ne ↦
        let (n, made, g) = tiebreak_lem key_of key_size short bytes d w x l a ne in
        grew (of_inner n)
          (rw (insert_loop, lt→ltb d (key_size + 1) (omega arith), ne, split_leaf, made)
            (ap (λ (t : Node V). done (placed t))
              (plug-Agree d (key_of w) (key_of x) above (of_inner n) a h)))
          g
  ]

  -- A key that leaves the prefix goes below the new parent.
  parted_Inserted :
      (r f d m : ℕ) (above : Ancestors V) (n parent : Inner V) (x : V)
      → (i : InnerWf key_of key_size d (key_of x) (Wf key_of key_size r) n)
      → match_prefix key_of key_size n (key_of x) ≡ done (parent, m)
      → m < n.head.prefix_length
      → Open key_of key_size (suc r) d x parent
      → parent.head.prefix_length ≡ m
      → Body.find parent.body (key_of x (d + m)) ≡ null
      → ((v : V) → Member v (of_inner n) → Member v (of_inner parent))
      → ((v : V) → Member v (of_inner parent) → Member v (of_inner n))
      → ((k : ℕ) → Counted (of_inner n) k → Counted (of_inner parent) k)
      → Inserted key_of key_size d above
          (of_inner n)
          x
          (insert_loop key_of key_size (suc (suc f)) d above (of_inner n) x)
  parted_Inserted r f d m above n parent x i e l o length free into out count =
      rw
        (
          insert_loop-of_inner (suc f) d m above n parent x (omega (arith, i.span)) e,
          free,
          insert_loop-null f (suc (d + m)) (parent ∷ above) x (omega (arith, i.span)),
        )
        (below_Inserted key_of key_size bytes (suc r) d m above parent parent.body x (of_inner n)
          (make_room_free parent.body o.room) o (rw length free) (sym length) into out count)

  -- A key that goes along the prefix to a byte without a child.
  hole_Inserted :
      (r d : ℕ) (above : Ancestors V) (n : Inner V) (x : V)
      → (i : InnerWf key_of key_size d (key_of x) (Wf key_of key_size r) n)
      → Agree (d + n.head.prefix_length) i.line (key_of x)
      → Body.find n.body (key_of x (d + n.head.prefix_length)) ≡ null
      → Inserted key_of key_size d above
          (of_inner n)
          x
          (insert_below key_of key_size (suc (d + n.head.prefix_length)) (n ∷ above) x)
  hole_Inserted r d above n x i along free =
      let (b, made, room) =
        make_room_lem n.body (key_of x (d + n.head.prefix_length)) i.valid (λ l. i.roomy)
          (omega (arith, i.roomy, two-le-min_size n.body)) (bytes x (d + n.head.prefix_length))
          free in
      let same : (c : ℕ) → c < 256 → Body.find b c ≡ Body.find n.body c = room.kept.same_find in
      below_Inserted key_of key_size bytes key_size d n.head.prefix_length above n b x (of_inner n)
        made
        (record {
          at_depth = i.at_depth;
          valid = room.kept.valid;
          room = room.room;
          sized = room.sized;
          span = i.span;
          stored = λ j h l. ground (arith, i.stored j h l, along (d + j));
          children = λ c h. rw (same c h) (
              Wf-Agree key_of key_size r key_size _ _ _ (Body.find n.body c) (omega arith)
                (λ j l. ground (arith, along j)) (i.children c h));
        })
        (same _ (bytes x (d + n.head.prefix_length)) ∙ free) refl
        (λ v m.
          let (c, h, l) = Member-of_inner n v m in
          below (record n { body = b }) c refl h (rw (same c h) l))
        (λ v m.
          let (c, h, l) = Member-of_inner (record n { body = b }) v m in
          below n c refl h (rw (same c h) at l))
        (λ k m.
          let (f, s, all) = Counted-of_inner n k m in
          in_children (record n { body = b }) f refl s (λ c h. rw (same c h) (all c h)))

  -- A key that goes along the prefix, from what the next round does below it.
  whole_Inserted :
      (r f d : ℕ) (above : Ancestors V) (n : Inner V) (x : V)
      → (i : InnerWf key_of key_size d (key_of x) (Wf key_of key_size r) n)
      → match_prefix key_of key_size n (key_of x) ≡ done (n, n.head.prefix_length)
      → Agree (d + n.head.prefix_length) i.line (key_of x)
      → (is_null (Body.find n.body (key_of x (d + n.head.prefix_length))) ≡ false
          → Inserted key_of key_size
              (suc (d + n.head.prefix_length))
              (n ∷ above)
              (Body.find n.body (key_of x (d + n.head.prefix_length)))
              x
              (insert_loop key_of key_size
                (suc f)
                (suc (d + n.head.prefix_length))
                (n ∷ above)
                (Body.find n.body (key_of x (d + n.head.prefix_length)))
                x))
      → Inserted key_of key_size d above
          (of_inner n)
          x
          (insert_loop key_of key_size (suc (suc f)) d above (of_inner n) x)
  whole_Inserted r f d above n x i e along rest =
      rw (insert_loop-of_inner (suc f) d n.head.prefix_length above n n x (omega (arith, i.span)) e)
        (elim (Bool-cases (is_null (Body.find n.body (key_of x (d + n.head.prefix_length))))) [
          | inl none_there ↦
              let free =
                eq_null (Body.find n.body (key_of x (d + n.head.prefix_length))) none_there in
              rw (free, insert_loop-null f (suc (d + n.head.prefix_length)) (n ∷ above) x i.span)
                (hole_Inserted r d above n x i along free)
          | inr held ↦ elim (rest held) [
            | found w o m same ↦
                found w o (below n _ refl (bytes x (d + n.head.prefix_length)) m) same
            | grew t o g ↦ update_Inserted key_of key_size bytes r d x n t i along held g above o
          ]
        ])

  -- At any subtree that holds the invariant and is not null, below ancestors that branch before
  -- its depth, and with a round for each byte left and one more, the loop of `insert_unique`
  -- returns. Either the subtree has a value with the key, and that value is returned; or the
  -- outcome is the tree with a changed subtree put under the ancestors, which holds the
  -- invariant, has the values of the old one and the new value, whose key none of them has, and
  -- one leaf more.
  pub insert_loop_lem :
      (r f d : ℕ) (above : Ancestors V) (t : Node V) (x : V)
      → key_size ≤ f + d
      → d ≤ key_size
      → Wf key_of key_size r d (key_of x) t
      → is_null t ≡ false
      → Above d above
      → Inserted key_of key_size d above t x (insert_loop key_of key_size (suc f) d above t x)
  insert_loop_lem zero f d above t x e l w solid h = elim (node_case t) [
    | null_case p ↦ absurd (not_null t solid p)
    | leaf_case v p ↦ rw p (
        leaf_Inserted f d above v x l
          (Agree-Wf_leaf key_of key_size zero d (key_of x) v (rw p at w)) h)
    | inner_case n p ↦ absurd (not-Wf-zero key_of key_size d (key_of x) n (rw p at w))
  ]
  insert_loop_lem (suc r) zero d above t x e l w solid h = elim (node_case t) [
    | null_case p ↦ absurd (not_null t solid p)
    | leaf_case v p ↦ rw p (
        leaf_Inserted zero d above v x l
          (Agree-Wf_leaf key_of key_size (suc r) d (key_of x) v (rw p at w)) h)
    | inner_case n p ↦
        let i = InnerWf-of_Wf key_of key_size r d (key_of x) n (rw p at w) in
        absurd (omega (arith, i.span))
  ]
  insert_loop_lem (suc r) (suc f) d above t x e l w solid h = elim (node_case t) [
    | null_case p ↦ absurd (not_null t solid p)
    | leaf_case v p ↦ rw p (
        leaf_Inserted (suc f) d above v x l
          (Agree-Wf_leaf key_of key_size (suc r) d (key_of x) v (rw p at w)) h)
    | inner_case n p ↦
        let i = InnerWf-of_Wf key_of key_size r d (key_of x) n (rw p at w) in
        rw p (elim (match_prefix_lem key_of key_size short r d x n i) [
          | parted m parent o apart inside q ↦
              parted_Inserted r f d m above n parent x i o inside q.way q.length q.free q.into q.out
                q.count
          | whole o along ↦ whole_Inserted r f d above n x i o along (λ held.
              insert_loop_lem key_size f (suc (d + n.head.prefix_length)) (n ∷ above)
                (Body.find n.body (key_of x (d + n.head.prefix_length))) x (omega arith) i.span
                (Wf-Agree key_of key_size r key_size _ _ _
                  (Body.find n.body (key_of x (d + n.head.prefix_length))) (omega arith)
                  (λ j k. ground (arith, along j))
                  (i.children _ (bytes x (d + n.head.prefix_length))))
                held (omega (arith, i.at_depth), Above-mono d _ above (omega arith) h))
        ])
  ]
