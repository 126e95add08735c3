-- ===== src/Tree/Insert/Loop.antt =====
-- Lemmas about the loop of `insert_unique` of include/art/ar_tree.h.
use cpp_art.Base.{
  sum_below_change, ℕ, zero, suc, ◌+◌, ◌-◌, ◌≡◌, ◌<◌, ◌∷◌, false, some, refl, ◌∙◌, if◌then◌else◌,
  ◌==◌, eq→==, ne→==, eq_or_ne, inl, inr, arith, Bool-cases, ap,
}
use cpp_art.Node.Body
use cpp_art.Node.Body.{Body}
use cpp_art.Node.Body.Laws.{
  insert-IsValid, find-insert, size-insert, update_child_ptr-IsValid, find-update_child_ptr,
  size-update_child_ptr, min_size-insert, min_size-update_child_ptr,
}
use cpp_art.Tree.{
  Node, Inner, null, leaf, eq_null, not_null, of_inner, view-of_inner, node_pointer, is_null,
  Ancestors, null_case, leaf_case, inner_case, node_case,
}
use cpp_art.Tree.Key.{Key, key_eq, IsBytes, Agree, key_eq_ne, Agree-extend}
use cpp_art.Tree.Find.{at, Outcome, done, find_loop}
use cpp_art.Tree.Find.Steps.{
  InnerWf-of_Wf, not-Wf-zero, Wf-leaf, Wf-set, Wf-unset, Agree-Wf_leaf, find_loop-of_inner,
  find_loop-leaf, find_loop-null,
}
use cpp_art.Tree.Wf.{InnerWf, Wf}
use cpp_art.Tree.Leaves.{leaves, leaves-null, leaves-leaf, leaves-of_inner}
use cpp_art.Tree.Insert.{
  Placed, existing, placed, plug, tiebreak, split_leaf, insert_below, insert_loop,
}
use cpp_art.Tree.Insert.Room.{make_room_lem, Roomy}
use cpp_art.Tree.Insert.Tiebreak.{Grown, Grown-of, tiebreak_lem}
use cpp_art.Tree.Insert.Above.{Above, Above-suc, plug-Agree, plug_at_depth}

module _ {V : Type 0} (key_of : V → Key) (key_size : ℕ) where
  insert_loop-of_inner :
      (f d : ℕ) (above : Ancestors V) (n : Inner V) (x : V)
      → insert_loop key_of key_size (suc f) d above (of_inner n) x
        ≡ insert_loop key_of key_size f (suc d) (n ∷ above) (Body.find n.body (key_of x d)) x
  unfolding insert_loop
  insert_loop-of_inner f d above n x = rw (view-of_inner n, insert_loop)

  insert_loop-null :
      (f d : ℕ) (above : Ancestors V) (x : V)
      → insert_loop key_of key_size (suc f) d above null x ≡ insert_below key_of key_size d above x
  unfolding insert_loop
  insert_loop-null f d above x = refl

module _ {V : Type 0} (key_of : V → Key) (key_size : ℕ) (bytes : (v : V) → IsBytes (key_of v)) where
  -- A leaf in a node with room for it.
  insert-Grown :
      (r d : ℕ) (x : V) (n : Inner V) (m : Body (Node V))
      → suc r + d ≡ key_size
      → InnerWf key_of d (key_of x) (Wf key_of r (suc d)) n
      → Roomy n.body m
      → Body.find n.body (key_of x d) ≡ null
      → Grown key_of key_size bytes
          (suc r)
          d
          x
          (of_inner n)
          (of_inner (record { depth = d; body = Body.insert m (key_of x d) (leaf x) }))
  insert-Grown r d x n m e w room free =
      Grown-of key_of key_size bytes r d x (of_inner n) (Body.insert m (key_of x d) (leaf x))
        (insert-IsValid m (key_of x d) (leaf x) room.kept.valid room.room (bytes x d) gone refl)
        (omega (arith, size-insert m (key_of x d) (leaf x)))
        (λ h. omega (
          arith,
          size-insert m (key_of x d) (leaf x),
          min_size-insert m (key_of x d) (leaf x),
          room.sized,
        ))
        (λ c h l. omega (arith, size-insert m (key_of x d) (leaf x), room.kept.same_size, w.sized))
        (λ c h. elim (eq_or_ne c (key_of x d)) [
          | inl p ↦
              rw (look c h, eq→== c (key_of x d) p)
                (Wf-leaf key_of r (suc d) _ x (λ j l. ground arith))
          | inr p ↦ rw (look c h, ne→== c (key_of x d) p) (w.children c h)
        ])
        (ground (
          arith,
          leaves-of_inner r n,
          leaves-null V r,
          leaves-leaf r x,
          free,
          look (key_of x d) (bytes x d),
          sum_below_change 256 (λ c. leaves r (Body.find n.body c))
              (λ c. leaves r (Body.find (Body.insert m (key_of x d) (leaf x)) c)) (key_of x d)
              (bytes x d) (λ j h ne. ground (arith, look j h)),
        ))
        (find_loop-of_inner key_of key_size (suc r) d n (key_of x)
          ∙ rw free (find_loop-null key_of key_size r (suc d) (key_of x)))
        (λ k b a. ground (
          arith,
          look (k d) (b d),
          find_loop-of_inner key_of key_size (suc r) d n k,
          find_loop-leaf key_of key_size r (suc d) x k,
          find_loop-null key_of key_size r (suc d) k,
          free,
          key_eq_ne key_size d k (key_of x),
        ))
    where
      gone : Body.find m (key_of x d) ≡ null
      gone = room.kept.same_find (key_of x d) (bytes x d) ∙ free

      look :
          (c : ℕ)
          → c < 256
          → Body.find (Body.insert m (key_of x d) (leaf x)) c
            ≡ (if c == key_of x d then leaf x else Body.find n.body c)
      look c h = ground (
        arith,
        find-insert m (key_of x d) (leaf x) c room.kept.valid room.room (bytes x d) h gone refl,
        room.kept.same_find c h,
      )

  -- A child that the insertion changed.
  update_Grown :
      (r d : ℕ) (x : V) (n : Inner V) (t : Node V)
      → suc r + d ≡ key_size
      → InnerWf key_of d (key_of x) (Wf key_of r (suc d)) n
      → is_null (Body.find n.body (key_of x d)) ≡ false
      → Grown key_of key_size bytes r (suc d) x (Body.find n.body (key_of x d)) t
      → Grown key_of key_size bytes
          (suc r)
          d
          x
          (of_inner n)
          (of_inner (record { depth = d; body = Body.update_child_ptr n.body (key_of x d) t }))
  update_Grown r d x n t e w held g =
      Grown-of key_of key_size bytes r d x (of_inner n)
        (Body.update_child_ptr n.body (key_of x d) t)
        (update_child_ptr-IsValid n.body (key_of x d) t w.valid (bytes x d) g.solid)
        (omega (arith, size-update_child_ptr n.body (key_of x d) t, w.sized))
        (λ h. omega (
          arith,
          size-update_child_ptr n.body (key_of x d) t,
          min_size-update_child_ptr n.body (key_of x d) t,
          w.roomy,
        ))
        (λ c h l. ground (
          arith,
          size-update_child_ptr n.body (key_of x d) t,
          look c h,
          g.not_leaf,
          w.leaf_sized c h,
        ))
        (λ c h. elim (eq_or_ne c (key_of x d)) [
          | inl p ↦ rw (look c h, eq→== c (key_of x d) p) (Wf-set key_of r d c (key_of x) t p g.wf)
          | inr p ↦ rw (look c h, ne→== c (key_of x d) p) (w.children c h)
        ])
        (ground (
          arith,
          leaves-of_inner r n,
          g.more,
          look (key_of x d) (bytes x d),
          sum_below_change 256 (λ c. leaves r (Body.find n.body c))
              (λ c. leaves r (Body.find (Body.update_child_ptr n.body (key_of x d) t) c))
              (key_of x d) (bytes x d) (λ j h ne. ground (arith, look j h)),
        ))
        (find_loop-of_inner key_of key_size (suc r) d n (key_of x) ∙ g.fresh)
        (λ k b a. ground (
          arith,
          look (k d) (b d),
          find_loop-of_inner key_of key_size (suc r) d n k,
          g.finds k b,
          Agree-extend d k (key_of x) a,
          key_eq_ne key_size d k (key_of x),
        ))
    where
      look :
          (c : ℕ)
          → c < 256
          → Body.find (Body.update_child_ptr n.body (key_of x d) t) c
            ≡ (if c == key_of x d then t else Body.find n.body c)
      look c h = find-update_child_ptr n.body (key_of x d) t c w.valid (bytes x d) h held g.solid

  -- The key is in the subtree and nothing changes, or the changed subtree is put under the
  -- ancestors.
  pub data Inserted (r d : ℕ) (above : Ancestors V) (t : Node V) (x : V)
      : Outcome (Placed V) → Type 0 where
    kept :
        {o : Outcome (Placed V)} (w : V)
        → o ≡ done (existing w)
        → find_loop key_of key_size (suc r) d t (key_of x) ≡ done (at w)
        → Inserted r d above t x o
    grew :
        {o : Outcome (Placed V)} (t' : Node V)
        → o ≡ done (placed (plug (key_of x) above t'))
        → Grown key_of key_size bytes r d x t t'
        → Inserted r d above t x o

  pub split_leaf_lem :
      (r d : ℕ) (above : Ancestors V) (w x : V) (n : Inner V)
      → r + d ≡ key_size
      → tiebreak key_of key_size r d w x ≡ some n
      → split_leaf key_of key_size d above w x ≡ done (placed (plug (key_of w) above (of_inner n)))
  unfolding split_leaf
  split_leaf_lem r d above w x n e made =
      let s : key_size - d ≡ r = omega arith in rw (s, made, split_leaf)

  -- At a leaf.
  leaf_Inserted :
      (r d : ℕ) (above : Ancestors V) (w x : V)
      → r + d ≡ key_size
      → Agree d (key_of w) (key_of x)
      → Above d above
      → Inserted r d above (leaf w) x (insert_loop key_of key_size (suc r) d above (leaf w) x)
  unfolding insert_loop
  leaf_Inserted r d above w x e a h = elim (Bool-cases (key_eq key_size (key_of x) (key_of w))) [
    | inl same ↦ kept w (rw same) (rw (find_loop-leaf, same))
    | inr ne ↦
        let (n, made, g) = tiebreak_lem key_of key_size bytes r d w x e a ne in
        grew (of_inner n)
          (rw ne (
            split_leaf_lem r d above w x n e made
            ∙ ap (λ (t : Node V). done (placed t))
                (plug-Agree d (key_of w) (key_of x) above (of_inner n) a h)))
          g
  ]

  -- At an inner node without a child for the byte.
  hole_Inserted :
      (r d : ℕ) (above : Ancestors V) (n : Inner V) (x : V)
      → suc r + d ≡ key_size
      → InnerWf key_of d (key_of x) (Wf key_of r (suc d)) n
      → Body.find n.body (key_of x d) ≡ null
      → Inserted (suc r) d above (of_inner n) x (insert_below key_of key_size (suc d) (n ∷ above) x)
  unfolding insert_below
  hole_Inserted r d above n x e w free =
      let (m, made, room) =
        make_room_lem n.body (key_of x d) w.valid w.roomy w.sized (bytes x d) free in
      let last : suc d - 1 ≡ d = omega arith in
      let same : Path (Inner V) (record n { body = Body.insert m (key_of x (suc d - 1)) (leaf x) })
          (record { depth = d; body = Body.insert m (key_of x d) (leaf x) }) =
        λ i. record { depth = w.at_depth i; body = Body.insert m (key_of x (last i)) (leaf x) } in
      grew (of_inner (record { depth = d; body = Body.insert m (key_of x d) (leaf x) }))
        (rw (made, insert_below)
          (ap (λ (t : Inner V). done (placed (plug (key_of x) above (of_inner t)))) same))
        (insert-Grown r d x n m e w room free)

  -- At an inner node, from what the next round does below it.
  inner_Inserted :
      (r d : ℕ) (above : Ancestors V) (n : Inner V) (x : V)
      → suc r + d ≡ key_size
      → InnerWf key_of d (key_of x) (Wf key_of r (suc d)) n
      → (is_null (Body.find n.body (key_of x d)) ≡ false
          → Inserted r (suc d) (n ∷ above) (Body.find n.body (key_of x d)) x (
              insert_loop key_of key_size
                (suc r)
                (suc d)
                (n ∷ above)
                (Body.find n.body (key_of x d))
                x))
      → Inserted
          (suc r)
          d
          above
          (of_inner n)
          x
          (insert_loop key_of key_size (suc (suc r)) d above (of_inner n) x)
  inner_Inserted r d above n x e w rest =
      rw insert_loop-of_inner (elim (Bool-cases (is_null (Body.find n.body (key_of x d)))) [
        | inl none_there ↦
            let free = eq_null (Body.find n.body (key_of x d)) none_there in
            rw (free, insert_loop-null) (hole_Inserted r d above n x e w free)
        | inr held ↦ elim (rest held) [
          | kept v o f ↦ kept v o (find_loop-of_inner key_of key_size (suc r) d n (key_of x) ∙ f)
          | grew t o g ↦
              grew
                (of_inner
                  (record { depth = d; body = Body.update_child_ptr n.body (key_of x d) t }))
                (o
                  ∙ ap (λ (t : Node V). done (placed t))
                      (plug_at_depth (key_of x) d n above t w.at_depth))
                (update_Grown r d x n t e w held g)
        ]
      ])

  -- At any subtree that holds the invariant and is not null, below ancestors at smaller depths,
  -- and over keys of bytes, the loop of `insert_unique` returns. Either the subtree finds a value
  -- with the key, and that value is returned; or the outcome is the tree with a changed subtree
  -- put under the ancestors, which holds the invariant, has one leaf more, finds the new value at
  -- its key and any other key of bytes below the same path as before.
  pub insert_loop_lem :
      (r d : ℕ) (above : Ancestors V) (t : Node V) (x : V)
      → r + d ≡ key_size
      → Wf key_of r d (key_of x) t
      → is_null t ≡ false
      → Above d above
      → Inserted r d above t x (insert_loop key_of key_size (suc r) d above t x)
  insert_loop_lem zero d above t x e w solid h = elim (node_case t) [
    | null_case p ↦ absurd (not_null t solid p)
    | leaf_case v p ↦
        rw p (
          leaf_Inserted zero d above v x e (Agree-Wf_leaf key_of zero d (key_of x) v (rw p at w)) h)
    | inner_case n p ↦ absurd (not-Wf-zero key_of d (key_of x) n (rw p at w))
  ]
  insert_loop_lem (suc r) d above t x e w solid h = elim (node_case t) [
    | null_case p ↦ absurd (not_null t solid p)
    | leaf_case v p ↦ rw p (
        leaf_Inserted (suc r) d above v x e
          (Agree-Wf_leaf key_of (suc r) d (key_of x) v (rw p at w)) h)
    | inner_case n p ↦
        let i = InnerWf-of_Wf key_of r d (key_of x) n (rw p at w) in
        rw p (
          inner_Inserted r d above n x e i (λ held.
            insert_loop_lem r (suc d) (n ∷ above) (Body.find n.body (key_of x d)) x (omega arith)
              (Wf-unset key_of r d (key_of x d) (key_of x) _ refl
                (i.children (key_of x d) (bytes x d)))
              held (omega (arith, i.at_depth), Above-suc d above h)))
  ]
