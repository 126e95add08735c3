-- ===== src/ArTree/Emplace/Same.antt =====
-- Lemmas that relate `emplace_unique` and `insert_unique` of include/art/ar_tree.h.
use cpp_art.Base.{
  ℕ, zero, suc, ◌+◌, ◌-◌, ◌≡◌, Bool, true, false, ◌==◌, Option, none, some, [], ◌∷◌, refl, ◌∙◌, ap,
  arith, inl, inr, Bool-cases,
}
use mathlib.Core.Path.{subst}
use cpp_art.Node.Sorted
use cpp_art.Node.Growth.{node_4_of_leaf}
use cpp_art.Node.Body
use cpp_art.Node.Body.{Body}
use cpp_art.Tree.{
  Node, Inner, leaf, of_inner, view-of_inner, eq_null, is_null, not_null, Ancestors, node_pointer,
  null_case, leaf_case, inner_case, node_case,
}
use cpp_art.Tree.Key.{Key, key_eq, IsBytes, Agree}
use cpp_art.Tree.Wf.{InnerWf, Wf}
use cpp_art.Tree.Find.{Iterator, at, Outcome, done, throws, bad_access}
use cpp_art.Tree.Find.Steps.{Wf-Agree, Wf-unset, InnerWf-of_Wf, not-Wf-zero, Agree-Wf_leaf}
use cpp_art.Tree.Insert.{
  Placed, existing, placed, plug, make_room, tiebreak, insert_below, insert_loop,
}
use cpp_art.Tree.Insert.Room.{make_room_lem}
use cpp_art.Tree.Insert.Tiebreak.{tiebreak_lem}
use cpp_art.Tree.Insert.Above.{Above, Above-suc, plug-Agree}
use cpp_art.Tree.Insert.Loop.{split_leaf_lem}
use cpp_art.Tree.Erase.Settle.{Chain}
use cpp_art.ArTree.{ArTree, replace_root, insert_unique, IsValid}
use cpp_art.ArTree.Emplace.{
  Position, dummy, taken, inside, tiebreak_pos, room_pos, pos_loop, get_insert_unique_pos,
  insert_leaf, emplace_unique,
}

Above-Chain : {V : Type 0} (d : ℕ) (above : Ancestors V) → Chain d above → Above d above
Above-Chain d [] c = tt
Above-Chain d (n ∷ above) c =
    (omega (arith, c.0), rw c.0 at (Above-suc n.depth above (Above-Chain n.depth above c.1)))

module _ {V : Type 0} (key_of : V → Key) (key_size : ℕ) where
  -- The chain of nodes from the first byte on which the keys agree, or the node where they part.
  joint : ℕ → V → Node V → Inner V
  joint j w child = record {
    depth = j;
    body =
        Body.node_4
          (Sorted.update_child_ptr (node_4_of_leaf (leaf w) (key_of w j)) (key_of w j) child);
  }

  fork : ℕ → V → V → Inner V
  fork j w x = record {
    depth = j;
    body = Body.node_4 (Sorted.insert (node_4_of_leaf (leaf w) (key_of w j)) (key_of x j) (leaf x));
  }

  Found : ℕ → ℕ → Ancestors V → V → V → Inner V → Type 0
  Found r j above w x n =
      (p : Inner V) × (up : Ancestors V) × (tiebreak_pos key_of key_size (suc r) j above w
          (key_of x)
        ≡ done (inside p up))
      × (plug (key_of x) above (of_inner n) ≡ insert_leaf key_of key_size p up x)

  fork-Found :
      (r j : ℕ) (above : Ancestors V) (w x : V)
      → (key_of w j == key_of x j) ≡ false
      → Found r j above w x (fork j w x)
  unfolding tiebreak_pos insert_leaf fork Body.insert Found
  fork-Found r j above w x h = (
    record { depth = j; body = Body.node_4 (node_4_of_leaf (leaf w) (key_of w j)) },
    above,
    rw h refl,
    refl,
  )

  joint-Found :
      (r j : ℕ) (above : Ancestors V) (w x : V) (child : Inner V)
      → (key_of w j == key_of x j) ≡ true
      → Found r
          (suc j)
          (record { depth = j; body = Body.node_4 (node_4_of_leaf (leaf w) (key_of w j)) } ∷ above)
          w
          x
          child
      → Found (suc r) j above w x (joint j w (of_inner child))
  unfolding tiebreak_pos joint Found plug Body.update_child_ptr
  joint-Found r j above w x child h (p, up, e, f) =
      let same : key_of w j ≡ key_of x j = ground arith in
      (
        p,
        up,
        rw h e,
        ap
              (λ (b : ℕ). plug (key_of x) above (
                of_inner (record {
                  depth = j;
                  body = Body.node_4 (
                      Sorted.update_child_ptr (node_4_of_leaf (leaf w) (key_of w j)) b
                        (of_inner child));
                })))
              same
            ∙ f,
      )

  tiebreak_from :
      (r j : ℕ) (above : Ancestors V) (w x : V) (n : Inner V) (o : Option (Inner V))
      → ((up : Ancestors V) (child : Inner V) → o ≡ some child → Found r (suc j) up w x child)
      → (key_of w j == key_of x j) ≡ true
      → (elim o [ none ↦ none | some child ↦ some (joint j w (of_inner child)) ]) ≡ some n
      → Found (suc r) j above w x n
  tiebreak_from r j above w x n none below h f = absurd (cc f)
  tiebreak_from r j above w x n (some child) below h f =
      let same : joint j w (of_inner child) ≡ n = cc f in
      subst (Found (suc r) j above w x) same (
        joint-Found r j above w x child h (
          below
            (record { depth = j; body = Body.node_4 (node_4_of_leaf (leaf w) (key_of w j)) }
              ∷ above)
            child refl))

  -- The place is where the insertion puts the leaf.
  tiebreak-Found :
      (r j : ℕ) (above : Ancestors V) (w x : V) (n : Inner V)
      → tiebreak key_of key_size r j w x ≡ some n
      → Found r j above w x n
  unfolding tiebreak fork joint
  tiebreak-Found zero j above w x n e = absurd (cc e)
  tiebreak-Found (suc r) j above w x n e = elim (Bool-cases (key_of w j == key_of x j)) [
    | inl h ↦
        tiebreak_from r j above w x n (tiebreak key_of key_size r (suc j) w x)
          (λ up child f. tiebreak-Found r (suc j) up w x child f) h (rw h at e)
    | inr h ↦
        let same : fork j w x ≡ n = cc (rw h at e) in
        subst (Found (suc r) j above w x) same (fork-Found (suc r) j above w x h)
  ]

  -- The outcomes of the two loops go together.
  data Same (x : V) (o : Outcome (Placed V)) (q : Outcome (Position V)) : Type 0 where
    both_taken : (w : V) → o ≡ done (existing w) → q ≡ done (taken w) → Same x o q
    both_placed :
        (p : Inner V) (up : Ancestors V)
        → o ≡ done (placed (insert_leaf key_of key_size p up x))
        → q ≡ done (inside p up)
        → Same x o q

  hole_Same :
      (d : ℕ) (n : Inner V) (above : Ancestors V) (x : V) (m : Body (Node V))
      → n.depth ≡ d
      → make_room n.body ≡ some m
      → Same x
          (insert_below key_of key_size (suc d) (n ∷ above) x)
          (room_pos key_of key_size (n ∷ above))
  unfolding insert_below room_pos insert_leaf
  hole_Same d n above x m e made =
      let last : suc d - 1 ≡ n.depth = omega (arith, e) in
      both_placed (record n { body = m }) above
        (rw (made, insert_below)
          (ap
            (λ (b : ℕ). done (
              placed (
                plug (key_of x) above
                  (of_inner (record n { body = Body.insert m (key_of x b) (leaf x) })))))
            last))
        (rw (made, room_pos) refl)

  leaf_Same :
      (bytes : (v : V) → IsBytes (key_of v)) (r d : ℕ) (above : Ancestors V) (w x : V)
      → r + d ≡ key_size
      → Agree d (key_of w) (key_of x)
      → Chain d above
      → Same x
          (insert_loop key_of key_size (suc r) d above (leaf w) x)
          (pos_loop key_of key_size (suc r) d above (leaf w) (key_of x))
  unfolding insert_loop pos_loop Found
  leaf_Same bytes r d above w x e a c = elim (Bool-cases (key_eq key_size (key_of x) (key_of w))) [
    | inl h ↦ both_taken w (rw h refl) (rw h refl)
    | inr h ↦
        let (n, made, g) = tiebreak_lem key_of key_size bytes r d w x e a h in
        let (p, up, at_place, put) = tiebreak-Found r d above w x n made in
        let rounds : suc key_size - d ≡ suc r = omega arith in
        both_placed p up
          (rw h (
            split_leaf_lem key_of key_size bytes r d above w x n e made
            ∙ ap (λ (t : Node V). done (placed t))
                (plug-Agree d (key_of w) (key_of x) above (of_inner n) a (Above-Chain d above c)
                  ∙ put)))
          (rw h
            (ap (λ (f : ℕ). tiebreak_pos key_of key_size f d above w (key_of x)) rounds ∙ at_place))
  ]

  insert_inner :
      (f d : ℕ) (above : Ancestors V) (n : Inner V) (x : V)
      → insert_loop key_of key_size (suc f) d above (of_inner n) x
        ≡ insert_loop key_of key_size f (suc d) (n ∷ above) (Body.find n.body (key_of x d)) x
  unfolding insert_loop
  insert_inner f d above n x = rw (view-of_inner n, insert_loop) refl

  pos_inner :
      (f d : ℕ) (above : Ancestors V) (n : Inner V) (k : Key)
      → pos_loop key_of key_size (suc f) d above (of_inner n) k
        ≡ pos_loop key_of key_size f (suc d) (n ∷ above) (Body.find n.body (k d)) k
  unfolding pos_loop
  pos_inner f d above n k = rw (view-of_inner n, pos_loop) refl

  inner_Same :
      (bytes : (v : V) → IsBytes (key_of v)) (r d : ℕ) (above : Ancestors V) (n : Inner V) (x : V)
      → InnerWf key_of d (key_of x) (Wf key_of r (suc d)) n
      → (is_null (Body.find n.body (key_of x d)) ≡ false
          → Same x
              (insert_loop key_of key_size
                (suc r)
                (suc d)
                (n ∷ above)
                (Body.find n.body (key_of x d))
                x)
              (pos_loop key_of key_size
                (suc r)
                (suc d)
                (n ∷ above)
                (Body.find n.body (key_of x d))
                (key_of x)))
      → Same x
          (insert_loop key_of key_size (suc (suc r)) d above (of_inner n) x)
          (pos_loop key_of key_size (suc (suc r)) d above (of_inner n) (key_of x))
  inner_Same bytes r d above n x i below = rw (insert_inner (suc r) d above n x) (
      rw (pos_inner (suc r) d above n (key_of x))
        (elim (Bool-cases (is_null (Body.find n.body (key_of x d)))) [
          | inr held ↦ below held
          | inl free ↦
              let gone = eq_null (Body.find n.body (key_of x d)) free in
              let (m, made, room) =
                make_room_lem n.body (key_of x d) i.valid i.roomy i.sized (bytes x d) gone in
              rw gone (unfold insert_loop pos_loop in hole_Same d n above x m i.at_depth made)
        ]))

  loop_Same :
      (bytes : (v : V) → IsBytes (key_of v)) (r d : ℕ) (above : Ancestors V) (t : Node V) (x : V)
      → r + d ≡ key_size
      → Wf key_of r d (key_of x) t
      → is_null t ≡ false
      → Chain d above
      → Same x
          (insert_loop key_of key_size (suc r) d above t x)
          (pos_loop key_of key_size (suc r) d above t (key_of x))
  loop_Same bytes zero d above t x e w solid c = elim (node_case t) [
    | null_case p ↦ absurd (not_null t solid p)
    | leaf_case v p ↦ rw p (
        leaf_Same bytes zero d above v x e (Agree-Wf_leaf key_of zero d (key_of x) v (rw p at w)) c)
    | inner_case n p ↦ absurd (not-Wf-zero key_of d (key_of x) n (rw p at w))
  ]
  loop_Same bytes (suc r) d above t x e w solid c = elim (node_case t) [
    | null_case p ↦ absurd (not_null t solid p)
    | leaf_case v p ↦ rw p (
        leaf_Same bytes (suc r) d above v x e
          (Agree-Wf_leaf key_of (suc r) d (key_of x) v (rw p at w)) c)
    | inner_case n p ↦
        let i = InnerWf-of_Wf key_of r d (key_of x) n (rw p at w) in
        rw p (
          inner_Same bytes r d above n x i (λ held.
            loop_Same bytes r (suc d) (n ∷ above) (Body.find n.body (key_of x d)) x (omega arith)
              (Wf-unset key_of r d (key_of x d) (key_of x) _ refl
                (i.children (key_of x d) (bytes x d)))
              held (ap suc i.at_depth, rw i.at_depth c)))
  ]

  same_result :
      (t : ArTree V) (x : V) {o : Outcome (Placed V)} {q : Outcome (Position V)}
      → Same x o q
      → Path
          (Outcome (ArTree V × Iterator V × Bool))
          (elim q [
            | done dummy ↦
                done (record (replace_root t (leaf x)) { count = t.count + 1 }, at x, true)
            | done (taken w) ↦ done (t, at w, false)
            | done (inside parent above) ↦ done (
              record t { root = insert_leaf key_of key_size parent above x; count = t.count + 1 },
              at x,
              true,
            )
            | throws ↦ throws
            | bad_access ↦ bad_access
          ])
          (elim o [
            | done (existing w) ↦ done (t, at w, false)
            | done (placed r) ↦ done (record t { root = r; count = t.count + 1 }, at x, true)
            | throws ↦ throws
            | bad_access ↦ bad_access
          ])
  same_result t x (both_taken w e f) = rw (e, f) refl
  same_result t x (both_placed p up e f) = rw (e, f) refl

  -- In a tree that holds the invariant, over keys of bytes, `emplace_unique` of a value that has
  -- been made returns what `insert_unique` of it returns, and makes the same tree.
  pub emplace_unique-eq-insert_unique :
      (bytes : (v : V) → IsBytes (key_of v)) (t : ArTree V) (x : V)
      → IsValid key_of key_size t
      → emplace_unique key_of key_size t x ≡ insert_unique key_of key_size t x
  unfolding emplace_unique get_insert_unique_pos insert_unique
  emplace_unique-eq-insert_unique bytes t x v = elim (Bool-cases (is_null t.root)) [
    | inl h ↦ rw (h, emplace_unique) refl
    | inr h ↦
        rw (h, emplace_unique)
          (same_result t x (
            loop_Same bytes key_size 0 [] t.root x (omega arith)
              (Wf-Agree key_of key_size 0 (λ _. 0) (key_of x) t.root (λ j l. absurd (omega arith))
                v.wf)
              h refl))
  ]
