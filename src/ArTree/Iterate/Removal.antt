-- ===== src/ArTree/Iterate/Removal.antt =====
-- Lemmas that relate `erase` of an iterator and `erase_unique` of include/art/ar_tree.h.
use cpp_art.Base.{
  ℕ, zero, suc, ◌-◌, ◌≡◌, true, [], ◌∷◌, Option, none, some, refl, sym, ◌∙◌, ap, arith, set,
}
use cpp_art.Node.Body
use cpp_art.Tree.{
  Node, Inner, view, null, leaf, of_inner, view-of_inner, Ancestors, node_pointer, null_case,
  leaf_case, inner_case, node_case,
}
use cpp_art.Tree.Key.{Key, key_eq, IsBytes, Agree→key_eq}
use cpp_art.Tree.Wf.{InnerWf, Wf}
use cpp_art.Tree.Find.{Iterator, at, Outcome, done, throws, bad_access, find_loop}
use cpp_art.Tree.Find.Steps.{
  Wf-Agree, Wf-unset, InnerWf-of_Wf, not-Wf-zero, find_loop-leaf, find_loop-null,
  find_loop-of_inner,
}
use cpp_art.Tree.Walk.{parents}
use cpp_art.Tree.Erase.{fix_after_erase, erase_loop}
use cpp_art.Tree.Erase.Loop.{down}
use cpp_art.ArTree.{ArTree, root_gone, find, erase_unique, IsValid}
use cpp_art.ArTree.Laws.{find-eq-loop}
use cpp_art.ArTree.Erasure.{at_view, absent, removed, erase_unique_lem}
use cpp_art.ArTree.Iterate.{increment, erase_at}
use cpp_art.ArTree.Iterate.Sorted.{increment_next}

module _ {V : Type 0} (key_of : V → Key) (key_size : ℕ) where
  -- The tree that `fix_after_erase` leaves, as the loop of `erase_unique` returns it.
  wrapped : Outcome (Node V) → Outcome (Option (Node V))
  wrapped (done root) = done (some root)
  wrapped throws = throws
  wrapped bad_access = bad_access

  fixed : Key → Inner V → Ancestors V → Outcome (Option (Node V))
  fixed k n above =
      wrapped (fix_after_erase k (record n { body = Body.erase n.body (k n.depth) }) above)

  parents_below :
      (f d : ℕ) (above : Ancestors V) (n : Inner V) (k : Key)
      → parents (suc f) d above (of_inner n) k
        ≡ parents f (suc d) (n ∷ above) (Body.find n.body (k d)) k
  unfolding parents
  parents_below f d above n k = rw (view-of_inner n, parents) refl

  leaf_case_lem :
      (f d : ℕ) (above : Ancestors V) (n : Inner V) (v : V)
      → n.depth ≡ d
      → Body.find n.body (key_of v d) ≡ leaf v
      → erase_loop key_of key_size (suc f) d above n (key_of v) ≡ fixed (key_of v) n above
  unfolding erase_loop fixed wrapped
  leaf_case_lem f d above n v e h =
      rw (h, erase_loop)
        (rw (Agree→key_eq key_size (key_of v) (key_of v) (λ j l. refl)) (
          ap
            (λ (b : ℕ). wrapped (
              fix_after_erase (key_of v) (record n { body = Body.erase n.body (key_of v b) })
                above))
            (sym e)))

  -- The leaf's parent is where the loop of `erase_unique` erases it.
  loop_parents :
      (r d : ℕ) (above : Ancestors V) (n : Inner V) (v : V)
      → IsBytes (key_of v)
      → InnerWf key_of d (key_of v) (Wf key_of r (suc d)) n
      → find_loop key_of key_size (suc r) (suc d) (Body.find n.body (key_of v d)) (key_of v)
        ≡ done (at v)
      → (p : Inner V) × (up : Ancestors V) × (parents
            (suc r)
            (suc d)
            (n ∷ above)
            (Body.find n.body (key_of v d))
            (key_of v)
          ≡ p ∷ up)
        × (erase_loop key_of key_size (suc r) d above n (key_of v) ≡ fixed (key_of v) p up)
  loop_parents zero d above n v b i f = elim (node_case (Body.find n.body (key_of v d))) [
    | null_case q ↦
        absurd (ground (arith, q, find_loop-null key_of key_size zero (suc d) (key_of v), f))
    | leaf_case u q ↦
        let same : u ≡ v =
          ground (arith, q, find_loop-leaf key_of key_size zero (suc d) u (key_of v), f) in
        (
          n,
          above,
          rw q (unfold parents in refl),
          leaf_case_lem zero d above n v i.at_depth (q ∙ ap leaf same),
        )
    | inner_case m q ↦ absurd (
        not-Wf-zero key_of (suc d) (set (key_of v) d (key_of v d)) m
          (rw q at (i.children (key_of v d) (b d))))
  ]
  loop_parents (suc r) d above n v b i f = elim (node_case (Body.find n.body (key_of v d))) [
    | null_case q ↦
        absurd (ground (arith, q, find_loop-null key_of key_size (suc r) (suc d) (key_of v), f))
    | leaf_case u q ↦
        let same : u ≡ v =
          ground (arith, q, find_loop-leaf key_of key_size (suc r) (suc d) u (key_of v), f) in
        (
          n,
          above,
          rw q (unfold parents in refl),
          leaf_case_lem (suc r) d above n v i.at_depth (q ∙ ap leaf same),
        )
    | inner_case m q ↦
        let w : Wf key_of (suc r) (suc d) (key_of v) (of_inner m) =
          Wf-unset key_of (suc r) d (key_of v d) (key_of v) (of_inner m) refl
            (rw q at (i.children (key_of v d) (b d))) in
        let (p, up, at_parent, same) =
          loop_parents r (suc d) (n ∷ above) m v b (InnerWf-of_Wf key_of r (suc d) (key_of v) m w)
            (sym (find_loop-of_inner key_of key_size (suc r) (suc d) m (key_of v)) ∙ rw q at f) in
        (
          p,
          up,
          ap (λ (c : Node V). parents (suc (suc r)) (suc d) (n ∷ above) c (key_of v)) q
              ∙ parents_below (suc r) (suc d) (n ∷ above) m (key_of v)
              ∙ at_parent,
          down key_of key_size (suc r) d above n m (key_of v) q ∙ same,
        )
  ]

  -- What `erase` of an iterator does at the root leaf, and below it.
  erase_at-root :
      (t : ArTree V) (v : V) {next : Iterator V}
      → increment key_of key_size t (at v) ≡ done next
      → parents (suc key_size) 0 [] t.root (key_of v) ≡ []
      → erase_at key_of key_size t v
        ≡ done (record { root = null; count = t.count - 1; dummy_root = root_gone t }, next)
  unfolding erase_at
  erase_at-root t v e h = rw (e, erase_at) (rw (h, erase_at) refl)

  erase_at-below :
      (t : ArTree V) (v : V) (p : Inner V) (up : Ancestors V) {next : Iterator V}
      → increment key_of key_size t (at v) ≡ done next
      → parents (suc key_size) 0 [] t.root (key_of v) ≡ p ∷ up
      → erase_at key_of key_size t v
        ≡ elim (fix_after_erase
            (key_of v)
            (record p { body = Body.erase p.body (key_of v p.depth) })
            up) [
              | done r ↦ done (record t { root = r; count = t.count - 1 }, next)
              | throws ↦ throws
              | bad_access ↦ bad_access
            ]
  unfolding erase_at
  erase_at-below t v p up e h = rw (e, erase_at) (rw (h, erase_at) refl)

  -- The two make the same tree of what `fix_after_erase` returns.
  same_tree :
      (t t' : ArTree V) (next : Iterator V) (q : Outcome (Node V))
      → Path
          (Outcome (ArTree V × ℕ))
          (elim (wrapped q) [
            | done none ↦ done (t, 0)
            | done (some r) ↦ done (record t { root = r; count = t.count - 1 }, 1)
            | throws ↦ throws
            | bad_access ↦ bad_access
          ])
          (done (t', 1))
      → Path
          (Outcome (ArTree V × Iterator V))
          (elim q [
            | done r ↦ done (record t { root = r; count = t.count - 1 }, next)
            | throws ↦ throws
            | bad_access ↦ bad_access
          ])
          (done (t', next))
  unfolding wrapped
  same_tree t t' next (done r) e =
      let same : Path (ArTree V) (record t { root = r; count = t.count - 1 }) t' = cc e in
      ap (λ (x : ArTree V). done (x, next)) same
  same_tree t t' next throws e = absurd (cc e)
  same_tree t t' next bad_access e = absurd (cc e)

  inner_erase_at :
      (t t' : ArTree V) (v : V) (next : Iterator V) (n : Inner V) (size : ℕ)
      → size ≡ key_size
      → IsBytes (key_of v)
      → Wf key_of size 0 (key_of v) (of_inner n)
      → t.root ≡ of_inner n
      → find_loop key_of key_size (suc key_size) 0 (of_inner n) (key_of v) ≡ done (at v)
      → increment key_of key_size t (at v) ≡ done next
      → erase_unique key_of key_size t (key_of v) ≡ done (t', 1)
      → erase_at key_of key_size t v ≡ done (t', next)
  unfolding fixed
  inner_erase_at t t' v next n zero e b w h f g u = absurd (not-Wf-zero key_of 0 (key_of v) n w)
  inner_erase_at t t' v next n (suc r) e b w h f g u =
      let below : find_loop key_of key_size (suc r) 1 (Body.find n.body (key_of v 0)) (key_of v)
          ≡ done (at v) =
        ap (λ (x : ℕ). find_loop key_of key_size x 1 (Body.find n.body (key_of v 0)) (key_of v)) e
        ∙ sym (find_loop-of_inner key_of key_size key_size 0 n (key_of v))
        ∙ f in
      let (p, up, at_parent, same) =
        loop_parents r 0 [] n v b (InnerWf-of_Wf key_of r 0 (key_of v) n w) below in
      let at_root : parents (suc key_size) 0 [] t.root (key_of v) ≡ p ∷ up =
        ap (λ (c : Node V). parents (suc key_size) 0 [] c (key_of v)) h
        ∙ parents_below key_size 0 [] n (key_of v)
        ∙ ap (λ (x : ℕ). parents x 1 (n ∷ []) (Body.find n.body (key_of v 0)) (key_of v)) (sym e)
        ∙ at_parent in
      let loop : erase_loop key_of key_size key_size 0 [] n (key_of v) ≡ fixed (key_of v) p up =
        ap (λ (x : ℕ). erase_loop key_of key_size x 0 [] n (key_of v)) (sym e) ∙ same in
      erase_at-below t v p up g at_root
      ∙ same_tree t t' next
          (fix_after_erase (key_of v) (record p { body = Body.erase p.body (key_of v p.depth) }) up)
          (ap
              (λ (x : Outcome (Option (Node V))). elim x [
                | done none ↦ done (t, 0)
                | done (some r) ↦ done (record t { root = r; count = t.count - 1 }, 1)
                | throws ↦ throws
                | bad_access ↦ bad_access
              ])
              (sym loop)
            ∙ sym (at_view key_of key_size t (key_of v) (ap view h ∙ view-of_inner n))
            ∙ u)

  -- In a tree that holds the invariant and the value `v`, over keys of bytes, `erase` of an iterator
  -- at `v` makes the tree that `erase_unique` of its key makes, in which one value went, and returns
  -- the increment of the iterator in the tree before.
  pub erase_at-eq-erase_unique :
      (bytes : (v : V) → IsBytes (key_of v)) (t : ArTree V) (v : V)
      → IsValid key_of key_size t
      → find key_of key_size t (key_of v) ≡ done (at v)
      → (t' : ArTree V) × (next : Iterator V) × (erase_at key_of key_size t v ≡ done (t', next))
        × (erase_unique key_of key_size t (key_of v) ≡ done (t', 1))
        × (increment key_of key_size t (at v) ≡ done next)
  erase_at-eq-erase_unique bytes t v valid f =
      elim (erase_unique_lem key_of key_size t (key_of v) (bytes v) valid) [
        | absent o g ↦ absurd (cc (sym f ∙ g))
        | removed t' w o g v' c h ↦
            let (next, e, bound) = increment_next key_of key_size bytes t v v valid f f in
            (
              t',
              next,
              elim (node_case t.root) [
                | null_case p ↦ absurd (
                    ground (
                      arith,
                      p,
                      find-eq-loop key_of key_size t (key_of v),
                      find_loop-null key_of key_size key_size 0 (key_of v),
                      f,
                    ))
                | leaf_case u p ↦
                    let same : key_eq key_size (key_of v) (key_of u) ≡ true = ground (
                      arith,
                      p,
                      find-eq-loop key_of key_size t (key_of v),
                      find_loop-leaf key_of key_size key_size 0 u (key_of v),
                      f,
                    ) in
                    let gone : erase_unique key_of key_size t (key_of v)
                        ≡ done (
                          record { root = null; count = t.count - 1; dummy_root = root_gone t },
                          1,
                        ) =
                      at_view key_of key_size t (key_of v) (ap view p) ∙ rw same refl in
                    let root : Path (ArTree V)
                        (record { root = null; count = t.count - 1; dummy_root = root_gone t }) t' =
                      cc (sym gone ∙ o) in
                    erase_at-root t v e (
                      ap (λ (x : Node V). parents (suc key_size) 0 [] x (key_of v)) p
                      ∙ unfold parents in refl)
                    ∙ ap (λ (x : ArTree V). done (x, next)) root
                | inner_case n p ↦
                    inner_erase_at t t' v next n key_size refl (bytes v)
                      (rw p at (
                        Wf-Agree key_of key_size 0 (λ _. 0) (key_of v) t.root
                          (λ j l. absurd (omega arith)) valid.wf))
                      p (rw p at (sym (find-eq-loop key_of key_size t (key_of v)) ∙ f)) e o
              ],
              o,
              e,
            )
      ]
