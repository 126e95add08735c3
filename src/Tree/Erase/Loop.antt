-- ===== src/Tree/Erase/Loop.antt =====
-- Lemmas about the loop of `erase_unique` of include/art/ar_tree.h.
use cpp_art.Base.{
  ℕ, zero, suc, ◌+◌, ◌≡◌, ◌∷◌, true, false, Option, some, none, refl, sym, ap, ◌∙◌, leb, ◌&&◌, inl,
  inr, arith, Bool-cases, set,
}
use cpp_art.Node.Body
use cpp_art.Node.Body.{Body}
use cpp_art.Node.Body.Laws.{
  min_size-erase, size-erase, only_child, size-update_child_ptr, min_size-update_child_ptr,
  find-update_child_ptr, update_child_ptr-IsValid,
}
use cpp_art.Tree.{
  Node, Inner, null, leaf, not_null, of_inner, view-of_inner, node_pointer, is_leaf, is_null,
  Ancestors, null_case, leaf_case, inner_case, node_case,
}
use cpp_art.Tree.Key.{Key, key_eq, IsBytes}
use cpp_art.Tree.Find.{end, Outcome, done, find_loop}
use cpp_art.Tree.Find.Steps.{
  InnerWf-of_Wf, not-Wf-zero, Wf-unset, find_loop-of_inner, find_loop-leaf, find_loop-null,
  is_leaf-of_inner, is_null-of_inner,
}
use cpp_art.Tree.Wf.{InnerWf, Wf}
use cpp_art.Tree.Insert.Above.{plug_at_depth}
use cpp_art.Tree.Erase.{fix_after_erase, erase_loop}
use cpp_art.Tree.Erase.Lost.{Lost, erase-LostBelow, update_LostBelow, update_Lost}
use cpp_art.Tree.Erase.Settle.{Chain, settle, settle-cons, settle-inner}
use cpp_art.Tree.Erase.Collapse.{collapse_Lost}
use cpp_art.Tree.Erase.Fix.{Fixed, fix_lem}

module _ {V : Type 0} (key_of : V → Key) (key_size : ℕ) where
  -- There is no such key, or the subtree without its leaf is settled under the ancestors.
  pub data Erased (r d : ℕ) (above : Ancestors V) (t : Node V) (k : Key)
      : Outcome (Option (Node V)) → Type 0 where
    missing :
        {o : Outcome (Option (Node V))}
        → o ≡ done none
        → find_loop key_of key_size (suc r) d t k ≡ done end
        → Erased r d above t k o
    erased :
        {o : Outcome (Option (Node V))} (t' : Node V)
        → o ≡ done (some (settle k above t'))
        → Lost key_of key_size r d k t t'
        → Erased r d above t k o

  pub down :
      (f d : ℕ) (above : Ancestors V) (n m : Inner V) (k : Key)
      → Body.find n.body (k d) ≡ of_inner m
      → erase_loop key_of key_size (suc f) d above n k
        ≡ erase_loop key_of key_size f (suc d) (n ∷ above) m k
  unfolding erase_loop
  down f d above n m k h = rw (h, erase_loop) (rw view-of_inner refl)

  -- The byte has no child.
  hole_Erased :
      (r d : ℕ) (above : Ancestors V) (n : Inner V) (k : Key)
      → Body.find n.body (k d) ≡ null
      → Erased (suc r) d above (of_inner n) k (erase_loop key_of key_size (suc r) d above n k)
  unfolding erase_loop
  hole_Erased r d above n k free = missing (rw (free, erase_loop) refl) (
      find_loop-of_inner key_of key_size (suc r) d n k
      ∙ rw free (find_loop-null key_of key_size r (suc d) k))

  -- The byte's child is a leaf.
  leaf_Erased :
      (r d : ℕ) (above : Ancestors V) (n : Inner V) (w : V) (k : Key)
      → suc r + d ≡ key_size
      → IsBytes k
      → Chain d above
      → InnerWf key_of d k (Wf key_of r (suc d)) n
      → Body.find n.body (k d) ≡ leaf w
      → Erased (suc r) d above (of_inner n) k (erase_loop key_of key_size (suc r) d above n k)
  unfolding erase_loop
  leaf_Erased r d above n w k e bytes c i here = elim (Bool-cases (key_eq key_size k (key_of w))) [
    | inr ne ↦ missing (rw (here, erase_loop) (rw ne refl)) (
        find_loop-of_inner key_of key_size (suc r) d n k
        ∙ rw here (find_loop-leaf key_of key_size r (suc d) w k ∙ rw ne refl))
    | inl same ↦ fixed same (
        fix_lem key_of key_size r d k (of_inner n) (Body.erase n.body (k d)) above e c
          (erase-LostBelow key_of key_size r d k n w e bytes i here same)
          (λ h. omega (
            arith,
            i.roomy,
            min_size-erase n.body (k d),
            size-erase n.body (k d) i.valid (bytes d) (rw here refl),
          )))
  ]
    where
      fixed :
          key_eq key_size k (key_of w) ≡ true
          → Fixed key_of key_size r d k (of_inner n) (Body.erase n.body (k d)) above
          → Erased (suc r) d above (of_inner n) k (erase_loop key_of key_size (suc r) d above n k)
      fixed same f =
          let p : fix_after_erase k (record n { body = Body.erase n.body (k d) }) above
              ≡ done (settle k above f.result) =
            ap
              (λ (x : ℕ).
                fix_after_erase k (record { depth = x; body = Body.erase n.body (k d) }) above)
              i.at_depth
            ∙ f.returns in
          erased f.result (rw (here, erase_loop) (rw same (rw p refl))) f.lost

  -- At an inner node, from what the next round does below it.
  inner_Erased :
      (r d : ℕ) (above : Ancestors V) (n : Inner V) (k : Key)
      → suc r + d ≡ key_size
      → IsBytes k
      → InnerWf key_of d k (Wf key_of r (suc d)) n
      → is_null (Body.find n.body (k d)) ≡ false
      → {o : Outcome (Option (Node V))} → Erased r (suc d) (n ∷ above) (Body.find n.body (k d)) k o
      → Erased (suc r) d above (of_inner n) k o
  inner_Erased r d above n k e bytes i held (missing o f) =
      missing o (find_loop-of_inner key_of key_size (suc r) d n k ∙ f)
  inner_Erased r d above n k e bytes i held (erased t o g) =
      elim (Bool-cases (is_leaf t && leb (Body.size n.body) 1)) [
        | inl one ↦ elim (node_case t) [
          | null_case p ↦ absurd (not_null t g.solid p)
          | inner_case m p ↦ absurd (ground (arith, p, is_leaf-of_inner m))
          | leaf_case u p ↦
              erased t
                (o ∙ ap (λ (s : Node V). done (some s)) (settle-cons k n above t ∙ rw one refl))
                (rw p (
                  collapse_Lost key_of key_size r d k (of_inner n)
                    (Body.update_child_ptr n.body (k d) t) (k d) u e
                    (update_LostBelow key_of key_size r d k n t e bytes i held g) (bytes d)
                    (ground (
                      arith,
                      find-update_child_ptr n.body (k d) t (k d) i.valid (bytes d) (bytes d) held
                          g.solid,
                    ))
                    (λ x ne.
                      only_child (Body.update_child_ptr n.body (k d) t) (k d) x
                        (update_child_ptr-IsValid n.body (k d) t i.valid (bytes d) g.solid)
                        (ground (
                          arith,
                          i.roomy,
                          size-update_child_ptr n.body (k d) t,
                          min_size-update_child_ptr n.body (k d) t,
                        ))
                        (ground (arith, size-update_child_ptr n.body (k d) t))
                        (ground (
                          arith,
                          find-update_child_ptr n.body (k d) t (k d) i.valid (bytes d) (bytes d)
                              held g.solid,
                          g.solid,
                        ))
                        ne)))
        ]
        | inr many ↦
            erased (of_inner (record { depth = d; body = Body.update_child_ptr n.body (k d) t }))
              (o
                ∙ ap (λ (s : Node V). done (some s))
                    (settle-cons k n above t
                      ∙ rw many (
                          plug_at_depth k d n above t i.at_depth
                          ∙ sym (
                              settle-inner k above
                                (of_inner (record {
                                  depth = d;
                                  body = Body.update_child_ptr n.body (k d) t;
                                }))
                                (is_leaf-of_inner _)))))
              (update_Lost key_of key_size r d k n t e bytes i held (λ h. ground arith) g)
      ]

  -- At any inner node that holds the invariant, below ancestors at the depths right above it, and
  -- for a key of bytes, the loop of `erase_unique` returns. Either the node finds no value for
  -- the key, and that is the outcome; or the outcome is the tree in which a changed subtree is
  -- settled under the ancestors, which holds the invariant, has one leaf less and finds any other
  -- key below the same path as before.
  pub erase_loop_lem :
      (r d : ℕ) (above : Ancestors V) (n : Inner V) (k : Key)
      → suc r + d ≡ key_size
      → IsBytes k
      → Chain d above
      → InnerWf key_of d k (Wf key_of r (suc d)) n
      → Erased (suc r) d above (of_inner n) k (erase_loop key_of key_size (suc r) d above n k)
  erase_loop_lem zero d above n k e bytes c i = elim (node_case (Body.find n.body (k d))) [
    | null_case p ↦ hole_Erased zero d above n k p
    | leaf_case w p ↦ leaf_Erased zero d above n w k e bytes c i p
    | inner_case m p ↦
        absurd (not-Wf-zero key_of (suc d) (set k d (k d)) m (rw p at (i.children (k d) (bytes d))))
  ]
  erase_loop_lem (suc r) d above n k e bytes c i = elim (node_case (Body.find n.body (k d))) [
    | null_case p ↦ hole_Erased (suc r) d above n k p
    | leaf_case w p ↦ leaf_Erased (suc r) d above n w k e bytes c i p
    | inner_case m p ↦
        let below : Wf key_of (suc r) (suc d) k (of_inner m) =
          Wf-unset key_of (suc r) d (k d) k (of_inner m) refl
            (rw p at (i.children (k d) (bytes d))) in
        rw (down (suc r) d above n m k p) (
          inner_Erased (suc r) d above n k e bytes i (rw p (is_null-of_inner m)) (
            rw p (
              erase_loop_lem r (suc d) (n ∷ above) m k (omega arith) bytes
                (ap suc i.at_depth, rw i.at_depth c) (InnerWf-of_Wf key_of r (suc d) k m below))))
  ]
