-- ===== src/Tree/Copy/Failure.antt =====
-- Lemmas about `copy_children` of `_Node_48` of include/art/ar_tree.h.
use cpp_art.Base.{
  ℕ, zero, suc, ◌≡◌, ◌<◌, ◌≤◌, Bool, true, false, Array, refl, ◌∙◌, sym, arith, inl, inr,
  Bool-cases, eq_or_ne,
}
use cpp_art.Node.Indexed.{Indexed, used}
use cpp_art.Node.Body
use cpp_art.Tree.{Node, inner_48, of_inner, view-of_inner}
use cpp_art.Tree.Find.{Outcome, done, throws, bad_access}
use cpp_art.Tree.Copy.{put_copy, copy_indexed_one, copy_indexed, with_children, copy_48, copy_node}

not_done : {A : Type 0} → Outcome A → Bool
not_done (done a) = false
not_done throws = true
not_done bad_access = true

module _ {V : Type 0} where
  put-not_done :
      (o : Outcome (Array (Node V))) (i : ℕ) (p : Outcome (Node V))
      → not_done o ≡ true
      → not_done (put_copy o i p) ≡ true
  unfolding put_copy not_done
  put-not_done (done a) i p h = cc h
  put-not_done throws i p h = refl
  put-not_done bad_access i p h = refl

  put-bad : (o : Outcome (Array (Node V))) (i : ℕ) → not_done (put_copy o i bad_access) ≡ true
  unfolding put_copy not_done
  put-bad (done a) i = refl
  put-bad throws i = refl
  put-bad bad_access i = refl

  one-bad :
      (copy : Node V → Outcome (Node V)) (n : Indexed (Node V)) (b : ℕ)
      → 48 ≤ b
      → copy_indexed_one copy n b ≡ bad_access
  unfolding copy_indexed_one
  one-bad copy n b h = ground arith

  copy_indexed-not_done :
      (copy : Node V → Outcome (Node V)) (n : Indexed (Node V)) (b i : ℕ)
      → 48 ≤ b
      → used n b ≡ true
      → b < i
      → not_done (copy_indexed copy n i) ≡ true
  unfolding copy_indexed
  copy_indexed-not_done copy n b zero h u l = absurd (omega arith)
  copy_indexed-not_done copy n b (suc i) h u l = elim (eq_or_ne b i) [
    | inl e ↦
        rw (← e)
          (rw u (rw (one-bad copy n b h) (put-bad (copy_indexed copy n b) (n.child_index b))))
    | inr ne ↦
        let before = copy_indexed-not_done copy n b i h u (omega arith) in
        elim (Bool-cases (used n i)) [
          | inl q ↦ rw q (
              put-not_done (copy_indexed copy n i) (n.child_index i) (copy_indexed_one copy n i)
                before)
          | inr q ↦ rw q before
        ]
  ]

  with-not_done :
      (make : Array (Node V) → Node V) (o : Outcome (Array (Node V)))
      → not_done o ≡ true
      → not_done (with_children make o) ≡ true
  unfolding with_children not_done
  with-not_done make (done a) h = cc h
  with-not_done make throws h = refl
  with-not_done make bad_access h = refl

  copy-not_done :
      (f d b : ℕ) (n : Indexed (Node V))
      → 48 ≤ b
      → b < 256
      → used n b ≡ true
      → not_done (copy_node f (of_inner (record { depth = d; body = Body.node_48 n }))) ≡ true
  unfolding copy_node not_done
  copy-not_done zero d b n h l u = refl
  copy-not_done (suc f) d b n h l u =
      rw (view-of_inner, copy_node)
        (unfold copy_48 in
          with-not_done (inner_48 d n.count n.child_index) (copy_indexed (copy_node f) n 256)
            (copy_indexed-not_done (copy_node f) n b 256 h u l))

  -- No copy is made of a `_Node_48` that has a child at a byte from 48 on, since the child is then
  -- read past the array of children.
  pub copy_node-48 :
      (f d b : ℕ) (n : Indexed (Node V)) (t : Node V)
      → 48 ≤ b
      → b < 256
      → used n b ≡ true
      → ¬ (copy_node f (of_inner (record { depth = d; body = Body.node_48 n })) ≡ done t)
  copy_node-48 f d b n t h l u e =
      let failed = copy-not_done f d b n h l u in
      let copied : not_done (copy_node f (of_inner (record { depth = d; body = Body.node_48 n })))
          ≡ false =
        rw e (unfold not_done in refl) in
      absurd (cc (sym copied ∙ failed))
