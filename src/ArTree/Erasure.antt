-- ===== src/ArTree/Erasure.antt =====
-- `erase_unique` as an operation on the finite map that the tree stands for.
use cpp_art.Base.{
  ℕ, zero, suc, ◌+◌, ◌-◌, ◌≡◌, true, refl, sym, ap, ◌∙◌, if◌then◌else◌, [], arith, inl, inr,
  Bool-cases, Option, none, some,
}
use mathlib.Core.Path.{subst}
use cpp_art.Tree.{
  Node, Inner, View, view, null, leaf, of_inner, view-of_inner, null_case, leaf_case, inner_case,
  node_case,
}
use cpp_art.Tree.Key.{Key, key_eq, IsBytes, key_eq_sym, key_eq_trans}
use cpp_art.Tree.Wf.{Wf}
use cpp_art.Tree.Leaves.{leaves-null, leaves-leaf}
use cpp_art.Tree.Find.{end, at, Outcome, done, throws, bad_access}
use cpp_art.Tree.Find.Steps.{
  Wf-Agree, Wf-null, InnerWf-of_Wf, not-Wf-zero, find_loop-leaf, find_loop-null, is_null-of_inner,
}
use cpp_art.Tree.Erase.{erase_loop}
use cpp_art.Tree.Erase.Settle.{settle}
use cpp_art.Tree.Erase.Loop.{Erased, missing, erased, erase_loop_lem}
use cpp_art.ArTree.{ArTree, root_gone, find, erase_unique, IsValid}
use cpp_art.ArTree.Laws.{find-eq-loop}

module _ {V : Type 0} (key_of : V → Key) (key_size : ℕ) where
  -- What `erase_unique` returns.
  pub data EraseResult (t : ArTree V) (k : Key) : Outcome (ArTree V × ℕ) → Type 0 where
    absent :
        {o : Outcome (ArTree V × ℕ)}
        → o ≡ done (t, 0)
        → find key_of key_size t k ≡ done end
        → EraseResult t k o
    removed :
        {o : Outcome (ArTree V × ℕ)} (t' : ArTree V) (w : V)
        → o ≡ done (t', 1)
        → find key_of key_size t k ≡ done (at w)
        → IsValid key_of key_size t'
        → t'.count + 1 ≡ t.count
        → ((j : Key)
            → IsBytes j
            → find key_of key_size t' j
              ≡ (if key_eq key_size j k then done end else find key_of key_size t j))
        → EraseResult t k o

  leaf_erase :
      (t : ArTree V) (k : Key) (w : V)
      → IsValid key_of key_size t
      → t.root ≡ leaf w
      → key_eq key_size k (key_of w) ≡ true
      → {o : Outcome (ArTree V × ℕ)}
      → o ≡ done (record { root = null; count = t.count - 1; dummy_root = root_gone t }, 1)
      → EraseResult t k o
  leaf_erase t k w v here same o =
      removed _ w o (ground (arith, held k))
        (record {
          wf = Wf-null key_of key_size 0 (λ _. 0);
          counted = ground (arith, v.counted, here, leaves-leaf key_size w, leaves-null V key_size);
          rooted = λ h. absurd (ground arith);
        })
        (ground (arith, v.counted, here, leaves-leaf key_size w))
        (λ j b. ground (
          arith,
          held j,
          find-eq-loop key_of key_size
              (record { root = null; count = t.count - 1; dummy_root = root_gone t }) j,
          find_loop-null key_of key_size key_size 0 j,
          key_eq_trans key_size j k (key_of w),
          key_eq_trans key_size j (key_of w) k,
          key_eq_sym key_size k (key_of w),
        ))
    where
      held :
          (j : Key)
          → find key_of key_size t j ≡ done (if key_eq key_size j (key_of w) then at w else end)
      held j =
          find-eq-loop key_of key_size t j ∙ rw here (find_loop-leaf key_of key_size key_size 0 w j)

  loop_erase :
      (t : ArTree V) (k : Key) (n : Inner V)
      → IsValid key_of key_size t
      → t.root ≡ of_inner n
      → {o : Outcome (Option (Node V))} → (r : ℕ) → r ≡ key_size
      → Erased key_of key_size r 0 [] t.root k o
      → EraseResult t k (elim o [
        | done none ↦ done (t, 0)
        | done (some s) ↦ done (record t { root = s; count = t.count - 1 }, 1)
        | throws ↦ throws
        | bad_access ↦ bad_access
      ])
  unfolding settle
  loop_erase t k n v here r e (missing o f) =
      rw o (absent refl (find-eq-loop key_of key_size t k ∙ rw e at f))
  loop_erase t k n v here r e (erased s o g) = rw o (
      removed (record t { root = s; count = t.count - 1 }) g.gone refl
        (find-eq-loop key_of key_size t k ∙ rw e at g.had)
        (record {
          wf = Wf-Agree key_of key_size 0 k (λ _. 0) s (λ j l. absurd (omega arith)) (rw e at g.wf);
          counted = ground (arith, v.counted, g.fewer);
          rooted = λ h. v.rooted (rw here (is_null-of_inner n));
        })
        (ground (arith, v.counted, g.fewer))
        (λ j b.
          find-eq-loop key_of key_size (record t { root = s; count = t.count - 1 }) j
          ∙ ground
              (arith, g.finds j b (λ i l. absurd (omega arith)), find-eq-loop key_of key_size t j)))

  -- What `erase_unique` does at each kind of root.
  pub at_view :
      (t : ArTree V) (k : Key) {x : View V}
      → view t.root ≡ x
      → erase_unique key_of key_size t k ≡ elim x [
        | View.nothing ↦ done (t, 0)
        | View.a_leaf w ↦
            if key_eq key_size k (key_of w)
            then done (record { root = null; count = t.count - 1; dummy_root = root_gone t }, 1)
            else done (t, 0)
        | View.an_inner n ↦ elim (erase_loop key_of key_size key_size 0 [] n k) [
          | done none ↦ done (t, 0)
          | done (some r) ↦ done (record t { root = r; count = t.count - 1 }, 1)
          | throws ↦ throws
          | bad_access ↦ bad_access
        ]
      ]
  unfolding erase_unique
  at_view t k p =
      ap
        (λ (x : View V). elim x [
          | View.nothing ↦ done (t, 0)
          | View.a_leaf w ↦
              if key_eq key_size k (key_of w)
              then done (record { root = null; count = t.count - 1; dummy_root = root_gone t }, 1)
              else done (t, 0)
          | View.an_inner n ↦ elim (erase_loop key_of key_size key_size 0 [] n k) [
            | done none ↦ done (t, 0)
            | done (some r) ↦ done (record t { root = r; count = t.count - 1 }, 1)
            | throws ↦ throws
            | bad_access ↦ bad_access
          ]
        ])
        p

  -- At an inner root, from the length of the keys below it.
  inner_erase :
      (t : ArTree V) (k : Key) (n : Inner V) (size : ℕ)
      → size ≡ key_size
      → IsBytes k
      → IsValid key_of key_size t
      → t.root ≡ of_inner n
      → Wf key_of size 0 k (of_inner n)
      → EraseResult t k (erase_unique key_of key_size t k)
  inner_erase t k n zero e b v p w = absurd (not-Wf-zero key_of 0 k n w)
  inner_erase t k n (suc r) e b v p w = rw (at_view t k (ap view p ∙ view-of_inner n)) (
      loop_erase t k n v p (suc r) e (
        subst
          (λ s.
            Erased key_of key_size (suc r) 0 [] s k (erase_loop key_of key_size key_size 0 [] n k))
          (sym p)
          (subst
            (λ f.
              Erased key_of key_size (suc r) 0 [] (of_inner n) k
                (erase_loop key_of key_size f 0 [] n k))
            e
            (erase_loop_lem key_of key_size r 0 [] n k (omega arith) b refl
              (InnerWf-of_Wf key_of r 0 k n w)))))

  pub erase_unique_lem :
      (t : ArTree V) (k : Key)
      → IsBytes k
      → IsValid key_of key_size t
      → EraseResult t k (erase_unique key_of key_size t k)
  erase_unique_lem t k b v = elim (node_case t.root) [
    | null_case p ↦
        absent (at_view t k (ap view p))
          (find-eq-loop key_of key_size t k ∙ rw p (find_loop-null key_of key_size key_size 0 k))
    | leaf_case w p ↦ elim (Bool-cases (key_eq key_size k (key_of w))) [
      | inl same ↦ leaf_erase t k w v p same (at_view t k (ap view p) ∙ rw same refl)
      | inr ne ↦ absent (at_view t k (ap view p) ∙ rw ne refl) (
          find-eq-loop key_of key_size t k
          ∙ rw p (find_loop-leaf key_of key_size key_size 0 w k ∙ rw ne refl))
    ]
    | inner_case n p ↦
        inner_erase t k n key_size refl b v p (
          rw p at (Wf-Agree key_of key_size 0 (λ _. 0) k t.root (λ j l. absurd (omega arith)) v.wf))
  ]
