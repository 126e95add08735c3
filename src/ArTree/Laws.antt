-- ===== src/ArTree/Laws.antt =====
-- `find` and `insert_unique` as operations on the finite map that the tree stands for.
use cpp_art.Base.{
  ℕ, suc, ◌+◌, ◌≡◌, Bool, true, false, refl, sym, ap, ◌∙◌, if◌then◌else◌, [], arith, inl, inr,
  Bool-cases,
}
use cpp_art.Tree.{null, leaf, is_null, eq_null}
use cpp_art.Tree.Key.{Key, key_eq, IsBytes}
use cpp_art.Tree.Leaves.{leaves, leaves-null, leaves-leaf}
use cpp_art.Tree.Find.{Iterator, end, at, Outcome, done, throws, bad_access, find_loop}
use cpp_art.Tree.Find.Steps.{Wf-Agree, Wf-leaf, find_loop-leaf, find_loop-null, find_loop_returns}
use cpp_art.Tree.Insert.{Placed, existing, placed, plug}
use cpp_art.Tree.Insert.Loop.{Inserted, kept, grew, insert_loop_lem}
use cpp_art.ArTree.{ArTree, DummyRoot, replace_root, find, insert_unique, IsValid}

module _ {V : Type 0} (key_of : V → Key) (key_size : ℕ) where
  pub find-eq-loop :
      (t : ArTree V) (k : Key)
      → find key_of key_size t k ≡ find_loop key_of key_size (suc key_size) 0 t.root k
  unfolding find
  find-eq-loop t k = elim (Bool-cases (is_null t.root)) [
    | inl h ↦ rw (h, eq_null t.root h) (sym (find_loop-null key_of key_size key_size 0 k))
    | inr h ↦ rw h
  ]

  -- `find` of a key of bytes returns on every tree that holds the invariant, and never reaches
  -- its `throw`.
  pub find_returns :
      (t : ArTree V) (k : Key)
      → IsValid key_of key_size t
      → IsBytes k
      → (i : Iterator V) × (find key_of key_size t k ≡ done i)
  find_returns t k v b =
      rw find-eq-loop (find_loop_returns key_of key_size key_size 0 _ t.root k b v.wf)

module _ {V : Type 0} (key_of : V → Key) (key_size : ℕ) (bytes : (v : V) → IsBytes (key_of v)) where
  -- What `insert_unique` returns.
  pub data InsertResult (t : ArTree V) (x : V)
      : Outcome (ArTree V × Iterator V × Bool) → Type 0 where
    refused :
        {o : Outcome (ArTree V × Iterator V × Bool)} (w : V)
        → o ≡ done (t, at w, false)
        → find key_of key_size t (key_of x) ≡ done (at w)
        → InsertResult t x o
    accepted :
        {o : Outcome (ArTree V × Iterator V × Bool)} (t' : ArTree V)
        → o ≡ done (t', at x, true)
        → IsValid key_of key_size t'
        → t'.count ≡ t.count + 1
        → find key_of key_size t (key_of x) ≡ done end
        → ((k : Key)
            → IsBytes k
            → find key_of key_size t' k
              ≡ (if key_eq key_size k (key_of x) then done (at x) else find key_of key_size t k))
        → InsertResult t x o

  -- Into the empty tree.
  first_insert :
      (t : ArTree V) (x : V)
      → IsValid key_of key_size t
      → is_null t.root ≡ true
      → InsertResult t x (
          done (
            record { root = leaf x; count = t.count + 1; dummy_root = DummyRoot.linked },
            at x,
            true,
          ))
  first_insert t x v h =
      accepted _ refl
        (record {
          wf = Wf-leaf key_of key_size 0 (λ _. 0) x (λ j l. absurd (omega arith));
          counted = omega (
            arith,
            v.counted,
            leaves-leaf key_size x,
            ap (leaves key_size) empty_root,
            leaves-null V key_size,
          );
          rooted = λ e. refl;
        })
        refl (missing (key_of x))
        (λ k b. ground (
          arith,
          missing k,
          find-eq-loop key_of key_size
              (record { root = leaf x; count = t.count + 1; dummy_root = DummyRoot.linked }) k,
          find_loop-leaf key_of key_size key_size 0 x k,
        ))
    where
      empty_root : t.root ≡ null
      empty_root = eq_null t.root h

      missing : (k : Key) → find key_of key_size t k ≡ done end
      missing k =
          find-eq-loop key_of key_size t k
          ∙ rw empty_root (find_loop-null key_of key_size key_size 0 k)

  -- Into a tree with a root, from what the loop does.
  later_insert :
      (t : ArTree V) (x : V)
      → IsValid key_of key_size t
      → is_null t.root ≡ false
      → {o : Outcome (Placed V)} → Inserted key_of key_size bytes key_size 0 [] t.root x o
      → InsertResult t x (elim o [
        | done (existing w) ↦ done (t, at w, false)
        | done (placed r) ↦ done (record t { root = r; count = t.count + 1 }, at x, true)
        | throws ↦ throws
        | bad_access ↦ bad_access
      ])
  unfolding plug
  later_insert t x v h (kept w o f) =
      rw o (refused w refl (find-eq-loop key_of key_size t (key_of x) ∙ f))
  later_insert t x v h (grew r o g) = rw o (
      accepted (record t { root = r; count = t.count + 1 }) refl
        (record {
          wf = Wf-Agree key_of key_size 0 (key_of x) (λ _. 0) r (λ j l. absurd (omega arith)) g.wf;
          counted = omega (arith, v.counted, g.more);
          rooted = λ e. v.rooted h;
        })
        refl (find-eq-loop key_of key_size t (key_of x) ∙ g.fresh)
        (λ k b. ground (
          arith,
          g.finds k b (λ j l. absurd (omega arith)),
          find-eq-loop key_of key_size t k,
          find-eq-loop key_of key_size (record t { root = r; count = t.count + 1 }) k,
        )))

  pub insert_unique_lem :
      (t : ArTree V) (x : V)
      → IsValid key_of key_size t
      → InsertResult t x (insert_unique key_of key_size t x)
  unfolding insert_unique replace_root
  insert_unique_lem t x v = elim (Bool-cases (is_null t.root)) [
    | inl h ↦ rw h (first_insert t x v h)
    | inr h ↦ rw h (
        later_insert t x v h (
          insert_loop_lem key_of key_size bytes key_size 0 [] t.root x (omega arith)
            (Wf-Agree key_of key_size 0 (λ _. 0) (key_of x) t.root (λ j l. absurd (omega arith))
              v.wf)
            h tt))
  ]
