-- ===== src/ArPrefixTree/Contract.antt =====
-- Lemmas about the public operations of `ar_prefix_tree` of include/art/ar_prefix_tree.h as those of
-- a finite map.
use cpp_art.Base.{
  ℕ, suc, ◌+◌, ◌^◌, ◌≡◌, ◌≤◌, true, false, refl, sym, ◌∙◌, arith, inl, inr, ◌⊎◌, [], if◌then◌else◌,
  Bool-cases,
}
use cpp_art.PrefixTree.{leaf, is_null, eq_null, Member, here, Counted, no_leaf, one_leaf}
use cpp_art.PrefixTree.Prefix.Steps.{
  Wf-null, Wf-leaf, Wf-Agree, Member-leaf, not-Member_null, Counted-null,
}
use cpp_art.PrefixTree.Find.Steps.{hit, miss}
use cpp_art.PrefixTree.Insert.{Placed, existing, placed, plug}
use cpp_art.PrefixTree.Insert.Descend.{Inserted, found, grew}
use cpp_art.PrefixTree.Insert.Loop.{insert_loop_lem}
use cpp_art.ArTree.{DummyRoot}
use cpp_art.ArPrefixTree.{
  ArPrefixTree, init, size, find, insert_unique, erase_unique, replace_root, IsValid,
}
use cpp_art.ArPrefixTree.Lookup.{find_lem, Found-hit, Found-miss}
use cpp_art.Tree.Key.{Key, key_eq, IsBytes, key_eq_congr, key_eq_sym}
use cpp_art.PrefixTree.Wf.{Wf}
use cpp_art.Tree.Find.{end, at, Outcome, done, throws, bad_access}
use cpp_art.SearchTree.{Operations, InsertResult, refused, accepted}

module _ {V : Type 0} (key_of : V → Key) (key_size : ℕ) where
  abbrev pub operations : Operations V (ArPrefixTree V)
  operations = record {
    init = init;
    size = size;
    find = find key_of key_size;
    insert_unique = insert_unique key_of key_size;
    erase_unique = erase_unique key_of key_size;
  }

  -- A tree that has the values of another and `x` besides finds what it should.
  find_more :
      (t t' : ArPrefixTree V) (x : V) (k : Key)
      → IsValid key_of key_size t
      → IsValid key_of key_size t'
      → Member x t'.root
      → ((v : V) → Member v t.root → Member v t'.root)
      → ((v : V) → Member v t'.root → (v ≡ x) ⊎ Member v t.root)
      → IsBytes k
      → find key_of key_size t' k
        ≡ (if key_eq key_size k (key_of x) then done (at x) else find key_of key_size t k)
  find_more t t' x k v v' new kept only b =
      let found = find_lem key_of key_size t' k v' b in
      elim (Bool-cases (key_eq key_size k (key_of x))) [
        | inl same ↦
            rw same
              (Found-hit key_of key_size key_size 0 (λ _. 0) k t'.root x _ v'.wf new same found)
        | inr ne ↦ rw ne (elim (find_lem key_of key_size t k v b) [
          | hit w e m s ↦
              Found-hit key_of key_size key_size 0 (λ _. 0) k t'.root w _ v'.wf (kept w m) s found
              ∙ sym e
          | miss e out ↦
              Found-miss key_of key_size k t'.root _
                (λ u m. elim (only u m) [ inl p ↦ rw p ne | inr q ↦ out u q ]) found
              ∙ sym e
        ])
      ]

  -- A tree that has the values of another but those with a key finds what it should.
  pub find_less :
      (t t' : ArPrefixTree V) (j k : Key)
      → IsValid key_of key_size t
      → IsValid key_of key_size t'
      → ((v : V) → Member v t.root → key_eq key_size j (key_of v) ≡ false → Member v t'.root)
      → ((v : V) → Member v t'.root → Member v t.root × (key_eq key_size j (key_of v) ≡ false))
      → IsBytes k
      → find key_of key_size t' k
        ≡ (if key_eq key_size k j then done end else find key_of key_size t k)
  find_less t t' j k v v' kept only b =
      let found = find_lem key_of key_size t' k v' b in
      elim (Bool-cases (key_eq key_size k j)) [
        | inl same ↦ rw same (
            Found-miss key_of key_size k t'.root _
              (λ u m. key_eq_congr key_size k j (key_of u) same ∙ (only u m).1) found)
        | inr ne ↦ rw ne (elim (find_lem key_of key_size t k v b) [
          | hit w e m s ↦
              Found-hit key_of key_size key_size 0 (λ _. 0) k t'.root w _ v'.wf
                (kept w m (
                  ground (
                    arith,
                    key_eq_congr key_size k (key_of w) j s,
                    key_eq_sym key_size j (key_of w),
                  )))
                s found
              ∙ sym e
          | miss e out ↦
              Found-miss key_of key_size k t'.root _ (λ u m. out u (only u m).0) found ∙ sym e
        ])
      ]

  pub init-IsValid : IsValid key_of key_size init
  unfolding init
  init-IsValid = record {
    wf = Wf-null key_of key_size key_size 0 (λ _. 0);
    counted = no_leaf refl;
    rooted = λ h. absurd (ground arith);
  }

  pub find-init : (k : Key) → find key_of key_size init k ≡ done end
  unfolding init find
  find-init k = refl

  -- The invariant of a tree whose root is a subtree that holds it at another path.
  pub of_root :
      (t : ArPrefixTree V) (k : Key) (r : ℕ)
      → Wf key_of key_size r 0 k t.root
      → Counted t.root t.count
      → (is_null t.root ≡ false → t.dummy_root ≡ DummyRoot.linked)
      → IsValid key_of key_size t
  of_root t k r w c d = record {
    wf =
        Wf-Agree key_of key_size r key_size 0 k (λ _. 0) t.root (omega arith)
          (λ j l. absurd (omega arith)) w;
    counted = c;
    rooted = d;
  }

module _ {V : Type 0} (key_of : V → Key) (key_size : ℕ) (short : key_size ≤ 2 ^ 16)
    (bytes : (v : V) → IsBytes (key_of v)) where
  -- Into the empty tree.
  first_insert :
      (t : ArPrefixTree V) (x : V)
      → IsValid key_of key_size t
      → is_null t.root ≡ true
      → InsertResult key_of key_size (operations key_of key_size) (IsValid key_of key_size) t x (
          done (
            record { root = leaf x; count = t.count + 1; dummy_root = DummyRoot.linked },
            at x,
            true,
          ))
  unfolding size
  first_insert t x v h =
      let t' : ArPrefixTree V = record {
        root = leaf x;
        count = t.count + 1;
        dummy_root = DummyRoot.linked;
      } in
      let none_in : (w : V) → ¬ (Member w t.root) =
        λ w m. not-Member_null w (rw (eq_null t.root h) at m) in
      let zero_in : t.count ≡ 0 = Counted-null t.count (rw (eq_null t.root h) at v.counted) in
      let v' : IsValid key_of key_size t' =
        of_root key_of key_size t' (λ _. 0) key_size
          (Wf-leaf key_of key_size key_size 0 (λ _. 0) x (λ j l. absurd (omega arith)))
          (rw zero_in (one_leaf x refl)) (λ e. refl) in
      accepted t' refl v' refl
        (Found-miss key_of key_size (key_of x) t.root _ (λ w m. absurd (none_in w m))
          (find_lem key_of key_size t (key_of x) v (bytes x)))
        (λ k b.
          find_more key_of key_size t t' x k v v' (here refl) (λ w m. absurd (none_in w m))
            (λ w m. inl (Member-leaf x w m)) b)

  -- Into a tree with a root, from what the loop does.
  later_insert :
      (t : ArPrefixTree V) (x : V)
      → IsValid key_of key_size t
      → is_null t.root ≡ false
      → {o : Outcome (Placed V)} → Inserted key_of key_size 0 [] t.root x o
      → InsertResult key_of key_size
          (operations key_of key_size)
          (IsValid key_of key_size)
          t
          x
          (elim o [
            | done (existing w) ↦ done (t, at w, false)
            | done (placed r) ↦ done (record t { root = r; count = t.count + 1 }, at x, true)
            | throws ↦ throws
            | bad_access ↦ bad_access
          ])
  unfolding plug size
  later_insert t x v h (found w o m same) = rw o (
      refused w refl (
        Found-hit key_of key_size key_size 0 (λ _. 0) (key_of x) t.root w _ v.wf m same
          (find_lem key_of key_size t (key_of x) v (bytes x))))
  later_insert t x v h (grew r o g) =
      let t' : ArPrefixTree V = record t { root = r; count = t.count + 1 } in
      let v' : IsValid key_of key_size t' =
        of_root key_of key_size t' (key_of x) g.layers g.wf
          (let e : suc t.count ≡ t.count + 1 = omega arith in rw e at (g.more t.count v.counted))
          (λ e. v.rooted h) in
      rw o (
        accepted t' refl v' refl
          (Found-miss key_of key_size (key_of x) t.root _ g.fresh
            (find_lem key_of key_size t (key_of x) v (bytes x)))
          (λ k b. find_more key_of key_size t t' x k v v' g.added g.kept g.only b))

  -- On a tree that holds the invariant, over values whose keys are made of bytes, at most 65536 of
  -- them, `insert_unique` returns: either the tree as it is and the value that the new one's key
  -- finds; or a tree that holds the invariant, has one value more, finds the new value at its key,
  -- which was not found before, and finds any other key of bytes as before.
  pub insert_unique_lem :
      (t : ArPrefixTree V) (x : V)
      → IsValid key_of key_size t
      → InsertResult key_of key_size
          (operations key_of key_size)
          (IsValid key_of key_size)
          t
          x
          (insert_unique key_of key_size t x)
  unfolding insert_unique replace_root
  insert_unique_lem t x v = elim (Bool-cases (is_null t.root)) [
    | inl h ↦ rw h (first_insert t x v h)
    | inr h ↦ rw h (
        later_insert t x v h (
          insert_loop_lem key_of key_size short bytes key_size key_size 0 [] t.root x (omega arith)
            (omega arith)
            (Wf-Agree key_of key_size key_size key_size 0 (λ _. 0) (key_of x) t.root (omega arith)
              (λ j l. absurd (omega arith)) v.wf)
            h tt))
  ]
