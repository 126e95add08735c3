-- ===== src/ArPrefixTree/Erasure.antt =====
-- `erase_unique` of include/art/ar_prefix_tree.h as an operation on the finite map that the tree
-- stands for.
use cpp_art.Base.{
  ℕ, suc, ◌-◌, ◌^◌, ◌≡◌, ◌≤◌, true, false, refl, ◌∙◌, ap, arith, inl, inr, [], Option, none, some,
  Bool-cases, if◌then◌else◌,
}
use cpp_art.PrefixTree.{
  Node, Inner, View, view, null, leaf, of_inner, view-of_inner, null_case, leaf_case, inner_case,
  node_case, Member, here, no_leaf,
}
use cpp_art.PrefixTree.Prefix.Steps.{
  Wf-null, Wf-Agree, InnerWf-of_Wf, Member-leaf, not-Member_null, Counted-leaf, is_null-of_inner,
}
use cpp_art.PrefixTree.Insert.{plug}
use cpp_art.PrefixTree.Erase.{erase_loop}
use cpp_art.PrefixTree.Erase.Loop.{Erased, missing, erased, erase_loop_lem}
use cpp_art.ArPrefixTree.{ArPrefixTree, size, erase_unique, root_gone, IsValid}
use cpp_art.ArPrefixTree.Lookup.{find_lem, Found-hit, Found-miss}
use cpp_art.ArPrefixTree.Contract.{operations, of_root, find_less}
use cpp_art.Tree.Key.{Key, key_eq, IsBytes}
use cpp_art.Tree.Find.{Outcome, done, throws, bad_access}
use cpp_art.SearchTree.{EraseResult, absent, removed}

module _ {V : Type 0} (key_of : V → Key) (key_size : ℕ) where
  abbrev Result : ArPrefixTree V → Key → Outcome (ArPrefixTree V × ℕ) → Type 0
  Result t k o =
      EraseResult key_of key_size (operations key_of key_size) (IsValid key_of key_size) t k o

  -- Nothing to erase.
  nothing_erased :
      (t : ArPrefixTree V) (k : Key)
      → IsValid key_of key_size t
      → IsBytes k
      → ((v : V) → Member v t.root → key_eq key_size k (key_of v) ≡ false)
      → Result t k (done (t, 0))
  nothing_erased t k v b out =
      absent refl (Found-miss key_of key_size k t.root _ out (find_lem key_of key_size t k v b))

  -- The last value.
  root_erased :
      (t : ArPrefixTree V) (k : Key) (w : V)
      → IsValid key_of key_size t
      → IsBytes k
      → t.root ≡ leaf w
      → key_eq key_size k (key_of w) ≡ true
      → Result t k (done (record { root = null; count = t.count - 1; dummy_root = root_gone t }, 1))
  unfolding size
  root_erased t k w v b p same =
      let t' : ArPrefixTree V = record {
        root = null;
        count = t.count - 1;
        dummy_root = root_gone t;
      } in
      let one : t.count ≡ 1 = Counted-leaf w t.count (rw p at v.counted) in
      let v' : IsValid key_of key_size t' =
        of_root key_of key_size t' (λ _. 0) key_size (Wf-null key_of key_size key_size 0 (λ _. 0))
          (rw one (no_leaf refl)) (λ e. absurd (ground arith)) in
      removed t' w refl
        (Found-hit key_of key_size key_size 0 (λ _. 0) k t.root w _ v.wf (here p) same
          (find_lem key_of key_size t k v b))
        v' (omega arith)
        (λ j c.
          find_less key_of key_size t t' k j v v'
            (λ u m ne. let is_w : u ≡ w = Member-leaf w u (rw p at m) in absurd (ground arith))
            (λ u m. absurd (not-Member_null u m)) c)

  -- Below an inner root, from what the loop does.
  loop-Erased :
      (t : ArPrefixTree V) (k : Key) (n : Inner V)
      → IsValid key_of key_size t
      → IsBytes k
      → t.root ≡ of_inner n
      → {o : Outcome (Option (Node V))} → Erased key_of key_size 0 [] (of_inner n) k o
      → Result t k (elim o [
        | done none ↦ done (t, 0)
        | done (some r) ↦ done (record t { root = r; count = t.count - 1 }, 1)
        | throws ↦ throws
        | bad_access ↦ bad_access
      ])
  unfolding plug size
  loop-Erased t k n v b p (missing e out) = rw e (nothing_erased t k v b (λ u m. out u (rw p at m)))
  loop-Erased t k n v b p (erased r e g) =
      let t' : ArPrefixTree V = record t { root = r; count = t.count - 1 } in
      let (j, more, counted) = g.fewer t.count (rw p at v.counted) in
      let less : j ≡ t.count - 1 = omega arith in
      let v' : IsValid key_of key_size t' =
        of_root key_of key_size t' k g.layers g.wf (rw less at counted)
          (λ h. v.rooted (rw p (is_null-of_inner n))) in
      let (w, m, same) = g.had in
      rw e (
        removed t' w refl
          (Found-hit key_of key_size key_size 0 (λ _. 0) k t.root w _ v.wf (rw p m) same
            (find_lem key_of key_size t k v b))
          v' (omega arith)
          (λ l c.
            find_less key_of key_size t t' k l v v' (λ u q. g.kept u (rw p at q))
              (λ u q. let (q', ne) = g.only u q in (rw p q', ne)) c))

  -- What `erase_unique` does at each kind of root.
  at_view :
      (t : ArPrefixTree V) (k : Key) {x : View V}
      → view t.root ≡ x
      → erase_unique key_of key_size t k ≡ elim x [
        | View.nothing ↦ done (t, 0)
        | View.a_leaf w ↦
            if key_eq key_size k (key_of w)
            then done (record { root = null; count = t.count - 1; dummy_root = root_gone t }, 1)
            else done (t, 0)
        | View.an_inner n ↦ elim (erase_loop key_of key_size key_size 0 [] n k) [
          | done none ↦ done (t, 0)
          | done (some r) ↦ done (record t { root = r; count = t.count - 1 }, 1)
          | throws ↦ throws
          | bad_access ↦ bad_access
        ]
      ]
  unfolding erase_unique
  at_view t k p =
      ap
        (λ (x : View V). elim x [
          | View.nothing ↦ done (t, 0)
          | View.a_leaf w ↦
              if key_eq key_size k (key_of w)
              then done (record { root = null; count = t.count - 1; dummy_root = root_gone t }, 1)
              else done (t, 0)
          | View.an_inner n ↦ elim (erase_loop key_of key_size key_size 0 [] n k) [
            | done none ↦ done (t, 0)
            | done (some r) ↦ done (record t { root = r; count = t.count - 1 }, 1)
            | throws ↦ throws
            | bad_access ↦ bad_access
          ]
        ])
        p

  -- On a tree that holds the invariant, over keys of at most 65536 bytes, `erase_unique` of a key
  -- of bytes returns: either the tree as it is and 0, where the key is not found; or 1 and a tree
  -- that holds the invariant, has one value less, and finds any other key of bytes as before and
  -- that key no more.
  pub erase_unique_lem :
      (short : key_size ≤ 2 ^ 16) (t : ArPrefixTree V) (k : Key)
      → IsBytes k
      → IsValid key_of key_size t
      → EraseResult key_of key_size
          (operations key_of key_size)
          (IsValid key_of key_size)
          t
          k
          (erase_unique key_of key_size t k)
  erase_unique_lem short t k b v = elim (node_case t.root) [
    | null_case p ↦
        rw (at_view t k (ap view p))
          (nothing_erased t k v b (λ u m. absurd (not-Member_null u (rw p at m))))
    | leaf_case w p ↦ elim (Bool-cases (key_eq key_size k (key_of w))) [
      | inl same ↦ rw (at_view t k (ap view p), same) (root_erased t k w v b p same)
      | inr ne ↦
          rw (at_view t k (ap view p), ne)
            (nothing_erased t k v b (λ u m. rw (Member-leaf w u (rw p at m)) ne))
    ]
    | inner_case n p ↦ rw (at_view t k (ap view p ∙ view-of_inner n)) (
        loop-Erased t k n v b p (
          erase_loop_lem key_of key_size short key_size key_size 0 [] n k b (omega arith) (
            InnerWf-of_Wf key_of key_size key_size 0 k n (
              Wf-Agree key_of key_size key_size (suc key_size) 0 (λ _. 0) k (of_inner n)
                (omega arith) (λ j l. absurd (omega arith)) (rw p at v.wf)))))
  ]
