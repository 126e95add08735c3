-- ===== src/ArPrefixTree/Lookup.antt =====
-- `find` of include/art/ar_prefix_tree.h on the whole tree.
use cpp_art.Base.{
  ℕ, zero, suc, ◌+◌, ◌≡◌, true, false, refl, sym, ◌∙◌, ap, arith, inl, inr, Bool-cases,
}
use cpp_art.Node.Body
use cpp_art.PrefixTree.{
  Node, node_pointer, is_null, eq_null, null_case, leaf_case, inner_case, node_case, Member,
}
use cpp_art.PrefixTree.Wf.{Wf}
use cpp_art.PrefixTree.Prefix.Steps.{
  InnerWf-of_Wf, not-Wf-zero, Member-leaf, not-Member_null, Member-of_inner, InnerWf-Member,
}
use cpp_art.PrefixTree.Find.Steps.{Found, hit, miss, find_loop_lem}
use cpp_art.ArPrefixTree.{ArPrefixTree, find, IsValid}
use cpp_art.Tree.Key.{Key, key_eq, IsBytes, key_eq→Agree}
use cpp_art.Tree.Find.{Iterator, end, at, Outcome, done}

module _ {V : Type 0} (key_of : V → Key) (key_size : ℕ) where
  -- Two values of a tree that have one key are the same.
  unique :
      (r d : ℕ) (path k : Key) (t : Node V) (v w : V)
      → Wf key_of key_size r d path t
      → key_eq key_size k (key_of v) ≡ true
      → key_eq key_size k (key_of w) ≡ true
      → Member v t
      → Member w t
      → v ≡ w
  unique zero d path k t v w wf e f m l = elim (node_case t) [
    | null_case p ↦ absurd (not-Member_null v (rw p at m))
    | leaf_case u p ↦ Member-leaf u v (rw p at m) ∙ sym (Member-leaf u w (rw p at l))
    | inner_case n p ↦ absurd (not-Wf-zero key_of key_size d path n (rw p at wf))
  ]
  unique (suc r) d path k t v w wf e f m l = elim (node_case t) [
    | null_case p ↦ absurd (not-Member_null v (rw p at m))
    | leaf_case u p ↦ Member-leaf u v (rw p at m) ∙ sym (Member-leaf u w (rw p at l))
    | inner_case n p ↦
        let i = InnerWf-of_Wf key_of key_size r d path n (rw p at wf) in
        let (b, h, m') = Member-of_inner n v (rw p at m) in
        let (c, g, l') = Member-of_inner n w (rw p at l) in
        let same : b ≡ c = ground (
          arith,
          i.span,
          (InnerWf-Member key_of key_size r d path n b v i h m').1,
          (InnerWf-Member key_of key_size r d path n c w i g l').1,
          key_eq→Agree key_size k (key_of v) e (d + n.head.prefix_length),
          key_eq→Agree key_size k (key_of w) f (d + n.head.prefix_length),
        ) in
        unique r _ _ k (Body.find n.body c) v w (i.children c g) e f (rw same at m') l'
  ]

  -- A lookup of a value's key gives the value.
  pub Found-hit :
      (r d : ℕ) (path k : Key) (t : Node V) (v : V) (o : Outcome (Iterator V))
      → Wf key_of key_size r d path t
      → Member v t
      → key_eq key_size k (key_of v) ≡ true
      → Found key_of key_size t k o
      → o ≡ done (at v)
  Found-hit r d path k t v o wf m e (hit w f l same) =
      f ∙ ap (λ (x : V). done (at x)) (unique r d path k t w v wf same e l m)
  Found-hit r d path k t v o wf m e (miss f out) = absurd (ground (arith, out v m))

  -- A lookup of a key that no value has gives the end.
  pub Found-miss :
      (k : Key) (t : Node V) (o : Outcome (Iterator V))
      → ((v : V) → Member v t → key_eq key_size k (key_of v) ≡ false)
      → Found key_of key_size t k o
      → o ≡ done end
  Found-miss k t o out (hit w f l same) = absurd (ground (arith, out w l))
  Found-miss k t o out (miss f none_there) = f

  -- On a tree that holds the invariant, `find` of a key of bytes returns a value of the tree with
  -- that key, or the end if the tree has none.
  pub find_lem :
      (t : ArPrefixTree V) (k : Key)
      → IsValid key_of key_size t
      → IsBytes k
      → Found key_of key_size t.root k (find key_of key_size t k)
  unfolding find
  find_lem t k v b = elim (Bool-cases (is_null t.root)) [
    | inl h ↦ rw h (miss refl (λ w m. absurd (not-Member_null w (rw (eq_null t.root h) at m))))
    | inr h ↦ rw h (
        find_loop_lem key_of key_size key_size key_size 0 (λ _. 0) t.root k (omega arith)
          (omega arith) b v.wf)
  ]
