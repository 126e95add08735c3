-- ===== src/ArTree/Iterate/Sorted.antt =====
-- Lemmas about bounds and iterators of include/art/ar_tree.h and the order of the keys.
use cpp_art.Base.{
  ℕ, zero, suc, ◌≡◌, Bool, true, false, ◌&&◌, if◌then◌else◌, [], ◌∷◌, refl, sym, ◌∙◌, ap, arith,
  inl, inr, Bool-cases,
}
use mathlib.Core.Path.{subst}
use cpp_art.Node.Body
use cpp_art.Tree.{
  Node, Inner, leaf, of_inner, view-of_inner, eq_null, is_null, is_leaf, Ancestors, node_pointer,
  null_case, leaf_case, inner_case, node_case,
}
use cpp_art.Tree.Key.{Key, IsBytes}
use cpp_art.Tree.Wf.{Wf}
use cpp_art.Tree.Find.{Iterator, end, at, Outcome, done, find_loop}
use cpp_art.Tree.Find.Steps.{
  Wf-Agree, InnerWf-of_Wf, not-Wf-zero, is_null-of_inner, find_loop-leaf, find_loop-null,
  find_loop-of_inner,
}
use cpp_art.Tree.Walk.{key_less, successor, parents, successor_of_previous, bound_loop}
use cpp_art.Tree.Walk.Least.{minimum_lem, key_less_irrefl}
use cpp_art.Tree.Walk.Bounds.{wanted, Next, found, nothing, root_bound}
use cpp_art.ArTree.{ArTree, find, IsValid}
use cpp_art.ArTree.Laws.{find-eq-loop}
use cpp_art.ArTree.Iterate.{begin, increment, lower_bound, upper_bound}

module _ {V : Type 0} (key_of : V → Key) (key_size : ℕ) where
  -- In a tree that holds the invariant and a value, `begin` is at a value of the tree that the
  -- given one does not come before.
  pub begin_first :
      (t : ArTree V) (w : V)
      → IsValid key_of key_size t
      → find key_of key_size t (key_of w) ≡ done (at w)
      → (v : V) × (begin key_of key_size t ≡ done (at v))
        × (find key_of key_size t (key_of v) ≡ done (at v))
        × (key_less key_size 0 (key_of w) (key_of v) ≡ false)
  unfolding begin
  begin_first t w v f = elim (Bool-cases (is_null t.root)) [
    | inl h ↦ absurd (
        ground (
          arith,
          eq_null t.root h,
          find-eq-loop key_of key_size t (key_of w),
          find_loop-null key_of key_size key_size 0 (key_of w),
          f,
        ))
    | inr h ↦
        let (x, m, first) =
          minimum_lem key_of key_size (suc key_size) key_size 0 (λ _. 0) t.root (omega arith)
            (omega arith) v.wf h in
        (
          x,
          rw h m,
          find-eq-loop key_of key_size t (key_of x) ∙ first.here,
          first.first w (λ j l. absurd (omega arith))
              (sym (find-eq-loop key_of key_size t (key_of w)) ∙ f),
        )
  ]

module _ {V : Type 0} (key_of : V → Key) (key_size : ℕ) (bytes : (v : V) → IsBytes (key_of v)) where
  -- What a bound is, for one value of the tree.
  abbrev pub Bound : Bool → ArTree V → Key → V → Iterator V → Type 0
  Bound strict t key w end = wanted key_size strict key (key_of w) ≡ false
  Bound strict t key w (at v) =
      (find key_of key_size t (key_of v) ≡ done (at v))
      × (wanted key_size strict key (key_of v) ≡ true)
      × ((wanted key_size strict key (key_of w) && key_less key_size 0 (key_of w) (key_of v))
          ≡ false)

  Bound-of_Next :
      (strict : Bool) (t : ArTree V) (key : Key) (w : V) {o : Outcome (Iterator V)}
      → find key_of key_size t (key_of w) ≡ done (at w)
      → Next key_of key_size bytes strict key key_size 0 t.root (done end) o
      → (i : Iterator V) × (o ≡ done i) × Bound strict t key w i
  Bound-of_Next strict t key w f (nothing o low) = (
    end,
    o,
    low w (λ j l. absurd (omega arith)) (sym (find-eq-loop key_of key_size t (key_of w)) ∙ f),
  )
  Bound-of_Next strict t key w f (found v o here agree want first) = (
    at v,
    o,
    (
      find-eq-loop key_of key_size t (key_of v) ∙ here,
      want,
      ground (
        arith,
        first w (λ j l. absurd (omega arith)) (sym (find-eq-loop key_of key_size t (key_of w)) ∙ f),
      ),
    ),
  )

  inner_bound :
      (strict : Bool) (size : ℕ) (n : Inner V) (key : Key)
      → size ≡ key_size
      → IsBytes key
      → Wf key_of size 0 key (of_inner n)
      → Next key_of key_size bytes strict key size 0
          (of_inner n)
          (done end)
          (bound_loop key_of key_size strict (suc size) 0 [] (of_inner n) key)
  inner_bound strict zero n key e b w = absurd (not-Wf-zero key_of 0 key n w)
  inner_bound strict (suc r) n key e b w =
      root_bound key_of key_size bytes strict key r n e b (InnerWf-of_Wf key_of r 0 key n w)

  bound_lem :
      (strict : Bool) (t : ArTree V) (key : Key) (w : V)
      → IsValid key_of key_size t
      → IsBytes key
      → is_leaf t.root ≡ false
      → find key_of key_size t (key_of w) ≡ done (at w)
      → (i : Iterator V) × ((if is_null t.root
            then done end
            else bound_loop key_of key_size strict (suc key_size) 0 [] t.root key)
          ≡ done i)
        × Bound strict t key w i
  bound_lem strict t key w v b inner f = elim (node_case t.root) [
    | null_case p ↦ absurd (
        ground (
          arith,
          p,
          find-eq-loop key_of key_size t (key_of w),
          find_loop-null key_of key_size key_size 0 (key_of w),
          f,
        ))
    | leaf_case x p ↦ absurd (ground (arith, p))
    | inner_case n p ↦ Bound-of_Next strict t key w f (
        rw p (
          rw (is_null-of_inner n) (
            inner_bound strict key_size n key refl b (
              rw p at (
                Wf-Agree key_of key_size 0 (λ _. 0) key t.root (λ j l. absurd (omega arith))
                  v.wf)))))
  ]

  -- In a tree that holds the invariant, whose root is no leaf, and that holds the value `w`, over
  -- keys of bytes, `lower_bound` of a key of bytes is the end only if `w` is before the key; or
  -- it is at a value of the tree that is not before the key, and `w` is not between the two.
  pub lower_bound_first :
      (t : ArTree V) (key : Key) (w : V)
      → IsValid key_of key_size t
      → IsBytes key
      → is_leaf t.root ≡ false
      → find key_of key_size t (key_of w) ≡ done (at w)
      → (i : Iterator V) × (lower_bound key_of key_size t key ≡ done i) × Bound false t key w i
  unfolding lower_bound
  lower_bound_first t key w v b inner f = bound_lem false t key w v b inner f

  -- In a tree that holds the invariant, whose root is no leaf, and that holds the value `w`, over
  -- keys of bytes, `upper_bound` of a key of bytes is the end only if `w` is not after the key;
  -- or it is at a value of the tree that is after the key, and `w` is not between the two.
  pub upper_bound_first :
      (t : ArTree V) (key : Key) (w : V)
      → IsValid key_of key_size t
      → IsBytes key
      → is_leaf t.root ≡ false
      → find key_of key_size t (key_of w) ≡ done (at w)
      → (i : Iterator V) × (upper_bound key_of key_size t key ≡ done i) × Bound true t key w i
  unfolding upper_bound
  upper_bound_first t key w v b inner f = bound_lem true t key w v b inner f

  pub parents-of_inner :
      (f d : ℕ) (above : Ancestors V) (n : Inner V) (k : Key)
      → parents (suc f) d above (of_inner n) k
        ≡ parents f (suc d) (n ∷ above) (Body.find n.body (k d)) k
  unfolding parents
  parents-of_inner f d above n k = rw (view-of_inner n, parents) refl

  bound_loop-inner :
      (f d : ℕ) (above : Ancestors V) (n : Inner V) (k : Key)
      → bound_loop key_of key_size true (suc f) d above (of_inner n) k
        ≡ bound_loop key_of key_size true f (suc d) (n ∷ above) (Body.find n.body (k d)) k
  unfolding bound_loop
  bound_loop-inner f d above n k = rw (view-of_inner n, bound_loop) refl

  at_leaf :
      (f d : ℕ) (m : Inner V) (above : Ancestors V) (v : V)
      → bound_loop key_of key_size true (suc f) d (m ∷ above) (leaf v) (key_of v)
        ≡ successor (suc key_size) (parents (suc f) d (m ∷ above) (leaf v) (key_of v)) (key_of v)
  unfolding bound_loop parents successor_of_previous
  at_leaf f d m above v = rw (key_less_irrefl key_size 0 (key_of v) (key_of v) (λ x. refl)) refl

  -- The walk of `upper_bound` to the leaf of a value ends as the increment of an iterator there.
  upper_bound-parents :
      (f d : ℕ) (t : Node V) (m : Inner V) (above : Ancestors V) (v : V)
      → find_loop key_of key_size f d t (key_of v) ≡ done (at v)
      → bound_loop key_of key_size true f d (m ∷ above) t (key_of v)
        ≡ successor (suc key_size) (parents f d (m ∷ above) t (key_of v)) (key_of v)
  upper_bound-parents zero d t m above v g = absurd (unfold find_loop in cc g)
  upper_bound-parents (suc f) d t m above v g = elim (node_case t) [
    | null_case p ↦ absurd (ground (arith, p, find_loop-null key_of key_size f d (key_of v), g))
    | leaf_case u p ↦
        let same : u ≡ v = ground (arith, p, find_loop-leaf key_of key_size f d u (key_of v), g) in
        rw p (rw same (at_leaf f d m above v))
    | inner_case n p ↦ rw p (
        bound_loop-inner f d (m ∷ above) n (key_of v)
        ∙ upper_bound-parents f (suc d) (Body.find n.body (key_of v d)) n (m ∷ above) v
            (sym (find_loop-of_inner key_of key_size f d n (key_of v)) ∙ rw p at g)
        ∙ ap (λ (x : Ancestors V). successor (suc key_size) x (key_of v))
            (sym (parents-of_inner f d (m ∷ above) n (key_of v))))
  ]

  -- An increment below an inner root is the upper bound of the key.
  increment_inner :
      (t : ArTree V) (v : V) (n : Inner V)
      → t.root ≡ of_inner n
      → find key_of key_size t (key_of v) ≡ done (at v)
      → increment key_of key_size t (at v)
        ≡ bound_loop key_of key_size true (suc key_size) 0 [] (of_inner n) (key_of v)
  unfolding increment
  increment_inner t v n p f = rw p (
      ap (λ (x : Ancestors V). successor (suc key_size) x (key_of v))
        (parents-of_inner key_size 0 [] n (key_of v))
      ∙ sym (
          bound_loop-inner key_size 0 [] n (key_of v)
          ∙ upper_bound-parents key_size 1 (Body.find n.body (key_of v 0)) n [] v (
              sym (find_loop-of_inner key_of key_size key_size 0 n (key_of v))
              ∙ rw p at (sym (find-eq-loop key_of key_size t (key_of v)) ∙ f))))

  increment_leaf :
      (t : ArTree V) (v u : V) → t.root ≡ leaf u → increment key_of key_size t (at v) ≡ done end
  unfolding increment successor parents
  increment_leaf t v u p = rw p refl

  -- In a tree that holds the invariant and the values `v` and `w`, over keys of bytes, the
  -- increment of an iterator at `v` is the end only if `w` is not after `v`; or it is at a value
  -- of the tree that is after `v`, and `w` is not between the two.
  pub increment_next :
      (t : ArTree V) (v w : V)
      → IsValid key_of key_size t
      → find key_of key_size t (key_of v) ≡ done (at v)
      → find key_of key_size t (key_of w) ≡ done (at w)
      → (i : Iterator V) × (increment key_of key_size t (at v) ≡ done i)
        × Bound true t (key_of v) w i
  increment_next t v w valid f g = elim (node_case t.root) [
    | null_case p ↦ absurd (
        ground (
          arith,
          p,
          find-eq-loop key_of key_size t (key_of w),
          find_loop-null key_of key_size key_size 0 (key_of w),
          g,
        ))
    | leaf_case u p ↦
        let same : v ≡ w = ground (
          arith,
          p,
          find-eq-loop key_of key_size t (key_of w),
          find-eq-loop key_of key_size t (key_of v),
          find_loop-leaf key_of key_size key_size 0 u (key_of w),
          find_loop-leaf key_of key_size key_size 0 u (key_of v),
          f,
          g,
        ) in
        (
          end,
          increment_leaf t v u p,
          ap (λ (x : V). key_less key_size 0 (key_of v) (key_of x)) (sym same)
              ∙ key_less_irrefl key_size 0 (key_of v) (key_of v) (λ x. refl),
        )
    | inner_case n p ↦ Bound-of_Next true t (key_of v) w g (
        rw (increment_inner t v n p f) (
          subst
            (λ x.
              Next key_of key_size bytes true (key_of v) key_size 0 x (done end)
                (bound_loop key_of key_size true (suc key_size) 0 [] (of_inner n) (key_of v)))
            (sym p)
            (inner_bound true key_size n (key_of v) refl (bytes v) (
              rw p at (
                Wf-Agree key_of key_size 0 (λ _. 0) (key_of v) t.root (λ j l. absurd (omega arith))
                  valid.wf)))))
  ]
