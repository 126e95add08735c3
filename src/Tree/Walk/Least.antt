-- ===== src/Tree/Walk/Least.antt =====
-- Lemmas about `minimum` of include/art/ar_tree.h and the order of the keys.
use cpp_art.Base.{
  ℕ, zero, suc, ◌+◌, ◌≡◌, ◌<◌, ◌≤◌, true, false, some, refl, sym, ◌∙◌, ap, arith, inl, inr, set,
  eq_or_ne, lt_or_le,
}
use cpp_art.Node.Body
use cpp_art.Node.Body.{Body}
use cpp_art.Node.Body.Order.{min_slot_lem}
use cpp_art.Node.Slots.{Least}
use cpp_art.Tree.{
  Node, Inner, leaf, of_inner, view-of_inner, node_pointer, is_null, not_null, null_case, leaf_case,
  inner_case, node_case,
}
use cpp_art.Tree.Key.{Key, Agree, Agree→key_eq}
use cpp_art.Tree.Find.{at, done, find_loop}
use cpp_art.Tree.Find.Steps.{
  InnerWf-of_Wf, not-Wf-zero, Agree-Wf_leaf, find_loop-leaf, find_loop-null, find_loop-of_inner,
}
use cpp_art.Tree.Wf.{Wf}
use cpp_art.Tree.Walk.{key_less, minimum}

-- Keys that agree up to a byte are ordered as the byte is.
pub key_less-at :
    (r j i : ℕ) (a b : Key)
    → j ≤ i
    → i < j + r
    → ((x : ℕ) → j ≤ x → x < i → a x ≡ b x)
    → a i < b i
    → key_less r j a b ≡ true
unfolding key_less
key_less-at zero j i a b h k s l = absurd (omega arith)
key_less-at (suc r) j i a b h k s l = elim (eq_or_ne i j) [
  | inl e ↦ ground arith
  | inr ne ↦ ground (
    arith,
    s j,
    key_less-at r (suc j) i a b (omega arith) (omega arith) (λ x p q. s x (omega arith) q) l,
  )
]

pub key_less_irrefl : (r j : ℕ) (a b : Key) → ((x : ℕ) → a x ≡ b x) → key_less r j a b ≡ false
unfolding key_less
key_less_irrefl zero j a b h = refl
key_less_irrefl (suc r) j a b h = ground (arith, h j, key_less_irrefl r (suc j) a b h)

pub key_less_asym : (r j : ℕ) (a b : Key) → key_less r j a b ≡ true → key_less r j b a ≡ false
unfolding key_less
key_less_asym zero j a b h = refl
key_less_asym (suc r) j a b h = ground (arith, key_less_asym r (suc j) a b)

module _ {V : Type 0} (key_of : V → Key) (key_size : ℕ) where
  -- The value `v` is in the subtree, and no value of it comes before.
  pub record First (r d : ℕ) (path : Key) (t : Node V) (v : V) : Type 0 where
    pub here : find_loop key_of key_size (suc r) d t (key_of v) ≡ done (at v)
    pub agree : Agree d (key_of v) path
    pub first :
        (w : V)
        → Agree d (key_of w) path
        → find_loop key_of key_size (suc r) d t (key_of w) ≡ done (at w)
        → key_less key_size 0 (key_of w) (key_of v) ≡ false

  -- A lookup goes on in the child for its byte.
  pub in_child :
      (r d : ℕ) (n : Inner V) (k : Key) (p : Node V)
      → Body.find n.body (k d) ≡ p
      → find_loop key_of key_size (suc (suc r)) d (of_inner n) k
        ≡ find_loop key_of key_size (suc r) (suc d) p k
  in_child r d n k p h =
      find_loop-of_inner key_of key_size (suc r) d n k
      ∙ ap (λ (t : Node V). find_loop key_of key_size (suc r) (suc d) t k) h

  leaf_First : (r d : ℕ) (path : Key) (v : V) → Agree d (key_of v) path → First r d path (leaf v) v
  leaf_First r d path v a = record {
    here =
        find_loop-leaf key_of key_size r d v (key_of v)
        ∙ rw (Agree→key_eq key_size (key_of v) (key_of v) (λ j h. refl)) refl;
    agree = a;
    first = λ w b f.
        key_less_irrefl key_size 0 (key_of w) (key_of v)
          (λ x. ground (arith, find_loop-leaf key_of key_size r d v (key_of w), f));
  }

  -- A value in a child at a smaller byte comes first.
  pub below_less :
      (d : ℕ) (path a b : Key)
      → d < key_size
      → Agree d a path
      → Agree d b path
      → a d < b d
      → (key_less key_size 0 a b ≡ true) × (key_less key_size 0 b a ≡ false)
  below_less d path a b h p q l =
      let e =
        key_less-at key_size 0 d a b (omega arith) (omega arith) (λ x y z. p x z ∙ sym (q x z)) l in
      (e, key_less_asym key_size 0 a b e)

  inner_First :
      (r d : ℕ) (path : Key) (n : Inner V) (p : Node V) (v : V)
      → suc r + d ≡ key_size
      → (l : Least (Body.find n.body) 0 p) → First r (suc d) (set path d l.byte) p v
      → First (suc r) d path (of_inner n) v
  inner_First r d path n p v e l f =
      let at_byte : key_of v d ≡ l.byte = ground (arith, f.agree d) in
      let agree : Agree d (key_of v) path = λ x h. ground (arith, f.agree x) in
      record {
        here = in_child r d n (key_of v) p (ap (Body.find n.body) at_byte ∙ l.is) ∙ f.here;
        agree = agree;
        first = λ w a found. elim (lt_or_le (key_of w d) l.byte) [
          | inl less ↦ ground (
            arith,
            l.before (key_of w d),
            find_loop-of_inner key_of key_size (suc r) d n (key_of w),
            find_loop-null key_of key_size r (suc d) (key_of w),
          )
          | inr more ↦ elim (eq_or_ne (key_of w d) l.byte) [
            | inl same ↦
                f.first w (λ x h. ground (arith, a x))
                  (sym (in_child r d n (key_of w) p (ap (Body.find n.body) same ∙ l.is)) ∙ found)
            | inr ne ↦
                (below_less d path (key_of v) (key_of w) (omega arith) agree a (omega arith)).1
          ]
        ];
      }

  minimum-of_inner :
      (f : ℕ) (n : Inner V) (i : ℕ)
      → Body.min_slot n.body ≡ some i
      → minimum (suc f) (of_inner n) ≡ minimum f (Body.child n.body i)
  unfolding minimum
  minimum-of_inner f n i e = rw (view-of_inner, minimum) (rw (e, minimum) refl)

  pub minimum_lem :
      (f r d : ℕ) (path : Key) (t : Node V)
      → r + d ≡ key_size
      → r < f
      → Wf key_of r d path t
      → is_null t ≡ false
      → (v : V) × (minimum f t ≡ done (at v)) × First r d path t v
  minimum_lem zero r d path t e h w solid = absurd (omega arith)
  minimum_lem (suc f) zero d path t e h w solid = elim (node_case t) [
    | null_case p ↦ absurd (not_null t solid p)
    | leaf_case v p ↦ (
      v,
      rw p (unfold minimum in refl),
      rw p (leaf_First zero d path v (Agree-Wf_leaf key_of zero d path v (rw p at w))),
    )
    | inner_case n p ↦ absurd (not-Wf-zero key_of d path n (rw p at w))
  ]
  minimum_lem (suc f) (suc r) d path t e h w solid = elim (node_case t) [
    | null_case p ↦ absurd (not_null t solid p)
    | leaf_case v p ↦ (
      v,
      rw p (unfold minimum in refl),
      rw p (leaf_First (suc r) d path v (Agree-Wf_leaf key_of (suc r) d path v (rw p at w))),
    )
    | inner_case n p ↦
        let i = InnerWf-of_Wf key_of r d path n (rw p at w) in
        let (s, slot, l) = min_slot_lem n.body i.valid i.sized in
        let (v, m, first) =
          minimum_lem f r (suc d) (set path d l.byte) (Body.child n.body s) (omega arith)
            (omega arith) (rw l.is at (i.children l.byte l.small)) l.solid in
        (
          v,
          rw p (minimum-of_inner f n s slot ∙ m),
          rw p (inner_First r d path n (Body.child n.body s) v e l first),
        )
  ]
