-- ===== src/Tree/Walk/Bounds.antt =====
-- Lemmas about the loop of `lower_bound` and `upper_bound` of include/art/ar_tree.h.
use cpp_art.Base.{
  ℕ, zero, suc, ◌+◌, ◌≡◌, ◌<◌, ◌≤◌, Bool, true, false, not, if◌then◌else◌, Option, none, some, [],
  ◌∷◌, refl, sym, ◌∙◌, ap, arith, inl, inr, Bool-cases, set, eq_or_ne, lt_or_le,
}
use cpp_art.Node.Body
use cpp_art.Node.Body.{Body}
use cpp_art.Node.Body.Order.{next_slot_lem}
use cpp_art.Node.Slots.{Least, AtSlot}
use cpp_art.Tree.{
  Node, Inner, null, leaf, of_inner, view-of_inner, Ancestors, node_pointer, null_case, leaf_case,
  inner_case, node_case,
}
use cpp_art.Tree.Key.{Key, IsBytes, Agree, Agree→key_eq, Agree-extend}
use cpp_art.Tree.Find.{Iterator, end, at, Outcome, done, find_loop}
use cpp_art.Tree.Find.Steps.{
  Wf-unset, InnerWf-of_Wf, not-Wf-zero, Agree-Wf_leaf, find_loop-leaf, find_loop-null,
}
use cpp_art.Tree.Wf.{InnerWf, Wf}
use cpp_art.Tree.Walk.{key_less, minimum, successor, successor_of_previous, bound_loop}
use cpp_art.Tree.Walk.Least.{minimum_lem, in_child, below_less, key_less_irrefl}

-- `lower_bound` wants a value that is not before the key, `upper_bound` one that is after it.
abbrev pub wanted : ℕ → Bool → Key → Key → Bool
wanted key_size strict key k =
    if strict then key_less key_size 0 key k else not (key_less key_size 0 k key)

module _ {V : Type 0} (key_of : V → Key) (key_size : ℕ) (bytes : (v : V) → IsBytes (key_of v))
    (strict : Bool) (key : Key) where
  -- The outcome is the first wanted value of the subtree, or there is none and it is `beyond`.
  pub data Next (r d : ℕ) (t : Node V) (beyond o : Outcome (Iterator V)) : Type 0 where
    found :
        (v : V)
        → o ≡ done (at v)
        → find_loop key_of key_size (suc r) d t (key_of v) ≡ done (at v)
        → Agree d (key_of v) key
        → wanted key_size strict key (key_of v) ≡ true
        → ((w : V)
            → Agree d (key_of w) key
            → find_loop key_of key_size (suc r) d t (key_of w) ≡ done (at w)
            → wanted key_size strict key (key_of w) ≡ true
            → key_less key_size 0 (key_of w) (key_of v) ≡ false)
        → Next r d t beyond o
    nothing :
        o ≡ beyond
        → ((w : V)
            → Agree d (key_of w) key
            → find_loop key_of key_size (suc r) d t (key_of w) ≡ done (at w)
            → wanted key_size strict key (key_of w) ≡ false)
        → Next r d t beyond o

  -- A value in a child at a smaller byte than the key's is not wanted, at a greater byte it is.
  unwanted_below :
      (d : ℕ) (k : Key)
      → d < key_size
      → Agree d k key
      → k d < key d
      → wanted key_size strict key k ≡ false
  unwanted_below d k h a l =
      ground (arith, below_less key_of key_size d key k key h a (λ j x. refl) l)

  wanted_above :
      (d : ℕ) (k : Key)
      → d < key_size
      → Agree d k key
      → key d < k d
      → wanted key_size strict key k ≡ true
  wanted_above d k h a l =
      ground (arith, below_less key_of key_size d key key k h (λ j x. refl) a l)

  successor-of_slot :
      (f : ℕ) (n : Inner V) (above : Ancestors V) (i : ℕ)
      → Body.next_slot n.body (key n.depth) ≡ some i
      → successor f (n ∷ above) key ≡ minimum f (Body.child n.body i)
  unfolding successor
  successor-of_slot f n above i e = rw (e, successor) refl

  successor-none :
      (f : ℕ) (n : Inner V) (above : Ancestors V)
      → Body.next_slot n.body (key n.depth) ≡ none
      → successor f (n ∷ above) key ≡ successor f above key
  unfolding successor
  successor-none f n above e = rw (e, successor) refl

  -- Up to the key's byte a node holds no wanted value if the key's child holds none.
  low_unwanted :
      (r d : ℕ) (n : Inner V)
      → suc r + d ≡ key_size
      → ((w : V)
          → Agree (suc d) (key_of w) key
          → find_loop key_of key_size (suc r) (suc d) (Body.find n.body (key d)) (key_of w)
            ≡ done (at w)
          → wanted key_size strict key (key_of w) ≡ false)
      → (w : V) → Agree d (key_of w) key
      → find_loop key_of key_size (suc (suc r)) d (of_inner n) (key_of w) ≡ done (at w)
      → key_of w d ≤ key d
      → wanted key_size strict key (key_of w) ≡ false
  low_unwanted r d n e low w a g l = elim (eq_or_ne (key_of w d) (key d)) [
    | inl same ↦ low w (Agree-extend d (key_of w) key a same) (
        sym (
          in_child key_of key_size r d n (key_of w) (Body.find n.body (key d))
            (ap (Body.find n.body) same))
        ∙ g)
    | inr ne ↦ unwanted_below d (key_of w) (omega arith) a (omega arith)
  ]

  -- A byte without a child leads to no value.
  no_value :
      (r d : ℕ) (n : Inner V) (w : V)
      → find_loop key_of key_size (suc (suc r)) d (of_inner n) (key_of w) ≡ done (at w)
      → ¬ (Body.find n.body (key_of w d) ≡ null)
  no_value r d n w g p = absurd (
      ground (
        arith,
        in_child key_of key_size r d n (key_of w) null p,
        find_loop-null key_of key_size r (suc d) (key_of w),
        g,
      ))

  -- Beyond the key's child, the first value is in the next child or above the node.
  from_slot :
      (f r d : ℕ) (n : Inner V) (above : Ancestors V) (o : Outcome (Iterator V))
      → suc r + d ≡ key_size
      → r < f
      → InnerWf key_of d key (Wf key_of r (suc d)) n
      → o ≡ successor f (n ∷ above) key
      → ((w : V)
          → Agree (suc d) (key_of w) key
          → find_loop key_of key_size (suc r) (suc d) (Body.find n.body (key d)) (key_of w)
            ≡ done (at w)
          → wanted key_size strict key (key_of w) ≡ false)
      → (s : Option ℕ) → Body.next_slot n.body (key d) ≡ s
      → AtSlot s
          (λ i. Least (Body.find n.body) (key d + 1) (Body.child n.body i))
          ((c : ℕ) → key d < c → c < 256 → Body.find n.body c ≡ null)
      → Next (suc r) d (of_inner n) (successor f above key) o
  from_slot f r d n above o e h i out low none slot empty =
      nothing (out ∙ successor-none f n above (rw i.at_depth slot)) (λ w a g.
        elim (lt_or_le (key d) (key_of w d)) [
          | inl more ↦ absurd (no_value r d n w g (empty (key_of w d) more (bytes w d)))
          | inr less ↦ low_unwanted r d n e low w a g less
        ])
  from_slot f r d n above o e h i out low (some s) slot l =
      let (v, m, first) =
        minimum_lem key_of key_size f r (suc d) (set key d l.byte) (Body.child n.body s)
          (omega arith) h (rw l.is at (i.children l.byte l.small)) l.solid in
      let at_byte : key_of v d ≡ l.byte = ground (arith, first.agree d) in
      let agree : Agree d (key_of v) key = λ x y. ground (arith, first.agree x) in
      found v (out ∙ successor-of_slot f n above s (rw i.at_depth slot) ∙ m)
        (in_child key_of key_size r d n (key_of v) (Body.child n.body s)
            (ap (Body.find n.body) at_byte ∙ l.is)
          ∙ first.here)
        agree (wanted_above d (key_of v) (omega arith) agree (omega (arith, l.from)))
        (λ w a g want. elim (lt_or_le (key d) (key_of w d)) [
          | inr less ↦ absurd (ground (arith, low_unwanted r d n e low w a g less))
          | inl more ↦ elim (lt_or_le (key_of w d) l.byte) [
            | inl before ↦ absurd (no_value r d n w g (l.before (key_of w d) (omega arith) before))
            | inr after ↦ elim (eq_or_ne (key_of w d) l.byte) [
              | inl same ↦
                  first.first w (λ x y. ground (arith, a x))
                    (sym (
                        in_child key_of key_size r d n (key_of w) (Body.child n.body s)
                          (ap (Body.find n.body) same ∙ l.is))
                      ∙ g)
              | inr ne ↦
                  (below_less key_of key_size d key (key_of v) (key_of w) (omega arith) agree a
                    (omega arith)).1
            ]
          ]
        ])

  -- At an inner node, from what the loop does at the key's child.
  inner_Next :
      (f r d : ℕ) (n : Inner V) (above : Ancestors V) {o : Outcome (Iterator V)}
      → suc r + d ≡ key_size
      → r < f
      → IsBytes key
      → InnerWf key_of d key (Wf key_of r (suc d)) n
      → Next r (suc d) (Body.find n.body (key d)) (successor f (n ∷ above) key) o
      → Next (suc r) d (of_inner n) (successor f above key) o
  inner_Next f r d n above e h b i (nothing o low) =
      from_slot f r d n above _ e h i o low (Body.next_slot n.body (key d)) refl
        (next_slot_lem n.body (key d) i.valid (b d))
  inner_Next f r d n above e h b i (found v o here agree want first) =
      found v o
        (in_child key_of key_size r d n (key_of v) (Body.find n.body (key d))
            (ap (Body.find n.body) same)
          ∙ here)
        (λ x y. agree x (omega arith)) want
        (λ w a g q. elim (lt_or_le (key_of w d) (key d)) [
          | inl less ↦ absurd (ground (arith, unwanted_below d (key_of w) (omega arith) a less))
          | inr more ↦ elim (eq_or_ne (key_of w d) (key d)) [
            | inl at_key ↦
                first w (Agree-extend d (key_of w) key a at_key)
                  (sym (
                      in_child key_of key_size r d n (key_of w) (Body.find n.body (key d))
                        (ap (Body.find n.body) at_key))
                    ∙ g)
                  q
            | inr ne ↦
                (below_less key_of key_size d key (key_of v) (key_of w) (omega arith)
                  (λ x y. agree x (omega arith)) a (omega arith)).1
          ]
        ])
    where
      same : key_of v d ≡ key d
      same = agree d (omega arith)

  bound_loop-of_inner :
      (f d : ℕ) (above : Ancestors V) (n : Inner V)
      → bound_loop key_of key_size strict (suc f) d above (of_inner n) key
        ≡ bound_loop key_of key_size strict f (suc d) (n ∷ above) (Body.find n.body (key d)) key
  unfolding bound_loop
  bound_loop-of_inner f d above n = rw (view-of_inner n, bound_loop) refl

  null_Next : (r d : ℕ) (o : Outcome (Iterator V)) → Next r d null o o
  null_Next r d o =
      nothing refl (λ w a g. absurd (ground (arith, find_loop-null key_of key_size r d (key_of w))))

  leaf_Next :
      (r d : ℕ) (v : V) (m : Inner V) (above : Ancestors V)
      → Agree d (key_of v) key
      → Next r d
          (leaf v)
          (successor (suc key_size) (m ∷ above) key)
          (bound_loop key_of key_size strict (suc r) d (m ∷ above) (leaf v) key)
  unfolding bound_loop successor_of_previous
  leaf_Next r d v m above a = elim (Bool-cases (wanted key_size strict key (key_of v))) [
    | inl q ↦
        found v (rw q refl)
          (find_loop-leaf key_of key_size r d v (key_of v)
            ∙ rw (Agree→key_eq key_size (key_of v) (key_of v) (λ j h. refl)) refl)
          a q
          (λ w b g p.
            ap (λ (u : V). key_less key_size 0 (key_of u) (key_of v)) (sym (alone w g))
            ∙ key_less_irrefl key_size 0 (key_of v) (key_of v) (λ x. refl))
    | inr q ↦
        nothing (rw q refl)
          (λ w b g. ap (λ (u : V). wanted key_size strict key (key_of u)) (sym (alone w g)) ∙ q)
  ]
    where
      alone :
          (w : V) → find_loop key_of key_size (suc r) d (leaf v) (key_of w) ≡ done (at w) → v ≡ w
      alone w g = ground (arith, find_loop-leaf key_of key_size r d v (key_of w), g)

  bound_loop_lem :
      (r d : ℕ) (t : Node V) (m : Inner V) (above : Ancestors V)
      → r + d ≡ key_size
      → IsBytes key
      → Wf key_of r d key t
      → Next r d t
          (successor (suc key_size) (m ∷ above) key)
          (bound_loop key_of key_size strict (suc r) d (m ∷ above) t key)
  bound_loop_lem zero d t m above e b w = elim (node_case t) [
    | null_case p ↦ rw p (
        unfold bound_loop successor_of_previous in
        null_Next zero d (successor (suc key_size) (m ∷ above) key))
    | leaf_case v p ↦
        rw p (leaf_Next zero d v m above (Agree-Wf_leaf key_of zero d key v (rw p at w)))
    | inner_case n p ↦ absurd (not-Wf-zero key_of d key n (rw p at w))
  ]
  bound_loop_lem (suc r) d t m above e b w = elim (node_case t) [
    | null_case p ↦ rw p (
        unfold bound_loop successor_of_previous in
        null_Next (suc r) d (successor (suc key_size) (m ∷ above) key))
    | leaf_case v p ↦
        rw p (leaf_Next (suc r) d v m above (Agree-Wf_leaf key_of (suc r) d key v (rw p at w)))
    | inner_case n p ↦
        let i = InnerWf-of_Wf key_of r d key n (rw p at w) in
        rw p (
          rw bound_loop-of_inner (
            inner_Next (suc key_size) r d n (m ∷ above) e (omega arith) b i (
              bound_loop_lem r (suc d) (Body.find n.body (key d)) n (m ∷ above) (omega arith) b
                (Wf-unset key_of r d (key d) key _ refl (i.children (key d) (b d))))))
  ]

  -- At an inner root there is nothing beyond but the end.
  pub root_bound :
      (r : ℕ) (n : Inner V)
      → suc r ≡ key_size
      → IsBytes key
      → InnerWf key_of 0 key (Wf key_of r 1) n
      → Next
          (suc r)
          0
          (of_inner n)
          (done end)
          (bound_loop key_of key_size strict (suc (suc r)) 0 [] (of_inner n) key)
  unfolding successor
  root_bound r n e b i = rw bound_loop-of_inner (
      inner_Next (suc key_size) r 0 n [] (omega arith) (omega arith) b i (
        bound_loop_lem r 1 (Body.find n.body (key 0)) n [] (omega arith) b
          (Wf-unset key_of r 0 (key 0) key _ refl (i.children (key 0) (b 0)))))
