-- ===== src/Tree/Leaves/AtLeast.antt =====
-- How many leaves a valid subtree of include/art/ar_tree.h has at the least.
use cpp_art.Base.{
  ℕ, zero, suc, ◌≡◌, ◌≢◌, ◌<◌, ◌≤◌, ◌==◌, false, sym, ◌∙◌, ap, arith, inl, inr, set, if◌then◌else◌,
  Bool-cases,
}
use cpp_art.Base.Sums.{summand-le, summands-le}
use cpp_art.Node.Body
use cpp_art.Node.Body.{Body}
use cpp_art.Node.Body.Laws.{size-erase, erase-IsValid, find-erase}
use cpp_art.Node.Body.Order.{min_slot_lem}
use cpp_art.Tree.{
  Node, Inner, null, of_inner, node_pointer, is_null, is_leaf, null_case, leaf_case, inner_case,
  node_case,
}
use cpp_art.Tree.Key.{Key}
use cpp_art.Tree.Find.Steps.{InnerWf-of_Wf, not-Wf-zero}
use cpp_art.Tree.Wf.{Wf, InnerWf}
use cpp_art.Tree.Leaves.{leaves, leaves-leaf, leaves-of_inner}

module _ {V : Type 0} where
  -- A node with two children or more has one at another byte than a given one.
  record Another (n : Body (Node V)) (c : ℕ) : Type 0 where
    byte : ℕ
    small : byte < 256
    other : byte ≢ c
    solid : is_null (Body.find n byte) ≡ false

  from_erased :
      (n : Body (Node V)) (c byte : ℕ) {p : Node V}
      → byte < 256
      → (if byte == c then null else Body.find n byte) ≡ p
      → is_null p ≡ false
      → Another n c
  from_erased n c byte h e solid = elim (Bool-cases (byte == c)) [
    | inl same ↦ absurd (ground (arith, ap is_null e))
    | inr other ↦ record {
      byte = byte;
      small = h;
      other = ground arith;
      solid = ground (arith, ap is_null e);
    }
  ]

  another :
      (n : Body (Node V)) (c : ℕ)
      → Body.IsValid n
      → c < 256
      → is_null (Body.find n c) ≡ false
      → 2 ≤ Body.size n
      → Another n c
  another n c v h solid two =
      let (i, e, l) =
        min_slot_lem (Body.erase n c) (erase-IsValid n c v h solid)
          (omega (arith, size-erase n c v h solid)) in
      from_erased n c l.byte l.small (sym (find-erase n c l.byte v h l.small solid) ∙ l.is) l.solid

module _ {V : Type 0} (key_of : V → Key) where
  -- A subtree that is not empty has a leaf, and below an inner node there are two.
  abbrev Enough : ℕ → Node V → Type 0
  Enough r t =
      (is_null t ≡ false → 1 ≤ leaves r t)
      × (is_null t ≡ false → is_leaf t ≡ false → 2 ≤ leaves r t)

  inner_leaves :
      (r d : ℕ) (path : Key) (n : Inner V)
      → InnerWf key_of d path (λ p t. Enough r t) n
      → 2 ≤ leaves (suc r) (of_inner n)
  inner_leaves r d path n w =
      let count = λ (c : ℕ). leaves r (Body.find n.body c) in
      let (i, e, l) = min_slot_lem n.body w.valid w.sized in
      let solid : is_null (Body.find n.body l.byte) ≡ false = ap is_null l.is ∙ l.solid in
      elim (Bool-cases (is_leaf (Body.find n.body l.byte))) [
        | inl one ↦
            let a = another n.body l.byte w.valid l.small solid (w.leaf_sized l.byte l.small one) in
            omega (
              arith,
              leaves-of_inner r n,
              summands-le 256 count l.byte a.byte l.small a.small (λ x. a.other (sym x)),
              (w.children l.byte l.small).0 solid,
              (w.children a.byte a.small).0 a.solid,
            )
        | inr more ↦ omega (
          arith,
          leaves-of_inner r n,
          summand-le 256 count l.byte l.small,
          (w.children l.byte l.small).1 solid more,
        )
      ]

  -- The count of leaves in a valid subtree.
  pub leaves-Enough : (r d : ℕ) (path : Key) (t : Node V) → Wf key_of r d path t → Enough r t
  leaves-Enough zero d path t w = elim (node_case t) [
    | null_case e ↦ ((λ h. absurd (ground (arith, e))), (λ h k. absurd (ground (arith, e))))
    | leaf_case v e ↦ (
      (λ h. omega (arith, ap (leaves 0) e, leaves-leaf 0 v)),
      (λ h k. absurd (ground (arith, e))),
    )
    | inner_case n e ↦ absurd (not-Wf-zero key_of d path n (rw e at w))
  ]
  leaves-Enough (suc r) d path t w = elim (node_case t) [
    | null_case e ↦ ((λ h. absurd (ground (arith, e))), (λ h k. absurd (ground (arith, e))))
    | leaf_case v e ↦ (
      (λ h. omega (arith, ap (leaves (suc r)) e, leaves-leaf (suc r) v)),
      (λ h k. absurd (ground (arith, e))),
    )
    | inner_case n e ↦
        let i = InnerWf-of_Wf key_of r d path n (rw e at w) in
        let two : 2 ≤ leaves (suc r) (of_inner n) = inner_leaves r d path n (record {
          at_depth = i.at_depth;
          valid = i.valid;
          sized = i.sized;
          roomy = i.roomy;
          leaf_sized = i.leaf_sized;
          children =
              λ c h. leaves-Enough r (suc d) (set path d c) (Body.find n.body c) (i.children c h);
        }) in
        (
          (λ h. omega (arith, ap (leaves (suc r)) e, two)),
          (λ h k. omega (arith, ap (leaves (suc r)) e, two)),
        )
  ]
