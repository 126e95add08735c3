-- ===== src/Tree/Leaves.antt =====
-- How many leaves a subtree holds: an independent description of `_M_count`.
pub mod AtLeast
use cpp_art.Base.{ℕ, zero, suc, ◌≡◌, refl, sum_below}
use cpp_art.Node.Body
use cpp_art.Tree.{Node, Inner, View, view, null, leaf, of_inner, view-of_inner, node_pointer}

module _ {V : Type 0} where
  -- The leaves below a node `r` bytes above the end of the keys, byte by byte.
  unfoldable pub leaves : ℕ → Node V → ℕ
  leaves zero t = elim (view t) [ View.a_leaf v ↦ 1 | _ ↦ 0 ]
  leaves (suc r) t = elim (view t) [
    | View.nothing ↦ 0
    | View.a_leaf v ↦ 1
    | View.an_inner n ↦ sum_below 256 (λ c. leaves r (Body.find n.body c))
  ]

  pub leaves-leaf : (r : ℕ) (v : V) → leaves r (leaf v) ≡ 1
  unfolding leaves
  leaves-leaf zero v = refl
  leaves-leaf (suc r) v = refl

  pub leaves-of_inner :
      (r : ℕ) (n : Inner V)
      → leaves (suc r) (of_inner n) ≡ sum_below 256 (λ c. leaves r (Body.find n.body c))
  unfolding leaves
  leaves-of_inner r n = rw (view-of_inner n, leaves)

pub leaves-null : (V : Type 0) (r : ℕ) → leaves {V = V} r null ≡ 0
unfolding leaves
leaves-null V zero = refl
leaves-null V (suc r) = refl
