-- ===== src/Tree/Erase.antt =====
-- `erase_unique` of include/art/ar_tree.h, and how it shrinks the nodes above the erased leaf.
pub mod Lost
pub mod Settle
pub mod Collapse
pub mod Fix
pub mod Loop
use cpp_art.Base.{
  ℕ, zero, suc, ◌+◌, ◌-◌, ◌≡◌, Bool, true, false, ltb, leb, ◌&&◌, not, if◌then◌else◌, Option, none,
  some, List, [], ◌∷◌,
}
use cpp_art.Node.Sorted
use cpp_art.Node.Body
use cpp_art.Node.Body.{Body}
use cpp_art.Tree.{Node, Inner, View, view, is_leaf, of_inner, Ancestors, node_pointer}
use cpp_art.Tree.Key.{Key, key_eq}
use cpp_art.Tree.Find.{Outcome, done, throws, bad_access}
use cpp_art.Tree.Insert.{plug}

module _ {V : Type 0} where
  -- `size()` and `min_size()` of any node; both are 1 at a leaf
  unfoldable pub size : View V → ℕ
  size (View.an_inner n) = Body.size n.body
  size _ = 1

  unfoldable pub min_size : View V → ℕ
  min_size (View.an_inner n) = Body.min_size n.body
  min_size _ = 1

  -- `shrink`: the new node, and whether there is one
  unfoldable pub shrink : Inner V → Node V × Bool
  shrink n = elim n.body [
    | Body.node_4 b ↦ if is_leaf (b.children 0) then (b.children 0, true) else (of_inner n, false)
    | other ↦ (of_inner (record n { body = Body.shrink other }), true)
  ]

  -- The inner loop of `shrink_after_erase`: a leaf takes the place of the one-way nodes above it.
  -- Above the last of them is the dummy node, where the function returns the leaf.
  unfoldable pub compress : Key → ℕ → Node V → ℕ → Ancestors V → Node V × Ancestors V
  compress key depth node j [] = (node, [])
  compress key depth node j (parent ∷ []) =
      if is_leaf node && (leb (Body.size parent.body) 1 && leb j (depth + 1))
      then (node, [])
      else (node, parent ∷ [])
  compress key depth node j (parent ∷ (grandparent ∷ above)) =
      let rest = compress key depth node (suc j) (
        record grandparent {
          body = Body.update_child_ptr grandparent.body (key (depth - j - 1)) node;
        }
        ∷ above) in
      if is_leaf node && (leb (Body.size parent.body) 1 && leb j (depth + 1))
      then rest
      else (node, parent ∷ (grandparent ∷ above))

  -- One round of the outer loop of `shrink_after_erase` on an underfull node: the node as it is if
  -- it cannot shrink (`false`), or what takes its place; `none` is the `throw` of `shrink`.
  unfoldable pub shrink_round :
      Key → ℕ → View V → Ancestors V → Option (Node V × Ancestors V × Bool)
  shrink_round key depth (View.an_inner n) above =
      let (shrunk, changed) = shrink n in
      if changed
      then (let (node, left) = compress key depth shrunk 1 above in some (node, left, true))
      else some (of_inner n, above, false)
  shrink_round key depth _ above = none

  -- `shrink_after_erase` with `fuel` rounds of its outer loop left
  unfoldable pub shrink_after_erase :
      ℕ → Key → ℕ → Node V → Ancestors V → Outcome (Node V × Ancestors V)
  shrink_after_erase zero key depth node above = throws
  shrink_after_erase (suc fuel) key depth node above =
      elim (ltb (size (view node)) (min_size (view node))) [
        | true ↦ elim (shrink_round key depth (view node) above) [
          | none ↦ throws
          | some (node', above', changed) ↦ elim changed [
            | true ↦ shrink_after_erase fuel key depth node' above'
            | false ↦ done (node', above')
          ]
        ]
        | false ↦ done (node, above)
      ]

  -- `fix_after_erase`: the new root. Two rounds are enough: a class shrinks once, or to a leaf.
  unfoldable pub fix_after_erase : Key → Inner V → Ancestors V → Outcome (Node V)
  fix_after_erase key node above =
      elim (shrink_after_erase 2 key node.depth (of_inner node) above) [
        | done (node', above') ↦ done (plug key above' node')
        | throws ↦ throws
        | bad_access ↦ bad_access
      ]

module _ {V : Type 0} (key_of : V → Key) (key_size : ℕ) where
  -- the loop of `erase_unique` below an inner root, with `fuel` rounds left: `none` for no such key
  unfoldable pub erase_loop : ℕ → ℕ → Ancestors V → Inner V → Key → Outcome (Option (Node V))
  erase_loop zero depth above current_node key = throws
  erase_loop (suc fuel) depth above current_node key =
      elim (view (Body.find current_node.body (key depth))) [
        | View.nothing ↦ done none
        | View.a_leaf w ↦
            if key_eq key_size key (key_of w)
            then elim (fix_after_erase key
                (record current_node { body = Body.erase current_node.body (key depth) }) above) [
                  | done root ↦ done (some root)
                  | throws ↦ throws
                  | bad_access ↦ bad_access
                ]
            else done none
        | View.an_inner child ↦ erase_loop fuel (suc depth) (current_node ∷ above) child key
      ]
