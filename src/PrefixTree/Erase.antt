-- ===== src/PrefixTree/Erase.antt =====
-- `erase_unique` of include/art/ar_prefix_tree.h, and how it shrinks a node and puts a one-way node
-- into its only child.
pub mod Fixed
pub mod Join
pub mod Fix
pub mod Lost
pub mod Loop
use cpp_art.Base.{
  ℕ, zero, suc, ◌+◌, ◌-◌, ◌%◌, ◌^◌, Bool, true, false, ltb, leb, ◌==◌, ◌&&◌, if◌then◌else◌, Option,
  none, some, ◌∷◌, Array, set,
}
use cpp_art.Node.Sorted.{Sorted}
use cpp_art.Node.Body
use cpp_art.Node.Body.{Body}
use cpp_art.PrefixTree.{Header, Node, Inner, View, view, is_leaf, of_inner, Ancestors, node_pointer}
use cpp_art.PrefixTree.Wf.{max_prefix_length}
use cpp_art.PrefixTree.Prefix.{prefix_mismatch_pos}
use cpp_art.PrefixTree.Insert.{plug, copy_range}
use cpp_art.Tree.Key.{Key, key_eq}
use cpp_art.Tree.Find.{Outcome, done, throws, bad_access}

-- The child's prefix array after the node's prefix and key byte were put before it: `shift_by` is
-- `_prefix_length + 1` of the node. The bytes shifted past the array's end are dropped.
unfoldable pub joined_prefix : Header → ℕ → Array ℕ → Array ℕ
joined_prefix h key_byte child_prefix =
    let shift_by = h.prefix_length + 1 in
    let shifted = λ (j : ℕ).
      if leb shift_by j && ltb j max_prefix_length
      then child_prefix (j - shift_by)
      else child_prefix j in
    if ltb h.prefix_length max_prefix_length
    then set (copy_range h.prefix_length h.prefix 0 shifted) h.prefix_length key_byte
    else copy_range max_prefix_length h.prefix 0 child_prefix

-- The header of the child that takes the place of a one-way node; the length is on 16 bits.
abbrev pub joined : Header → ℕ → Header → Header
joined h key_byte child = record {
  depth = h.depth;
  prefix_length = (child.prefix_length + (h.prefix_length + 1)) % 2 ^ 16;
  prefix = joined_prefix h key_byte child.prefix;
}

module _ {V : Type 0} where
  -- `shrink`: the node that takes the place, and whether it is another one
  unfoldable pub shrink : Inner V → Node V × Bool
  shrink n = elim n.body [
    | Body.node_4 b ↦ if is_leaf (b.children 0) then (b.children 0, true) else (of_inner n, false)
    | other ↦ (of_inner (record n { body = Body.shrink other }), true)
  ]

  unfoldable pub compress_node_into_child : Header → Sorted (Node V) → Outcome (Node V)
  compress_node_into_child h node = elim (view (node.children 0)) [
    | View.nothing ↦ bad_access
    | View.a_leaf v ↦ done (node.children 0)
    | View.an_inner child ↦
        done (of_inner (record child { head = joined h (node.keys 0) child.head }))
  ]

  -- `if (node->size() < node->min_size())`: the node after `shrink`
  unfoldable pub shrink_step : Inner V → Node V
  shrink_step n = if ltb (Body.size n.body) (Body.min_size n.body) then (shrink n).0 else of_inner n

  -- `if (node->get_type() == node_type::node_4_t && node->size() == 1)`
  unfoldable pub compress_step : Node V → Outcome (Node V)
  compress_step t = elim (view t) [
    | View.an_inner m ↦ elim m.body [
      | Body.node_4 b ↦ if b.count == 1 then compress_node_into_child m.head b else done t
      | _ ↦ done t
    ]
    | _ ↦ done t
  ]

  -- `fix_after_erase`: the new root. Each step writes its node into the parent.
  unfoldable pub fix_after_erase : Key → Inner V → Ancestors V → Outcome (Node V)
  fix_after_erase key node above = elim (compress_step (shrink_step node)) [
    | done node' ↦ done (plug key above node')
    | throws ↦ throws
    | bad_access ↦ bad_access
  ]

module _ {V : Type 0} (key_of : V → Key) (key_size : ℕ) where
  -- At a child of `current_node`: `none` for no such key.
  unfoldable pub erase_leaf : ℕ → Ancestors V → Inner V → V → Key → Outcome (Option (Node V))
  erase_leaf depth above current_node existing_leaf key =
      if key_eq key_size key (key_of existing_leaf)
      then elim (fix_after_erase key
          (record current_node { body = Body.erase current_node.body (key depth) }) above) [
            | done root ↦ done (some root)
            | throws ↦ throws
            | bad_access ↦ bad_access
          ]
      else done none

  -- The loop of `erase_unique` at an inner node at `depth`, which bounds the loop; `fuel` counts
  -- the rounds.
  unfoldable pub erase_loop : ℕ → ℕ → Ancestors V → Inner V → Key → Outcome (Option (Node V))
  erase_loop zero depth above current_node key = throws
  erase_loop (suc fuel) depth above current_node key = elim (ltb depth key_size) [
    | false ↦ throws
    | true ↦ elim (prefix_mismatch_pos key_of key_size current_node key) [
      | throws ↦ throws
      | bad_access ↦ bad_access
      | done pos ↦ elim (ltb pos current_node.head.prefix_length) [
        | true ↦ done none
        | false ↦ elim (view (Body.find current_node.body (key (depth + pos)))) [
          | View.nothing ↦ done none
          | View.a_leaf w ↦ erase_leaf (depth + pos) above current_node w key
          | View.an_inner child ↦
              erase_loop fuel (suc (depth + pos)) (current_node ∷ above) child key
        ]
      ]
    ]
  ]
