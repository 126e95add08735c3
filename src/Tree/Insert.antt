-- ===== src/Tree/Insert.antt =====
-- `insert_unique` of include/art/ar_tree.h.
pub mod Room
pub mod Fork
pub mod Tiebreak
pub mod Above
pub mod Loop
use cpp_art.Base.{
  ℕ, zero, suc, ◌+◌, ◌-◌, ◌≡◌, Bool, true, false, if◌then◌else◌, ◌==◌, Option, none, some, List, [],
  ◌∷◌, Pointer,
}
use cpp_art.Node.Sorted
use cpp_art.Node.Growth.{node_4_of_leaf}
use cpp_art.Node.Body
use cpp_art.Node.Body.{Body}
use cpp_art.Tree.{Node, Inner, View, view, null, leaf, of_inner, Ancestors, node_pointer}
use cpp_art.Tree.Key.{Key, key_eq}
use cpp_art.Tree.Find.{Outcome, done, throws, bad_access}

-- The outcome of the loop: a leaf with the same key, or the root of the changed tree.
pub data Placed (V : Type 0) : Type 0 where
  existing : V → Placed V
  placed : Node V → Placed V

-- `if (previous_node->size() == previous_node->max_size()) previous_node = grow(previous_node);`
unfoldable pub make_room : {P : Type 0} ⦃pt : Pointer P⦄ → Body P → Option (Body P)
make_room n = if Body.size n == Body.max_size n then Body.grow n else some n

module _ {V : Type 0} where
  -- `update_child_ptr(parent, child, key)`, then the same of each changed parent, up to the root.
  unfoldable pub plug : Key → Ancestors V → Node V → Node V
  plug key [] child = child
  plug key (n ∷ above) child =
      plug key above
        (of_inner (record n { body = Body.update_child_ptr n.body (key n.depth) child }))

module _ {V : Type 0} (key_of : V → Key) (key_size : ℕ) where
  -- The chain of nodes that replaces `existing_leaf`, from depth `j` down to the first byte at
  -- which the keys differ; `none` is the `throw` after the loop.
  unfoldable pub tiebreak : ℕ → ℕ → V → V → Option (Inner V)
  tiebreak zero j existing_leaf x = none
  tiebreak (suc r) j existing_leaf x =
      let rest = tiebreak r (suc j) existing_leaf x in
      let node = node_4_of_leaf (leaf existing_leaf) (key_of existing_leaf j) in
      if key_of existing_leaf j == key_of x j
      then elim rest [
        | none ↦ none
        | some new_child ↦ some (record {
          depth = j;
          body =
              Body.node_4
                (Sorted.update_child_ptr node (key_of existing_leaf j) (of_inner new_child));
        })
      ]
      else some
          (record { depth = j; body = Body.node_4 (Sorted.insert node (key_of x j) (leaf x)) })

  -- A leaf in the way is replaced.
  unfoldable pub split_leaf : ℕ → Ancestors V → V → V → Outcome (Placed V)
  split_leaf depth above existing_leaf x =
      elim (tiebreak (key_size - depth) depth existing_leaf x) [
        | none ↦ throws
        | some node ↦ done (Placed.placed (plug (key_of existing_leaf) above (of_inner node)))
      ]

  -- An empty place below `previous_node`, the nearest ancestor. The dummy node takes no child.
  unfoldable pub insert_below : ℕ → Ancestors V → V → Outcome (Placed V)
  insert_below depth [] x = done (Placed.placed null)
  insert_below depth (previous_node ∷ above) x = elim (make_room previous_node.body) [
    | none ↦ throws
    | some b ↦ done (
        Placed.placed (
          plug (key_of x) above (
            of_inner
              (record previous_node { body = Body.insert b (key_of x (depth - 1)) (leaf x) }))))
  ]

  -- the loop of `insert_unique` with `fuel` rounds left
  unfoldable pub insert_loop : ℕ → ℕ → Ancestors V → Node V → V → Outcome (Placed V)
  insert_loop zero depth above current_node x = throws
  insert_loop (suc fuel) depth above current_node x = elim (view current_node) [
    | View.nothing ↦ insert_below depth above x
    | View.a_leaf w ↦
        if key_eq key_size (key_of x) (key_of w)
        then done (Placed.existing w)
        else split_leaf depth above w x
    | View.an_inner n ↦
        insert_loop fuel (suc depth) (n ∷ above) (Body.find n.body (key_of x depth)) x
  ]
