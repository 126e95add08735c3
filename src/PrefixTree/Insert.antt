-- ===== src/PrefixTree/Insert.antt =====
-- `insert_unique` of include/art/ar_prefix_tree.h.
pub mod Open
pub mod Lone
pub mod Split
pub mod Descend
pub mod Tiebreak
pub mod Loop
use cpp_art.Base.{
  ℕ, zero, suc, ◌+◌, ◌-◌, ◌%◌, ◌^◌, Bool, true, false, not, ltb, ◌==◌, if◌then◌else◌, Option, none,
  some, [], ◌∷◌, Array, first_from,
}
use cpp_art.Node.Sorted
use cpp_art.Node.Growth.{node_4_of_leaf, zeros}
use cpp_art.Node.Body
use cpp_art.PrefixTree.{
  Header, Node, Inner, View, view, null, leaf, of_inner, Ancestors, node_pointer,
}
use cpp_art.PrefixTree.Wf.{max_prefix_length}
use cpp_art.PrefixTree.Prefix.{minimum, prefix_mismatch_pos}
use cpp_art.Tree.Key.{Key, key_eq}
use cpp_art.Tree.Find.{Outcome, done, throws, bad_access}
use cpp_art.Tree.Insert.{make_room}

-- The outcome of the loop: a leaf with the same key, or the root of the changed tree.
pub data Placed (V : Type 0) : Type 0 where
  existing : V → Placed V
  placed : Node V → Placed V

-- `std::copy(src + start, src + start + len, dst)`, and `std::move` on trivially copyable elements
-- of one array to its front
abbrev pub copy_range : ℕ → Array ℕ → ℕ → Array ℕ → Array ℕ
copy_range len src start dst j = if ltb j len then src (start + j) else dst j

-- `std::min(MAX_PREFIX_LENGTH, len)`
abbrev pub capped : ℕ → ℕ
capped len = if ltb len max_prefix_length then len else max_prefix_length

-- What is left of the header of a node whose prefix was split, with its new prefix array:
-- `_prefix_length -= (mismatch_pos + 1); _depth += mismatch_pos + 1`, the length on 16 bits.
abbrev pub rest_of_prefix : Header → ℕ → Array ℕ → Header
rest_of_prefix h mismatch_pos prefix = record {
  depth = h.depth + (mismatch_pos + 1);
  prefix_length = (h.prefix_length + 2 ^ 16 - (mismatch_pos + 1)) % 2 ^ 16;
  prefix = prefix;
}

module _ {V : Type 0} where
  -- `update_child_ptr(parent, child, key)`, then the same of each changed parent, up to the root.
  unfoldable pub plug : Key → Ancestors V → Node V → Node V
  plug key [] child = child
  plug key (n ∷ above) child = plug key above (
      of_inner (record n {
        body = Body.update_child_ptr n.body (key (n.head.depth + n.head.prefix_length)) child;
      }))

  -- `new _Node_4(child, key_byte, depth)` with a prefix
  abbrev pub new_node_4 : Node V → ℕ → ℕ → ℕ → Array ℕ → Inner V
  new_node_4 child key_byte depth prefix_length prefix = record {
    head = record { depth = depth; prefix_length = prefix_length % 2 ^ 16; prefix = prefix };
    body = Body.node_4 (node_4_of_leaf child key_byte);
  }

  -- The branch of `split_prefix_into_parent` for a prefix shorter than the array: its first part
  -- moves to the new parent, what follows the mismatch to the front.
  unfoldable pub split_stored : Inner V → ℕ → Inner V
  split_stored node mismatch_pos =
      let moved =
        copy_range (max_prefix_length - (mismatch_pos + 1)) node.head.prefix (mismatch_pos + 1)
          node.head.prefix in
      new_node_4 (of_inner (record node { head = rest_of_prefix node.head mismatch_pos moved }))
        (node.head.prefix mismatch_pos) node.head.depth mismatch_pos
        (copy_range mismatch_pos node.head.prefix 0 zeros)

  -- The other branch: the bytes after the mismatch are loaded from `min_key`.
  unfoldable pub split_loaded : Inner V → ℕ → Key → Inner V
  split_loaded node mismatch_pos min_key =
      let loaded =
        copy_range (capped (node.head.prefix_length - (mismatch_pos + 1))) min_key
          (node.head.depth + mismatch_pos + 1) node.head.prefix in
      new_node_4 (of_inner (record node { head = rest_of_prefix node.head mismatch_pos loaded }))
        (min_key (node.head.depth + mismatch_pos)) node.head.depth mismatch_pos node.head.prefix

module _ {V : Type 0} (key_of : V → Key) (key_size : ℕ) where
  -- The new parent, above the changed node.
  unfoldable pub split_prefix_into_parent : Inner V → ℕ → Outcome (Inner V)
  split_prefix_into_parent node mismatch_pos =
      elim (ltb node.head.prefix_length max_prefix_length) [
        | true ↦ done (split_stored node mismatch_pos)
        | false ↦ elim (minimum (suc key_size) (of_inner node)) [
          | done v ↦ done (split_loaded node mismatch_pos (key_of v))
          | throws ↦ throws
          | bad_access ↦ bad_access
        ]
      ]

  -- The node that replaces `existing_leaf`, with the bytes from `depth` to the first at which the
  -- keys differ as its prefix; `none` is the `throw` after the loop.
  unfoldable pub tiebreak : ℕ → V → V → Option (Inner V)
  tiebreak depth existing_leaf x =
      elim (first_from (λ j. not (key_of x j == key_of existing_leaf j)) (key_size - depth) depth) [
        | none ↦ none
        | some j ↦ some (record {
          head = record {
            depth = depth;
            prefix_length = (j - depth) % 2 ^ 16;
            prefix = copy_range (capped ((j - depth) % 2 ^ 16)) (key_of x) depth zeros;
          };
          body = Body.node_4 (
              Sorted.insert (node_4_of_leaf (leaf existing_leaf) (key_of existing_leaf j))
                (key_of x j) (leaf x));
        })
      ]

  -- A leaf in the way is replaced.
  unfoldable pub split_leaf : ℕ → Ancestors V → V → V → Outcome (Placed V)
  split_leaf depth above existing_leaf x = elim (tiebreak depth existing_leaf x) [
    | none ↦ throws
    | some node ↦ done (Placed.placed (plug (key_of existing_leaf) above (of_inner node)))
  ]

  -- An empty place below `previous_node`, the nearest ancestor. The dummy node takes no child.
  unfoldable pub insert_below : ℕ → Ancestors V → V → Outcome (Placed V)
  insert_below depth [] x = done (Placed.placed null)
  insert_below depth (previous_node ∷ above) x = elim (make_room previous_node.body) [
    | none ↦ throws
    | some b ↦ done (
        Placed.placed (
          plug (key_of x) above (
            of_inner
              (record previous_node { body = Body.insert b (key_of x (depth - 1)) (leaf x) }))))
  ]

  -- The inner node that the walk goes on from, with the position in its prefix: the node itself
  -- if the key goes along the prefix, or the parent that takes the first part of the prefix.
  unfoldable pub match_prefix : Inner V → Key → Outcome (Inner V × ℕ)
  match_prefix n key = elim (prefix_mismatch_pos key_of key_size n key) [
    | done pos ↦ elim (ltb pos n.head.prefix_length) [
      | true ↦ elim (split_prefix_into_parent n pos) [
        | done parent ↦ done (parent, pos)
        | throws ↦ throws
        | bad_access ↦ bad_access
      ]
      | false ↦ done (n, pos)
    ]
    | throws ↦ throws
    | bad_access ↦ bad_access
  ]

  -- The loop of `insert_unique` at `depth`, which bounds the loop; `fuel` counts the rounds. The
  -- new parent of a split node is written into its own parent with the leaf below it.
  unfoldable pub insert_loop : ℕ → ℕ → Ancestors V → Node V → V → Outcome (Placed V)
  insert_loop zero depth above current_node x = throws
  insert_loop (suc fuel) depth above current_node x = elim (ltb depth (key_size + 1)) [
    | false ↦ throws
    | true ↦ elim (view current_node) [
      | View.nothing ↦ insert_below depth above x
      | View.a_leaf w ↦
          if key_eq key_size (key_of x) (key_of w)
          then done (Placed.existing w)
          else split_leaf depth above w x
      | View.an_inner n ↦ elim (match_prefix n (key_of x)) [
        | done (m, pos) ↦
            insert_loop fuel (suc (depth + pos)) (m ∷ above)
              (Body.find m.body (key_of x (depth + pos))) x
        | throws ↦ throws
        | bad_access ↦ bad_access
      ]
    ]
  ]
