-- ===== src/PrefixTree/Prefix.antt =====
-- `minimum` and the comparison of a key with a node's prefix, of include/art/ar_prefix_tree.h.
pub mod Steps
pub mod Least
use cpp_art.Base.{
  ℕ, zero, suc, ◌+◌, ◌-◌, Bool, not, ltb, ◌==◌, if◌then◌else◌, Array, Option, none, some,
  first_from,
}
use cpp_art.Node.Body
use cpp_art.PrefixTree.{Header, Node, Inner, View, view, of_inner, node_pointer}
use cpp_art.PrefixTree.Wf.{max_prefix_length}
use cpp_art.Tree.Key.{Key}
use cpp_art.Tree.Find.{Outcome, done, throws, bad_access}

-- `std::min((size_t) _prefix_length, MAX_PREFIX_LENGTH)`
abbrev pub pessimistic_length : Header → ℕ
pessimistic_length h =
    if ltb h.prefix_length max_prefix_length then h.prefix_length else max_prefix_length

-- `key.chunks[_depth + pos] != _prefix[pos]`
abbrev pub differs_from_prefix : Header → Key → ℕ → Bool
differs_from_prefix h key pos = not (key (h.depth + pos) == h.prefix pos)

-- `key.chunks[_depth + pos] != min_key.chunks[_depth + pos]`
abbrev pub differs_from_key : ℕ → Key → Key → ℕ → Bool
differs_from_key depth min_key key pos = not (key (depth + pos) == min_key (depth + pos))

-- The loop over the bytes that the node stores: the position at which it returns, if it does.
unfoldable pub stored_mismatch : Header → Key → Option ℕ
stored_mismatch h key = first_from (differs_from_prefix h key) (pessimistic_length h) 0

unfoldable pub pes_prefix_mismatch_pos : Header → Key → ℕ
pes_prefix_mismatch_pos h key = elim (stored_mismatch h key) [
  | some pos ↦ pos
  | none ↦ h.prefix_length
]

module _ {V : Type 0} where
  -- `minimum()`, with `fuel` levels left
  unfoldable pub minimum : ℕ → Node V → Outcome V
  minimum zero t = throws
  minimum (suc fuel) t = elim (view t) [
    | View.nothing ↦ bad_access
    | View.a_leaf v ↦ done v
    | View.an_inner n ↦ elim (Body.min_slot n.body) [
      | none ↦ bad_access
      | some i ↦ minimum fuel (Body.child n.body i)
    ]
  ]

module _ {V : Type 0} (key_of : V → Key) (key_size : ℕ) where
  -- The rest of the prefix, from a leaf below: the loop over the bytes that the node does not
  -- store, and the `return _prefix_length` after it.
  unfoldable pub rest_mismatch_pos : Inner V → Key → Outcome ℕ
  rest_mismatch_pos n key = elim (minimum (suc key_size) (of_inner n)) [
    | done v ↦
        elim (first_from (differs_from_key n.head.depth (key_of v) key)
          (n.head.prefix_length - max_prefix_length) max_prefix_length) [
            | some pos ↦ done pos
            | none ↦ done n.head.prefix_length
          ]
    | throws ↦ throws
    | bad_access ↦ bad_access
  ]

  -- `prefix_mismatch_pos`
  unfoldable pub prefix_mismatch_pos : Inner V → Key → Outcome ℕ
  prefix_mismatch_pos n key = elim (stored_mismatch n.head key) [
    | some pos ↦ done pos
    | none ↦
        if ltb max_prefix_length n.head.prefix_length
        then rest_mismatch_pos n key
        else done n.head.prefix_length
  ]
