-- ===== src/PrefixTree/Find.antt =====
-- `find` of include/art/ar_prefix_tree.h.
pub mod Steps
use cpp_art.Base.{ℕ, zero, suc, ◌+◌, true, false, ltb, if◌then◌else◌}
use cpp_art.Node.Body
use cpp_art.Tree.Key.{Key, key_eq}
use cpp_art.Tree.Find.{Iterator, end, at, Outcome, done, throws, bad_access}
use cpp_art.PrefixTree.{Node, Inner, View, view, node_pointer}
use cpp_art.PrefixTree.Prefix.{pes_prefix_mismatch_pos}

module _ {V : Type 0} (key_of : V → Key) (key_size : ℕ) where
  -- The loop of `find` at `depth`. The source's loop is bounded by the depth alone; `fuel` counts
  -- the rounds. The root's own test for null is the first round's.
  unfoldable pub find_loop : ℕ → ℕ → Node V → Key → Outcome (Iterator V)
  find_loop zero depth current_node key = throws
  find_loop (suc fuel) depth current_node key = elim (ltb depth (key_size + 1)) [
    | false ↦ throws
    | true ↦ elim (view current_node) [
      | View.nothing ↦ done end
      | View.a_leaf v ↦ done (if key_eq key_size key (key_of v) then at v else end)
      | View.an_inner n ↦ elim (ltb (pes_prefix_mismatch_pos n.head key) n.head.prefix_length) [
        | true ↦ done end
        | false ↦
            find_loop fuel (suc (depth + pes_prefix_mismatch_pos n.head key))
              (Body.find n.body (key (depth + pes_prefix_mismatch_pos n.head key))) key
      ]
    ]
  ]
