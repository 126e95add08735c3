-- ===== src/Tree/Find.antt =====
-- `find` of include/art/ar_tree.h.
pub mod Steps
use cpp_art.Base.{ℕ, zero, suc, ◌+◌, ◌≡◌, Bool, true, false, if◌then◌else◌}
use cpp_art.Node.Body
use cpp_art.Tree.{Node, Inner, View, view, node_pointer}
use cpp_art.Tree.Key.{Key, key_eq}

-- An iterator: the end marker (the dummy node's leaf), or the leaf that holds a value.
pub data Iterator (V : Type 0) : Type 0 where
  end : Iterator V
  at : V → Iterator V

-- What a call may do: return, reach a `throw`, or use a null pointer.
pub data Outcome (A : Type 0) : Type 0 where
  done : A → Outcome A
  throws : Outcome A
  bad_access : Outcome A

module _ {V : Type 0} (key_of : V → Key) (key_size : ℕ) where
  -- the loop of `find` with `fuel` rounds left; the root's own test for null is the first round's
  unfoldable pub find_loop : ℕ → ℕ → Node V → Key → Outcome (Iterator V)
  find_loop zero depth current_node key = throws
  find_loop (suc fuel) depth current_node key = elim (view current_node) [
    | View.nothing ↦ done end
    | View.a_leaf v ↦ done (if key_eq key_size key (key_of v) then at v else end)
    | View.an_inner n ↦ find_loop fuel (suc depth) (Body.find n.body (key depth)) key
  ]
