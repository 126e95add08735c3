-- ===== src/Tree/Copy.antt =====
-- `copy_children` of the inner node classes and `copy_node` of include/art/ar_tree.h.
pub mod Failure
use cpp_art.Base.{ℕ, zero, suc, ◌+◌, Bool, true, false, ltb, ◌==◌, ◌&&◌, if◌then◌else◌, Array, set}
use cpp_art.Node.Sorted.{Sorted}
use cpp_art.Node.Indexed.{Indexed, used}
use cpp_art.Node.Direct.{Direct}
use cpp_art.Node.Body
use cpp_art.Node.Body.{Body}
use cpp_art.Node.Growth.{nulls}
use cpp_art.Tree.{
  Node, null, leaf, inner_4, inner_16, inner_48, inner_256, View, view, of_inner, is_null,
  node_pointer,
}
use cpp_art.Tree.Find.{Outcome, done, throws, bad_access}

-- `get_type()`; null has none
unfoldable pub class_of : {V : Type 0} → Node V → ℕ
class_of null = 0
class_of (leaf v) = 1
class_of (inner_4 d c k ch) = 2
class_of (inner_16 d c k ch) = 3
class_of (inner_48 d c x ch) = 4
class_of (inner_256 d c ch) = 5

module _ {V : Type 0} where
  -- the copied child, put at an index of what is copied so far
  unfoldable pub put_copy :
      Outcome (Array (Node V)) → ℕ → Outcome (Node V) → Outcome (Array (Node V))
  put_copy (done a) i (done p) = done (set a i p)
  put_copy (done a) i throws = throws
  put_copy (done a) i bad_access = bad_access
  put_copy throws i p = throws
  put_copy bad_access i p = bad_access

  -- the loop of `_Node_4` and `_Node_16` over the first `n` children, with the copy of a node
  unfoldable pub copy_sorted :
      (Node V → Outcome (Node V)) → Array (Node V) → ℕ → Outcome (Array (Node V))
  copy_sorted copy children zero = done nulls
  copy_sorted copy children (suc i) = put_copy (copy_sorted copy children i) i (copy (children i))

  -- one round of the loop of `_Node_48`: the child at the byte's index gives the class, the child
  -- at the byte itself is copied; it must be within the array and of that class
  unfoldable pub copy_indexed_one :
      (Node V → Outcome (Node V)) → Indexed (Node V) → ℕ → Outcome (Node V)
  copy_indexed_one copy n i =
      if ltb i 48 && class_of (n.children i) == class_of (n.children (n.child_index i))
      then copy (n.children i)
      else bad_access

  -- the loop of `_Node_48` over the bytes below a bound
  unfoldable pub copy_indexed :
      (Node V → Outcome (Node V)) → Indexed (Node V) → ℕ → Outcome (Array (Node V))
  copy_indexed copy n zero = done nulls
  copy_indexed copy n (suc i) =
      let before = copy_indexed copy n i in
      if used n i then put_copy before (n.child_index i) (copy_indexed_one copy n i) else before

  -- the loop of `_Node_256` over the bytes below a bound
  unfoldable pub copy_direct :
      (Node V → Outcome (Node V)) → Array (Node V) → ℕ → Outcome (Array (Node V))
  copy_direct copy children zero = done nulls
  copy_direct copy children (suc i) =
      let before = copy_direct copy children i in
      if is_null (children i) then before else put_copy before i (copy (children i))

  -- the node around the copied children
  unfoldable pub with_children :
      (Array (Node V) → Node V) → Outcome (Array (Node V)) → Outcome (Node V)
  with_children make (done a) = done (make a)
  with_children make throws = throws
  with_children make bad_access = bad_access

  -- the copy constructor of each class
  unfoldable pub copy_sorted_4 :
      (Node V → Outcome (Node V)) → ℕ → Sorted (Node V) → Outcome (Node V)
  copy_sorted_4 copy d n =
      with_children (inner_4 d n.count n.keys) (copy_sorted copy n.children n.count)

  unfoldable pub copy_sorted_16 :
      (Node V → Outcome (Node V)) → ℕ → Sorted (Node V) → Outcome (Node V)
  copy_sorted_16 copy d n =
      with_children (inner_16 d n.count n.keys) (copy_sorted copy n.children n.count)

  unfoldable pub copy_48 : (Node V → Outcome (Node V)) → ℕ → Indexed (Node V) → Outcome (Node V)
  copy_48 copy d n = with_children (inner_48 d n.count n.child_index) (copy_indexed copy n 256)

  unfoldable pub copy_256 : (Node V → Outcome (Node V)) → ℕ → Direct (Node V) → Outcome (Node V)
  copy_256 copy d n = with_children (inner_256 d n.count) (copy_direct copy n.children 256)

  -- `copy_node`, with `fuel` levels left
  unfoldable pub copy_node : ℕ → Node V → Outcome (Node V)
  copy_node zero t = throws
  copy_node (suc fuel) t = elim (view t) [
    | View.nothing ↦ bad_access
    | View.a_leaf v ↦ done (leaf v)
    | View.an_inner n ↦ elim n.body [
      | Body.node_4 b ↦ copy_sorted_4 (copy_node fuel) n.depth b
      | Body.node_16 b ↦ copy_sorted_16 (copy_node fuel) n.depth b
      | Body.node_48 b ↦ copy_48 (copy_node fuel) n.depth b
      | Body.node_256 b ↦ copy_256 (copy_node fuel) n.depth b
    ]
  ]
