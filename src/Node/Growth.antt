-- ===== src/Node/Growth.antt =====
-- The grow and shrink constructors of the inner node classes of include/art/ar_tree.h.
pub mod Copies
pub mod Fill
pub mod Collect
use cpp_art.Base.{
  ℕ, zero, suc, ◌+◌, Bool, true, false, not, ◌==◌, if◌then◌else◌, Array, set, copy_n, Pointer,
}
use cpp_art.Node.Sorted.{Sorted}
use cpp_art.Node.Indexed.{Indexed, empty_marker, used}
use cpp_art.Node.Direct.{Direct, held}

-- `std::array<byte, n> keys{}`
abbrev pub zeros : Array ℕ
zeros i = 0

-- `child_index` filled with the marker, then `child_index[keys[i]] = i` for `i` below `n`
unfoldable pub fill_index : Array ℕ → ℕ → Array ℕ
fill_index keys zero = λ _. empty_marker
fill_index keys (suc i) = set (fill_index keys i) (keys i) i

module _ {P : Type 0} ⦃pt : Pointer P⦄ where
  abbrev pub nulls : Array P
  nulls i = pt.null

  -- `_Node_4(leaf, key_byte, depth)`
  unfoldable pub node_4_of_leaf : P → ℕ → Sorted P
  node_4_of_leaf leaf key_byte = record {
    count = 1;
    keys = set zeros 0 key_byte;
    children = set nulls 0 leaf;
  }

  -- `_Node_4(_Node_16 *)`
  unfoldable pub node_4_of_16 : Sorted P → Sorted P
  node_4_of_16 n = record {
    count = 4;
    keys = copy_n 4 n.keys zeros;
    children = copy_n 4 n.children nulls;
  }

  -- `_Node_16(_Node_4 *)`: whole arrays are copied, and they have four entries
  unfoldable pub node_16_of_4 : Sorted P → Sorted P
  node_16_of_4 n = record {
    count = 4;
    keys = copy_n 4 n.keys zeros;
    children = copy_n 4 n.children nulls;
  }

  -- the loop of `_Node_16(_Node_48 *)` over the bytes below `i`; `count` is its `pos`
  unfoldable pub collect_48 : Indexed P → ℕ → Sorted P
  collect_48 n zero = record { count = 0; keys = zeros; children = nulls }
  collect_48 n (suc i) =
      let r = collect_48 n i in
      if used n i
      then record {
        count = r.count + 1;
        keys = set r.keys r.count i;
        children = set r.children r.count (n.children (n.child_index i));
      }
      else r

  -- `_Node_16(_Node_48 *)`
  unfoldable pub node_16_of_48 : Indexed P → Sorted P
  node_16_of_48 n = record (collect_48 n 256) { count = 16 }

  -- `_Node_48(_Node_16 *)`
  unfoldable pub node_48_of_16 : Sorted P → Indexed P
  node_48_of_16 n = record {
    count = 16;
    child_index = fill_index n.keys 16;
    children = copy_n 16 n.children nulls;
  }

  -- the loop of `_Node_48(_Node_256 *)` over the bytes below `i`; `count` is its `pos`
  unfoldable pub collect_256 : Direct P → ℕ → Indexed P
  collect_256 n zero = record { count = 0; child_index = λ _. empty_marker; children = nulls }
  collect_256 n (suc i) =
      let r = collect_256 n i in
      if held n i
      then record {
        count = r.count + 1;
        child_index = set r.child_index i r.count;
        children = set r.children r.count (n.children i);
      }
      else r

  -- `_Node_48(_Node_256 *)`
  unfoldable pub node_48_of_256 : Direct P → Indexed P
  node_48_of_256 n = record (collect_256 n 256) { count = 48 }

  -- `_Node_256(_Node_48 *)`
  unfoldable pub node_256_of_48 : Indexed P → Direct P
  node_256_of_48 n = record {
    count = 48;
    children = λ i. if used n i then n.children (n.child_index i) else pt.null;
  }
