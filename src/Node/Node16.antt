-- ===== src/Node/Node16.antt =====
-- `_Node_16` of include/art/ar_tree.h: the code of `_Node_4` over arrays of sixteen entries.
-- Only `insert` is written differently: it tests `pos != count` where `_Node_4` tests `pos < count`.
use cpp_art.Base.{ℕ, ◌+◌, ◌≡◌, Option, not, arith, ◌==◌, if◌then◌else◌, set, shift_right, Pointer}
use cpp_art.Node.Sorted
use cpp_art.Node.Sorted.{Sorted, position}
use cpp_art.Node.Sorted.Find.{position_bounds}

module _ {P : Type 0} where
  unfoldable pub insert : Sorted P → ℕ → P → Sorted P
  insert n key_byte node =
      let pos = position n.keys key_byte n.count 0 in
      let moves = not (pos == n.count) in
      record {
        count = n.count + 1;
        keys = set (if moves then shift_right n.keys pos n.count else n.keys) pos key_byte;
        children = set (if moves then shift_right n.children pos n.count else n.children) pos node;
      }

  unfoldable pub erase : Sorted P → ℕ → Sorted P
  erase = Sorted.erase

  unfoldable pub update_child_ptr : Sorted P → ℕ → P → Sorted P
  update_child_ptr = Sorted.update_child_ptr

  unfoldable pub min_slot : Sorted P → Option ℕ
  min_slot = Sorted.min_slot

  unfoldable pub max_slot : Sorted P → Option ℕ
  max_slot = Sorted.max_slot

  unfoldable pub next_slot : Sorted P → ℕ → Option ℕ
  next_slot = Sorted.next_slot

  unfoldable pub prev_slot : Sorted P → ℕ → Option ℕ
  prev_slot = Sorted.prev_slot

  -- Since the search stops at `count` at the latest, the two guards agree.
  pub insert-eq-Sorted : (n : Sorted P) (b : ℕ) (p : P) → insert n b p ≡ Sorted.insert n b p
  unfolding insert Sorted.insert
  insert-eq-Sorted n b p = ground (arith, position_bounds n.keys b n.count 0)

unfoldable pub find : {P : Type 0} ⦃pt : Pointer P⦄ → Sorted P → ℕ → P
find = Sorted.find
