-- ===== src/Node/Sorted.antt =====
-- `_Node_4` and `_Node_16` of include/art/ar_tree.h: sorted arrays of key bytes and of children,
-- of which the first `count` entries are in use. The two classes share their code.
pub mod Find
pub mod Change
pub mod Removal
pub mod Update
use cpp_art.Base.{
  ℕ, zero, suc, ◌+◌, ◌-◌, ◌≤◌, ◌<◌, ◌≡◌, Bool, true, false, ◌&&◌, Option, none, some, ltb, leb,
  ◌==◌, if◌then◌else◌, Array, set, shift_right, shift_left, Pointer, last_below,
}

pub record Sorted (P : Type 0) : Type 0 where
  pub count : ℕ
  pub keys : Array ℕ
  pub children : Array P

-- `for (; pos < count && keys[pos] < key_byte; pos++);` with `r` rounds left before `count`
unfoldable pub position : Array ℕ → ℕ → ℕ → ℕ → ℕ
position keys b zero pos = pos
position keys b (suc r) pos =
    let rest = position keys b r (pos + 1) in if ltb (keys pos) b then rest else pos

-- `for (; pos < count && keys[pos] <= chunk; pos++);`
unfoldable pub position_after : Array ℕ → ℕ → ℕ → ℕ → ℕ
position_after keys b zero pos = pos
position_after keys b (suc r) pos =
    let rest = position_after keys b r (pos + 1) in if leb (keys pos) b then rest else pos

module _ {P : Type 0} where
  -- `insert`; with `pos == count` nothing is moved
  unfoldable pub insert : Sorted P → ℕ → P → Sorted P
  insert n key_byte node =
      let pos = position n.keys key_byte n.count 0 in
      let moves = ltb pos n.count in
      record {
        count = n.count + 1;
        keys = set (if moves then shift_right n.keys pos n.count else n.keys) pos key_byte;
        children = set (if moves then shift_right n.children pos n.count else n.children) pos node;
      }

  -- `erase`: what stands at the position goes, whether or not its key is `key_byte`
  unfoldable pub erase : Sorted P → ℕ → Sorted P
  erase n key_byte =
      let pos = position n.keys key_byte n.count 0 in
      if ltb pos n.count
      then record {
        count = n.count - 1;
        keys = shift_left n.keys pos n.count;
        children = shift_left n.children pos n.count;
      }
      else n

  unfoldable pub update_child_ptr : Sorted P → ℕ → P → Sorted P
  update_child_ptr n key_byte node =
      let pos = position n.keys key_byte n.count 0 in
      if ltb pos n.count && n.keys pos == key_byte
      then record n { children = set n.children pos node }
      else n

  -- the index of the child that `minimum` descends into
  unfoldable pub min_slot : Sorted P → Option ℕ
  min_slot n = some 0

  -- the index of the child that `maximum` descends into; `none` reads before the array
  unfoldable pub max_slot : Sorted P → Option ℕ
  max_slot n = if n.count == 0 then none else some (n.count - 1)

  -- the index of the child that `successor` descends into; `none` goes on to the parent
  unfoldable pub next_slot : Sorted P → ℕ → Option ℕ
  next_slot n chunk =
      let pos = position_after n.keys chunk n.count 0 in if ltb pos n.count then some pos else none

  -- `for (; pos >= 0 && keys[pos] >= chunk; pos--);` from `count - 1` down
  unfoldable pub prev_slot : Sorted P → ℕ → Option ℕ
  prev_slot n chunk = last_below (λ pos. ltb (n.keys pos) chunk) n.count

module _ {P : Type 0} ⦃pt : Pointer P⦄ where
  unfoldable pub find : Sorted P → ℕ → P
  find n key_byte =
      let pos = position n.keys key_byte n.count 0 in
      if ltb pos n.count && n.keys pos == key_byte then n.children pos else pt.null

  -- The first `count` entries are in use: the keys are bytes in ascending order, and each has a
  -- child. `cap` is the size of the arrays.
  pub record IsValid (cap : ℕ) (n : Sorted P) : Type 0 where
    pub fits : n.count ≤ cap
    pub ascending : (i j : ℕ) → i < j → j < n.count → n.keys i < n.keys j
    pub byte : (i : ℕ) → i < n.count → n.keys i < 256
    pub present : (i : ℕ) → i < n.count → pt.is_null (n.children i) ≡ false
