-- ===== src/Node/Indexed.antt =====
-- `_Node_48` of include/art/ar_tree.h: a byte's entry in `child_index` is the index of its child,
-- or `empty_marker`.
pub mod Change
use cpp_art.Base.{
  ℕ, zero, suc, ◌+◌, ◌-◌, ◌≤◌, ◌<◌, ◌≡◌, Bool, true, false, not, Option, none, some, ◌==◌,
  if◌then◌else◌, Array, set, Pointer, first_from, last_below, count_below,
}

-- `EMPTY_MARKER`
abbrev pub empty_marker : ℕ
empty_marker = 63

pub record Indexed (P : Type 0) : Type 0 where
  pub count : ℕ
  pub child_index : Array ℕ
  pub children : Array P

module _ {P : Type 0} where
  -- `child_index[b] != EMPTY_MARKER`
  abbrev pub used : Indexed P → ℕ → Bool
  used n b = not (n.child_index b == empty_marker)

  unfoldable pub update_child_ptr : Indexed P → ℕ → P → Indexed P
  update_child_ptr n key_byte node =
      if used n key_byte
      then record n { children = set n.children (n.child_index key_byte) node }
      else n

  abbrev pub indexed_slot : Indexed P → Option ℕ → Option ℕ
  indexed_slot n none = none
  indexed_slot n (some pos) = some (n.child_index pos)

  -- the index of the child that `minimum` descends into; `none` reads past `child_index`
  unfoldable pub min_slot : Indexed P → Option ℕ
  min_slot n = indexed_slot n (first_from (used n) 256 0)

  unfoldable pub max_slot : Indexed P → Option ℕ
  max_slot n = indexed_slot n (last_below (used n) 256)

  -- the index of the child that `successor` descends into; `none` goes on to the parent
  unfoldable pub next_slot : Indexed P → ℕ → Option ℕ
  next_slot n chunk = indexed_slot n (first_from (used n) (256 - (chunk + 1)) (chunk + 1))

  unfoldable pub prev_slot : Indexed P → ℕ → Option ℕ
  prev_slot n chunk = indexed_slot n (last_below (used n) chunk)

module _ {P : Type 0} ⦃pt : Pointer P⦄ where
  -- `for (; children[pos] != nullptr; pos++);` stops at the array's size 48 at the latest
  unfoldable pub free_slot : Indexed P → ℕ
  free_slot n = elim (first_from (λ i. pt.is_null (n.children i)) 48 0) [ none ↦ 48 | some i ↦ i ]

  unfoldable pub insert : Indexed P → ℕ → P → Indexed P
  insert n key_byte node =
      let pos = free_slot n in
      record {
        count = n.count + 1;
        child_index = set n.child_index key_byte pos;
        children = set n.children pos node;
      }

  unfoldable pub erase : Indexed P → ℕ → Indexed P
  erase n key_byte = record {
    count = n.count - 1;
    child_index = set n.child_index key_byte empty_marker;
    children = set n.children (n.child_index key_byte) pt.null;
  }

  unfoldable pub find : Indexed P → ℕ → P
  find n key_byte = if used n key_byte then n.children (n.child_index key_byte) else pt.null

  -- Each byte in use has a child of its own, and no child lacks a byte: `count` is the number of
  -- both.
  pub record IsValid (n : Indexed P) : Type 0 where
    pub bytes_counted : count_below 256 (used n) ≡ n.count
    pub slots_counted : count_below 48 (λ i. not (pt.is_null (n.children i))) ≡ n.count
    pub in_range : (b : ℕ) → b < 256 → used n b ≡ true → n.child_index b < 48
    pub present :
        (b : ℕ) → b < 256 → used n b ≡ true → pt.is_null (n.children (n.child_index b)) ≡ false
    pub distinct :
        (b c : ℕ)
        → b < 256
        → c < 256
        → used n b ≡ true
        → used n c ≡ true
        → n.child_index b ≡ n.child_index c
        → b ≡ c
