-- ===== src/Node/Direct.antt =====
-- `_Node_256` of include/art/ar_tree.h: the children stand at their bytes.
pub mod Change
use cpp_art.Base.{
  ℕ, zero, suc, ◌+◌, ◌-◌, ◌≤◌, ◌<◌, ◌≡◌, Bool, true, false, not, Option, none, some, ◌==◌,
  if◌then◌else◌, Array, set, Pointer, first_from, last_below, count_below,
}

pub record Direct (P : Type 0) : Type 0 where
  pub count : ℕ
  pub children : Array P

module _ {P : Type 0} ⦃pt : Pointer P⦄ where
  -- `children[b] != nullptr`
  abbrev pub held : Direct P → ℕ → Bool
  held n b = not (pt.is_null (n.children b))

  unfoldable pub insert : Direct P → ℕ → P → Direct P
  insert n key_byte node = record { count = n.count + 1; children = set n.children key_byte node }

  unfoldable pub erase : Direct P → ℕ → Direct P
  erase n key_byte = record { count = n.count - 1; children = set n.children key_byte pt.null }

  unfoldable pub find : Direct P → ℕ → P
  find n key_byte = if held n key_byte then n.children key_byte else pt.null

  unfoldable pub update_child_ptr : Direct P → ℕ → P → Direct P
  update_child_ptr n key_byte node =
      if held n key_byte then record n { children = set n.children key_byte node } else n

  -- the index of the child that `minimum` descends into; `none` reads past the array
  unfoldable pub min_slot : Direct P → Option ℕ
  min_slot n = first_from (held n) 256 0

  unfoldable pub max_slot : Direct P → Option ℕ
  max_slot n = last_below (held n) 256

  -- the index of the child that `successor` descends into; `none` goes on to the parent
  unfoldable pub next_slot : Direct P → ℕ → Option ℕ
  next_slot n chunk = first_from (held n) (256 - (chunk + 1)) (chunk + 1)

  unfoldable pub prev_slot : Direct P → ℕ → Option ℕ
  prev_slot n chunk = last_below (held n) chunk

  pub record IsValid (n : Direct P) : Type 0 where
    pub counted : count_below 256 (held n) ≡ n.count
