-- ===== src/Node/Slots.antt =====
-- What it means that a slot holds the least or the greatest child of a range of bytes.
use cpp_art.Base.{ℕ, ◌<◌, ◌≤◌, ◌≡◌, false, Option, none, some, Pointer}

module _ {P : Type 0} ⦃pt : Pointer P⦄ where
  -- `p` is the child at the least byte from `low` on that has one.
  pub record Least (look : ℕ → P) (low : ℕ) (p : P) : Type 0 where
    pub byte : ℕ
    pub from : low ≤ byte
    pub small : byte < 256
    pub is : look byte ≡ p
    pub solid : pt.is_null p ≡ false
    pub before : (c : ℕ) → low ≤ c → c < byte → look c ≡ pt.null

  -- `p` is the child at the greatest byte below `high` that has one.
  pub record Greatest (look : ℕ → P) (high : ℕ) (p : P) : Type 0 where
    pub byte : ℕ
    pub below : byte < high
    pub is : look byte ≡ p
    pub solid : pt.is_null p ≡ false
    pub after : (c : ℕ) → byte < c → c < high → look c ≡ pt.null

-- One statement of a slot that is there, another of none.
abbrev pub AtSlot : Option ℕ → (ℕ → Type 0) → Type 0 → Type 0
AtSlot none there nowhere = nowhere
AtSlot (some i) there nowhere = there i
