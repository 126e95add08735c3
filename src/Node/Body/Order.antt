-- ===== src/Node/Body/Order.antt =====
-- Lemmas about the child that `minimum`, `maximum`, `successor` and `predecessor` of an inner node
-- class of include/art/ar_tree.h descend into.
mod SortedSlots
mod ScannedSlots
use SortedSlots.{sorted_min, sorted_max, sorted_next, sorted_prev}
use ScannedSlots.{
  indexed_min, indexed_max, indexed_next, indexed_prev, direct_min, direct_max, direct_next,
  direct_prev,
}
use cpp_art.Base.{ℕ, ◌+◌, ◌≡◌, ◌<◌, ◌≤◌, Bool, true, false, some, none, Option, Pointer, arith}
use cpp_art.Node.Sorted
use cpp_art.Node.Node16
use cpp_art.Node.Body.{
  Body, node_4, node_16, node_48, node_256, size, child, find, min_slot, max_slot, next_slot,
  prev_slot, IsValid,
}
use cpp_art.Node.Slots.{Least, Greatest, AtSlot}

module _ {P : Type 0} ⦃pt : Pointer P⦄ where
  -- In a valid node that has a child, `minimum` descends into the child at the least byte that
  -- has one.
  pub min_slot_lem :
      (n : Body P)
      → IsValid n
      → 0 < size n
      → (i : ℕ) × (min_slot n ≡ some i) × Least (find n) 0 (child n i)
  unfolding size child find min_slot Node16.find Node16.min_slot
  min_slot_lem (node_4 n) v h = sorted_min v h
  min_slot_lem (node_16 n) v h = sorted_min v h
  min_slot_lem (node_48 n) v h = indexed_min v h
  min_slot_lem (node_256 n) v h = direct_min v h

  -- In a valid node that has a child, `maximum` descends into the child at the greatest byte that
  -- has one.
  pub max_slot_lem :
      (n : Body P)
      → IsValid n
      → 0 < size n
      → (i : ℕ) × (max_slot n ≡ some i) × Greatest (find n) 256 (child n i)
  unfolding size child find max_slot Node16.find Node16.max_slot
  max_slot_lem (node_4 n) v h = sorted_max v h
  max_slot_lem (node_16 n) v h = sorted_max v h
  max_slot_lem (node_48 n) v h = indexed_max v h
  max_slot_lem (node_256 n) v h = direct_max v h

  -- In a valid node, `successor` descends into the child at the least byte above the chunk that
  -- has one, and goes on to the parent exactly where no byte above the chunk has a child.
  pub next_slot_lem :
      (n : Body P) (chunk : ℕ)
      → IsValid n
      → chunk < 256
      → AtSlot
          (next_slot n chunk)
          (λ i. Least (find n) (chunk + 1) (child n i))
          ((c : ℕ) → chunk < c → c < 256 → find n c ≡ pt.null)
  unfolding child find next_slot Node16.find Node16.next_slot
  next_slot_lem (node_4 n) chunk v h = sorted_next n chunk v
  next_slot_lem (node_16 n) chunk v h = sorted_next n chunk v
  next_slot_lem (node_48 n) chunk v h = indexed_next n chunk v h
  next_slot_lem (node_256 n) chunk v h = direct_next n chunk v h

  -- In a valid node, `predecessor` descends into the child at the greatest byte below the chunk
  -- that has one, and goes on to the parent exactly where no byte below the chunk has a child.
  pub prev_slot_lem :
      (n : Body P) (chunk : ℕ)
      → IsValid n
      → chunk < 256
      → AtSlot
          (prev_slot n chunk)
          (λ i. Greatest (find n) chunk (child n i))
          ((c : ℕ) → c < chunk → find n c ≡ pt.null)
  unfolding child find prev_slot Node16.find Node16.prev_slot
  prev_slot_lem (node_4 n) chunk v h = sorted_prev n chunk v
  prev_slot_lem (node_16 n) chunk v h = sorted_prev n chunk v
  prev_slot_lem (node_48 n) chunk v h = indexed_prev n chunk v h
  prev_slot_lem (node_256 n) chunk v h = direct_prev n chunk v h
