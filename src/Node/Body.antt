-- ===== src/Node/Body.antt =====
-- The virtual methods of the inner node classes of include/art/ar_tree.h, dispatched on the class.
pub mod Laws
pub mod Resize
pub mod Order
use cpp_art.Base.{ℕ, Bool, true, Option, none, some, ◌<◌, Pointer}
use cpp_art.Node.Sorted
use cpp_art.Node.Sorted.{Sorted}
use cpp_art.Node.Node16
use cpp_art.Node.Indexed
use cpp_art.Node.Indexed.{Indexed}
use cpp_art.Node.Direct
use cpp_art.Node.Direct.{Direct}
use cpp_art.Node.Growth.{
  node_4_of_16, node_16_of_4, node_16_of_48, node_48_of_16, node_48_of_256, node_256_of_48,
}

-- An inner node's class with the fields of that class. `_count` stands in the class's record.
pub data Body (P : Type 0) : Type 0 where
  node_4 : Sorted P → Body P
  node_16 : Sorted P → Body P
  node_48 : Indexed P → Body P
  node_256 : Direct P → Body P

module _ {P : Type 0} where
  -- `size()` is `_count`
  unfoldable pub size : Body P → ℕ
  size (node_4 n) = n.count
  size (node_16 n) = n.count
  size (node_48 n) = n.count
  size (node_256 n) = n.count

  unfoldable pub min_size : Body P → ℕ
  min_size (node_4 n) = 2
  min_size (node_16 n) = 5
  min_size (node_48 n) = 17
  min_size (node_256 n) = 49

  unfoldable pub max_size : Body P → ℕ
  max_size (node_4 n) = 4
  max_size (node_16 n) = 16
  max_size (node_48 n) = 48
  max_size (node_256 n) = 256

  -- `children[slot]`
  unfoldable pub child : Body P → ℕ → P
  child (node_4 n) slot = n.children slot
  child (node_16 n) slot = n.children slot
  child (node_48 n) slot = n.children slot
  child (node_256 n) slot = n.children slot

module _ {P : Type 0} ⦃pt : Pointer P⦄ where
  unfoldable pub find : Body P → ℕ → P
  find (node_4 n) b = Sorted.find n b
  find (node_16 n) b = Node16.find n b
  find (node_48 n) b = Indexed.find n b
  find (node_256 n) b = Direct.find n b

  unfoldable pub insert : Body P → ℕ → P → Body P
  insert (node_4 n) b p = node_4 (Sorted.insert n b p)
  insert (node_16 n) b p = node_16 (Node16.insert n b p)
  insert (node_48 n) b p = node_48 (Indexed.insert n b p)
  insert (node_256 n) b p = node_256 (Direct.insert n b p)

  unfoldable pub erase : Body P → ℕ → Body P
  erase (node_4 n) b = node_4 (Sorted.erase n b)
  erase (node_16 n) b = node_16 (Node16.erase n b)
  erase (node_48 n) b = node_48 (Indexed.erase n b)
  erase (node_256 n) b = node_256 (Direct.erase n b)

  unfoldable pub update_child_ptr : Body P → ℕ → P → Body P
  update_child_ptr (node_4 n) b p = node_4 (Sorted.update_child_ptr n b p)
  update_child_ptr (node_16 n) b p = node_16 (Node16.update_child_ptr n b p)
  update_child_ptr (node_48 n) b p = node_48 (Indexed.update_child_ptr n b p)
  update_child_ptr (node_256 n) b p = node_256 (Direct.update_child_ptr n b p)

  unfoldable pub min_slot : Body P → Option ℕ
  min_slot (node_4 n) = Sorted.min_slot n
  min_slot (node_16 n) = Node16.min_slot n
  min_slot (node_48 n) = Indexed.min_slot n
  min_slot (node_256 n) = Direct.min_slot n

  unfoldable pub max_slot : Body P → Option ℕ
  max_slot (node_4 n) = Sorted.max_slot n
  max_slot (node_16 n) = Node16.max_slot n
  max_slot (node_48 n) = Indexed.max_slot n
  max_slot (node_256 n) = Direct.max_slot n

  unfoldable pub next_slot : Body P → ℕ → Option ℕ
  next_slot (node_4 n) chunk = Sorted.next_slot n chunk
  next_slot (node_16 n) chunk = Node16.next_slot n chunk
  next_slot (node_48 n) chunk = Indexed.next_slot n chunk
  next_slot (node_256 n) chunk = Direct.next_slot n chunk

  unfoldable pub prev_slot : Body P → ℕ → Option ℕ
  prev_slot (node_4 n) chunk = Sorted.prev_slot n chunk
  prev_slot (node_16 n) chunk = Node16.prev_slot n chunk
  prev_slot (node_48 n) chunk = Indexed.prev_slot n chunk
  prev_slot (node_256 n) chunk = Direct.prev_slot n chunk

  -- `grow`; `none` is the `throw` of its default case
  unfoldable pub grow : Body P → Option (Body P)
  grow (node_4 n) = some (node_16 (node_16_of_4 n))
  grow (node_16 n) = some (node_48 (node_48_of_16 n))
  grow (node_48 n) = some (node_256 (node_256_of_48 n))
  grow (node_256 n) = none

  -- `shrink` of the larger classes
  unfoldable pub shrink : Body P → Body P
  shrink (node_4 n) = node_4 n
  shrink (node_16 n) = node_4 (node_4_of_16 n)
  shrink (node_48 n) = node_16 (node_16_of_48 n)
  shrink (node_256 n) = node_48 (node_48_of_256 n)

  -- The invariant of the class.
  abbrev pub IsValid : Body P → Type 0
  IsValid (node_4 n) = Sorted.IsValid 4 n
  IsValid (node_16 n) = Sorted.IsValid 16 n
  IsValid (node_48 n) = Indexed.IsValid n
  IsValid (node_256 n) = Direct.IsValid n
