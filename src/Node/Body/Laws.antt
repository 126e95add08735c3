-- ===== src/Node/Body/Laws.antt =====
-- Lemmas about the methods that change an inner node of include/art/ar_tree.h.
use cpp_art.Base.{
  ap, ◌≢◌, ℕ, ◌+◌, ◌≡◌, ◌<◌, ◌≤◌, refl, false, ◌==◌, if◌then◌else◌, Pointer, arith, not, inl,
  count_below-le, ◌⊎◌,
}
use cpp_art.Node.Sorted
use cpp_art.Node.Sorted.{Sorted}
use cpp_art.Node.Sorted.Change
use cpp_art.Node.Sorted.Removal
use cpp_art.Node.Sorted.Update
use cpp_art.Node.Sorted.Find.{find_nowhere, at, nowhere, locate}
use cpp_art.Node.Node16
use cpp_art.Node.Node16.{insert-eq-Sorted}
use cpp_art.Node.Indexed
use cpp_art.Node.Indexed.Change as IndexedChange
use cpp_art.Node.Direct
use cpp_art.Node.Direct.{held}
use cpp_art.Node.Direct.Change as DirectChange
use cpp_art.Node.Body.{
  Body, node_4, node_16, node_48, node_256, size, min_size, max_size, find, insert, erase,
  update_child_ptr, IsValid,
}

module _ {P : Type 0} ⦃pt : Pointer P⦄ where
  pub size-insert : (n : Body P) (b : ℕ) (p : P) → size (insert n b p) ≡ size n + 1
  unfolding size insert Node16.insert Sorted.insert Indexed.insert Direct.insert
  size-insert (node_4 n) b p = refl
  size-insert (node_16 n) b p = refl
  size-insert (node_48 n) b p = refl
  size-insert (node_256 n) b p = refl

  -- Inserting a child that is not null at a byte that has none, in a valid node with room, makes
  -- a valid node, whatever the class.
  pub insert-IsValid :
      (n : Body P) (b : ℕ) (p : P)
      → IsValid n
      → size n < max_size n
      → b < 256
      → find n b ≡ pt.null
      → pt.is_null p ≡ false
      → IsValid (insert n b p)
  unfolding size max_size find insert Node16.find
  insert-IsValid (node_4 n) b p v room small free solid =
      Change.insert-IsValid b p v room small free solid
  insert-IsValid (node_16 n) b p v room small free solid =
      rw insert-eq-Sorted (Change.insert-IsValid b p v room small free solid)
  insert-IsValid (node_48 n) b p v room small free solid =
      IndexedChange.insert-IsValid b p v room small free solid
  insert-IsValid (node_256 n) b p v room small free solid =
      DirectChange.insert-IsValid b p v small free solid

  -- A child that is not null, inserted at a byte that has none in a valid node with room, is
  -- found at that byte, and every other byte keeps its child, whatever the class.
  pub find-insert :
      (n : Body P) (b : ℕ) (p : P) (c : ℕ)
      → IsValid n
      → size n < max_size n
      → b < 256
      → c < 256
      → find n b ≡ pt.null
      → pt.is_null p ≡ false
      → find (insert n b p) c ≡ (if c == b then p else find n c)
  unfolding size max_size find insert Node16.find
  find-insert (node_4 n) b p c v room small h free solid =
      Change.find-insert b p c v room small free solid
  find-insert (node_16 n) b p c v room small h free solid =
      rw insert-eq-Sorted (Change.find-insert b p c v room small free solid)
  find-insert (node_48 n) b p c v room small h free solid =
      IndexedChange.find-insert b p c v room free h
  find-insert (node_256 n) b p c v room small h free solid = DirectChange.find-insert n b p c

  pub size-erase :
      (n : Body P) (b : ℕ)
      → IsValid n
      → b < 256
      → pt.is_null (find n b) ≡ false
      → size (erase n b) + 1 ≡ size n
  unfolding size find erase Node16.find Node16.erase
  size-erase (node_4 n) b v small here = Removal.count-erase b v here
  size-erase (node_16 n) b v small here = Removal.count-erase b v here
  size-erase (node_48 n) b v small here = IndexedChange.count-erase b v small here
  size-erase (node_256 n) b v small here = DirectChange.count-erase b v small here

  -- Erasing a byte that has a child in a valid node makes a valid node, whatever the class.
  pub erase-IsValid :
      (n : Body P) (b : ℕ)
      → IsValid n
      → b < 256
      → pt.is_null (find n b) ≡ false
      → IsValid (erase n b)
  unfolding find erase Node16.find Node16.erase
  erase-IsValid (node_4 n) b v small here = Removal.erase-IsValid b v here
  erase-IsValid (node_16 n) b v small here = Removal.erase-IsValid b v here
  erase-IsValid (node_48 n) b v small here = IndexedChange.erase-IsValid b v small here
  erase-IsValid (node_256 n) b v small here = DirectChange.erase-IsValid b v small here

  -- After a byte that has a child in a valid node is erased, it has none, and every other byte
  -- keeps its child, whatever the class.
  pub find-erase :
      (n : Body P) (b c : ℕ)
      → IsValid n
      → b < 256
      → c < 256
      → pt.is_null (find n b) ≡ false
      → find (erase n b) c ≡ (if c == b then pt.null else find n c)
  unfolding find erase Node16.find Node16.erase
  find-erase (node_4 n) b c v small h here = Removal.find-erase b c v here
  find-erase (node_16 n) b c v small h here = Removal.find-erase b c v here
  find-erase (node_48 n) b c v small h here = IndexedChange.find-erase b c v small h here
  find-erase (node_256 n) b c v small h here = DirectChange.find-erase n b c

  pub size-update_child_ptr : (n : Body P) (b : ℕ) (p : P) → size (update_child_ptr n b p) ≡ size n
  unfolding size update_child_ptr Node16.update_child_ptr
  size-update_child_ptr (node_4 n) b p = Update.count-update_child_ptr n b p
  size-update_child_ptr (node_16 n) b p = Update.count-update_child_ptr n b p
  size-update_child_ptr (node_48 n) b p = IndexedChange.count-update_child_ptr n b p
  size-update_child_ptr (node_256 n) b p = DirectChange.count-update_child_ptr n b p

  pub update_child_ptr-IsValid :
      (n : Body P) (b : ℕ) (p : P)
      → IsValid n
      → b < 256
      → pt.is_null p ≡ false
      → IsValid (update_child_ptr n b p)
  unfolding update_child_ptr Node16.update_child_ptr
  update_child_ptr-IsValid (node_4 n) b p v small solid =
      Update.update_child_ptr-IsValid b p v solid
  update_child_ptr-IsValid (node_16 n) b p v small solid =
      Update.update_child_ptr-IsValid b p v solid
  update_child_ptr-IsValid (node_48 n) b p v small solid =
      IndexedChange.update_child_ptr-IsValid b p v small solid
  update_child_ptr-IsValid (node_256 n) b p v small solid =
      DirectChange.update_child_ptr-IsValid b p v solid

  -- In a valid node, a byte that has a child gets the new one, if that is not null, and every
  -- other byte keeps its child, whatever the class.
  pub find-update_child_ptr :
      (n : Body P) (b : ℕ) (p : P) (c : ℕ)
      → IsValid n
      → b < 256
      → c < 256
      → pt.is_null (find n b) ≡ false
      → pt.is_null p ≡ false
      → find (update_child_ptr n b p) c ≡ (if c == b then p else find n c)
  unfolding find update_child_ptr Node16.find Node16.update_child_ptr
  find-update_child_ptr (node_4 n) b p c v small h here solid =
      Update.find-update_child_ptr b p c v here solid
  find-update_child_ptr (node_16 n) b p c v small h here solid =
      Update.find-update_child_ptr b p c v here solid
  find-update_child_ptr (node_48 n) b p c v small h here solid =
      IndexedChange.find-update_child_ptr b p c v small h here
  find-update_child_ptr (node_256 n) b p c v small h here solid =
      DirectChange.find-update_child_ptr n b p c here

  -- A node with an absent byte has room, or it is full and its class can grow.
  pub room_or_full :
      (n : Body P) (b : ℕ)
      → IsValid n
      → b < 256
      → find n b ≡ pt.null
      → (size n < max_size n) ⊎ ((size n ≡ max_size n) × (max_size n < 256))
  unfolding find size max_size
  room_or_full (node_4 n) b v small free = omega (arith, v.fits)
  room_or_full (node_16 n) b v small free = omega (arith, v.fits)
  room_or_full (node_48 n) b v small free =
      omega (arith, v.slots_counted, count_below-le 48 (λ i. not (pt.is_null (n.children i))))
  room_or_full (node_256 n) b v small free = inl (DirectChange.count-lt b v small free)

  pub min_size-insert : (n : Body P) (b : ℕ) (p : P) → min_size (insert n b p) ≡ min_size n
  unfolding min_size insert
  min_size-insert (node_4 n) b p = refl
  min_size-insert (node_16 n) b p = refl
  min_size-insert (node_48 n) b p = refl
  min_size-insert (node_256 n) b p = refl

  pub min_size-update_child_ptr :
      (n : Body P) (b : ℕ) (p : P) → min_size (update_child_ptr n b p) ≡ min_size n
  unfolding min_size update_child_ptr
  min_size-update_child_ptr (node_4 n) b p = refl
  min_size-update_child_ptr (node_16 n) b p = refl
  min_size-update_child_ptr (node_48 n) b p = refl
  min_size-update_child_ptr (node_256 n) b p = refl

  pub min_size-erase : (n : Body P) (b : ℕ) → min_size (erase n b) ≡ min_size n
  unfolding min_size erase
  min_size-erase (node_4 n) b = refl
  min_size-erase (node_16 n) b = refl
  min_size-erase (node_48 n) b = refl
  min_size-erase (node_256 n) b = refl

  -- A `_Node_4` with one child has no other.
  pub only_child :
      (n : Body P) (b c : ℕ)
      → IsValid n
      → min_size n ≤ 2
      → size n ≤ 1
      → pt.is_null (find n b) ≡ false
      → c ≢ b
      → find n c ≡ pt.null
  unfolding find size min_size
  only_child (node_4 n) b c v few one held ne = elim (locate n c) [
    | nowhere out ↦ find_nowhere n out
    | at i h e ↦ elim (locate n b) [
      | nowhere out ↦ absurd (ground (arith, find_nowhere n out, pt.is_null-null))
      | at j k f ↦ let same : i ≡ j = omega arith in absurd (ne (ground arith))
    ]
  ]
  only_child (node_16 n) b c v few one held ne = absurd (omega arith)
  only_child (node_48 n) b c v few one held ne = absurd (omega arith)
  only_child (node_256 n) b c v few one held ne = absurd (omega arith)

  -- Writing the same child twice is writing it once.
  pub update_child_ptr_twice :
      (n : Body P) (b : ℕ) (p : P)
      → update_child_ptr (update_child_ptr n b p) b p ≡ update_child_ptr n b p
  unfolding update_child_ptr Node16.update_child_ptr
  update_child_ptr_twice (node_4 n) b p = ap node_4 (Update.update_child_ptr_twice n b p)
  update_child_ptr_twice (node_16 n) b p = ap node_16 (Update.update_child_ptr_twice n b p)
  update_child_ptr_twice (node_48 n) b p = ap node_48 (IndexedChange.update_child_ptr_twice n b p)
  update_child_ptr_twice (node_256 n) b p = ap node_256 (DirectChange.update_child_ptr_twice n b p)

  pub two-le-min_size : (n : Body P) → 2 ≤ min_size n
  unfolding min_size
  two-le-min_size (node_4 n) = omega arith
  two-le-min_size (node_16 n) = omega arith
  two-le-min_size (node_48 n) = omega arith
  two-le-min_size (node_256 n) = omega arith
