-- ===== src/Node/Indexed/Change.antt =====
-- `insert`, `erase` and `update_child_ptr` of a `_Node_48` as changes to what `find` returns.
use cpp_art.Base.{
  set_twice, ℕ, ◌+◌, ◌<◌, ◌≡◌, refl, true, false, not, Option, none, some, inl, inr, ◌==◌,
  if◌then◌else◌, Pointer, first_from, arith, first_from-some, first_from-none, count_below_full,
  count_below_gain, count_below_ext, count_below_strict, Bool-cases,
}
use cpp_art.Node.Indexed.{Indexed, used, free_slot, insert, erase, find, update_child_ptr, IsValid}

module _ {P : Type 0} ⦃pt : Pointer P⦄ where
  -- While the node is not full, the search for a free slot ends inside the array.
  pub free_slot_bounds :
      {n : Indexed P}
      → IsValid n
      → n.count < 48
      → (free_slot n < 48) × (pt.is_null (n.children (free_slot n)) ≡ true)
  unfolding free_slot
  free_slot_bounds {n} v h = go (first_from (λ i. pt.is_null (n.children i)) 48 0) refl
    where
      go :
          (r : Option ℕ)
          → first_from (λ i. pt.is_null (n.children i)) 48 0 ≡ r
          → (free_slot n < 48) × (pt.is_null (n.children (free_slot n)) ≡ true)
      go none e = absurd (
          omega (
            arith,
            v.slots_counted,
            count_below_full 48 (λ i. not (pt.is_null (n.children i)))
                (λ i k. ground (arith, first_from-none (λ i. pt.is_null (n.children i)) 48 0 i e)),
          ))
      go (some i) e = ground (arith, first_from-some (λ i. pt.is_null (n.children i)) 48 0 i e)

  pub insert-IsValid :
      {n : Indexed P} (b : ℕ) (p : P)
      → IsValid n
      → n.count < 48
      → b < 256
      → find n b ≡ pt.null
      → pt.is_null p ≡ false
      → IsValid (insert n b p)
  unfolding insert find
  insert-IsValid {n} b p v room small free solid =
      let pos = free_slot n in
      let at = free_slot_bounds v room in
      record {
        bytes_counted = ground (
          arith,
          v.bytes_counted,
          v.present b,
          pt.is_null-null,
          count_below_gain 256 (used n) (used (insert n b p)) b small
              (ground (arith, v.present b, pt.is_null-null)) (ground (arith, at))
              (λ j h ne. ground arith),
        );
        slots_counted = ground (
          arith,
          v.slots_counted,
          count_below_gain 48 (λ i. not (pt.is_null (n.children i)))
              (λ i. not (pt.is_null ((insert n b p).children i))) pos at.0 (ground (arith, at))
              (ground arith) (λ j h ne. ground arith),
        );
        in_range = λ c h u. ground (arith, at, v.in_range c);
        present = λ c h u. ground (arith, at, v.present c);
        distinct = λ c d h k u w e. ground (arith, at, v.distinct c d, v.present c, v.present d);
      }

  -- An insertion of an absent byte is read back, and every other byte keeps its child.
  pub find-insert :
      {n : Indexed P} (b : ℕ) (p : P) (c : ℕ)
      → IsValid n
      → n.count < 48
      → find n b ≡ pt.null
      → c < 256
      → find (insert n b p) c ≡ (if c == b then p else find n c)
  unfolding find insert
  find-insert {n} b p c v room free small = ground (arith, free_slot_bounds v room, v.present c)

  in_use : (n : Indexed P) (b : ℕ) → pt.is_null (find n b) ≡ false → used n b ≡ true
  unfolding find
  in_use n b h = ground (arith, pt.is_null-null)

  pub erase-IsValid :
      {n : Indexed P} (b : ℕ)
      → IsValid n
      → b < 256
      → pt.is_null (find n b) ≡ false
      → IsValid (erase n b)
  unfolding erase
  erase-IsValid {n} b v small here =
      let u = in_use n b here in
      record {
        bytes_counted = ground (
          arith,
          v.bytes_counted,
          count_below_gain 256 (used (erase n b)) (used n) b small (ground arith) u
              (λ j h ne. ground arith),
        );
        slots_counted = ground (
          arith,
          v.slots_counted,
          count_below_gain 48 (λ i. not (pt.is_null ((erase n b).children i)))
              (λ i. not (pt.is_null (n.children i))) (n.child_index b) (v.in_range b small u)
              (ground (arith, pt.is_null-null)) (ground (arith, v.present b small u))
              (λ j h ne. ground arith),
        );
        in_range = λ c h w. ground (arith, v.in_range c);
        present = λ c h w. ground (arith, u, v.present c, v.distinct b c);
        distinct = λ c d h k w x e. ground (arith, v.distinct c d);
      }

  pub find-erase :
      {n : Indexed P} (b : ℕ) (c : ℕ)
      → IsValid n
      → b < 256
      → c < 256
      → pt.is_null (find n b) ≡ false
      → find (erase n b) c ≡ (if c == b then pt.null else find n c)
  unfolding erase
  find-erase {n} b c v small h here =
      let u = in_use n b here in unfold find in ground (arith, u, v.distinct b c)

  pub update_child_ptr-IsValid :
      {n : Indexed P} (b : ℕ) (p : P)
      → IsValid n
      → b < 256
      → pt.is_null p ≡ false
      → IsValid (update_child_ptr n b p)
  unfolding update_child_ptr
  update_child_ptr-IsValid {n} b p v small solid = elim (Bool-cases (used n b)) [
    | inl u ↦ record {
      bytes_counted = ground (arith, v.bytes_counted);
      slots_counted = ground (
        arith,
        v.slots_counted,
        count_below_ext 48 (λ i. not (pt.is_null (n.children i)))
            (λ i. not (pt.is_null ((update_child_ptr n b p).children i)))
            (λ i h. ground (arith, v.present b)),
      );
      in_range = λ c h w. ground (arith, v.in_range c);
      present = λ c h w. ground (arith, v.present c);
      distinct = λ c d h k w x e. ground (arith, v.distinct c d);
    }
    | inr u ↦ rw u v
  ]

  pub find-update_child_ptr :
      {n : Indexed P} (b : ℕ) (p : P) (c : ℕ)
      → IsValid n
      → b < 256
      → c < 256
      → pt.is_null (find n b) ≡ false
      → find (update_child_ptr n b p) c ≡ (if c == b then p else find n c)
  unfolding update_child_ptr
  find-update_child_ptr {n} b p c v small h here =
      let u = in_use n b here in unfold find in ground (arith, u, v.distinct b c)

  pub count-update_child_ptr :
      (n : Indexed P) (b : ℕ) (p : P) → (update_child_ptr n b p).count ≡ n.count
  unfolding update_child_ptr
  count-update_child_ptr n b p = ground arith

  pub count-erase :
      {n : Indexed P} (b : ℕ)
      → IsValid n
      → b < 256
      → pt.is_null (find n b) ≡ false
      → (erase n b).count + 1 ≡ n.count
  unfolding erase
  count-erase {n} b v small here =
      ground (arith, v.bytes_counted, in_use n b here, count_below_strict (used n) b 256 small)

pub update_child_ptr_twice :
    {P : Type 0} (n : Indexed P) (b : ℕ) (p : P)
    → update_child_ptr (update_child_ptr n b p) b p ≡ update_child_ptr n b p
unfolding update_child_ptr
update_child_ptr_twice n b p = elim (Bool-cases (used n b)) [
  | inl h ↦ rw h (rw h (λ i. record n { children = set_twice n.children (n.child_index b) p i }))
  | inr h ↦ rw h (rw h refl)
]
