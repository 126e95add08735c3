-- ===== src/Node/Sorted/Change.antt =====
-- `insert` of a sorted node as a change to what `find` returns.
use cpp_art.Base.{
  ℕ, ◌+◌, ◌-◌, ◌≤◌, ◌<◌, ◌≡◌, inl, inr, refl, false, arith, Array, Pointer, ltb, ◌==◌, eq_or_ne,
  lt_or_le, if◌then◌else◌, shift_right, set,
}
use cpp_art.Node.Sorted.{Sorted, position, find, insert, IsValid}
use cpp_art.Node.Sorted.Find.{
  position_bounds, position_below, position_stop, find_at, find_nowhere, absent, at, nowhere,
  locate,
}

-- An array after an insertion at `pos`, whichever way the guard of the moves goes.
inserted_entry :
    {A : Type 0} (a : Array A) (pos n : ℕ) (v : A) (j : ℕ)
    → pos ≤ n
    → j < n + 1
    → set (if ltb pos n then shift_right a pos n else a) pos v j
      ≡ (if ltb j pos then a j else (if j == pos then v else a (j - 1)))
inserted_entry a pos n v j h k = ground arith

module _ {P : Type 0} ⦃pt : Pointer P⦄ where
  module _ (n : Sorted P) (b : ℕ) (p : P) where
    insert_key :
        (j : ℕ)
        → j < n.count + 1
        → (insert n b p).keys j ≡ (
            let pos = position n.keys b n.count 0 in
            if ltb j pos then n.keys j else (if j == pos then b else n.keys (j - 1)))
    unfolding insert
    insert_key j h =
        inserted_entry n.keys (position n.keys b n.count 0) n.count b j
          (omega (arith, position_bounds n.keys b n.count 0)) h

    insert_child :
        (j : ℕ)
        → j < n.count + 1
        → (insert n b p).children j ≡ (
            let pos = position n.keys b n.count 0 in
            if ltb j pos then n.children j else (if j == pos then p else n.children (j - 1)))
    unfolding insert
    insert_child j h =
        inserted_entry n.children (position n.keys b n.count 0) n.count p j
          (omega (arith, position_bounds n.keys b n.count 0)) h

  pub count-insert : (n : Sorted P) (b : ℕ) (p : P) → (insert n b p).count ≡ n.count + 1
  unfolding insert
  count-insert n b p = refl

  pub insert-IsValid :
      {cap : ℕ} {n : Sorted P} (b : ℕ) (p : P)
      → IsValid cap n
      → n.count < cap
      → b < 256
      → find n b ≡ pt.null
      → pt.is_null p ≡ false
      → IsValid cap (insert n b p)
  insert-IsValid {n = n} b p v room small free solid = record {
    fits = omega (arith, count-insert n b p);
    ascending = λ i j h k. ground (
      arith,
      insert_key n b p i,
      insert_key n b p j,
      count-insert n b p,
      position_bounds n.keys b n.count 0,
      v.ascending i j,
      v.ascending i (j - 1),
      v.ascending (i - 1) (j - 1),
      position_below n.keys b n.count 0 i,
      position_stop n.keys b n.count 0,
      absent v free (position n.keys b n.count 0),
      v.ascending (position n.keys b n.count 0) (j - 1),
    );
    byte = λ i h. ground (
      arith,
      insert_key n b p i,
      count-insert n b p,
      v.byte i,
      v.byte (i - 1),
      position_bounds n.keys b n.count 0,
    );
    present = λ i h. ground (
      arith,
      insert_child n b p i,
      count-insert n b p,
      v.present i,
      v.present (i - 1),
      position_bounds n.keys b n.count 0,
    );
  }

  -- An insertion of an absent byte is read back, and every other byte keeps its child.
  pub find-insert :
      {cap : ℕ} {n : Sorted P} (b : ℕ) (p : P) (c : ℕ)
      → IsValid cap n
      → n.count < cap
      → b < 256
      → find n b ≡ pt.null
      → pt.is_null p ≡ false
      → find (insert n b p) c ≡ (if c == b then p else find n c)
  find-insert {n = n} b p c v room small free solid =
      let v' = insert-IsValid b p v room small free solid in
      let pos = position n.keys b n.count 0 in
      elim (eq_or_ne c b) [
        | inl e ↦ ground (
          arith,
          find_at pos {b = c} v',
          insert_key n b p pos,
          insert_child n b p pos,
          count-insert n b p,
          position_bounds n.keys b n.count 0,
        )
        | inr ne ↦ elim (locate n c) [
          | at i h e ↦ elim (lt_or_le i pos) [
            | inl less ↦ ground (
              arith,
              find_at i v h e,
              find_at i {b = c} v',
              insert_key n b p i,
              insert_child n b p i,
              count-insert n b p,
            )
            | inr more ↦ ground (
              arith,
              find_at i v h e,
              find_at (i + 1) {b = c} v',
              insert_key n b p (i + 1),
              insert_child n b p (i + 1),
              count-insert n b p,
            )
          ]
          | nowhere out ↦ ground (
            arith,
            find_nowhere n out,
            find_nowhere (insert n b p) {b = c} (λ i h. ground (
              arith,
              insert_key n b p i,
              count-insert n b p,
              out i,
              out (i - 1),
              position_bounds n.keys b n.count 0,
            )),
          )
        ]
      ]
