-- ===== src/Node/Sorted/Update.antt =====
-- `update_child_ptr` of a sorted node as a change to what `find` returns.
use cpp_art.Base.{
  set_twice, ◌&&◌, Bool-cases, ℕ, ◌<◌, ◌≡◌, inl, inr, refl, ap, false, arith, Array, Pointer, ltb,
  ◌==◌, if◌then◌else◌,
}
use cpp_art.Node.Sorted.{Sorted, position, find, update_child_ptr, IsValid}
use cpp_art.Node.Sorted.Find.{position_at, find_at, find_nowhere, at, nowhere, locate}
use cpp_art.Node.Sorted.Removal.{held_at}

module _ {P : Type 0} ⦃pt : Pointer P⦄ where
  pub count-update_child_ptr :
      (n : Sorted P) (b : ℕ) (p : P) → (update_child_ptr n b p).count ≡ n.count
  unfolding update_child_ptr
  count-update_child_ptr n b p = ground arith

  keys-update_child_ptr : (n : Sorted P) (b : ℕ) (p : P) → (update_child_ptr n b p).keys ≡ n.keys
  unfolding update_child_ptr
  keys-update_child_ptr n b p = ground arith

  child-update_child_ptr :
      {cap : ℕ} {n : Sorted P} (b : ℕ) (p : P) (i : ℕ)
      → IsValid cap n
      → i < n.count
      → (update_child_ptr n b p).children i ≡ (if n.keys i == b then p else n.children i)
  unfolding update_child_ptr
  child-update_child_ptr {n = n} b p i v h = ground (arith, position_at i {b = b} v h)

  pub update_child_ptr-IsValid :
      {cap : ℕ} {n : Sorted P} (b : ℕ) (p : P)
      → IsValid cap n
      → pt.is_null p ≡ false
      → IsValid cap (update_child_ptr n b p)
  update_child_ptr-IsValid {n = n} b p v solid = record {
    fits = rw count-update_child_ptr v.fits;
    ascending =
        λ i j h k. rw keys-update_child_ptr (v.ascending i j h (rw count-update_child_ptr at k));
    byte = λ i h. rw keys-update_child_ptr (v.byte i (rw count-update_child_ptr at h));
    present = λ i h.
        ground (arith, count-update_child_ptr n b p, child-update_child_ptr b p i v, v.present i);
  }

  -- A byte that has a child gets the new one, and every other byte keeps its child.
  pub find-update_child_ptr :
      {cap : ℕ} {n : Sorted P} (b : ℕ) (p : P) (c : ℕ)
      → IsValid cap n
      → pt.is_null (find n b) ≡ false
      → pt.is_null p ≡ false
      → find (update_child_ptr n b p) c ≡ (if c == b then p else find n c)
  find-update_child_ptr {n = n} b p c v held solid =
      let v' = update_child_ptr-IsValid b p v solid in
      elim (locate n c) [
        | at i h e ↦ ground (
          arith,
          find_at i v h e,
          find_at i {b = c} v',
          child-update_child_ptr b p i v h,
          count-update_child_ptr n b p,
          ap (λ (k : Array ℕ). k i) (keys-update_child_ptr n b p),
        )
        | nowhere out ↦ ground (
          arith,
          held_at b v held,
          out (position n.keys b n.count 0),
          find_nowhere n out,
          find_nowhere (update_child_ptr n b p) {b = c} (λ i h. ground (
            arith,
            ap (λ (k : Array ℕ). k i) (keys-update_child_ptr n b p),
            count-update_child_ptr n b p,
            out i,
          )),
        )
      ]

pub update_child_ptr_twice :
    {P : Type 0} (n : Sorted P) (b : ℕ) (p : P)
    → update_child_ptr (update_child_ptr n b p) b p ≡ update_child_ptr n b p
unfolding update_child_ptr
update_child_ptr_twice n b p =
    let pos = position n.keys b n.count 0 in
    elim (Bool-cases (ltb pos n.count && n.keys pos == b)) [
      | inl h ↦ rw h (rw h (λ i. record n { children = set_twice n.children pos p i }))
      | inr h ↦ rw h (rw h refl)
    ]
