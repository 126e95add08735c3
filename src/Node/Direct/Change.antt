-- ===== src/Node/Direct/Change.antt =====
-- `insert`, `erase` and `update_child_ptr` of a `_Node_256` as changes to what `find` returns.
use cpp_art.Base.{
  eq→==, set_twice, Bool-cases, inl, inr, ℕ, ◌+◌, ◌<◌, ◌≡◌, refl, true, false, ◌==◌, if◌then◌else◌,
  set, Pointer, arith, count_below_gain, count_below_ext, count_below_strict, count_below-le,
}
use cpp_art.Node.Direct.{Direct, held, insert, erase, find, update_child_ptr, IsValid}

module _ {P : Type 0} ⦃pt : Pointer P⦄ where
  pub find-eq-child : (n : Direct P) (b : ℕ) → find n b ≡ n.children b
  unfolding find
  find-eq-child n b = ground (arith, pt.eq_null (n.children b))

  pub insert-IsValid :
      {n : Direct P} (b : ℕ) (p : P)
      → IsValid n
      → b < 256
      → find n b ≡ pt.null
      → pt.is_null p ≡ false
      → IsValid (insert n b p)
  unfolding insert
  insert-IsValid {n} b p v small free solid = record {
    counted = ground (
      arith,
      v.counted,
      count_below_gain 256 (held n) (held (insert n b p)) b small
          (ground (arith, find-eq-child n b, pt.is_null-null)) (ground arith)
          (λ j h ne. ground arith),
    );
  }

  -- An inserted byte is read back, and every other byte keeps its child.
  pub find-insert :
      (n : Direct P) (b : ℕ) (p : P) (c : ℕ)
      → find (insert n b p) c ≡ (if c == b then p else find n c)
  unfolding insert
  find-insert n b p c = ground (arith, find-eq-child n c, find-eq-child (insert n b p) c)

  pub erase-IsValid :
      {n : Direct P} (b : ℕ)
      → IsValid n
      → b < 256
      → pt.is_null (find n b) ≡ false
      → IsValid (erase n b)
  unfolding erase
  erase-IsValid {n} b v small here = record {
    counted = ground (
      arith,
      v.counted,
      count_below_gain 256 (held (erase n b)) (held n) b small (ground (arith, pt.is_null-null))
          (ground (arith, find-eq-child n b)) (λ j h ne. ground arith),
    );
  }

  pub find-erase :
      (n : Direct P) (b : ℕ) (c : ℕ) → find (erase n b) c ≡ (if c == b then pt.null else find n c)
  unfolding erase
  find-erase n b c = ground (arith, find-eq-child n c, find-eq-child (erase n b) c)

  pub update_child_ptr-IsValid :
      {n : Direct P} (b : ℕ) (p : P)
      → IsValid n
      → pt.is_null p ≡ false
      → IsValid (update_child_ptr n b p)
  unfolding update_child_ptr
  update_child_ptr-IsValid {n} b p v solid = record {
    counted = ground (
      arith,
      v.counted,
      count_below_ext 256 (held n) (held (update_child_ptr n b p)) (λ j h. ground arith),
    );
  }

  pub find-update_child_ptr :
      (n : Direct P) (b : ℕ) (p : P) (c : ℕ)
      → pt.is_null (find n b) ≡ false
      → find (update_child_ptr n b p) c ≡ (if c == b then p else find n c)
  unfolding update_child_ptr
  find-update_child_ptr n b p c here =
      ground (arith, find-eq-child n b, find-eq-child n c, find-eq-child (update_child_ptr n b p) c)

  pub count-update_child_ptr :
      (n : Direct P) (b : ℕ) (p : P) → (update_child_ptr n b p).count ≡ n.count
  unfolding update_child_ptr
  count-update_child_ptr n b p = ground arith

  pub count-erase :
      {n : Direct P} (b : ℕ)
      → IsValid n
      → b < 256
      → pt.is_null (find n b) ≡ false
      → (erase n b).count + 1 ≡ n.count
  unfolding erase
  count-erase {n} b v small here =
      ground (arith, v.counted, find-eq-child n b, count_below_strict (held n) b 256 small)

  -- A node with an absent byte has fewer than 256 children.
  pub count-lt : {n : Direct P} (b : ℕ) → IsValid n → b < 256 → find n b ≡ pt.null → n.count < 256
  count-lt {n} b v small free = ground (
    arith,
    v.counted,
    find-eq-child n b,
    pt.is_null-null,
    count_below_gain 256 (held n) (set (held n) b true) b small,
    count_below-le 256 (set (held n) b true),
  )

  -- After the first write the child is `p` if it was there; a null `p` is not written again.
  pub update_child_ptr_twice :
      (n : Direct P) (b : ℕ) (p : P)
      → update_child_ptr (update_child_ptr n b p) b p ≡ update_child_ptr n b p
  unfolding update_child_ptr
  update_child_ptr_twice n b p = elim (Bool-cases (held n b)) [
    | inl h ↦ rw h (elim (Bool-cases (pt.is_null p)) [
      | inl q ↦ ground arith
      | inr q ↦ rw (eq→== b b refl, q) (λ i. record n { children = set_twice n.children b p i })
    ])
    | inr h ↦ rw h (rw h refl)
  ]
