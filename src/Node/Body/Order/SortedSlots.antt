-- ===== src/Node/Body/Order/SortedSlots.antt =====
-- The slots of `_Node_4` and `_Node_16`.
use cpp_art.Base.{
  ℕ, zero, suc, ◌+◌, ◌-◌, ◌≡◌, ◌<◌, ◌≤◌, some, none, Option, Pointer, arith, Array, refl,
  last_below, ltb, inl, inr, Bool-cases, last_below-some, last_below_after, last_below-none,
}
use cpp_art.Node.Slots.{Least, Greatest, AtSlot}
use cpp_art.Node.Sorted.{
  Sorted, position, position_after, find, min_slot, max_slot, next_slot, prev_slot, IsValid,
}
use cpp_art.Node.Sorted.Find.{find_at, find_nowhere, position_below, position_stop}

-- To pass the keys up to `b` is to pass those below `b + 1`.
position_after-eq :
    (keys : Array ℕ) (b r pos : ℕ) → position_after keys b r pos ≡ position keys (b + 1) r pos
unfolding position position_after
position_after-eq keys b zero pos = refl
position_after-eq keys b (suc r) pos = ground (arith, position_after-eq keys b r (pos + 1))

module _ {P : Type 0} ⦃pt : Pointer P⦄ where
  -- The entry at `i` is the least from `low` on, if the entries before it are below `low`.
  Least-at :
      {cap : ℕ} {n : Sorted P} (i low : ℕ)
      → IsValid cap n
      → i < n.count
      → low ≤ n.keys i
      → ((j : ℕ) → j < i → n.keys j < low)
      → Least (find n) low (n.children i)
  Least-at {n = n} i low v h le lower = record {
    byte = n.keys i;
    from = le;
    small = v.byte i h;
    is = find_at i v h refl;
    solid = v.present i h;
    before = λ c p q. find_nowhere n (λ j k e. ground (arith, lower j, v.ascending i j));
  }

  Greatest-at :
      {cap : ℕ} {n : Sorted P} (i high : ℕ)
      → IsValid cap n
      → i < n.count
      → n.keys i < high
      → ((j : ℕ) → i < j → j < n.count → high ≤ n.keys j)
      → Greatest (find n) high (n.children i)
  Greatest-at {n = n} i high v h less upper = record {
    byte = n.keys i;
    below = less;
    is = find_at i v h refl;
    solid = v.present i h;
    after = λ c p q. find_nowhere n (λ j k e. ground (arith, upper j, v.ascending j i));
  }

  pub sorted_min :
      {cap : ℕ} {n : Sorted P}
      → IsValid cap n
      → 0 < n.count
      → (i : ℕ) × (min_slot n ≡ some i) × Least (find n) 0 (n.children i)
  unfolding min_slot
  sorted_min {n = n} v h = (0, refl, Least-at 0 0 v h (omega arith) (λ j k. absurd (omega arith)))

  pub sorted_max :
      {cap : ℕ} {n : Sorted P}
      → IsValid cap n
      → 0 < n.count
      → (i : ℕ) × (max_slot n ≡ some i) × Greatest (find n) 256 (n.children i)
  unfolding max_slot
  sorted_max {n = n} v h = (
    n.count - 1,
    ground arith,
    Greatest-at (n.count - 1) 256 v (omega arith) (v.byte (n.count - 1) (omega arith))
        (λ j k l. absurd (omega arith)),
  )

  pub sorted_next :
      {cap : ℕ} (n : Sorted P) (chunk : ℕ)
      → IsValid cap n
      → AtSlot
          (next_slot n chunk)
          (λ i. Least (find n) (chunk + 1) (n.children i))
          ((c : ℕ) → chunk < c → c < 256 → find n c ≡ pt.null)
  unfolding next_slot
  sorted_next n chunk v = rw position_after-eq (
      let pos = position n.keys (chunk + 1) n.count 0 in
      elim (Bool-cases (ltb pos n.count)) [
        | inl h ↦ rw h (
            Least-at pos (chunk + 1) v (ground arith)
              (ground (arith, position_stop n.keys (chunk + 1) n.count 0))
              (λ j k. position_below n.keys (chunk + 1) n.count 0 j (omega arith) k))
        | inr h ↦ rw h (λ c p q.
            find_nowhere n (λ j k e. ground (arith, position_below n.keys (chunk + 1) n.count 0 j)))
      ])

  pub sorted_prev :
      {cap : ℕ} (n : Sorted P) (chunk : ℕ)
      → IsValid cap n
      → AtSlot
          (prev_slot n chunk)
          (λ i. Greatest (find n) chunk (n.children i))
          ((c : ℕ) → c < chunk → find n c ≡ pt.null)
  unfolding prev_slot
  sorted_prev n chunk v = go (last_below (λ pos. ltb (n.keys pos) chunk) n.count) refl
    where
      go :
          (r : Option ℕ)
          → last_below (λ pos. ltb (n.keys pos) chunk) n.count ≡ r
          → AtSlot r
              (λ i. Greatest (find n) chunk (n.children i))
              ((c : ℕ) → c < chunk → find n c ≡ pt.null)
      go none e = λ c h.
          find_nowhere n
            (λ j k q. ground (arith, last_below-none (λ pos. ltb (n.keys pos) chunk) n.count j e k))
      go (some i) e =
          let at = last_below-some (λ pos. ltb (n.keys pos) chunk) n.count i e in
          Greatest-at i chunk v at.0 (ground (arith, at.1)) (λ j k l.
            ground (arith, last_below_after (λ pos. ltb (n.keys pos) chunk) n.count i j e k l))
