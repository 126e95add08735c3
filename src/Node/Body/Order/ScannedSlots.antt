-- ===== src/Node/Body/Order/ScannedSlots.antt =====
-- The slots of `_Node_48` and `_Node_256`: scans over the bytes.
use cpp_art.Base.{
  ℕ, ◌+◌, ◌-◌, ◌≡◌, ◌<◌, ◌≤◌, Bool, true, false, some, none, Option, Pointer, arith, refl,
  first_from, last_below, last_below-some, last_below_after, last_below-none, first_from-some,
  first_from_before, first_from-none, count_below, count_below_empty,
}
use cpp_art.Node.Slots.{Least, Greatest, AtSlot}
use cpp_art.Node.Indexed
use cpp_art.Node.Indexed.{Indexed, used, indexed_slot}
use cpp_art.Node.Direct
use cpp_art.Node.Direct.{Direct, held}
use cpp_art.Node.Direct.Change.{find-eq-child}

-- With a positive count the scans from the ends find a byte.
first_exists :
    (test : ℕ → Bool) → 0 < count_below 256 test → (m : ℕ) × (first_from test 256 0 ≡ some m)
first_exists test h = go (first_from test 256 0) refl
  where
    go : (r : Option ℕ) → first_from test 256 0 ≡ r → (m : ℕ) × (first_from test 256 0 ≡ some m)
    go none e = absurd (
        omega (
          arith,
          count_below_empty 256 test
              (λ i k. first_from-none test 256 0 i e (omega arith) (omega arith)),
        ))
    go (some m) e = (m, e)

last_exists :
    (test : ℕ → Bool) → 0 < count_below 256 test → (m : ℕ) × (last_below test 256 ≡ some m)
last_exists test h = go (last_below test 256) refl
  where
    go : (r : Option ℕ) → last_below test 256 ≡ r → (m : ℕ) × (last_below test 256 ≡ some m)
    go none e =
        absurd (omega (arith, count_below_empty 256 test (λ i k. last_below-none test 256 i e k)))
    go (some m) e = (m, e)

module _ {P : Type 0} ⦃pt : Pointer P⦄ where
  -- A node as its scans see it: which bytes pass the test, and the child at a byte that does.
  record Scan (look : ℕ → P) (test : ℕ → Bool) (at : ℕ → P) : Type 0 where
    hit : (c : ℕ) → c < 256 → test c ≡ true → (look c ≡ at c) × (pt.is_null (at c) ≡ false)
    miss : (c : ℕ) → c < 256 → test c ≡ false → look c ≡ pt.null

  module _ {look : ℕ → P} {test : ℕ → Bool} {at : ℕ → P} (s : Scan look test at) where
    Least-of :
        (r low m : ℕ) → low + r ≤ 256 → first_from test r low ≡ some m → Least look low (at m)
    Least-of r low m fits e =
        let f = first_from-some test r low m e in
        let small : m < 256 = omega arith in
        record {
          byte = m;
          from = f.0;
          small = small;
          is = (s.hit m small f.2).0;
          solid = (s.hit m small f.2).1;
          before = λ c h k. s.miss c (omega arith) (first_from_before test r low m c e h k);
        }

    none_from :
        (r low : ℕ)
        → low + r ≡ 256
        → first_from test r low ≡ none
        → (c : ℕ) → low ≤ c
        → c < 256
        → look c ≡ pt.null
    none_from r low fits e c h k = s.miss c k (first_from-none test r low c e h (omega arith))

    Greatest-of :
        (high m : ℕ) → high ≤ 256 → last_below test high ≡ some m → Greatest look high (at m)
    Greatest-of high m fits e =
        let f = last_below-some test high m e in
        let small : m < 256 = omega arith in
        record {
          byte = m;
          below = f.0;
          is = (s.hit m small f.1).0;
          solid = (s.hit m small f.1).1;
          after = λ c h k. s.miss c (omega arith) (last_below_after test high m c e h k);
        }

    none_below :
        (high : ℕ)
        → high ≤ 256
        → last_below test high ≡ none
        → (c : ℕ) → c < high
        → look c ≡ pt.null
    none_below high fits e c h = s.miss c (omega arith) (last_below-none test high c e h)

  indexed-Scan :
      (n : Indexed P)
      → Indexed.IsValid n
      → Scan (Indexed.find n) (used n) (λ b. n.children (n.child_index b))
  unfolding Indexed.find
  indexed-Scan n v = record {
    hit = λ c h u. (ground arith, v.present c h u);
    miss = λ c h u. ground arith;
  }

  direct-Scan : (n : Direct P) → Scan (Direct.find n) (held n) n.children
  direct-Scan n = record {
    hit = λ c h u. (find-eq-child n c, ground arith);
    miss = λ c h u. ground (arith, find-eq-child n c, pt.eq_null (n.children c));
  }

  pub indexed_min :
      {n : Indexed P}
      → Indexed.IsValid n
      → 0 < n.count
      → (i : ℕ) × (Indexed.min_slot n ≡ some i) × Least (Indexed.find n) 0 (n.children i)
  unfolding Indexed.min_slot
  indexed_min {n} v h =
      let (m, e) = first_exists (used n) (omega (arith, v.bytes_counted)) in
      (n.child_index m, rw e, Least-of (indexed-Scan n v) 256 0 m (omega arith) e)

  pub indexed_max :
      {n : Indexed P}
      → Indexed.IsValid n
      → 0 < n.count
      → (i : ℕ) × (Indexed.max_slot n ≡ some i) × Greatest (Indexed.find n) 256 (n.children i)
  unfolding Indexed.max_slot
  indexed_max {n} v h =
      let (m, e) = last_exists (used n) (omega (arith, v.bytes_counted)) in
      (n.child_index m, rw e, Greatest-of (indexed-Scan n v) 256 m (omega arith) e)

  pub direct_min :
      {n : Direct P}
      → Direct.IsValid n
      → 0 < n.count
      → (i : ℕ) × (Direct.min_slot n ≡ some i) × Least (Direct.find n) 0 (n.children i)
  unfolding Direct.min_slot
  direct_min {n} v h =
      let (m, e) = first_exists (held n) (omega (arith, v.counted)) in
      (m, e, Least-of (direct-Scan n) 256 0 m (omega arith) e)

  pub direct_max :
      {n : Direct P}
      → Direct.IsValid n
      → 0 < n.count
      → (i : ℕ) × (Direct.max_slot n ≡ some i) × Greatest (Direct.find n) 256 (n.children i)
  unfolding Direct.max_slot
  direct_max {n} v h =
      let (m, e) = last_exists (held n) (omega (arith, v.counted)) in
      (m, e, Greatest-of (direct-Scan n) 256 m (omega arith) e)

  pub indexed_next :
      (n : Indexed P) (chunk : ℕ)
      → Indexed.IsValid n
      → chunk < 256
      → AtSlot
          (Indexed.next_slot n chunk)
          (λ i. Least (Indexed.find n) (chunk + 1) (n.children i))
          ((c : ℕ) → chunk < c → c < 256 → Indexed.find n c ≡ pt.null)
  unfolding Indexed.next_slot
  indexed_next n chunk v h = go (first_from (used n) (256 - (chunk + 1)) (chunk + 1)) refl
    where
      go :
          (r : Option ℕ)
          → first_from (used n) (256 - (chunk + 1)) (chunk + 1) ≡ r
          → AtSlot
              (indexed_slot n r)
              (λ i. Least (Indexed.find n) (chunk + 1) (n.children i))
              ((c : ℕ) → chunk < c → c < 256 → Indexed.find n c ≡ pt.null)
      go none e = λ c k l.
          none_from (indexed-Scan n v) (256 - (chunk + 1)) (chunk + 1) (omega arith) e c
            (omega arith) l
      go (some m) e = Least-of (indexed-Scan n v) (256 - (chunk + 1)) (chunk + 1) m (omega arith) e

  pub direct_next :
      (n : Direct P) (chunk : ℕ)
      → Direct.IsValid n
      → chunk < 256
      → AtSlot
          (Direct.next_slot n chunk)
          (λ i. Least (Direct.find n) (chunk + 1) (n.children i))
          ((c : ℕ) → chunk < c → c < 256 → Direct.find n c ≡ pt.null)
  unfolding Direct.next_slot
  direct_next n chunk v h = go (first_from (held n) (256 - (chunk + 1)) (chunk + 1)) refl
    where
      go :
          (r : Option ℕ)
          → first_from (held n) (256 - (chunk + 1)) (chunk + 1) ≡ r
          → AtSlot r
              (λ i. Least (Direct.find n) (chunk + 1) (n.children i))
              ((c : ℕ) → chunk < c → c < 256 → Direct.find n c ≡ pt.null)
      go none e = λ c k l.
          none_from (direct-Scan n) (256 - (chunk + 1)) (chunk + 1) (omega arith) e c (omega arith)
            l
      go (some m) e = Least-of (direct-Scan n) (256 - (chunk + 1)) (chunk + 1) m (omega arith) e

  pub indexed_prev :
      (n : Indexed P) (chunk : ℕ)
      → Indexed.IsValid n
      → chunk < 256
      → AtSlot
          (Indexed.prev_slot n chunk)
          (λ i. Greatest (Indexed.find n) chunk (n.children i))
          ((c : ℕ) → c < chunk → Indexed.find n c ≡ pt.null)
  unfolding Indexed.prev_slot
  indexed_prev n chunk v h = go (last_below (used n) chunk) refl
    where
      go :
          (r : Option ℕ)
          → last_below (used n) chunk ≡ r
          → AtSlot
              (indexed_slot n r)
              (λ i. Greatest (Indexed.find n) chunk (n.children i))
              ((c : ℕ) → c < chunk → Indexed.find n c ≡ pt.null)
      go none e = λ c k. none_below (indexed-Scan n v) chunk (omega arith) e c k
      go (some m) e = Greatest-of (indexed-Scan n v) chunk m (omega arith) e

  pub direct_prev :
      (n : Direct P) (chunk : ℕ)
      → Direct.IsValid n
      → chunk < 256
      → AtSlot
          (Direct.prev_slot n chunk)
          (λ i. Greatest (Direct.find n) chunk (n.children i))
          ((c : ℕ) → c < chunk → Direct.find n c ≡ pt.null)
  unfolding Direct.prev_slot
  direct_prev n chunk v h = go (last_below (held n) chunk) refl
    where
      go :
          (r : Option ℕ)
          → last_below (held n) chunk ≡ r
          → AtSlot r
              (λ i. Greatest (Direct.find n) chunk (n.children i))
              ((c : ℕ) → c < chunk → Direct.find n c ≡ pt.null)
      go none e = λ c k. none_below (direct-Scan n) chunk (omega arith) e c k
      go (some m) e = Greatest-of (direct-Scan n) chunk m (omega arith) e
