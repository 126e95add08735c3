-- ===== src/Node/Sorted/Find.antt =====
-- Where a key byte stands in a sorted node, and what `find` returns there.
use cpp_art.Base.{
  ℕ, zero, suc, ◌+◌, ◌≤◌, ◌<◌, ◌≡◌, ◌≢◌, ◌⊎◌, inl, inr, arith, Array, Pointer, Bool-cases, ltb,
  eq_or_ne, lt_or_le,
}
use cpp_art.Node.Sorted.{Sorted, position, find, IsValid}

pub position_bounds :
    (keys : Array ℕ) (b r pos : ℕ)
    → (pos ≤ position keys b r pos) × (position keys b r pos ≤ pos + r)
unfolding position
position_bounds keys b zero pos = omega arith
position_bounds keys b (suc r) pos = ground (arith, position_bounds keys b r (pos + 1))

-- Every key that the loop passes is smaller, and it stops at one that is not.
pub position_below :
    (keys : Array ℕ) (b r pos i : ℕ) → pos ≤ i → i < position keys b r pos → keys i < b
unfolding position
position_below keys b zero pos i h k = absurd (omega arith)
position_below keys b (suc r) pos i h k = elim (Bool-cases (ltb (keys pos) b)) [
  | inl less ↦ elim (eq_or_ne pos i) [
    | inl e ↦ ground arith
    | inr ne ↦ position_below keys b r (pos + 1) i (omega arith) (ground arith)
  ]
  | inr more ↦ absurd (ground arith)
]

pub position_stop :
    (keys : Array ℕ) (b r pos : ℕ)
    → position keys b r pos < pos + r
    → b ≤ keys (position keys b r pos)
unfolding position
position_stop keys b zero pos h = absurd (omega arith)
position_stop keys b (suc r) pos h = ground (arith, position_stop keys b r (pos + 1))

scan :
    (keys : Array ℕ) (b m : ℕ) → ((i : ℕ) × (i < m) × (keys i ≡ b)) ⊎ ((i : ℕ) → i < m → keys i ≢ b)
scan keys b zero = inr (λ i h. absurd (omega arith))
scan keys b (suc m) = elim (eq_or_ne (keys m) b) [
  | inl e ↦ inl (m, omega arith, e)
  | inr ne ↦ elim (scan keys b m) [
    | inl (i, h, e) ↦ inl (i, omega arith, e)
    | inr none_below ↦ inr (λ i h. elim (eq_or_ne i m) [
      | inl e ↦ ground arith
      | inr other ↦ none_below i (omega arith)
    ])
  ]
]

module _ {P : Type 0} ⦃pt : Pointer P⦄ where
  -- Whether a byte is among the keys in use, with its index.
  pub data Located (n : Sorted P) (b : ℕ) : Type 0 where
    at : (i : ℕ) → i < n.count → n.keys i ≡ b → Located n b
    nowhere : ((i : ℕ) → i < n.count → n.keys i ≢ b) → Located n b

  pub locate : (n : Sorted P) (b : ℕ) → Located n b
  locate n b = elim (scan n.keys b n.count) [
    | inl (i, h, e) ↦ Located.at i h e
    | inr none_below ↦ Located.nowhere none_below
  ]

  -- The loop stops at the index of a key that is there.
  pub position_at :
      {cap : ℕ} {n : Sorted P} (i : ℕ) {b : ℕ}
      → IsValid cap n
      → i < n.count
      → n.keys i ≡ b
      → position n.keys b n.count 0 ≡ i
  position_at {n = n} i {b} v h e =
      let p = position n.keys b n.count 0 in
      elim (lt_or_le p i) [
        | inl less ↦
            absurd (omega (arith, v.ascending p i less h, position_stop n.keys b n.count 0))
        | inr le ↦ elim (eq_or_ne p i) [
          | inl same ↦ same
          | inr ne ↦
              absurd
                (omega (arith, position_below n.keys b n.count 0 i (omega arith) (omega arith)))
        ]
      ]

  pub find_at :
      {cap : ℕ} {n : Sorted P} (i : ℕ) {b : ℕ}
      → IsValid cap n
      → i < n.count
      → n.keys i ≡ b
      → find n b ≡ n.children i
  unfolding find
  find_at {n = n} i {b} v h e = ground (arith, position_at i v h e)

  pub find_nowhere :
      (n : Sorted P) {b : ℕ} → ((i : ℕ) → i < n.count → n.keys i ≢ b) → find n b ≡ pt.null
  unfolding find
  find_nowhere n {b} h = ground (arith, h (position n.keys b n.count 0))

  -- Where `find` gives null, no key in use is the byte.
  pub absent :
      {cap : ℕ} {n : Sorted P} {b : ℕ}
      → IsValid cap n
      → find n b ≡ pt.null
      → (i : ℕ) → i < n.count
      → n.keys i ≢ b
  absent {n = n} {b} v e i h k = ground (arith, find_at i v h k, v.present i h, pt.is_null-null)
