-- ===== src/Tree/Key.antt =====
-- The transformed key of include/art/ar_tree.h: a union of an integer and its bytes. The integer
-- is read here through its bytes alone, `==` on it as equality of all bytes.
use cpp_art.Base.{
  ℕ, zero, suc, ◌≡◌, ◌<◌, Bool, true, false, Array, arith, refl, ◌==◌, ◌&&◌, ◌≢◌, eq_or_ne, inl,
  inr,
}

-- `chunks`
abbrev pub Key : Type 0
Key = Array ℕ

-- `a.value == b.value` for keys of `n` bytes
unfoldable pub key_eq : ℕ → Key → Key → Bool
key_eq zero a b = true
key_eq (suc n) a b = a n == b n && key_eq n a b

abbrev pub IsBytes : Key → Type 0
IsBytes k = (j : ℕ) → k j < 256

-- The keys agree on the first `d` bytes.
abbrev pub Agree : ℕ → Key → Key → Type 0
Agree d a b = (j : ℕ) → j < d → a j ≡ b j

pub key_eq→Agree : (n : ℕ) (a b : Key) → key_eq n a b ≡ true → Agree n a b
unfolding key_eq
key_eq→Agree zero a b h j k = absurd (omega arith)
key_eq→Agree (suc n) a b h j k = elim (eq_or_ne j n) [
  | inl e ↦ ground arith
  | inr ne ↦ key_eq→Agree n a b (ground arith) j (omega arith)
]

pub Agree→key_eq : (n : ℕ) (a b : Key) → Agree n a b → key_eq n a b ≡ true
unfolding key_eq
Agree→key_eq zero a b h = refl
Agree→key_eq (suc n) a b h = ground (arith, h n, Agree→key_eq n a b (λ j k. h j (omega arith)))

-- Keys that differ at a byte are not equal.
pub key_eq_ne : (n j : ℕ) (a b : Key) → j < n → a j ≢ b j → key_eq n a b ≡ false
unfolding key_eq
key_eq_ne zero j a b h ne = absurd (omega arith)
key_eq_ne (suc n) j a b h ne = elim (eq_or_ne j n) [
  | inl e ↦ ground arith
  | inr other ↦ ground (arith, key_eq_ne n j a b)
]

pub key_eq_sym : (n : ℕ) (a b : Key) → key_eq n a b ≡ key_eq n b a
unfolding key_eq
key_eq_sym zero a b = refl
key_eq_sym (suc n) a b = ground (arith, key_eq_sym n a b)

-- Keys that agree on `d` bytes and on the next one.
pub Agree-extend : (d : ℕ) (a b : Key) → Agree d a b → a d ≡ b d → Agree (suc d) a b
Agree-extend d a b h e j k = elim (eq_or_ne j d) [
  | inl same ↦ ground arith
  | inr ne ↦ h j (omega arith)
]

pub key_eq_trans :
    (n : ℕ) (a b c : Key) → key_eq n a b ≡ true → key_eq n b c ≡ true → key_eq n a c ≡ true
unfolding key_eq
key_eq_trans zero a b c h k = refl
key_eq_trans (suc n) a b c h k = ground (arith, key_eq_trans n a b c)

-- Equal keys compare alike with any other key.
pub key_eq_congr : (n : ℕ) (a b c : Key) → key_eq n a b ≡ true → key_eq n a c ≡ key_eq n b c
key_eq_congr n a b c h =
    ground (arith, key_eq_trans n a b c, key_eq_trans n b a c, key_eq_sym n a b)
