-- ===== src/Base/Counting.antt =====
-- How many indices pass a test, and the first and the last one that does.
use Prim.Native.Nat.{ℕ, zero, suc, ◌+◌, ◌<◌, ◌≤◌}
use mathlib.Core.Path.{◌≡◌, refl}
use mathlib.Core.Logic.{◌≢◌, inl, inr}
use mathlib.Core.Bool.{Bool, true, false}
use mathlib.Core.Option.{none, some}
use native.Mathlib.Omega.{arith}
use cpp_art.Base.Tests.{eq_or_ne, lt_or_le}
use cpp_art.Base.Arrays.{count_below, first_from, last_below}

pub count_below-le : (n : ℕ) (p : ℕ → Bool) → count_below n p ≤ n
unfolding count_below
count_below-le zero p = omega arith
count_below-le (suc n) p = ground (arith, count_below-le n p)

pub count_below_mono : (n m : ℕ) (p : ℕ → Bool) → n ≤ m → count_below n p ≤ count_below m p
unfolding count_below
count_below_mono n zero p h = ground arith
count_below_mono n (suc m) p h = elim (eq_or_ne n (suc m)) [
  | inl e ↦ ground arith
  | inr ne ↦ ground (arith, count_below_mono n m p)
]

pub count_below_ext :
    (n : ℕ) (p q : ℕ → Bool) → ((i : ℕ) → i < n → q i ≡ p i) → count_below n q ≡ count_below n p
unfolding count_below
count_below_ext zero p q h = refl
count_below_ext (suc n) p q h =
    ground (arith, h n, count_below_ext n p q (λ i k. h i (omega arith)))

-- Tests that differ at one index only.
pub count_below_gain :
    (n : ℕ) (p q : ℕ → Bool) (i : ℕ)
    → i < n
    → p i ≡ false
    → q i ≡ true
    → ((j : ℕ) → j < n → j ≢ i → q j ≡ p j)
    → count_below n q ≡ suc (count_below n p)
unfolding count_below
count_below_gain zero p q i h a b same = absurd (omega arith)
count_below_gain (suc n) p q i h a b same = elim (eq_or_ne n i) [
  | inl e ↦ ground (arith, count_below_ext n p q (λ j k. same j (omega arith) (omega arith)))
  | inr ne ↦
      ground
        (arith, same n, count_below_gain n p q i (omega arith) a b (λ j k. same j (omega arith)))
]

-- Where not every index passes, one fails.
pub count_below_full : (n : ℕ) (p : ℕ → Bool) → ((i : ℕ) → i < n → p i ≡ true) → count_below n p ≡ n
unfolding count_below
count_below_full zero p h = refl
count_below_full (suc n) p h = ground (arith, h n, count_below_full n p (λ i k. h i (omega arith)))

pub count_below_empty :
    (n : ℕ) (p : ℕ → Bool) → ((i : ℕ) → i < n → p i ≡ false) → count_below n p ≡ 0
unfolding count_below
count_below_empty zero p h = refl
count_below_empty (suc n) p h =
    ground (arith, h n, count_below_empty n p (λ i k. h i (omega arith)))

pub first_from-some :
    (p : ℕ → Bool) (r i k : ℕ) → first_from p r i ≡ some k → (i ≤ k) × (k < i + r) × (p k ≡ true)
unfolding first_from
first_from-some p zero i k e = absurd (ground arith)
first_from-some p (suc r) i k e = ground (arith, first_from-some p r (i + 1) k)

pub first_from_before :
    (p : ℕ → Bool) (r i k j : ℕ) → first_from p r i ≡ some k → i ≤ j → j < k → p j ≡ false
unfolding first_from
first_from_before p zero i k j e h l = absurd (ground arith)
first_from_before p (suc r) i k j e h l = elim (eq_or_ne i j) [
  | inl same ↦ ground arith
  | inr ne ↦ ground (arith, first_from_before p r (i + 1) k j)
]

pub first_from-none :
    (p : ℕ → Bool) (r i j : ℕ) → first_from p r i ≡ none → i ≤ j → j < i + r → p j ≡ false
unfolding first_from
first_from-none p zero i j e h l = absurd (omega arith)
first_from-none p (suc r) i j e h l = elim (eq_or_ne i j) [
  | inl same ↦ ground arith
  | inr ne ↦ ground (arith, first_from-none p r (i + 1) j)
]

pub last_below-some : (p : ℕ → Bool) (n k : ℕ) → last_below p n ≡ some k → (k < n) × (p k ≡ true)
unfolding last_below
last_below-some p zero k e = absurd (ground arith)
last_below-some p (suc n) k e = ground (arith, last_below-some p n k)

pub last_below_after :
    (p : ℕ → Bool) (n k j : ℕ) → last_below p n ≡ some k → k < j → j < n → p j ≡ false
unfolding last_below
last_below_after p zero k j e h l = absurd (omega arith)
last_below_after p (suc n) k j e h l = elim (eq_or_ne n j) [
  | inl same ↦ ground arith
  | inr ne ↦ ground (arith, last_below_after p n k j)
]

pub last_below-none : (p : ℕ → Bool) (n j : ℕ) → last_below p n ≡ none → j < n → p j ≡ false
unfolding last_below
last_below-none p zero j e l = absurd (omega arith)
last_below-none p (suc n) j e l = elim (eq_or_ne n j) [
  | inl same ↦ ground arith
  | inr ne ↦ ground (arith, last_below-none p n j)
]

count_below-suc :
    (p : ℕ → Bool) (a : ℕ) → p a ≡ true → count_below (suc a) p ≡ suc (count_below a p)
unfolding count_below
count_below-suc p a e = rw e

pub count_below_strict :
    (p : ℕ → Bool) (a b : ℕ) → a < b → p a ≡ true → count_below a p < count_below b p
count_below_strict p a b h e = omega (arith, count_below_mono (suc a) b p h, count_below-suc p a e)

-- Among the indices that pass, the number of earlier ones tells them apart.
pub count_below_injective :
    (p : ℕ → Bool) (a b : ℕ) → p a ≡ true → p b ≡ true → count_below a p ≡ count_below b p → a ≡ b
count_below_injective p a b ha hb e = elim (lt_or_le a b) [
  | inl h ↦ absurd (omega (arith, count_below_strict p a b h ha))
  | inr le ↦ elim (eq_or_ne a b) [
    | inl same ↦ same
    | inr ne ↦ absurd (omega (arith, count_below_strict p b a (omega arith) hb))
  ]
]

pub count_below_prefix :
    (p : ℕ → Bool) (n m : ℕ)
    → ((i : ℕ) → i < n → p i ≡ true)
    → ((i : ℕ) → n ≤ i → p i ≡ false)
    → n ≤ m
    → count_below m p ≡ n
unfolding count_below
count_below_prefix p n zero inside outside h = omega arith
count_below_prefix p n (suc m) inside outside h = elim (eq_or_ne n (suc m)) [
  | inl e ↦ rw e (count_below_full (suc m) p (λ i k. inside i (omega arith)))
  | inr ne ↦ ground (arith, outside m, count_below_prefix p n m inside outside)
]
