-- ===== src/Base/Sums.antt =====
-- Sums over the indices below a bound.
use Prim.Native.Nat.{ℕ, zero, suc, ◌+◌, ◌<◌, ◌≤◌}
use mathlib.Core.Path.{◌≡◌, refl}
use mathlib.Core.Logic.{◌≢◌, inl, inr}
use native.Mathlib.Omega.{arith}
use cpp_art.Base.Tests.{eq_or_ne}

unfoldable pub sum_below : ℕ → (ℕ → ℕ) → ℕ
sum_below zero f = 0
sum_below (suc n) f = sum_below n f + f n

pub sum_below_ext :
    (n : ℕ) (f g : ℕ → ℕ) → ((i : ℕ) → i < n → g i ≡ f i) → sum_below n g ≡ sum_below n f
unfolding sum_below
sum_below_ext zero f g h = refl
sum_below_ext (suc n) f g h = omega (arith, h n, sum_below_ext n f g (λ i k. h i (omega arith)))

pub sum_below_zero : (n : ℕ) (f : ℕ → ℕ) → ((i : ℕ) → i < n → f i ≡ 0) → sum_below n f ≡ 0
unfolding sum_below
sum_below_zero zero f h = refl
sum_below_zero (suc n) f h = omega (arith, h n, sum_below_zero n f (λ i k. h i (omega arith)))

-- Summands that differ at one index only.
pub sum_below_change :
    (n : ℕ) (f g : ℕ → ℕ) (i : ℕ)
    → i < n
    → ((j : ℕ) → j < n → j ≢ i → g j ≡ f j)
    → sum_below n g + f i ≡ sum_below n f + g i
unfolding sum_below
sum_below_change zero f g i h same = absurd (omega arith)
sum_below_change (suc n) f g i h same = elim (eq_or_ne n i) [
  | inl e ↦ ground (arith, sum_below_ext n f g (λ j k. same j (omega arith) (omega arith)))
  | inr ne ↦ omega (
    arith,
    same n (omega arith) ne,
    sum_below_change n f g i (omega arith) (λ j k. same j (omega arith)),
  )
]

-- The sum is no less than any summand, nor than two of them.
pub summand-le : (n : ℕ) (f : ℕ → ℕ) (i : ℕ) → i < n → f i ≤ sum_below n f
unfolding sum_below
summand-le zero f i h = absurd (omega arith)
summand-le (suc n) f i h = elim (eq_or_ne i n) [
  | inl e ↦ ground arith
  | inr ne ↦ omega (arith, summand-le n f i (omega arith))
]

pub summands-le : (n : ℕ) (f : ℕ → ℕ) (i j : ℕ) → i < n → j < n → i ≢ j → f i + f j ≤ sum_below n f
unfolding sum_below
summands-le zero f i j h k ne = absurd (omega arith)
summands-le (suc n) f i j h k ne = elim (eq_or_ne i n) [
  | inl e ↦ ground (arith, summand-le n f j (omega arith))
  | inr a ↦ elim (eq_or_ne j n) [
    | inl e ↦ ground (arith, summand-le n f i (omega arith))
    | inr b ↦ omega (arith, summands-le n f i j (omega arith) (omega arith) ne)
  ]
]
