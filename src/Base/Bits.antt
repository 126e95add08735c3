-- ===== src/Base/Bits.antt =====
-- The bit operations at numbers cut into blocks of digits.
use Prim.Native.Nat.{
  ℕ, zero, suc, ◌+◌, ◌*◌, ◌/◌, ◌%◌, ◌≤◌, ◌<◌, min, max, bit_and, bit_or, bit_xor, digits, bitwise,
  differ, bit_and-bitwise, bit_or-bitwise, bit_xor-bitwise,
}
use mathlib.Core.Path.{◌≡◌, refl, sym, ◌∙◌, ap}
use mathlib.Core.Bool.{Bool, true, ◌&&◌}
use native.Mathlib.Omega.{arith}
use cpp_art.Base.Tests.{◌==◌, ==→eq}

-- An operation on binary digits, whose value on a first number that has run out is given digit by
-- digit as well.
module _ (z : ℕ → ℕ) (f : ℕ → ℕ → ℕ) (law : (b : ℕ) → z b ≡ z (b / 2) * 2 + f 0 (b % 2)) where
  digits_enough : (n m a b : ℕ) → a ≤ n → a ≤ m → digits z f n a b ≡ digits z f m a b
  digits_enough zero zero a b p q = refl
  digits_enough zero (suc m) zero b p q = refl
  digits_enough zero (suc m) (suc a) b p q = absurd (omega arith)
  digits_enough (suc n) zero zero b p q = refl
  digits_enough (suc n) zero (suc a) b p q = absurd (omega arith)
  digits_enough (suc n) (suc m) zero b p q = refl
  digits_enough (suc n) (suc m) (suc a) b p q =
      ap (λ (x : ℕ). x * 2 + f (suc a % 2) (b % 2))
        (digits_enough n m (suc a / 2) (b / 2) (omega arith) (omega arith))

  lowest_digit : (a b : ℕ) → bitwise z f a b ≡ bitwise z f (a / 2) (b / 2) * 2 + f (a % 2) (b % 2)
  lowest_digit zero b = law b
  lowest_digit (suc a) b =
      ap (λ (x : ℕ). x * 2 + f (suc a % 2) (b % 2))
        (digits_enough a (suc a / 2) (suc a / 2) (b / 2) (omega arith) (omega arith))

-- The operation goes block by block of `p` values.
abbrev pub Splits : ℕ → (ℕ → ℕ → ℕ) → Type 0
Splits p op = (a b c d : ℕ) → b < p → d < p → op (a * p + b) (c * p + d) ≡ op a c * p + op b d

split_at :
    (p : ℕ) (op : ℕ → ℕ → ℕ)
    → Splits p op
    → (x y a b c d : ℕ) → x ≡ a * p + b
    → y ≡ c * p + d
    → b < p
    → d < p
    → op x y ≡ op a c * p + op b d
split_at p op s x y a b c d e g h k =
    ap (λ (x : ℕ). op x y) e ∙ ap (op (a * p + b)) g ∙ s a b c d h k

-- From a law for the lowest digit to one for bytes.
module _ (op : ℕ → ℕ → ℕ) (f : ℕ → ℕ → ℕ)
    (law : (a b : ℕ) → op a b ≡ op (a / 2) (b / 2) * 2 + f (a % 2) (b % 2))
    (start : op 0 0 ≡ 0) where
  op_halves :
      (x y a b c d : ℕ)
      → x ≡ a * 2 + b
      → y ≡ c * 2 + d
      → b < 2
      → d < 2
      → op x y ≡ op a c * 2 + f b d
  op_halves x y a b c d e g h k =
      law x y
      ∙ ap (λ (u : ℕ). op u (y / 2) * 2 + f (x % 2) (y % 2)) (omega arith)
      ∙ ap (λ (u : ℕ). op a u * 2 + f (x % 2) (y % 2)) (omega arith)
      ∙ ap (λ (u : ℕ). op a c * 2 + f u (y % 2)) (omega arith)
      ∙ ap (λ (u : ℕ). op a c * 2 + f b u) (omega arith)

  Splits-2 : Splits 2 op
  Splits-2 a b c d h k = omega (
    arith,
    op_halves (a * 2 + b) (c * 2 + d) a b c d (omega arith) (omega arith) h k,
    op_halves b d 0 b 0 d (omega arith) (omega arith) h k,
    start,
  )

  Splits-4 : Splits 4 op
  Splits-4 a b c d h k = omega (
    arith,
    split_at 2 op Splits-2 (a * 4 + b) (c * 4 + d) (a * 2 + b / 2) (b % 2) (c * 2 + d / 2) (d % 2)
        (omega arith) (omega arith) (omega arith) (omega arith),
    Splits-2 a (b / 2) c (d / 2) (omega arith) (omega arith),
    split_at 2 op Splits-2 b d (b / 2) (b % 2) (d / 2) (d % 2) (omega arith) (omega arith)
        (omega arith) (omega arith),
  )

  Splits-16 : Splits 16 op
  Splits-16 a b c d h k = omega (
    arith,
    split_at 4 op Splits-4 (a * 16 + b) (c * 16 + d) (a * 4 + b / 4) (b % 4) (c * 4 + d / 4) (d % 4)
        (omega arith) (omega arith) (omega arith) (omega arith),
    Splits-4 a (b / 4) c (d / 4) (omega arith) (omega arith),
    split_at 4 op Splits-4 b d (b / 4) (b % 4) (d / 4) (d % 4) (omega arith) (omega arith)
        (omega arith) (omega arith),
  )

  pub Splits-256 : Splits 256 op
  Splits-256 a b c d h k = omega (
    arith,
    split_at 16 op Splits-16 (a * 256 + b) (c * 256 + d) (a * 16 + b / 16) (b % 16)
        (c * 16 + d / 16) (d % 16) (omega arith) (omega arith) (omega arith) (omega arith),
    Splits-16 a (b / 16) c (d / 16) (omega arith) (omega arith),
    split_at 16 op Splits-16 b d (b / 16) (b % 16) (d / 16) (d % 16) (omega arith) (omega arith)
        (omega arith) (omega arith),
  )

-- The law for an operation that is given by its digits.
digit_law :
    (op : ℕ → ℕ → ℕ) (z : ℕ → ℕ) (f : ℕ → ℕ → ℕ)
    → ((b : ℕ) → z b ≡ z (b / 2) * 2 + f 0 (b % 2))
    → ((a b : ℕ) → op a b ≡ bitwise z f a b)
    → (a b : ℕ) → op a b ≡ op (a / 2) (b / 2) * 2 + f (a % 2) (b % 2)
digit_law op z f law is a b =
    is a b
    ∙ lowest_digit z f law a b
    ∙ ap (λ (u : ℕ). u * 2 + f (a % 2) (b % 2)) (sym (is (a / 2) (b / 2)))

pub bit_and-bytes : Splits 256 bit_and
bit_and-bytes =
    Splits-256 bit_and min
      (digit_law bit_and (λ b. 0) min (λ b. omega arith) (λ a b. bit_and-bitwise a b)) refl

pub bit_or-bytes : Splits 256 bit_or
bit_or-bytes =
    Splits-256 bit_or max
      (digit_law bit_or (λ b. b) max (λ b. omega arith) (λ a b. bit_or-bitwise a b)) refl

pub bit_xor-bytes : Splits 256 bit_xor
bit_xor-bytes =
    Splits-256 bit_xor differ
      (digit_law bit_xor (λ b. b) differ (λ b. omega arith) (λ a b. bit_xor-bitwise a b)) refl

-- Over the bytes, check every value by evaluation.
every : ℕ → (ℕ → Bool) → Bool
every zero p = true
every (suc n) p = p n && every n p

every_lem : (n : ℕ) (p : ℕ → Bool) (x : ℕ) → every n p ≡ true → x < n → p x ≡ true
unfolding every
every_lem zero p x h l = absurd (omega arith)
every_lem (suc n) p x h l = ground (arith, every_lem n p x)

and_all_table : every 256 (λ x. bit_and x 0xFF == x) ≡ true
unfolding every
and_all_table = refl

and_none_table : every 256 (λ x. bit_and x 0 == 0) ≡ true
unfolding every
and_none_table = refl

or_none_table : every 256 (λ x. bit_or x 0 == x) ≡ true
unfolding every
or_none_table = refl

none_or_table : every 256 (λ x. bit_or 0 x == x) ≡ true
unfolding every
none_or_table = refl

xor_none_table : every 256 (λ x. bit_xor x 0 == x) ≡ true
unfolding every
xor_none_table = refl

xor_top_table : every 256 (λ x. bit_xor x 0x80 == (x + 0x80) % 256) ≡ true
unfolding every
xor_top_table = refl

-- What the operations make of a byte and a constant byte.
module _ (x : ℕ) (h : x < 256) where
  pub and_all : bit_and x 0xFF ≡ x
  and_all = ==→eq _ _ (every_lem 256 _ x and_all_table h)

  pub and_none : bit_and x 0 ≡ 0
  and_none = ==→eq _ _ (every_lem 256 _ x and_none_table h)

  pub or_none : bit_or x 0 ≡ x
  or_none = ==→eq _ _ (every_lem 256 _ x or_none_table h)

  pub none_or : bit_or 0 x ≡ x
  none_or = ==→eq _ _ (every_lem 256 _ x none_or_table h)

  pub xor_none : bit_xor x 0 ≡ x
  xor_none = ==→eq _ _ (every_lem 256 _ x xor_none_table h)

  pub xor_top : bit_xor x 0x80 ≡ (x + 0x80) % 256
  xor_top = ==→eq _ _ (every_lem 256 _ x xor_top_table h)
