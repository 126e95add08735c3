-- ===== src/KeyTransform/Bytes.antt =====
-- The bytes of a number in memory, for include/art/key_transform.h, and how keys of bytes compare.
use cpp_art.Base.{
  ℕ, zero, suc, ◌+◌, ◌-◌, ◌*◌, ◌/◌, ◌%◌, ◌^◌, ◌≡◌, ◌<◌, refl, sym, ◌∙◌, ap, arith, ltb, ◌==◌,
  if◌then◌else◌, Bool, true, inl, inr, eq_or_ne, lt_or_le,
}
use mathlib.Core.Path.{ap₂}
use native.Mathlib.Nat.{mul_assoc, mul-le-mul_right}
use cpp_art.Tree.Key.{Key, IsBytes}
use cpp_art.Tree.Walk.{key_less}
use cpp_art.KeyTransform.{Width, size_of, range, chunks}
use cpp_art.KeyTransform.Words.{word, word_ext}

pub chunks-IsBytes : (w : Width) (big_endian : Bool) (x : ℕ) → IsBytes (chunks w big_endian x)
unfolding chunks
chunks-IsBytes w big_endian x i = ground arith

-- A number is the word of its bytes.
pub word-chunks : (w : Width) (x : ℕ) → x < range w → word (size_of w) (chunks w true x) ≡ x
unfolding word chunks
word-chunks Width.w8 x h = omega arith
word-chunks Width.w16 x h = omega arith
word-chunks Width.w32 x h = omega arith
word-chunks Width.w64 x h = omega arith

pub word-lt : (w : Width) (b : Key) → IsBytes b → word (size_of w) b < range w
unfolding word
word-lt Width.w8 b h = omega (arith, h 0)
word-lt Width.w16 b h = omega (arith, h 0, h 1)
word-lt Width.w32 b h = omega (arith, h 0, h 1, h 2, h 3)
word-lt Width.w64 b h = omega (arith, h 0, h 1, h 2, h 3, h 4, h 5, h 6, h 7)

pub pow_step : (x n : ℕ) → x * 256 ^ suc n ≡ x * 256 ^ n * 256
pow_step x n = ap (λ (z : ℕ). x * z) (omega arith) ∙ sym (mul_assoc x (256 ^ n) 256)

-- The number by its first byte.
pub word_head : (n : ℕ) (b : Key) → word (suc n) b ≡ b 0 * 256 ^ n + word n (λ i. b (suc i))
unfolding word
word_head zero b = omega arith
word_head (suc n) b =
    ap (λ (x : ℕ). x * 256 + b (suc n)) (word_head n b) ∙ omega (arith, pow_step (b 0) n)

pub word_below : (n : ℕ) (b : Key) → IsBytes b → word n b < 256 ^ n
unfolding word
word_below zero b h = omega arith
word_below (suc n) b h = omega (arith, h n, word_below n b h)

-- The first byte decides.
pub first_byte :
    (p x y u v : ℕ)
    → u < p
    → v < p
    → ltb (x * p + u) (y * p + v) ≡ (if x == y then ltb u v else ltb x y)
first_byte p x y u v h k = elim (lt_or_le x y) [
  | inl l ↦ ground (arith, mul-le-mul_right {m = suc x} {n = y} p l)
  | inr l ↦ elim (lt_or_le y x) [
    | inl m ↦ ground (arith, mul-le-mul_right {m = suc y} {n = x} p m)
    | inr m ↦ elim (eq_or_ne x y) [
      | inl e ↦ ground (arith, ap (λ (z : ℕ). z * p) e)
      | inr e ↦ ground arith
    ]
  ]
]

pub start : (a : Key) (j : ℕ) → a j ≡ a (j + 0)
start a j = ap a (omega arith)

-- Keys of bytes compare as their words do.
pub less_words :
    (r j : ℕ) (a b : Key)
    → IsBytes a
    → IsBytes b
    → key_less r j a b ≡ ltb (word r (λ i. a (j + i))) (word r (λ i. b (j + i)))
unfolding word key_less
less_words zero j a b h k = refl
less_words (suc r) j a b h k =
    let key_less_rest = ltb (word r (λ i. a (j + suc i))) (word r (λ i. b (j + suc i))) in
    ap (λ (z : Bool). if a j == b j then z else ltb (a j) (b j))
      (less_words r (suc j) a b h k
        ∙ ap₂ ltb (word_ext r _ _ (λ i l. ap a (omega arith)))
            (word_ext r _ _ (λ i l. ap b (omega arith))))
    ∙ ap₂ (λ (x : ℕ) (y : ℕ). if x == y then key_less_rest else ltb x y) (start a j) (start b j)
    ∙ sym (
        first_byte (256 ^ r) (a (j + 0)) (b (j + 0)) _ _
          (word_below r (λ i. a (j + suc i)) (λ i. h (j + suc i)))
          (word_below r (λ i. b (j + suc i)) (λ i. k (j + suc i))))
    ∙ sym (ap₂ ltb (word_head r (λ i. a (j + i))) (word_head r (λ i. b (j + i))))

pub compare_words :
    (r : ℕ) (a b : Key) → IsBytes a → IsBytes b → key_less r 0 a b ≡ ltb (word r a) (word r b)
compare_words r a b h k =
    less_words r 0 a b h k
    ∙ ap₂ ltb (word_ext r _ _ (λ i l. ap a {x = 0 + i} {y = i} (omega arith)))
        (word_ext r _ _ (λ i l. ap b {x = 0 + i} {y = i} (omega arith)))

-- The bytes of a word in memory.
pub digit :
    (w : Width) (b : Key)
    → IsBytes b
    → (i : ℕ) → i < size_of w
    → word (size_of w) b / 256 ^ (size_of w - 1 - i) % 256 ≡ b i
unfolding word
digit Width.w8 b h zero l = omega (arith, h 0)
digit Width.w8 b h (suc i) l = absurd (omega arith)
digit Width.w16 b h zero l = omega (arith, h 0, h 1)
digit Width.w16 b h (suc zero) l = omega (arith, h 0, h 1)
digit Width.w16 b h (suc (suc i)) l = absurd (omega arith)
digit Width.w32 b h zero l = omega (arith, h 0, h 1, h 2, h 3)
digit Width.w32 b h (suc zero) l = omega (arith, h 0, h 1, h 2, h 3)
digit Width.w32 b h (suc (suc zero)) l = omega (arith, h 0, h 1, h 2, h 3)
digit Width.w32 b h (suc (suc (suc zero))) l = omega (arith, h 0, h 1, h 2, h 3)
digit Width.w32 b h (suc (suc (suc (suc i)))) l = absurd (omega arith)
digit Width.w64 b h zero l = omega (arith, h 0, h 1, h 2, h 3, h 4, h 5, h 6, h 7)
digit Width.w64 b h (suc zero) l = omega (arith, h 0, h 1, h 2, h 3, h 4, h 5, h 6, h 7)
digit Width.w64 b h (suc (suc zero)) l = omega (arith, h 0, h 1, h 2, h 3, h 4, h 5, h 6, h 7)
digit Width.w64 b h (suc (suc (suc zero))) l = omega (arith, h 0, h 1, h 2, h 3, h 4, h 5, h 6, h 7)
digit Width.w64 b h (suc (suc (suc (suc zero)))) l =
    omega (arith, h 0, h 1, h 2, h 3, h 4, h 5, h 6, h 7)
digit Width.w64 b h (suc (suc (suc (suc (suc zero))))) l =
    omega (arith, h 0, h 1, h 2, h 3, h 4, h 5, h 6, h 7)
digit Width.w64 b h (suc (suc (suc (suc (suc (suc zero)))))) l =
    omega (arith, h 0, h 1, h 2, h 3, h 4, h 5, h 6, h 7)
digit Width.w64 b h (suc (suc (suc (suc (suc (suc (suc zero))))))) l =
    omega (arith, h 0, h 1, h 2, h 3, h 4, h 5, h 6, h 7)
digit Width.w64 b h (suc (suc (suc (suc (suc (suc (suc (suc i)))))))) l = absurd (omega arith)
