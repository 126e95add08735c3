-- ===== src/KeyTransform/Words.antt =====
-- Numbers as their bytes, and the bit operations on them byte by byte.
use Prim.Native.Nat.{bit_and, bit_or}
use cpp_art.Base.{
  ℕ, zero, suc, ◌+◌, ◌*◌, ◌≡◌, ◌<◌, refl, ◌∙◌, ap, arith, if◌then◌else◌, Bool, Bool-cases, true,
  false, inl, inr,
}
use cpp_art.Base.Bits.{Splits, bit_and-bytes, bit_or-bytes, and_all, and_none, or_none, none_or}
use cpp_art.Tree.Key.{Key, IsBytes}

-- The number with `n` bytes, the largest first.
unfoldable pub word : ℕ → Key → ℕ
word zero b = 0
word (suc n) b = word n b * 256 + b n

-- An operation that goes byte by byte.
pub op-word :
    (op : ℕ → ℕ → ℕ)
    → Splits 256 op
    → op 0 0 ≡ 0
    → (n : ℕ) (b c : Key) → IsBytes b
    → IsBytes c
    → op (word n b) (word n c) ≡ word n (λ i. op (b i) (c i))
unfolding word
op-word op s e zero b c h k = e
op-word op s e (suc n) b c h k =
    s (word n b) (b n) (word n c) (c n) (h n) (k n)
    ∙ ap (λ (x : ℕ). x * 256 + op (b n) (c n)) (op-word op s e n b c h k)

-- A byte kept by one mask while the other drops its own.
pub keep_left : (x y : ℕ) → x < 256 → y < 256 → bit_or (bit_and x 0xFF) (bit_and y 0) ≡ x
keep_left x y h k = rw (and_all x h, and_none y k, or_none x h) refl

pub keep_right : (x y : ℕ) → x < 256 → y < 256 → bit_or (bit_and x 0) (bit_and y 0xFF) ≡ y
keep_right x y h k = rw (and_none x h, and_all y k, none_or y k) refl

pub word_ext : (n : ℕ) (b c : Key) → ((i : ℕ) → i < n → b i ≡ c i) → word n b ≡ word n c
unfolding word
word_ext zero b c h = refl
word_ext (suc n) b c h = omega (arith, h n, word_ext n b c (λ i l. h i (omega arith)))

-- The bytes that a test picks from one key, and the others from another.
abbrev pub pick : (ℕ → Bool) → Key → Key → Key
pick keep x y i = if keep i then x i else y i

abbrev pub always : ℕ → Key
always c i = c

pub pick-IsBytes : (keep : ℕ → Bool) (x y : Key) → IsBytes x → IsBytes y → IsBytes (pick keep x y)
pick-IsBytes keep x y h k i = ground (arith, h i, k i)

kept-lt : (keep : Bool) (x : ℕ) → x < 256 → bit_and x (if keep then 0xFF else 0) < 256
kept-lt true x h = omega (arith, and_all x h)
kept-lt false x h = omega (arith, and_none x h)

dropped-lt : (keep : Bool) (x : ℕ) → x < 256 → bit_and x (if keep then 0 else 0xFF) < 256
dropped-lt true x h = omega (arith, and_none x h)
dropped-lt false x h = omega (arith, and_all x h)

-- Two words under complementary masks.
pub masked :
    (n : ℕ) (keep : ℕ → Bool) (x y : Key)
    → IsBytes x
    → IsBytes y
    → bit_or
        (bit_and (word n x) (word n (pick keep (always 0xFF) (always 0))))
        (bit_and (word n y) (word n (pick keep (always 0) (always 0xFF))))
      ≡ word n (pick keep x y)
masked n keep x y h k =
    ap (λ (u : ℕ). bit_or u (bit_and (word n y) (word n (pick keep (always 0) (always 0xFF)))))
      (op-word bit_and bit_and-bytes refl n x _ h
        (pick-IsBytes keep (always 0xFF) (always 0) (λ i. omega arith) (λ i. omega arith)))
    ∙ ap (bit_or (word n (λ i. bit_and (x i) (pick keep (always 0xFF) (always 0) i)))) (
        op-word bit_and bit_and-bytes refl n y _ k
          (pick-IsBytes keep (always 0) (always 0xFF) (λ i. omega arith) (λ i. omega arith)))
    ∙ op-word bit_or bit_or-bytes refl n _ _ (λ i. kept-lt (keep i) (x i) (h i))
        (λ i. dropped-lt (keep i) (y i) (k i))
    ∙ word_ext n _ _ (λ i l. elim (Bool-cases (keep i)) [
      | inl e ↦ rw e (keep_left (x i) (y i) (h i) (k i))
      | inr e ↦ rw e (keep_right (x i) (y i) (h i) (k i))
    ])

-- Two words that fill each other's gaps.
pub joined :
    (n : ℕ) (keep : ℕ → Bool) (x y : Key)
    → IsBytes x
    → IsBytes y
    → bit_or (word n (pick keep x (always 0))) (word n (pick keep (always 0) y))
      ≡ word n (pick keep x y)
joined n keep x y h k =
    op-word bit_or bit_or-bytes refl n _ _ (pick-IsBytes keep x (always 0) h (λ i. omega arith))
      (pick-IsBytes keep (always 0) y (λ i. omega arith) k)
    ∙ word_ext n _ _ (λ i l. elim (Bool-cases (keep i)) [
      | inl e ↦ rw e (or_none (x i) (h i))
      | inr e ↦ rw e (none_or (y i) (k i))
    ])
