-- ===== src/KeyTransform/Pairs.antt =====
-- How the keys of pairs of integers compare, for include/art/key_transform.h.
use cpp_art.Base.{
  ℕ, zero, suc, ◌+◌, ◌-◌, ◌*◌, ◌^◌, ◌≡◌, ◌<◌, refl, ◌∙◌, ap, arith, ltb, ◌==◌, if◌then◌else◌, Bool,
  false,
}
use mathlib.Core.Path.{ap₂}
use cpp_art.Tree.Key.{Key, IsBytes}
use cpp_art.Tree.Walk.{key_less}
use cpp_art.KeyTransform.{Width, size_of, range, chunks, transform, transform_pair}
use cpp_art.KeyTransform.Words.{word, word_ext}
use cpp_art.KeyTransform.Bytes.{chunks-IsBytes, compare_words, first_byte, word_below, pow_step}
use cpp_art.KeyTransform.Order.{image_rank, integer_less, rank_less, rank_same}

-- One key after another of `n` bytes.
abbrev followed : ℕ → Key → Key → Key
followed n a b j = if ltb j n then a j else b (j - n)

followed_second : (n m : ℕ) (a b : Key) → followed n a b (n + m) ≡ b m
followed_second n m a b =
    ap (λ (t : Bool). if t then a (n + m) else b (n + m - n)) {y = false} (ground arith)
    ∙ ap b (omega arith)

word-followed :
    (n m : ℕ) (a b : Key) → word (n + m) (followed n a b) ≡ word n a * 256 ^ m + word m b
unfolding word
word-followed n zero a b =
    ap (λ (k : ℕ). word k (followed n a b)) {x = n + 0} {y = n} (omega arith)
    ∙ word_ext n (followed n a b) a (λ i l. ground arith)
    ∙ omega arith
word-followed n (suc m) a b =
    ap (λ (k : ℕ). word k (followed n a b)) {x = n + suc m} {y = suc (n + m)} (omega arith)
    ∙ ap (λ (x : ℕ). x * 256 + followed n a b (n + m)) (word-followed n m a b)
    ∙ ap (λ (y : ℕ). (word n a * 256 ^ m + word m b) * 256 + y) (followed_second n m a b)
    ∙ omega (arith, pow_step (word n a) m)

followed-IsBytes : (n : ℕ) (a b : Key) → IsBytes a → IsBytes b → IsBytes (followed n a b)
followed-IsBytes n a b h k j = ground (arith, h j, k (j - n))

followed_less :
    (n m : ℕ) (a b c d : Key)
    → IsBytes a
    → IsBytes b
    → IsBytes c
    → IsBytes d
    → key_less (n + m) 0 (followed n a b) (followed n c d)
      ≡ (if word n a == word n c then ltb (word m b) (word m d) else ltb (word n a) (word n c))
followed_less n m a b c d ha hb hc hd =
    compare_words (n + m) _ _ (followed-IsBytes n a b ha hb) (followed-IsBytes n c d hc hd)
    ∙ ap₂ ltb (word-followed n m a b) (word-followed n m c d)
    ∙ first_byte (256 ^ m) _ _ _ _ (word_below m b hb) (word_below m d hd)

-- For every two integer types and both byte orders: on pairs of numbers in the ranges of the types,
-- the comparison of the transformed pairs, first byte first, is the lexicographic order: the first
-- components decide when they differ, and the second ones when they are the same.
pub transform_pair_lem :
    (signed1 : Bool) (w1 : Width) (signed2 : Bool) (w2 : Width) (machine : Bool) (x1 x2 y1 y2 : ℕ)
    → x1 < range w1
    → x2 < range w2
    → y1 < range w1
    → y2 < range w2
    → key_less
        (size_of w1 + size_of w2)
        0
        (transform_pair signed1 w1 signed2 w2 machine x1 x2)
        (transform_pair signed1 w1 signed2 w2 machine y1 y2)
      ≡ (if x1 == y1 then integer_less signed2 w2 x2 y2 else integer_less signed1 w1 x1 y1)
unfolding transform_pair
transform_pair_lem signed1 w1 signed2 w2 machine x1 x2 y1 y2 h1 h2 k1 k2 =
    followed_less (size_of w1) (size_of w2) (chunks w1 machine (transform signed1 w1 machine x1))
      (chunks w2 machine (transform signed2 w2 machine x2))
      (chunks w1 machine (transform signed1 w1 machine y1))
      (chunks w2 machine (transform signed2 w2 machine y2)) (chunks-IsBytes w1 machine _)
      (chunks-IsBytes w2 machine _) (chunks-IsBytes w1 machine _) (chunks-IsBytes w2 machine _)
    ∙ rw
        (
          image_rank signed1 w1 machine x1 h1,
          image_rank signed2 w2 machine x2 h2,
          image_rank signed1 w1 machine y1 k1,
          image_rank signed2 w2 machine y2 k2,
          rank_less signed1 w1 x1 y1 h1 k1,
          rank_less signed2 w2 x2 y2 h2 k2,
          rank_same signed1 w1 x1 y1 h1 k1,
        )
        refl
