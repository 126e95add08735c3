-- ===== src/KeyTransform/Order.antt =====
-- The orders of integers and the orders of their transformed keys, for include/art/key_transform.h.
use cpp_art.Base.{
  zero, suc, ℕ, ◌+◌, ◌-◌, ◌/◌, ◌%◌, ◌≡◌, ◌<◌, refl, sym, ◌∙◌, ap, arith, ltb, leb, ◌==◌,
  if◌then◌else◌, Bool, true, false,
}
use mathlib.Core.Path.{ap₂}
use cpp_art.Tree.Key.{Key, IsBytes, key_eq}
use cpp_art.Tree.Walk.{key_less}
use cpp_art.KeyTransform.{Width, size_of, range, byte_swap, byte_swap_signed, chunks, transform}
use cpp_art.KeyTransform.Words.{word, word_ext}
use cpp_art.KeyTransform.Swap.{reversed, swap_lem, swap_signed_lem}
use cpp_art.KeyTransform.Bytes.{chunks-IsBytes, word-chunks, compare_words}
use cpp_art.KeyTransform.Image.{image, image_signed}

-- Two's complement: a pattern from half the range on is negative.
abbrev pub signed_less : Width → ℕ → ℕ → Bool
signed_less w x y =
    if leb (range w / 2) x
    then if leb (range w / 2) y then ltb x y else true
    else if leb (range w / 2) y
    then false
    else ltb x y

flipped_less :
    (w : Width) (x y : ℕ)
    → x < range w
    → y < range w
    → ltb ((x + range w / 2) % range w) ((y + range w / 2) % range w) ≡ signed_less w x y
flipped_less Width.w8 x y h k = ground arith
flipped_less Width.w16 x y h k = ground arith
flipped_less Width.w32 x y h k = ground arith
flipped_less Width.w64 x y h k = ground arith

-- What decides between two integers of a type: the position in the order of the type.
pub rank : Bool → Width → ℕ → ℕ
rank signed w x = if signed then (x + range w / 2) % range w else x

pub image_rank :
    (signed : Bool) (w : Width) (machine : Bool) (x : ℕ)
    → x < range w
    → word (size_of w) (chunks w machine (transform signed w machine x)) ≡ rank signed w x
unfolding transform rank
image_rank true w machine x h = image_signed w machine x h
image_rank false w machine x h = image w machine x h

-- The order of an integer type.
abbrev pub integer_less : Bool → Width → ℕ → ℕ → Bool
integer_less signed w x y = if signed then signed_less w x y else ltb x y

pub rank_less :
    (signed : Bool) (w : Width) (x y : ℕ)
    → x < range w
    → y < range w
    → ltb (rank signed w x) (rank signed w y) ≡ integer_less signed w x y
unfolding rank
rank_less true w x y h k = flipped_less w x y h k
rank_less false w x y h k = refl

pub rank_same :
    (signed : Bool) (w : Width) (x y : ℕ)
    → x < range w
    → y < range w
    → (rank signed w x == rank signed w y) ≡ (x == y)
unfolding rank
rank_same true Width.w8 x y h k = ground arith
rank_same true Width.w16 x y h k = ground arith
rank_same true Width.w32 x y h k = ground arith
rank_same true Width.w64 x y h k = ground arith
rank_same false w x y h k = refl

-- For every integer type and both byte orders: on two numbers in the range of the type, given by
-- their patterns, the comparison of the bytes in memory that the transform leaves, first byte first,
-- is the order of the numbers; for a signed type the order in two's complement.
pub transform_lem :
    (signed : Bool) (w : Width) (machine : Bool) (x y : ℕ)
    → x < range w
    → y < range w
    → key_less
        (size_of w)
        0
        (chunks w machine (transform signed w machine x))
        (chunks w machine (transform signed w machine y))
      ≡ integer_less signed w x y
transform_lem signed w machine x y h k =
    compare_words (size_of w) _ _ (chunks-IsBytes w machine _) (chunks-IsBytes w machine _)
    ∙ ap₂ ltb (image_rank signed w machine x h) (image_rank signed w machine y k)
    ∙ rank_less signed w x y h k

key_eq_words : (n : ℕ) (a b : Key) → IsBytes a → IsBytes b → key_eq n a b ≡ (word n a == word n b)
unfolding key_eq word
key_eq_words zero a b h k = refl
key_eq_words (suc n) a b h k = ground (arith, key_eq_words n a b h k, h n, k n)

-- The transformed keys of two integers are the same only for the same integer.
pub key_eq-transform :
    (signed : Bool) (w : Width) (machine : Bool) (x y : ℕ)
    → x < range w
    → y < range w
    → key_eq
        (size_of w)
        (chunks w machine (transform signed w machine x))
        (chunks w machine (transform signed w machine y))
      ≡ (x == y)
key_eq-transform signed w machine x y h k =
    key_eq_words (size_of w) _ _ (chunks-IsBytes w machine _) (chunks-IsBytes w machine _)
    ∙ ap₂ ◌==◌ (image_rank signed w machine x h) (image_rank signed w machine y k)
    ∙ rank_same signed w x y h k

-- For every width, on a number in its range: swapping the bytes twice gives the number back, and the
-- overload for signed types makes of the pattern what the one for unsigned types does.
pub byte_swap-byte_swap :
    (w : Width) (x : ℕ)
    → x < range w
    → (byte_swap w (byte_swap w x) ≡ x) × (byte_swap_signed w x ≡ byte_swap w x)
byte_swap-byte_swap w x h =
    let n = size_of w in
    let b = chunks w true x in
    let hb = chunks-IsBytes w true x in
    let e = word-chunks w x h in
    (
      ap (λ (y : ℕ). byte_swap w (byte_swap w y)) (sym e)
          ∙ ap (byte_swap w) (swap_lem w b hb)
          ∙ swap_lem w (reversed n b) (λ i. hb (n - 1 - i))
          ∙ word_ext n _ _ (λ i l. ap b (omega arith))
          ∙ e,
      ap (byte_swap_signed w) (sym e)
          ∙ swap_signed_lem w b hb
          ∙ sym (swap_lem w b hb)
          ∙ ap (byte_swap w) e,
    )
