-- ===== src/KeyTransform/Image.antt =====
-- What the transforms of include/art/key_transform.h leave in memory.
use Prim.Native.Nat.{bit_xor}
use cpp_art.Base.{
  ℕ, zero, suc, ◌+◌, ◌-◌, ◌/◌, ◌%◌, ◌^◌, ◌≡◌, ◌<◌, refl, sym, ◌∙◌, ap, arith, ◌==◌, Bool, true,
  false,
}
use cpp_art.Base.Bits.{bit_xor-bytes, xor_top, xor_none}
use cpp_art.Tree.Key.{Key, IsBytes}
use cpp_art.KeyTransform.{
  Width, size_of, range, byte_swap, byte_swap_signed, chunks, is_big_endian, transform_unsigned,
  transform_signed, flip_sign,
}
use cpp_art.KeyTransform.Words.{word, op-word, word_ext, pick, always, pick-IsBytes}
use cpp_art.KeyTransform.Swap.{reversed, swap_lem, swap_signed_lem}
use cpp_art.KeyTransform.Bytes.{chunks-IsBytes, word-chunks, digit}

pub flipped :
    (n : ℕ) (b : Key)
    → IsBytes b
    → (i : ℕ) → i < n
    → bit_xor (b i) (pick (λ i. i == 0) (always 0x80) (always 0) i)
      ≡ pick (λ i. i == 0) (λ i. (b 0 + 0x80) % 256) b i
flipped n b h zero l = xor_top (b 0) (h 0)
flipped n b h (suc i) l = ground (arith, xor_none (b (suc i)) (h (suc i)))

pub flip_word :
    (n c x : ℕ) (b : Key)
    → IsBytes b
    → x ≡ word (suc n) b
    → c ≡ word (suc n) (pick (λ i. i == 0) (always 0x80) (always 0))
    → bit_xor x c ≡ word (suc n) (pick (λ i. i == 0) (λ i. (b 0 + 0x80) % 256) b)
flip_word n c x b h e g =
    ap (λ (z : ℕ). bit_xor z c) e
    ∙ ap (bit_xor (word (suc n) b)) g
    ∙ op-word bit_xor bit_xor-bytes refl (suc n) b _ h
        (pick-IsBytes (λ i. i == 0) (always 0x80) (always 0) (λ i. omega arith) (λ i. omega arith))
    ∙ word_ext (suc n) _ _ (flipped (suc n) b h)

-- The sign bit flipped.
pub flip_lem : (w : Width) (x : ℕ) → x < range w → flip_sign w x ≡ (x + range w / 2) % range w
unfolding flip_sign word chunks
flip_lem Width.w8 x h =
    let b = chunks Width.w8 true x in
    let hb = chunks-IsBytes Width.w8 true x in
    flip_word 0 0x80 x b hb (sym (word-chunks Width.w8 x h)) refl ∙ omega arith
flip_lem Width.w16 x h =
    let b = chunks Width.w16 true x in
    let hb = chunks-IsBytes Width.w16 true x in
    flip_word 1 0x8000 x b hb (sym (word-chunks Width.w16 x h)) refl ∙ omega arith
flip_lem Width.w32 x h =
    let b = chunks Width.w32 true x in
    let hb = chunks-IsBytes Width.w32 true x in
    flip_word 3 0x80000000 x b hb (sym (word-chunks Width.w32 x h)) refl ∙ omega arith
flip_lem Width.w64 x h =
    let b = chunks Width.w64 true x in
    let hb = chunks-IsBytes Width.w64 true x in
    flip_word 7 0x8000000000000000 x b hb (sym (word-chunks Width.w64 x h)) refl ∙ omega arith

pub flip_sign-lt : (w : Width) (x : ℕ) → x < range w → flip_sign w x < range w
flip_sign-lt Width.w8 x h = omega (arith, flip_lem Width.w8 x h)
flip_sign-lt Width.w16 x h = omega (arith, flip_lem Width.w16 x h)
flip_sign-lt Width.w32 x h = omega (arith, flip_lem Width.w32 x h)
flip_sign-lt Width.w64 x h = omega (arith, flip_lem Width.w64 x h)

-- The bytes of a swapped number on a little endian machine.
pub little :
    (w : Width) (b : Key)
    → IsBytes b
    → word (size_of w) (chunks w false (word (size_of w) (reversed (size_of w) b)))
      ≡ word (size_of w) b
unfolding chunks
little w b h = word_ext (size_of w) _ _ (λ i l.
    ap (λ (k : ℕ). word (size_of w) (reversed (size_of w) b) / 256 ^ k % 256) (omega arith)
    ∙ digit w (reversed (size_of w) b) (λ i. h (size_of w - 1 - i)) (size_of w - 1 - i)
        (omega arith)
    ∙ ap b (omega arith))

pub little_swap :
    (w : Width) (swap : ℕ → ℕ)
    → ((b : Key)
        → IsBytes b
        → swap (word (size_of w) b) ≡ word (size_of w) (reversed (size_of w) b))
    → (x : ℕ) → x < range w
    → word (size_of w) (chunks w false (swap x)) ≡ x
little_swap w swap law x h =
    let b = chunks w true x in
    let hb = chunks-IsBytes w true x in
    ap (λ (y : ℕ). word (size_of w) (chunks w false (swap y))) (sym (word-chunks w x h))
    ∙ ap (λ (y : ℕ). word (size_of w) (chunks w false y)) (law b hb)
    ∙ little w b hb
    ∙ word-chunks w x h

pub image :
    (w : Width) (machine : Bool) (x : ℕ)
    → x < range w
    → word (size_of w) (chunks w machine (transform_unsigned w machine x)) ≡ x
unfolding transform_unsigned is_big_endian chunks
image w true x h = word-chunks w x h
image w false x h = little_swap w (byte_swap w) (swap_lem w) x h

pub image_signed :
    (w : Width) (machine : Bool) (x : ℕ)
    → x < range w
    → word (size_of w) (chunks w machine (transform_signed w machine x))
      ≡ (x + range w / 2) % range w
unfolding transform_signed is_big_endian chunks
image_signed w true x h = word-chunks w (flip_sign w x) (flip_sign-lt w x h) ∙ flip_lem w x h
image_signed w false x h =
    little_swap w (byte_swap_signed w) (swap_signed_lem w) (flip_sign w x) (flip_sign-lt w x h)
    ∙ flip_lem w x h
