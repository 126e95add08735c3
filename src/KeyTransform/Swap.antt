-- ===== src/KeyTransform/Swap.antt =====
-- Lemmas about `byte_swap` of include/art/key_transform.h: the bytes in the other order.
use Prim.Native.Nat.{bit_and, bit_or}
use cpp_art.Base.{ℕ, ◌+◌, ◌-◌, ◌*◌, ◌/◌, ◌%◌, ◌^◌, ◌≡◌, ◌<◌, refl, ◌∙◌, ap, arith, ltb}
use cpp_art.Tree.Key.{Key, IsBytes}
use cpp_art.KeyTransform.{
  Width, size_of, byte_swap, byte_swap_signed, byte_swap_u16, byte_swap_u32, byte_swap_u64,
  byte_swap_i16, byte_swap_i32, byte_swap_i64, shift_signed,
}
use cpp_art.KeyTransform.Words.{word, pick, always, pick-IsBytes, joined}
use cpp_art.KeyTransform.Shifts.{up, down, signed_16_8}
use cpp_art.KeyTransform.Stages.{
  every_other, fill, fill-lt, low_half, stage_32_8, stage_signed_32_8, stage_64_8,
  stage_signed_64_8, stage_64_16, stage_signed_64_16, last_32, last_signed_32, last_64,
  last_signed_64,
}

-- The bytes in the other order.
abbrev pub reversed : ℕ → Key → Key
reversed n b i = b (n - 1 - i)

-- The result of a stage is made of bytes.
between-IsBytes :
    (n k c : ℕ) (b : Key)
    → IsBytes b
    → c < 256
    → IsBytes (pick (every_other k) (up n k b) (down c k b))
between-IsBytes n k c b h l =
    pick-IsBytes (every_other k) (up n k b) (down c k b)
      (pick-IsBytes (λ i. ltb i (n - k)) (λ i. b (i + k)) (always 0) (λ i. h (i + k))
        (λ i. omega arith))
      (pick-IsBytes (λ i. ltb i k) (always c) (λ i. b (i - k)) (λ i. l) (λ i. h (i - k)))

swap_u32 : (b : Key) → IsBytes b → byte_swap_u32 (word 4 b) ≡ word 4 (reversed 4 b)
unfolding byte_swap_u32 word
swap_u32 b h =
    ap (λ (v : ℕ). bit_or (v * 2 ^ 16 % 2 ^ 32) (v / 2 ^ 16)) (stage_32_8 b h)
    ∙ last_32 (pick (every_other 1) (up 4 1 b) (down 0 1 b))
        (between-IsBytes 4 1 0 b h (omega arith))

swap_i32 : (b : Key) → IsBytes b → byte_swap_i32 (word 4 b) ≡ word 4 (reversed 4 b)
unfolding byte_swap_i32 word
swap_i32 b h =
    ap (λ (v : ℕ). bit_or (v * 2 ^ 16 % 2 ^ 32) (bit_and (shift_signed 32 16 v) 0xFFFF))
      (stage_signed_32_8 b h)
    ∙ last_signed_32 (pick (every_other 1) (up 4 1 b) (down (fill b) 1 b))
        (between-IsBytes 4 1 (fill b) b h (fill-lt b))

swap_u64 : (b : Key) → IsBytes b → byte_swap_u64 (word 8 b) ≡ word 8 (reversed 8 b)
unfolding byte_swap_u64 word
swap_u64 b h =
    let c = pick (every_other 1) (up 8 1 b) (down 0 1 b) in
    let hc = between-IsBytes 8 1 0 b h (omega arith) in
    ap
      (λ (v : ℕ).
        let v =
          bit_or (bit_and (v * 2 ^ 16 % 2 ^ 64) 0xFFFF0000FFFF0000)
            (bit_and (v / 2 ^ 16) 0x0000FFFF0000FFFF) in
        bit_or (v * 2 ^ 32 % 2 ^ 64) (v / 2 ^ 32))
      (stage_64_8 b h)
    ∙ ap (λ (v : ℕ). bit_or (v * 2 ^ 32 % 2 ^ 64) (v / 2 ^ 32)) (stage_64_16 c hc)
    ∙ last_64 (pick (every_other 2) (up 8 2 c) (down 0 2 c))
        (between-IsBytes 8 2 0 c hc (omega arith))

swap_i64 : (b : Key) → IsBytes b → byte_swap_i64 (word 8 b) ≡ word 8 (reversed 8 b)
unfolding byte_swap_i64 word
swap_i64 b h =
    let c = pick (every_other 1) (up 8 1 b) (down (fill b) 1 b) in
    let hc = between-IsBytes 8 1 (fill b) b h (fill-lt b) in
    ap
      (λ (v : ℕ).
        let v =
          bit_or (bit_and (v * 2 ^ 16 % 2 ^ 64) 0xFFFF0000FFFF0000)
            (bit_and (shift_signed 64 16 v) 0x0000FFFF0000FFFF) in
        bit_or (v * 2 ^ 32 % 2 ^ 64) (bit_and (shift_signed 64 32 v) 0xFFFFFFFF))
      (stage_signed_64_8 b h)
    ∙ ap (λ (v : ℕ). bit_or (v * 2 ^ 32 % 2 ^ 64) (bit_and (shift_signed 64 32 v) 0xFFFFFFFF))
        (stage_signed_64_16 c hc)
    ∙ last_signed_64 (pick (every_other 2) (up 8 2 c) (down (fill c) 2 c))
        (between-IsBytes 8 2 (fill c) c hc (fill-lt c))

swap_u16 : (b : Key) → IsBytes b → byte_swap_u16 (word 2 b) ≡ word 2 (reversed 2 b)
unfolding byte_swap_u16 word
swap_u16 b h =
    ap (λ (u : ℕ). bit_or u (word 2 b / 2 ^ 8) % 2 ^ 16) (omega arith)
    ∙ ap (λ (u : ℕ). bit_or (word 3 (pick (λ i. ltb i 2) b (always 0))) u % 2 ^ 16)
        (omega (arith, h 0, h 1))
    ∙ ap (λ (u : ℕ). u % 2 ^ 16) (joined 3 (λ i. ltb i 2) b (λ i. b (i - 2)) h (λ i. h (i - 2)))
    ∙ omega (arith, h 0, h 1)

swap_i16 : (b : Key) → IsBytes b → byte_swap_i16 (word 2 b) ≡ word 2 (reversed 2 b)
unfolding byte_swap_i16 word
swap_i16 b h =
    ap (λ (u : ℕ). bit_or (word 2 b * 2 ^ 8) (bit_and u 0xFF) % 2 ^ 16) (signed_16_8 b h)
    ∙ ap (λ (u : ℕ). bit_or (word 2 b * 2 ^ 8) u % 2 ^ 16) (low_half 2 1 (fill b) b h (fill-lt b))
    ∙ ap (λ (u : ℕ). bit_or u (word 2 (pick (λ i. ltb i 1) (always 0) (λ i. b (i - 1)))) % 2 ^ 16)
        (omega arith)
    ∙ ap (λ (u : ℕ). bit_or (word 3 (pick (λ i. ltb i 2) b (always 0))) u % 2 ^ 16) (omega arith)
    ∙ ap (λ (u : ℕ). u % 2 ^ 16) (joined 3 (λ i. ltb i 2) b (λ i. b (i - 2)) h (λ i. h (i - 2)))
    ∙ omega (arith, h 0, h 1)

pub swap_lem :
    (w : Width) (b : Key)
    → IsBytes b
    → byte_swap w (word (size_of w) b) ≡ word (size_of w) (reversed (size_of w) b)
unfolding byte_swap word
swap_lem Width.w8 b h = refl
swap_lem Width.w16 b h = swap_u16 b h
swap_lem Width.w32 b h = swap_u32 b h
swap_lem Width.w64 b h = swap_u64 b h

pub swap_signed_lem :
    (w : Width) (b : Key)
    → IsBytes b
    → byte_swap_signed w (word (size_of w) b) ≡ word (size_of w) (reversed (size_of w) b)
unfolding byte_swap_signed word
swap_signed_lem Width.w8 b h = refl
swap_signed_lem Width.w16 b h = swap_i16 b h
swap_signed_lem Width.w32 b h = swap_i32 b h
swap_signed_lem Width.w64 b h = swap_i64 b h
