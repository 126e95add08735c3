-- ===== src/KeyTransform/Stages.antt =====
-- The steps of `byte_swap` of include/art/key_transform.h on the bytes of a number.
use Prim.Native.Nat.{bit_and, bit_or}
use cpp_art.Base.{
  ℕ, ◌+◌, ◌-◌, ◌*◌, ◌/◌, ◌%◌, ◌^◌, ◌≡◌, ◌<◌, refl, ◌∙◌, ap, arith, ltb, leb, ◌==◌, if◌then◌else◌,
  Bool, Bool-cases, inl, inr,
}
use cpp_art.Base.Bits.{bit_and-bytes, and_all, and_none}
use cpp_art.Tree.Key.{Key, IsBytes}
use cpp_art.KeyTransform.{shift_signed}
use cpp_art.KeyTransform.Words.{word, op-word, word_ext, pick, always, pick-IsBytes, masked, joined}
use cpp_art.KeyTransform.Shifts.{
  up, down, up_16_8, up_32_8, up_32_16, up_64_8, up_64_16, up_64_32, down_16_8, down_32_8,
  down_32_16, down_64_8, down_64_16, down_64_32, signed_16_8, signed_32_8, signed_32_16,
  signed_64_8, signed_64_16, signed_64_32,
}

-- Every other group of `k` bytes, from the first on.
abbrev pub every_other : ℕ → ℕ → Bool
every_other k i = i / k % 2 == 0

-- What a signed shift fills the top with.
abbrev pub fill : Key → ℕ
fill b = if leb 0x80 (b 0) then 0xFF else 0

pub fill-lt : (b : Key) → fill b < 256
fill-lt b = ground arith

-- The same under equal operands.
under :
    (m l : ℕ) {x y u v r : ℕ}
    → x ≡ u
    → y ≡ v
    → bit_or (bit_and u m) (bit_and v l) ≡ r
    → bit_or (bit_and x m) (bit_and y l) ≡ r
under m l {y = y} {u = u} e g h =
    ap (λ (x : ℕ). bit_or (bit_and x m) (bit_and y l)) e
    ∙ ap (λ (y : ℕ). bit_or (bit_and u m) (bit_and y l)) g
    ∙ h

-- The bytes of neighbouring groups change places.
stage :
    (n k c : ℕ) (b : Key)
    → IsBytes b
    → c < 256
    → bit_or
        (bit_and (word n (up n k b)) (word n (pick (every_other k) (always 0xFF) (always 0))))
        (bit_and (word n (down c k b)) (word n (pick (every_other k) (always 0) (always 0xFF))))
      ≡ word n (pick (every_other k) (up n k b) (down c k b))
stage n k c b h l =
    masked n (every_other k) (up n k b) (down c k b)
      (pick-IsBytes (λ i. ltb i (n - k)) (λ i. b (i + k)) (always 0) (λ i. h (i + k))
        (λ i. omega arith))
      (pick-IsBytes (λ i. ltb i k) (always c) (λ i. b (i - k)) (λ i. l) (λ i. h (i - k)))

-- The low half of a word, whatever a shift has filled the high half with.
pub low_half :
    (n k c : ℕ) (b : Key)
    → IsBytes b
    → c < 256
    → bit_and (word n (down c k b)) (word n (pick (λ i. ltb i k) (always 0) (always 0xFF)))
      ≡ word n (pick (λ i. ltb i k) (always 0) (λ i. b (i - k)))
low_half n k c b h l =
    op-word bit_and bit_and-bytes refl n _ _
      (pick-IsBytes (λ i. ltb i k) (always c) (λ i. b (i - k)) (λ i. l) (λ i. h (i - k)))
      (pick-IsBytes (λ i. ltb i k) (always 0) (always 0xFF) (λ i. omega arith) (λ i. omega arith))
    ∙ word_ext n _ _ (λ i m. elim (Bool-cases (ltb i k)) [
      | inl e ↦ rw e (and_none c l)
      | inr e ↦ rw e (and_all (b (i - k)) (h (i - k)))
    ])

pub stage_32_8 :
    (b : Key)
    → IsBytes b
    → bit_or
        (bit_and (word 4 b * 2 ^ 8 % 2 ^ 32) 0xFF00FF00)
        (bit_and (word 4 b / 2 ^ 8) 0x00FF00FF)
      ≡ word 4 (pick (every_other 1) (up 4 1 b) (down 0 1 b))
unfolding word
stage_32_8 b h =
    under 0xFF00FF00 0x00FF00FF (up_32_8 b h) (down_32_8 b h) (stage 4 1 0 b h (omega arith))

pub stage_signed_32_8 :
    (b : Key)
    → IsBytes b
    → bit_or
        (bit_and (word 4 b * 2 ^ 8 % 2 ^ 32) 0xFF00FF00)
        (bit_and (shift_signed 32 8 (word 4 b)) 0x00FF00FF)
      ≡ word 4 (pick (every_other 1) (up 4 1 b) (down (fill b) 1 b))
unfolding word
stage_signed_32_8 b h =
    under 0xFF00FF00 0x00FF00FF (up_32_8 b h) (signed_32_8 b h) (stage 4 1 (fill b) b h (fill-lt b))

pub stage_64_8 :
    (b : Key)
    → IsBytes b
    → bit_or
        (bit_and (word 8 b * 2 ^ 8 % 2 ^ 64) 0xFF00FF00FF00FF00)
        (bit_and (word 8 b / 2 ^ 8) 0x00FF00FF00FF00FF)
      ≡ word 8 (pick (every_other 1) (up 8 1 b) (down 0 1 b))
unfolding word
stage_64_8 b h =
    under 0xFF00FF00FF00FF00 0x00FF00FF00FF00FF (up_64_8 b h) (down_64_8 b h)
      (stage 8 1 0 b h (omega arith))

pub stage_signed_64_8 :
    (b : Key)
    → IsBytes b
    → bit_or
        (bit_and (word 8 b * 2 ^ 8 % 2 ^ 64) 0xFF00FF00FF00FF00)
        (bit_and (shift_signed 64 8 (word 8 b)) 0x00FF00FF00FF00FF)
      ≡ word 8 (pick (every_other 1) (up 8 1 b) (down (fill b) 1 b))
unfolding word
stage_signed_64_8 b h =
    under 0xFF00FF00FF00FF00 0x00FF00FF00FF00FF (up_64_8 b h) (signed_64_8 b h)
      (stage 8 1 (fill b) b h (fill-lt b))

pub stage_64_16 :
    (b : Key)
    → IsBytes b
    → bit_or
        (bit_and (word 8 b * 2 ^ 16 % 2 ^ 64) 0xFFFF0000FFFF0000)
        (bit_and (word 8 b / 2 ^ 16) 0x0000FFFF0000FFFF)
      ≡ word 8 (pick (every_other 2) (up 8 2 b) (down 0 2 b))
unfolding word
stage_64_16 b h =
    under 0xFFFF0000FFFF0000 0x0000FFFF0000FFFF (up_64_16 b h) (down_64_16 b h)
      (stage 8 2 0 b h (omega arith))

pub stage_signed_64_16 :
    (b : Key)
    → IsBytes b
    → bit_or
        (bit_and (word 8 b * 2 ^ 16 % 2 ^ 64) 0xFFFF0000FFFF0000)
        (bit_and (shift_signed 64 16 (word 8 b)) 0x0000FFFF0000FFFF)
      ≡ word 8 (pick (every_other 2) (up 8 2 b) (down (fill b) 2 b))
unfolding word
stage_signed_64_16 b h =
    under 0xFFFF0000FFFF0000 0x0000FFFF0000FFFF (up_64_16 b h) (signed_64_16 b h)
      (stage 8 2 (fill b) b h (fill-lt b))

pub last_16 :
    (b : Key)
    → IsBytes b
    → bit_or (word 2 b * 2 ^ 8 % 2 ^ 16) (word 2 b / 2 ^ 8)
      ≡ word 2 (pick (λ i. ltb i 1) (λ i. b (i + 1)) (λ i. b (i - 1)))
last_16 b h =
    ap (λ (u : ℕ). bit_or u (word 2 b / 2 ^ 8)) (up_16_8 b h)
    ∙ ap (bit_or (word 2 (up 2 1 b))) (down_16_8 b h)
    ∙ joined 2 (λ i. ltb i 1) (λ i. b (i + 1)) (λ i. b (i - 1)) (λ i. h (i + 1)) (λ i. h (i - 1))

pub last_signed_16 :
    (b : Key)
    → IsBytes b
    → bit_or (word 2 b * 2 ^ 8 % 2 ^ 16) (bit_and (shift_signed 16 8 (word 2 b)) 0xFF)
      ≡ word 2 (pick (λ i. ltb i 1) (λ i. b (i + 1)) (λ i. b (i - 1)))
unfolding word
last_signed_16 b h =
    ap (λ (u : ℕ). bit_or u (bit_and (shift_signed 16 8 (word 2 b)) 0xFF)) (up_16_8 b h)
    ∙ ap (λ (u : ℕ). bit_or (word 2 (up 2 1 b)) (bit_and u 0xFF)) (signed_16_8 b h)
    ∙ ap (bit_or (word 2 (up 2 1 b))) (low_half 2 1 (fill b) b h (fill-lt b))
    ∙ joined 2 (λ i. ltb i 1) (λ i. b (i + 1)) (λ i. b (i - 1)) (λ i. h (i + 1)) (λ i. h (i - 1))

pub last_32 :
    (b : Key)
    → IsBytes b
    → bit_or (word 4 b * 2 ^ 16 % 2 ^ 32) (word 4 b / 2 ^ 16)
      ≡ word 4 (pick (λ i. ltb i 2) (λ i. b (i + 2)) (λ i. b (i - 2)))
last_32 b h =
    ap (λ (u : ℕ). bit_or u (word 4 b / 2 ^ 16)) (up_32_16 b h)
    ∙ ap (bit_or (word 4 (up 4 2 b))) (down_32_16 b h)
    ∙ joined 4 (λ i. ltb i 2) (λ i. b (i + 2)) (λ i. b (i - 2)) (λ i. h (i + 2)) (λ i. h (i - 2))

pub last_signed_32 :
    (b : Key)
    → IsBytes b
    → bit_or (word 4 b * 2 ^ 16 % 2 ^ 32) (bit_and (shift_signed 32 16 (word 4 b)) 0xFFFF)
      ≡ word 4 (pick (λ i. ltb i 2) (λ i. b (i + 2)) (λ i. b (i - 2)))
unfolding word
last_signed_32 b h =
    ap (λ (u : ℕ). bit_or u (bit_and (shift_signed 32 16 (word 4 b)) 0xFFFF)) (up_32_16 b h)
    ∙ ap (λ (u : ℕ). bit_or (word 4 (up 4 2 b)) (bit_and u 0xFFFF)) (signed_32_16 b h)
    ∙ ap (bit_or (word 4 (up 4 2 b))) (low_half 4 2 (fill b) b h (fill-lt b))
    ∙ joined 4 (λ i. ltb i 2) (λ i. b (i + 2)) (λ i. b (i - 2)) (λ i. h (i + 2)) (λ i. h (i - 2))

pub last_64 :
    (b : Key)
    → IsBytes b
    → bit_or (word 8 b * 2 ^ 32 % 2 ^ 64) (word 8 b / 2 ^ 32)
      ≡ word 8 (pick (λ i. ltb i 4) (λ i. b (i + 4)) (λ i. b (i - 4)))
last_64 b h =
    ap (λ (u : ℕ). bit_or u (word 8 b / 2 ^ 32)) (up_64_32 b h)
    ∙ ap (bit_or (word 8 (up 8 4 b))) (down_64_32 b h)
    ∙ joined 8 (λ i. ltb i 4) (λ i. b (i + 4)) (λ i. b (i - 4)) (λ i. h (i + 4)) (λ i. h (i - 4))

pub last_signed_64 :
    (b : Key)
    → IsBytes b
    → bit_or (word 8 b * 2 ^ 32 % 2 ^ 64) (bit_and (shift_signed 64 32 (word 8 b)) 0xFFFFFFFF)
      ≡ word 8 (pick (λ i. ltb i 4) (λ i. b (i + 4)) (λ i. b (i - 4)))
unfolding word
last_signed_64 b h =
    ap (λ (u : ℕ). bit_or u (bit_and (shift_signed 64 32 (word 8 b)) 0xFFFFFFFF)) (up_64_32 b h)
    ∙ ap (λ (u : ℕ). bit_or (word 8 (up 8 4 b)) (bit_and u 0xFFFFFFFF)) (signed_64_32 b h)
    ∙ ap (bit_or (word 8 (up 8 4 b))) (low_half 8 4 (fill b) b h (fill-lt b))
    ∙ joined 8 (λ i. ltb i 4) (λ i. b (i + 4)) (λ i. b (i - 4)) (λ i. h (i + 4)) (λ i. h (i - 4))
