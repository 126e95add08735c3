-- ===== src/KeyTransform/Shifts.antt =====
-- Shifts of numbers by whole bytes.
use cpp_art.Base.{ℕ, ◌+◌, ◌-◌, ◌*◌, ◌/◌, ◌%◌, ◌^◌, ◌≡◌, arith, ltb, leb, if◌then◌else◌}
use cpp_art.Tree.Key.{Key, IsBytes}
use cpp_art.KeyTransform.{shift_signed}
use cpp_art.KeyTransform.Words.{word, pick, always}

-- Shifts by whole bytes.
abbrev pub up : ℕ → ℕ → Key → Key
up n k b = pick (λ i. ltb i (n - k)) (λ i. b (i + k)) (always 0)

abbrev pub down : ℕ → ℕ → Key → Key
down fill k b = pick (λ i. ltb i k) (always fill) (λ i. b (i - k))

pub up_16_8 : (b : Key) → IsBytes b → word 2 b * 2 ^ 8 % 2 ^ 16 ≡ word 2 (up 2 1 b)
unfolding word
up_16_8 b h = omega (arith, h 0, h 1)

pub down_16_8 : (b : Key) → IsBytes b → word 2 b / 2 ^ 8 ≡ word 2 (down 0 1 b)
unfolding word
down_16_8 b h = omega (arith, h 0, h 1)

pub signed_16_8 :
    (b : Key)
    → IsBytes b
    → shift_signed 16 8 (word 2 b) ≡ word 2 (down (if leb 0x80 (b 0) then 0xFF else 0) 1 b)
unfolding word
signed_16_8 b h = ground (arith, h 0, h 1)

pub up_32_8 : (b : Key) → IsBytes b → word 4 b * 2 ^ 8 % 2 ^ 32 ≡ word 4 (up 4 1 b)
unfolding word
up_32_8 b h = omega (arith, h 0, h 1, h 2, h 3)

pub down_32_8 : (b : Key) → IsBytes b → word 4 b / 2 ^ 8 ≡ word 4 (down 0 1 b)
unfolding word
down_32_8 b h = omega (arith, h 0, h 1, h 2, h 3)

pub signed_32_8 :
    (b : Key)
    → IsBytes b
    → shift_signed 32 8 (word 4 b) ≡ word 4 (down (if leb 0x80 (b 0) then 0xFF else 0) 1 b)
unfolding word
signed_32_8 b h = ground (arith, h 0, h 1, h 2, h 3)

pub up_32_16 : (b : Key) → IsBytes b → word 4 b * 2 ^ 16 % 2 ^ 32 ≡ word 4 (up 4 2 b)
unfolding word
up_32_16 b h = omega (arith, h 0, h 1, h 2, h 3)

pub down_32_16 : (b : Key) → IsBytes b → word 4 b / 2 ^ 16 ≡ word 4 (down 0 2 b)
unfolding word
down_32_16 b h = omega (arith, h 0, h 1, h 2, h 3)

pub signed_32_16 :
    (b : Key)
    → IsBytes b
    → shift_signed 32 16 (word 4 b) ≡ word 4 (down (if leb 0x80 (b 0) then 0xFF else 0) 2 b)
unfolding word
signed_32_16 b h = ground (arith, h 0, h 1, h 2, h 3)

pub up_64_8 : (b : Key) → IsBytes b → word 8 b * 2 ^ 8 % 2 ^ 64 ≡ word 8 (up 8 1 b)
unfolding word
up_64_8 b h = omega (arith, h 0, h 1, h 2, h 3, h 4, h 5, h 6, h 7)

pub down_64_8 : (b : Key) → IsBytes b → word 8 b / 2 ^ 8 ≡ word 8 (down 0 1 b)
unfolding word
down_64_8 b h = omega (arith, h 0, h 1, h 2, h 3, h 4, h 5, h 6, h 7)

pub signed_64_8 :
    (b : Key)
    → IsBytes b
    → shift_signed 64 8 (word 8 b) ≡ word 8 (down (if leb 0x80 (b 0) then 0xFF else 0) 1 b)
unfolding word
signed_64_8 b h = ground (arith, h 0, h 1, h 2, h 3, h 4, h 5, h 6, h 7)

pub up_64_16 : (b : Key) → IsBytes b → word 8 b * 2 ^ 16 % 2 ^ 64 ≡ word 8 (up 8 2 b)
unfolding word
up_64_16 b h = omega (arith, h 0, h 1, h 2, h 3, h 4, h 5, h 6, h 7)

pub down_64_16 : (b : Key) → IsBytes b → word 8 b / 2 ^ 16 ≡ word 8 (down 0 2 b)
unfolding word
down_64_16 b h = omega (arith, h 0, h 1, h 2, h 3, h 4, h 5, h 6, h 7)

pub signed_64_16 :
    (b : Key)
    → IsBytes b
    → shift_signed 64 16 (word 8 b) ≡ word 8 (down (if leb 0x80 (b 0) then 0xFF else 0) 2 b)
unfolding word
signed_64_16 b h = ground (arith, h 0, h 1, h 2, h 3, h 4, h 5, h 6, h 7)

pub up_64_32 : (b : Key) → IsBytes b → word 8 b * 2 ^ 32 % 2 ^ 64 ≡ word 8 (up 8 4 b)
unfolding word
up_64_32 b h = omega (arith, h 0, h 1, h 2, h 3, h 4, h 5, h 6, h 7)

pub down_64_32 : (b : Key) → IsBytes b → word 8 b / 2 ^ 32 ≡ word 8 (down 0 4 b)
unfolding word
down_64_32 b h = omega (arith, h 0, h 1, h 2, h 3, h 4, h 5, h 6, h 7)

pub signed_64_32 :
    (b : Key)
    → IsBytes b
    → shift_signed 64 32 (word 8 b) ≡ word 8 (down (if leb 0x80 (b 0) then 0xFF else 0) 4 b)
unfolding word
signed_64_32 b h = ground (arith, h 0, h 1, h 2, h 3, h 4, h 5, h 6, h 7)
