-- ===== src/KeyTransform.antt =====
-- `byte_swap` and `key_transform` of include/art/key_transform.h. An integer of `w` bits is a number
-- below 2 ^ w; a signed one is its bit pattern.
pub mod Words
pub mod Shifts
pub mod Stages
pub mod Swap
pub mod Bytes
pub mod Image
pub mod Order
pub mod Pairs
pub mod Strings
use Prim.Native.Nat.{bit_and, bit_or, bit_xor}
use cpp_art.Base.{
  ℕ, ◌+◌, ◌-◌, ◌*◌, ◌/◌, ◌%◌, ◌^◌, Bool, true, false, not, leb, ltb, List, [], ◌∷◌, zero, suc, ◌==◌,
  if◌then◌else◌,
}
use cpp_art.Tree.Key.{Key}
use cpp_art.Tree.Find.{Outcome, done, bad_access}

-- The integer types of the overloads.
pub data Width : Type 0 where
  w8 w16 w32 w64 : Width

-- `sizeof`
abbrev pub size_of : Width → ℕ
size_of Width.w8 = 1
size_of Width.w16 = 2
size_of Width.w32 = 4
size_of Width.w64 = 8

abbrev pub range : Width → ℕ
range Width.w8 = 2 ^ 8
range Width.w16 = 2 ^ 16
range Width.w32 = 2 ^ 32
range Width.w64 = 2 ^ 64

-- `val >> k` of a negative or not negative integer with the pattern `x` of `w` bits: the sign fills
-- the top
abbrev pub shift_signed : ℕ → ℕ → ℕ → ℕ
shift_signed w k x = x / 2 ^ k + (if leb (2 ^ (w - 1)) x then 2 ^ w - 2 ^ (w - k) else 0)

-- `byte_swap(uint16_t)`
unfoldable pub byte_swap_u16 : ℕ → ℕ
byte_swap_u16 val = bit_or (val * 2 ^ 8) (val / 2 ^ 8) % 2 ^ 16

-- `byte_swap(int16_t)`
unfoldable pub byte_swap_i16 : ℕ → ℕ
byte_swap_i16 val = bit_or (val * 2 ^ 8) (bit_and (shift_signed 16 8 val) 0xFF) % 2 ^ 16

-- `byte_swap(uint32_t)`
unfoldable pub byte_swap_u32 : ℕ → ℕ
byte_swap_u32 val =
    let val = bit_or (bit_and (val * 2 ^ 8 % 2 ^ 32) 0xFF00FF00) (bit_and (val / 2 ^ 8) 0xFF00FF) in
    bit_or (val * 2 ^ 16 % 2 ^ 32) (val / 2 ^ 16)

-- `byte_swap(int32_t)`
unfoldable pub byte_swap_i32 : ℕ → ℕ
byte_swap_i32 val =
    let val =
      bit_or (bit_and (val * 2 ^ 8 % 2 ^ 32) 0xFF00FF00)
        (bit_and (shift_signed 32 8 val) 0xFF00FF) in
    bit_or (val * 2 ^ 16 % 2 ^ 32) (bit_and (shift_signed 32 16 val) 0xFFFF)

-- `byte_swap(uint64_t)`
unfoldable pub byte_swap_u64 : ℕ → ℕ
byte_swap_u64 val =
    let val =
      bit_or (bit_and (val * 2 ^ 8 % 2 ^ 64) 0xFF00FF00FF00FF00)
        (bit_and (val / 2 ^ 8) 0x00FF00FF00FF00FF) in
    let val =
      bit_or (bit_and (val * 2 ^ 16 % 2 ^ 64) 0xFFFF0000FFFF0000)
        (bit_and (val / 2 ^ 16) 0x0000FFFF0000FFFF) in
    bit_or (val * 2 ^ 32 % 2 ^ 64) (val / 2 ^ 32)

-- `byte_swap(int64_t)`
unfoldable pub byte_swap_i64 : ℕ → ℕ
byte_swap_i64 val =
    let val =
      bit_or (bit_and (val * 2 ^ 8 % 2 ^ 64) 0xFF00FF00FF00FF00)
        (bit_and (shift_signed 64 8 val) 0x00FF00FF00FF00FF) in
    let val =
      bit_or (bit_and (val * 2 ^ 16 % 2 ^ 64) 0xFFFF0000FFFF0000)
        (bit_and (shift_signed 64 16 val) 0x0000FFFF0000FFFF) in
    bit_or (val * 2 ^ 32 % 2 ^ 64) (bit_and (shift_signed 64 32 val) 0xFFFFFFFF)

-- The overload for an unsigned type; a single byte has none, and stays.
unfoldable pub byte_swap : Width → ℕ → ℕ
byte_swap Width.w8 val = val
byte_swap Width.w16 val = byte_swap_u16 val
byte_swap Width.w32 val = byte_swap_u32 val
byte_swap Width.w64 val = byte_swap_u64 val

-- The overload for a signed type.
unfoldable pub byte_swap_signed : Width → ℕ → ℕ
byte_swap_signed Width.w8 val = val
byte_swap_signed Width.w16 val = byte_swap_i16 val
byte_swap_signed Width.w32 val = byte_swap_i32 val
byte_swap_signed Width.w64 val = byte_swap_i64 val

-- `chunks`: the bytes in memory of an integer of a type.
unfoldable pub chunks : Width → Bool → ℕ → Key
chunks w big_endian val j =
    if big_endian then val / 256 ^ (size_of w - 1 - j) % 256 else val / 256 ^ j % 256

-- `is_big_endian`: whether the byte in memory at the address of the int 1 is not 1
unfoldable pub is_big_endian : Bool → Bool
is_big_endian machine = not (chunks Width.w32 machine 1 0 == 1)

-- The unsigned transforms, on a machine of either byte order.
unfoldable pub transform_unsigned : Width → Bool → ℕ → ℕ
transform_unsigned w machine val = if is_big_endian machine then val else byte_swap w val

-- `__val ^= int_t(1) << (bits - 1)`
unfoldable pub flip_sign : Width → ℕ → ℕ
flip_sign Width.w8 val = bit_xor val 0x80
flip_sign Width.w16 val = bit_xor val 0x8000
flip_sign Width.w32 val = bit_xor val 0x80000000
flip_sign Width.w64 val = bit_xor val 0x8000000000000000

-- The signed transforms.
unfoldable pub transform_signed : Width → Bool → ℕ → ℕ
transform_signed w machine val =
    let val = flip_sign w val in if is_big_endian machine then val else byte_swap_signed w val

-- The transform of an integer type, signed or not.
unfoldable pub transform : Bool → Width → Bool → ℕ → ℕ
transform signed w machine val =
    if signed then transform_signed w machine val else transform_unsigned w machine val

-- The transform of a pair: the bytes of the first, then those of the second.
unfoldable pub transform_pair : Bool → Width → Bool → Width → Bool → ℕ → ℕ → Key
transform_pair signed1 w1 signed2 w2 machine first second j =
    let transformed1 = chunks w1 machine (transform signed1 w1 machine first) in
    let transformed2 = chunks w2 machine (transform signed2 w2 machine second) in
    if ltb j (size_of w1) then transformed1 j else transformed2 (j - size_of w1)

-- A string as an array of characters from its first on, with zeros after its last.
abbrev pub padded : List ℕ → Key
padded [] j = 0
padded (c ∷ key) zero = c
padded (c ∷ key) (suc j) = padded key j

abbrev pub size : List ℕ → ℕ
size [] = 0
size (c ∷ key) = suc (size key)

-- The fixed size transform of a string: the array is zero, and the characters are copied with the
-- zero after them; a copy past the end of the array is a bad access.
unfoldable pub transform_string : ℕ → List ℕ → Outcome Key
transform_string max_size key =
    if leb (size key + 1) max_size
    then done (λ j. if ltb j (size key + 1) then padded key j else 0)
    else bad_access
