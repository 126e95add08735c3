-- ===== src/Tests/KeyTransforms.antt =====
-- Tests of the model of include/art/key_transform.h.
use cpp_art.Base.{ℕ, ◌≡◌, refl, arith, true, false, List, [], ◌∷◌}
use cpp_art.Tree.Key.{Key}
use cpp_art.Tree.Walk.{key_less}
use cpp_art.Tree.Find.{done, bad_access}
use cpp_art.KeyTransform.{
  Width, byte_swap, byte_swap_signed, chunks, transform, transform_pair, transform_string,
  byte_swap_u32, byte_swap_i16, transform_signed, is_big_endian, flip_sign,
}
use cpp_art.KeyTransform.Order.{transform_lem, byte_swap-byte_swap}
use cpp_art.KeyTransform.Pairs.{transform_pair_lem}
use cpp_art.KeyTransform.Strings.{transform_string_lem}
use cpp_art.Tree.Key.{key_eq}
use cpp_art.Tree.Find.{at, end}
use cpp_art.SearchTree.Program.{inserted, erased, found, sized, list_size}
use cpp_art.RadixMap.{value_compare}
use cpp_art.RadixMap.Integers.{value_compare_integers}
use cpp_art.RadixMap.Rep.{rep_run}
use cpp_art.RadixMap.IntegerPrograms.{
  IntegerCall, put, drop, seek, get_count, InRange, integer_run, integer_call, first_of, without,
  key_of, all_on_tree, rep_run_integers,
}

-- A swapped integer.
swapped : byte_swap Width.w32 0x12345678 ≡ 0x78563412
unfolding byte_swap byte_swap_u32
swapped = refl

-- -2 of 16 bits, in memory on a little endian machine.
minus_two : chunks Width.w16 false (transform true Width.w16 false 0xFFFE) 0 ≡ 0x7F
unfolding transform chunks transform_signed is_big_endian byte_swap_signed byte_swap_i16 flip_sign
minus_two = refl

-- "abc" does not fit an array of 3 characters.
abbrev abc : List ℕ
abc = 97 ∷ 98 ∷ 99 ∷ []

too_long : transform_string 3 abc ≡ bad_access
unfolding transform_string
too_long = refl

byte_swap-byte_swap_example :
    (byte_swap Width.w64 (byte_swap Width.w64 0x1122334455667788) ≡ 0x1122334455667788)
    × (byte_swap_signed Width.w64 0x1122334455667788 ≡ byte_swap Width.w64 0x1122334455667788)
byte_swap-byte_swap_example = byte_swap-byte_swap Width.w64 0x1122334455667788 (omega arith)

-- -2 and 5 of 32 bits on a little endian machine
transform_lem_example :
    key_less 4 0
      (chunks Width.w32 false (transform true Width.w32 false 0xFFFFFFFE))
      (chunks Width.w32 false (transform true Width.w32 false 5))
    ≡ true
transform_lem_example = transform_lem true Width.w32 false 0xFFFFFFFE 5 (omega arith) (omega arith)

-- (7, -1) and (7, 3) on a little endian machine
transform_pair_lem_example :
    key_less 6 0
      (transform_pair false Width.w32 true Width.w16 false 7 0xFFFF)
      (transform_pair false Width.w32 true Width.w16 false 7 3)
    ≡ true
transform_pair_lem_example =
    transform_pair_lem false Width.w32 true Width.w16 false 7 0xFFFF 7 3 (omega arith) (omega arith)
      (omega arith) (omega arith)

transform_string_lem_example :
    (a : Key) × (b : Key) × (transform_string 8 (97 ∷ 98 ∷ []) ≡ done a)
    × (transform_string 8 (97 ∷ 98 ∷ 99 ∷ []) ≡ done b)
    × (key_less 8 0 a b ≡ true)
transform_string_lem_example =
    transform_string_lem 8 (97 ∷ 98 ∷ []) (97 ∷ 98 ∷ 99 ∷ []) (omega arith, (omega arith, tt))
      (omega arith, (omega arith, (omega arith, tt))) (omega arith) (omega arith)

value_compare_integers_example :
    (value_compare 1 0
        (chunks Width.w8 true (transform true Width.w8 true 200))
        (chunks Width.w8 true (transform true Width.w8 true 100))
      ≡ true)
    × (key_eq 1
          (chunks Width.w8 true (transform true Width.w8 true 200))
          (chunks Width.w8 true (transform true Width.w8 true 100))
        ≡ false)
value_compare_integers_example =
    value_compare_integers true Width.w8 true 200 100 (omega arith) (omega arith)

-- A set of 64 bit integers.
abbrev integers : List (IntegerCall ℕ)
integers = put 5 ∷ put 0xFFFFFFFFFFFFFFFE ∷ put 5 ∷ drop 5 ∷ seek 5 ∷ get_count ∷ []

integers-InRange : InRange (λ v. v) Width.w64 integers
integers-InRange = (omega arith, (omega arith, (omega arith, (omega arith, (omega arith, tt)))))

integer_answers :
    integer_run (λ v. v) [] integers
    ≡ inserted (at 5) true
      ∷ inserted (at 0xFFFFFFFFFFFFFFFE) true
      ∷ inserted (at 5) false
      ∷ erased 1
      ∷ found end
      ∷ sized 1
      ∷ []
unfolding integer_run integer_call first_of without list_size
integer_answers = refl

rep_run_integers_example :
    rep_run
      (key_of (λ v. v) true Width.w64 false)
      8
      (all_on_tree (λ v. v) true Width.w64 false integers)
    ≡ done (integer_run (λ v. v) [] integers)
rep_run_integers_example = rep_run_integers (λ v. v) true Width.w64 false integers integers-InRange
