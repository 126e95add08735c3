-- ===== src/RadixMap/Integers.antt =====
-- Containers of include/art/radix_map.h whose keys are integers under their transform.
use cpp_art.Base.{ℕ, ◌≡◌, ◌<◌, ◌∙◌, Bool, ◌==◌}
use cpp_art.Tree.Key.{key_eq}
use cpp_art.KeyTransform.{Width, size_of, range, chunks, transform}
use cpp_art.KeyTransform.Order.{integer_less, transform_lem, key_eq-transform}
use cpp_art.RadixMap.{value_compare}
use cpp_art.RadixMap.Element.{value_compare-eq-key_less}

-- For every integer type and both byte orders: on two integers in the range of the type,
-- `value_compare` on the transformed keys is the order of the integers, and the keys are equal when
-- the integers are and only then.
pub value_compare_integers :
    (signed : Bool) (w : Width) (machine : Bool) (x y : ℕ)
    → x < range w
    → y < range w
    → (value_compare
          (size_of w)
          0
          (chunks w machine (transform signed w machine x))
          (chunks w machine (transform signed w machine y))
        ≡ integer_less signed w x y)
      × (key_eq
            (size_of w)
            (chunks w machine (transform signed w machine x))
            (chunks w machine (transform signed w machine y))
          ≡ (x == y))
value_compare_integers signed w machine x y h k = (
  value_compare-eq-key_less (size_of w) 0 _ _ ∙ transform_lem signed w machine x y h k,
  key_eq-transform signed w machine x y h k,
)
