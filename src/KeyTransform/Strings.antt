-- ===== src/KeyTransform/Strings.antt =====
-- How the keys of strings compare, for include/art/key_transform.h.
use cpp_art.Base.{
  ℕ, zero, suc, ◌+◌, ◌≡◌, ◌<◌, refl, ◌∙◌, ap, arith, ltb, ◌==◌, if◌then◌else◌, Bool, true, false,
  List, [], ◌∷◌,
}
use cpp_art.Tree.Key.{Key}
use cpp_art.Tree.Walk.{key_less}
use cpp_art.Tree.Find.{done, bad_access}
use cpp_art.KeyTransform.{padded, size, transform_string}

-- The lexicographic order of strings.
abbrev pub string_less : List ℕ → List ℕ → Bool
string_less [] [] = false
string_less [] (d ∷ y) = true
string_less (c ∷ x) [] = false
string_less (c ∷ x) (d ∷ y) = if c == d then string_less x y else ltb c d

-- No character is zero.
abbrev pub HasNoZero : List ℕ → Type 0
HasNoZero [] = Unit
HasNoZero (c ∷ x) = (0 < c) × HasNoZero x

-- A comparison from a later byte on.
less_later :
    (r j : ℕ) (a b : Key) → key_less r (suc j) a b ≡ key_less r j (λ i. a (suc i)) (λ i. b (suc i))
unfolding key_less
less_later zero j a b = refl
less_later (suc r) j a b =
    ap (λ (z : Bool). if a (suc j) == b (suc j) then z else ltb (a (suc j)) (b (suc j)))
      (less_later r (suc j) a b)

nothing_less : (r j : ℕ) → key_less r j (padded []) (padded []) ≡ false
unfolding key_less
nothing_less zero j = refl
nothing_less (suc r) j = nothing_less r (suc j)

-- The first character decides, or else what follows.
padded_step :
    (r : ℕ) (c d : ℕ) (x y : List ℕ)
    → key_less (suc r) 0 (padded (c ∷ x)) (padded (d ∷ y))
      ≡ (if c == d then key_less r 0 (padded x) (padded y) else ltb c d)
unfolding key_less
padded_step r c d x y = ap (λ (z : Bool). if c == d then z else ltb c d) (less_later r 0 _ _)

padded_less :
    (r : ℕ) (x y : List ℕ)
    → HasNoZero x
    → HasNoZero y
    → size x < r
    → size y < r
    → key_less r 0 (padded x) (padded y) ≡ string_less x y
unfolding key_less
padded_less zero x y h k l m = absurd (omega arith)
padded_less (suc r) [] [] h k l m = nothing_less (suc r) 0
padded_less (suc r) [] (d ∷ y) h (k, _) l m = ground arith
padded_less (suc r) (c ∷ x) [] (h, _) k l m = ground arith
padded_less (suc r) (c ∷ x) (d ∷ y) (_, h) (_, k) l m =
    padded_step r c d x y
    ∙ ap (λ (z : Bool). if c == d then z else ltb c d)
        (padded_less r x y h k (omega arith) (omega arith))

-- Past the copied characters, the array and the string agree as well.
copied : (x : List ℕ) (j : ℕ) → (if ltb j (size x + 1) then padded x j else 0) ≡ padded x j
copied [] j = ground arith
copied (c ∷ x) zero = ground arith
copied (c ∷ x) (suc j) = ground (arith, copied x j)

copied_string :
    (max_size : ℕ) (x : List ℕ) → size x < max_size → transform_string max_size x ≡ done (padded x)
unfolding transform_string
copied_string max_size x h =
    ap
      (λ (t : Bool).
        if t then done (λ j. if ltb j (size x + 1) then padded x j else 0) else bad_access)
      {y = true} (ground arith)
    ∙ ap done (λ i j. copied x j i)

-- For every size of the array, on two strings without zero characters that are shorter than the
-- array: both have keys, and the comparison of the keys, first character first, is the lexicographic
-- order of the strings.
pub transform_string_lem :
    (max_size : ℕ) (x y : List ℕ)
    → HasNoZero x
    → HasNoZero y
    → size x < max_size
    → size y < max_size
    → (a : Key) × (b : Key) × (transform_string max_size x ≡ done a)
      × (transform_string max_size y ≡ done b)
      × (key_less max_size 0 a b ≡ string_less x y)
transform_string_lem max_size x y h k l m = (
  padded x,
  padded y,
  copied_string max_size x l,
  copied_string max_size y m,
  padded_less max_size x y h k l m,
)
