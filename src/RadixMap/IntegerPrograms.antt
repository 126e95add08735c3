-- ===== src/RadixMap/IntegerPrograms.antt =====
-- Programs of calls on a container of include/art/radix_map.h or include/art/radix_set.h whose keys
-- are integers, and the same on an association list of integers.
use cpp_art.Base.{
  ℕ, ◌≡◌, ◌<◌, ◌≤◌, ◌^◌, ◌∙◌, refl, ap, arith, Bool, true, false, if◌then◌else◌, ◌==◌, List, [],
  ◌∷◌, Bool-cases, inl, inr,
}
use cpp_art.Tree.Key.{Key}
use cpp_art.Tree.Find.{Iterator, end, at, done}
use cpp_art.SearchTree.Program.{
  Call, insert, erase, look_up, get_size, Answer, inserted, erased, found, sized, list_find,
  list_remove, list_call, list_run, list_size, AllBytes,
}
use cpp_art.KeyTransform.{Width, size_of, range, chunks, transform}
use cpp_art.KeyTransform.Bytes.{chunks-IsBytes}
use cpp_art.KeyTransform.Order.{key_eq-transform}
use cpp_art.RadixMap.Rep.{rep_run, rep_run_lem}

-- A call whose keys are integers.
pub data IntegerCall (V : Type 0) : Type 0 where
  put : V → IntegerCall V
  drop : ℕ → IntegerCall V
  seek : ℕ → IntegerCall V
  get_count : IntegerCall V

module _ {V : Type 0} (integer_of : V → ℕ) where
  unfoldable pub first_of : List V → ℕ → Iterator V
  first_of [] k = end
  first_of (x ∷ xs) k = if k == integer_of x then at x else first_of xs k

  unfoldable pub without : List V → ℕ → List V
  without [] k = []
  without (x ∷ xs) k = let rest = without xs k in if k == integer_of x then rest else x ∷ rest

  unfoldable pub integer_call : List V → IntegerCall V → List V × Answer V
  integer_call xs (put x) = elim (first_of xs (integer_of x)) [
    | end ↦ (x ∷ xs, inserted (at x) true)
    | at w ↦ (xs, inserted (at w) false)
  ]
  integer_call xs (drop k) = elim (first_of xs k) [
    | end ↦ (xs, erased 0)
    | at w ↦ (without xs k, erased 1)
  ]
  integer_call xs (seek k) = (xs, found (first_of xs k))
  integer_call xs get_count = (xs, sized (list_size xs))

  -- The answers of a program on an association list.
  unfoldable pub integer_run : List V → List (IntegerCall V) → List (Answer V)
  integer_run xs [] = []
  integer_run xs (c ∷ cs) = let (ys, a) = integer_call xs c in a ∷ integer_run ys cs

  -- The integers of a program are in the range of their type.
  abbrev pub InRange : Width → List (IntegerCall V) → Type 0
  InRange w [] = Unit {0}
  InRange w (put x ∷ cs) = (integer_of x < range w) × InRange w cs
  InRange w (drop k ∷ cs) = (k < range w) × InRange w cs
  InRange w (seek k ∷ cs) = (k < range w) × InRange w cs
  InRange w (get_count ∷ cs) = InRange w cs

  abbrev pub AllInRange : Width → List V → Type 0
  AllInRange w [] = Unit {0}
  AllInRange w (x ∷ xs) = (integer_of x < range w) × AllInRange w xs

size_of-le : (w : Width) → size_of w ≤ 2 ^ 16
size_of-le Width.w8 = omega arith
size_of-le Width.w16 = omega arith
size_of-le Width.w32 = omega arith
size_of-le Width.w64 = omega arith

module _ {V : Type 0} (integer_of : V → ℕ) (signed : Bool) (w : Width) (machine : Bool) where
  -- The transformed key of an integer, and of a value.
  abbrev pub key_of_integer : ℕ → Key
  key_of_integer k = chunks w machine (transform signed w machine k)

  abbrev pub key_of : V → Key
  key_of v = key_of_integer (integer_of v)

  -- The call on the tree.
  unfoldable pub on_tree : IntegerCall V → Call V
  on_tree (put x) = insert x
  on_tree (drop k) = erase (key_of_integer k)
  on_tree (seek k) = look_up (key_of_integer k)
  on_tree get_count = get_size

  unfoldable pub all_on_tree : List (IntegerCall V) → List (Call V)
  all_on_tree [] = []
  all_on_tree (c ∷ cs) = on_tree c ∷ all_on_tree cs

  find-integer :
      (xs : List V) (k : ℕ)
      → AllInRange integer_of w xs
      → k < range w
      → list_find key_of (size_of w) xs (key_of_integer k) ≡ first_of integer_of xs k
  unfolding list_find first_of
  find-integer [] k h l = refl
  find-integer (x ∷ xs) k h l =
      rw (key_eq-transform signed w machine k (integer_of x) l h.0)
        (ap (λ (r : Iterator V). if k == integer_of x then at x else r) (find-integer xs k h.1 l))

  remove-integer :
      (xs : List V) (k : ℕ)
      → AllInRange integer_of w xs
      → k < range w
      → list_remove key_of (size_of w) xs (key_of_integer k) ≡ without integer_of xs k
  unfolding list_remove without
  remove-integer [] k h l = refl
  remove-integer (x ∷ xs) k h l =
      rw (key_eq-transform signed w machine k (integer_of x) l h.0)
        (ap (λ (r : List V). if k == integer_of x then r else x ∷ r) (remove-integer xs k h.1 l))

  without-AllInRange :
      (xs : List V) (k : ℕ)
      → AllInRange integer_of w xs
      → AllInRange integer_of w (without integer_of xs k)
  unfolding without
  without-AllInRange [] k h = h
  without-AllInRange (x ∷ xs) k h = elim (Bool-cases (k == integer_of x)) [
    | inl e ↦ rw e (without-AllInRange xs k h.1)
    | inr e ↦ rw e (h.0, without-AllInRange xs k h.1)
  ]

  -- One call on the association lists, by bytes and by integers.
  call-on_tree :
      (xs : List V) (c : IntegerCall V)
      → AllInRange integer_of w xs
      → InRange integer_of w (c ∷ [])
      → list_call key_of (size_of w) xs (on_tree c) ≡ integer_call integer_of xs c
  unfolding list_call on_tree integer_call
  call-on_tree xs (put x) h l = rw (find-integer xs (integer_of x) h l.0, list_call, on_tree) refl
  call-on_tree xs (drop k) h l =
      rw (find-integer xs k h l.0, list_call, on_tree)
        (ap
          (λ (ys : List V). elim (first_of integer_of xs k) as (λ _. List V × Answer V) [
            | end ↦ (xs, erased 0)
            | at v ↦ (ys, erased 1)
          ])
          (remove-integer xs k h l.0))
  call-on_tree xs (seek k) h l = rw (find-integer xs k h l.0, list_call, on_tree) refl
  call-on_tree xs get_count h l = refl

  call-AllInRange :
      (xs : List V) (c : IntegerCall V)
      → AllInRange integer_of w xs
      → InRange integer_of w (c ∷ [])
      → AllInRange integer_of w (integer_call integer_of xs c).0
  unfolding integer_call
  call-AllInRange xs (put x) h l =
      elim (first_of integer_of xs (integer_of x))
        as (λ i.
          AllInRange integer_of w
            (elim i as (λ _. List V × Answer V) [
              | end ↦ (x ∷ xs, inserted (at x) true)
              | at v ↦ (xs, inserted (at v) false)
            ]).0) [ end ↦ (l.0, h) | at v ↦ h ]
  call-AllInRange xs (drop k) h l =
      elim (first_of integer_of xs k)
        as (λ i.
          AllInRange integer_of w
            (elim i as (λ _. List V × Answer V) [
              | end ↦ (xs, erased 0)
              | at v ↦ (without integer_of xs k, erased 1)
            ]).0) [ end ↦ h | at v ↦ without-AllInRange xs k h ]
  call-AllInRange xs (seek k) h l = h
  call-AllInRange xs get_count h l = h

  InRange-first :
      (c : IntegerCall V) (cs : List (IntegerCall V))
      → InRange integer_of w (c ∷ cs)
      → InRange integer_of w (c ∷ []) × InRange integer_of w cs
  InRange-first (put x) cs l = ((l.0, tt), l.1)
  InRange-first (drop k) cs l = ((l.0, tt), l.1)
  InRange-first (seek k) cs l = ((l.0, tt), l.1)
  InRange-first get_count cs l = (tt, l)

  run-all_on_tree :
      (xs : List V) (cs : List (IntegerCall V))
      → AllInRange integer_of w xs
      → InRange integer_of w cs
      → list_run key_of (size_of w) xs (all_on_tree cs) ≡ integer_run integer_of xs cs
  unfolding list_run all_on_tree integer_run
  run-all_on_tree xs [] h l = refl
  run-all_on_tree xs (c ∷ cs) h l =
      let (first, rest) = InRange-first c cs l in
      rw (call-on_tree xs c h first) (
        ap (λ (r : List (Answer V)). (integer_call integer_of xs c).1 ∷ r)
          (run-all_on_tree (integer_call integer_of xs c).0 cs (call-AllInRange xs c h first) rest))

  all_on_tree-AllBytes : (cs : List (IntegerCall V)) → AllBytes (all_on_tree cs)
  unfolding all_on_tree on_tree
  all_on_tree-AllBytes [] = tt
  all_on_tree-AllBytes (put x ∷ cs) = all_on_tree-AllBytes cs
  all_on_tree-AllBytes (drop k ∷ cs) = (chunks-IsBytes w machine _, all_on_tree-AllBytes cs)
  all_on_tree-AllBytes (seek k ∷ cs) = (chunks-IsBytes w machine _, all_on_tree-AllBytes cs)
  all_on_tree-AllBytes (get_count ∷ cs) = all_on_tree-AllBytes cs

  -- For every integer type of the keys and both byte orders, and every program of insertions,
  -- erasures, searches and counts whose integers are in the range of the type: run on a new tree of
  -- the class that the container takes for the length of the transformed keys, the program returns,
  -- and its answers are those of an association list that compares the integers themselves.
  pub rep_run_integers :
      (cs : List (IntegerCall V))
      → InRange integer_of w cs
      → rep_run key_of (size_of w) (all_on_tree cs) ≡ done (integer_run integer_of [] cs)
  rep_run_integers cs l =
      rep_run_lem key_of (size_of w) (size_of-le w) (λ v. chunks-IsBytes w machine _)
        (all_on_tree cs) (all_on_tree-AllBytes cs)
      ∙ ap done (run-all_on_tree [] cs tt l)
