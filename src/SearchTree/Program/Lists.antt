-- ===== src/SearchTree/Program/Lists.antt =====
-- The association list that stands for a tree: what a removal does to it.
use cpp_art.Base.{
  ℕ, ◌+◌, ◌≡◌, true, refl, ◌∙◌, ap, if◌then◌else◌, arith, inl, inr, Bool-cases, List, [], ◌∷◌,
}
use cpp_art.Tree.Key.{Key, key_eq, key_eq_sym, key_eq_trans, key_eq_congr}
use cpp_art.Tree.Find.{end, at}
use cpp_art.SearchTree.Program.{list_find, list_remove, list_size}

module _ {V : Type 0} (key_of : V → Key) (key_size : ℕ) where
  -- No two values of the list have the same key.
  abbrev pub Distinct : List V → Type 0
  Distinct [] = Unit {0}
  Distinct (x ∷ xs) = (list_find key_of key_size xs (key_of x) ≡ end) × Distinct xs

  pub find-remove :
      (xs : List V) (k j : Key)
      → list_find key_of key_size (list_remove key_of key_size xs k) j
        ≡ (if key_eq key_size j k then end else list_find key_of key_size xs j)
  unfolding list_find list_remove
  find-remove [] k j = ground arith
  find-remove (x ∷ xs) k j = ground (
    arith,
    find-remove xs k j,
    key_eq_congr key_size j k (key_of x),
    key_eq_trans key_size j (key_of x) k,
    key_eq_sym key_size k (key_of x),
  )

  pub list_find_same_key :
      (xs : List V) (j k : Key)
      → key_eq key_size j k ≡ true
      → list_find key_of key_size xs j ≡ list_find key_of key_size xs k
  unfolding list_find
  list_find_same_key [] j k e = refl
  list_find_same_key (x ∷ xs) j k e =
      rw (key_eq_congr key_size j k (key_of x) e) (rw (list_find_same_key xs j k e) refl)

  pub remove_absent :
      (xs : List V) (k : Key)
      → list_find key_of key_size xs k ≡ end
      → list_remove key_of key_size xs k ≡ xs
  unfolding list_find list_remove
  remove_absent [] k h = refl
  remove_absent (x ∷ xs) k h = ground (arith, remove_absent xs k)

  pub remove-Distinct :
      (xs : List V) (k : Key) → Distinct xs → Distinct (list_remove key_of key_size xs k)
  unfolding list_remove
  remove-Distinct [] k d = tt
  remove-Distinct (x ∷ xs) k d = elim (Bool-cases (key_eq key_size k (key_of x))) [
    | inl e ↦ rw e (remove-Distinct xs k d.1)
    | inr e ↦ rw e (ground (arith, find-remove xs k (key_of x), d.0), remove-Distinct xs k d.1)
  ]

  pub size-remove :
      (xs : List V) (k : Key) (w : V)
      → Distinct xs
      → list_find key_of key_size xs k ≡ at w
      → list_size (list_remove key_of key_size xs k) + 1 ≡ list_size xs
  unfolding list_find list_remove list_size
  size-remove [] k w d h = cc
  size-remove (x ∷ xs) k w d h = elim (Bool-cases (key_eq key_size k (key_of x))) [
    | inl e ↦ rw e (
        ap (λ (ys : List V). list_size ys + 1)
          (remove_absent xs k (list_find_same_key xs k (key_of x) e ∙ d.0)))
    | inr e ↦ rw e (omega (arith, size-remove xs k w d.1 (rw e at h)))
  ]
