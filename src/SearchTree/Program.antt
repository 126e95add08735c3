-- ===== src/SearchTree/Program.antt =====
-- Programs of calls on a tree, and the same on an association list.
pub mod Lists
pub mod Refine
use cpp_art.Base.{ℕ, ◌+◌, Bool, true, false, if◌then◌else◌, List, [], ◌∷◌}
use cpp_art.Tree.Key.{Key, key_eq, IsBytes}
use cpp_art.Tree.Find.{Iterator, end, at, Outcome, done, throws, bad_access}
use cpp_art.SearchTree.{Operations}

-- A call of `insert_unique`, `erase_unique`, `find` or `size`, and what each returns.
pub data Call (V : Type 0) : Type 0 where
  insert : V → Call V
  erase : Key → Call V
  look_up : Key → Call V
  get_size : Call V

pub data Answer (V : Type 0) : Type 0 where
  inserted : Iterator V → Bool → Answer V
  erased : ℕ → Answer V
  found : Iterator V → Answer V
  sized : ℕ → Answer V

module _ {V : Type 0} where
  unfoldable pub answer_first : Answer V → Outcome (List (Answer V)) → Outcome (List (Answer V))
  answer_first a (done more) = done (a ∷ more)
  answer_first a throws = throws
  answer_first a bad_access = bad_access

  unfoldable pub list_size : List V → ℕ
  list_size [] = 0
  list_size (x ∷ xs) = list_size xs + 1

  -- The keys that a program erases and looks up are made of bytes.
  abbrev pub AllBytes : List (Call V) → Type 0
  AllBytes [] = Unit {0}
  AllBytes (insert x ∷ cs) = AllBytes cs
  AllBytes (erase k ∷ cs) = IsBytes k × AllBytes cs
  AllBytes (look_up k ∷ cs) = IsBytes k × AllBytes cs
  AllBytes (get_size ∷ cs) = AllBytes cs

module _ {V : Type 0} (key_of : V → Key) (key_size : ℕ) where
  -- The same on a list of values: a key finds the first value that has it.
  unfoldable pub list_find : List V → Key → Iterator V
  list_find [] k = end
  list_find (x ∷ xs) k = if key_eq key_size k (key_of x) then at x else list_find xs k

  unfoldable pub list_remove : List V → Key → List V
  list_remove [] k = []
  list_remove (x ∷ xs) k =
      let rest = list_remove xs k in if key_eq key_size k (key_of x) then rest else x ∷ rest

  unfoldable pub list_call : List V → Call V → List V × Answer V
  list_call xs (insert x) = elim (list_find xs (key_of x)) [
    | end ↦ (x ∷ xs, inserted (at x) true)
    | at w ↦ (xs, inserted (at w) false)
  ]
  list_call xs (erase k) = elim (list_find xs k) [
    | end ↦ (xs, erased 0)
    | at w ↦ (list_remove xs k, erased 1)
  ]
  list_call xs (look_up k) = (xs, found (list_find xs k))
  list_call xs get_size = (xs, sized (list_size xs))

  unfoldable pub list_run : List V → List (Call V) → List (Answer V)
  list_run xs [] = []
  list_run xs (c ∷ cs) = let (ys, a) = list_call xs c in a ∷ list_run ys cs

module _ {V T : Type 0} (ops : Operations V T) where
  -- One call on the tree object.
  unfoldable pub call : T → Call V → Outcome (T × Answer V)
  call t (insert x) = elim (ops.insert_unique t x) [
    | done (t', i, b) ↦ done (t', inserted i b)
    | throws ↦ throws
    | bad_access ↦ bad_access
  ]
  call t (erase k) = elim (ops.erase_unique t k) [
    | done (t', n) ↦ done (t', erased n)
    | throws ↦ throws
    | bad_access ↦ bad_access
  ]
  call t (look_up k) = elim (ops.find t k) [
    | done i ↦ done (t, found i)
    | throws ↦ throws
    | bad_access ↦ bad_access
  ]
  call t get_size = done (t, sized (ops.size t))

  -- The answers of a program of calls.
  unfoldable pub run : T → List (Call V) → Outcome (List (Answer V))
  run t [] = done []
  run t (c ∷ cs) = elim (call t c) [
    | done (t', a) ↦ answer_first a (run t' cs)
    | throws ↦ throws
    | bad_access ↦ bad_access
  ]
