-- ===== src/Base/Arrays.antt =====
-- Fixed arrays as functions of the index, and pointers with their null.
-- An array's size is stated where it is indexed: each node's invariant bounds its indices.
use Prim.Native.Nat.{ℕ, zero, suc, ◌+◌, ◌-◌}
use mathlib.Core.Path.{◌≡◌, refl, fun_ext}
use mathlib.Core.Logic.{◌⊎◌, inl, inr}
use mathlib.Core.Bool.{Bool, true, ◌&&◌}
use mathlib.Core.Option.{Option, none, some}
use native.Mathlib.Omega.{arith}
use cpp_art.Base.Tests.{ltb, leb, ◌==◌, if◌then◌else◌}

abbrev pub Array {ℓ} : Type ℓ → Type ℓ
Array A = ℕ → A

module _ {ℓ} {A : Type ℓ} where
  -- `a[i] = v`
  abbrev pub set : Array A → ℕ → A → Array A
  set a i v j = if j == i then v else a j

  -- `std::move(a + pos, a + n, a + pos + 1)` on trivially copyable elements (a `memmove`)
  abbrev pub shift_right : Array A → ℕ → ℕ → Array A
  shift_right a pos n j = if ltb pos j && leb j n then a (j - 1) else a j

  -- `std::move(a + pos + 1, a + n, a + pos)`
  abbrev pub shift_left : Array A → ℕ → ℕ → Array A
  shift_left a pos n j = if leb pos j && ltb (j + 1) n then a (j + 1) else a j

  pub set_same : (a : Array A) (i : ℕ) → set a i (a i) ≡ a
  set_same a i = fun_ext (λ j. ground arith)

  pub set_twice : (a : Array A) (i : ℕ) (v : A) → set (set a i v) i v ≡ set a i v
  set_twice a i v = fun_ext (λ j. ground arith)

-- How many indices below `n` pass the test.
unfoldable pub count_below : ℕ → (ℕ → Bool) → ℕ
count_below zero p = 0
count_below (suc n) p = if p n then suc (count_below n p) else count_below n p

-- The first index from `i` on, among the next `r`, that passes the test.
unfoldable pub first_from : (ℕ → Bool) → ℕ → ℕ → Option ℕ
first_from p zero i = none
first_from p (suc r) i = let rest = first_from p r (i + 1) in if p i then some i else rest

-- The last index below `i` that passes the test.
unfoldable pub last_below : (ℕ → Bool) → ℕ → Option ℕ
last_below p zero = none
last_below p (suc i) = let rest = last_below p i in if p i then some i else rest

-- `dst` with its first `n` elements copied from `src`
abbrev pub copy_n {ℓ} : {A : Type ℓ} → ℕ → Array A → Array A → Array A
copy_n n src dst i = if ltb i n then src i else dst i

-- A pointer type: its null, and the test against `nullptr`.
pub record Pointer {ℓ} (P : Type ℓ) : Type ℓ where
  pub null : P
  pub is_null : P → Bool
  pub is_null-null : is_null null ≡ true
  pub eq_null : (p : P) → is_null p ≡ true → p ≡ null

pub Option-cases {ℓ} : {A : Type ℓ} (o : Option A) → ((a : A) × (o ≡ some a)) ⊎ (o ≡ none)
Option-cases none = inr refl
Option-cases (some a) = inl (a, refl)
