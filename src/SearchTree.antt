-- ===== src/SearchTree.antt =====
-- What the containers of include/art/radix_map.h and include/art/radix_set.h ask of a tree, which is
-- an `ar_tree` or an `ar_prefix_tree`: its operations, and the laws of a finite map that they hold.
pub mod Program
use cpp_art.Base.{ℕ, ◌+◌, ◌≡◌, Bool, true, false, if◌then◌else◌}
use cpp_art.Tree.Key.{Key, key_eq, IsBytes}
use cpp_art.Tree.Find.{Iterator, end, at, Outcome, done}

-- The operations of a tree object of type `T`.
pub record Operations (V T : Type 0) : Type 0 where
  pub init : T
  pub size : T → ℕ
  pub find : T → Key → Outcome (Iterator V)
  pub insert_unique : T → V → Outcome (T × Iterator V × Bool)
  pub erase_unique : T → Key → Outcome (T × ℕ)

module _ {V T : Type 0} (key_of : V → Key) (key_size : ℕ) (ops : Operations V T)
    (Valid : T → Type 0) where
  -- What `insert_unique` returns: the value in the way, or a tree with the value.
  pub data InsertResult (t : T) (x : V) : Outcome (T × Iterator V × Bool) → Type 0 where
    refused :
        {o : Outcome (T × Iterator V × Bool)} (w : V)
        → o ≡ done (t, at w, false)
        → ops.find t (key_of x) ≡ done (at w)
        → InsertResult t x o
    accepted :
        {o : Outcome (T × Iterator V × Bool)} (t' : T)
        → o ≡ done (t', at x, true)
        → Valid t'
        → ops.size t' ≡ ops.size t + 1
        → ops.find t (key_of x) ≡ done end
        → ((k : Key)
            → IsBytes k
            → ops.find t' k ≡ (if key_eq key_size k (key_of x) then done (at x) else ops.find t k))
        → InsertResult t x o

  -- What `erase_unique` returns: nothing to erase, or a tree without the key.
  pub data EraseResult (t : T) (k : Key) : Outcome (T × ℕ) → Type 0 where
    absent : {o : Outcome (T × ℕ)} → o ≡ done (t, 0) → ops.find t k ≡ done end → EraseResult t k o
    removed :
        {o : Outcome (T × ℕ)} (t' : T) (w : V)
        → o ≡ done (t', 1)
        → ops.find t k ≡ done (at w)
        → Valid t'
        → ops.size t' + 1 ≡ ops.size t
        → ((j : Key)
            → IsBytes j
            → ops.find t' j ≡ (if key_eq key_size j k then done end else ops.find t j))
        → EraseResult t k o

-- The laws, for values whose keys are made of bytes.
pub record Laws {V T : Type 0} (key_of : V → Key) (key_size : ℕ) (ops : Operations V T)
    : Type 1 where
  pub Valid : T → Type 0
  pub init_valid : Valid ops.init
  pub init_empty : (k : Key) → ops.find ops.init k ≡ done end
  pub init_size : ops.size ops.init ≡ 0
  pub inserts :
      (t : T) (x : V) → Valid t → InsertResult key_of key_size ops Valid t x (ops.insert_unique t x)
  pub erases :
      (t : T) (k : Key)
      → IsBytes k
      → Valid t
      → EraseResult key_of key_size ops Valid t k (ops.erase_unique t k)
