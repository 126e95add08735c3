-- ===== src/ArTree/Contract.antt =====
-- Lemmas about the public operations of `ar_tree` of include/art/ar_tree.h as those of a finite map.
use cpp_art.Base.{
  ℕ, ◌+◌, ◌≡◌, Bool, true, false, refl, ◌∙◌, sym, if◌then◌else◌, arith, inl, inr, Bool-cases,
}
use cpp_art.Tree.Key.{Key, key_eq, IsBytes}
use cpp_art.Tree.Leaves.{leaves-null}
use cpp_art.Tree.Find.{Iterator, end, at, done}
use cpp_art.Tree.Find.Steps.{Wf-null, find_loop-null, find_loop_same_key}
use cpp_art.ArTree.{ArTree, init, find, insert_unique, erase_unique, IsValid}
use cpp_art.ArTree.Laws.{find-eq-loop, insert_unique_lem, refused, accepted}
use cpp_art.ArTree.Erasure.{erase_unique_lem, absent, removed}

module _ {V : Type 0} (key_of : V → Key) (key_size : ℕ) where
  pub init-IsValid : IsValid key_of key_size init
  unfolding init
  init-IsValid = record {
    wf = Wf-null key_of key_size 0 (λ _. 0);
    counted = sym (leaves-null V key_size);
    rooted = λ h. absurd (ground arith);
  }

  pub find-init : (k : Key) → find key_of key_size init k ≡ done end
  unfolding init
  find-init k = find-eq-loop key_of key_size init k ∙ find_loop-null key_of key_size key_size 0 k

  -- Keys that are equal find the same.
  pub find_same_key :
      (t : ArTree V) (j k : Key)
      → IsBytes k
      → IsValid key_of key_size t
      → key_eq key_size j k ≡ true
      → find key_of key_size t j ≡ find key_of key_size t k
  find_same_key t j k c v e =
      find-eq-loop key_of key_size t j
      ∙ find_loop_same_key key_of key_size key_size 0 (λ _. 0) t.root j k (omega arith) c e v.wf
      ∙ sym (find-eq-loop key_of key_size t k)

  -- In a tree that holds the invariant, for a key of bytes, `erase_unique` returns a tree and a
  -- number: the tree holds the invariant, the number and the new count add up to the old count, the
  -- number is 1 if the key was found before and 0 if it was not. After it that key finds the end,
  -- and any other key finds what it found before.
  pub erase_unique_contract :
      (t : ArTree V) (k j : Key)
      → IsValid key_of key_size t
      → IsBytes k
      → IsBytes j
      → (t' : ArTree V) × (n : ℕ) × (i : Iterator V) × (erase_unique key_of key_size t k
          ≡ done (t', n))
        × IsValid key_of key_size t'
        × (t'.count + n ≡ t.count)
        × (find key_of key_size t k ≡ done i)
        × (n ≡ elim i [ end ↦ 0 | at w ↦ 1 ])
        × (find key_of key_size t' j
            ≡ (if key_eq key_size j k then done end else find key_of key_size t j))
  erase_unique_contract t k j v b c = elim (erase_unique_lem key_of key_size t k b v) [
    | absent o f ↦ (t, 0, end, o, v, omega arith, f, refl, kept f)
    | removed t' w o f v' m g ↦ (t', 1, at w, o, v', m, f, refl, g j c)
  ]
    where
      kept :
          find key_of key_size t k ≡ done end
          → find key_of key_size t j
            ≡ (if key_eq key_size j k then done end else find key_of key_size t j)
      kept f = elim (Bool-cases (key_eq key_size j k)) [
        | inl same ↦ rw same (find_same_key t j k b v same ∙ f)
        | inr ne ↦ rw ne refl
      ]

module _ {V : Type 0} (key_of : V → Key) (key_size : ℕ) (bytes : (v : V) → IsBytes (key_of v)) where
  -- In a tree that holds the invariant, over keys whose transformed form is made of bytes,
  -- `insert_unique` of a value `x` returns a tree, an iterator at a value `w` and a flag: the tree
  -- holds the invariant, and the count is one larger where the flag is set and the same where it is
  -- not. If the flag is set, the key of `x` found the end before and `w` is `x`; if it is not, the
  -- key of `x` found `w` before. After it the key of `x` finds `w`, and any other key finds what it
  -- found before.
  pub insert_unique_contract :
      (t : ArTree V) (x : V) (k : Key)
      → IsValid key_of key_size t
      → IsBytes k
      → (t' : ArTree V) × (w : V) × (inserted : Bool) × (insert_unique key_of key_size t x
          ≡ done (t', at w, inserted))
        × IsValid key_of key_size t'
        × (t'.count ≡ (if inserted then t.count + 1 else t.count))
        × (find key_of key_size t (key_of x) ≡ done (if inserted then end else at w))
        × ((if inserted then x else w) ≡ w)
        × (find key_of key_size t' k
            ≡ (if key_eq key_size k (key_of x) then done (at w) else find key_of key_size t k))
  insert_unique_contract t x k v b = elim (insert_unique_lem key_of key_size bytes t x v) [
    | refused w o f ↦ (t, w, false, o, v, refl, f, refl, kept w f)
    | accepted t' o v' c f g ↦ (t', x, true, o, v', c, f, refl, g k b)
  ]
    where
      kept :
          (w : V)
          → find key_of key_size t (key_of x) ≡ done (at w)
          → find key_of key_size t k
            ≡ (if key_eq key_size k (key_of x) then done (at w) else find key_of key_size t k)
      kept w f = elim (Bool-cases (key_eq key_size k (key_of x))) [
        | inl same ↦ rw same (find_same_key key_of key_size t k (key_of x) (bytes x) v same ∙ f)
        | inr ne ↦ rw ne refl
      ]
