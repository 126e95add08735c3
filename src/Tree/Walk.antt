-- ===== src/Tree/Walk.antt =====
-- `minimum`, `maximum`, `successor`, `predecessor` and the bounds of include/art/ar_tree.h.
pub mod Least
pub mod Bounds
use cpp_art.Base.{
  ℕ, zero, suc, ◌+◌, Bool, true, false, ltb, ◌==◌, not, if◌then◌else◌, Option, none, some, List, [],
  ◌∷◌,
}
use cpp_art.Node.Body
use cpp_art.Node.Body.{Body}
use cpp_art.Tree.{Node, Inner, View, view, Ancestors, node_pointer}
use cpp_art.Tree.Key.{Key}
use cpp_art.Tree.Find.{Iterator, end, at, Outcome, done, throws, bad_access}

-- `memcmp` of `r` bytes from byte `j` on: is `a` before `b`?
unfoldable pub key_less : ℕ → ℕ → Key → Key → Bool
key_less zero j a b = false
key_less (suc r) j a b =
    let rest = key_less r (suc j) a b in if a j == b j then rest else ltb (a j) (b j)

module _ {V : Type 0} where
  -- `minimum()`, with `fuel` levels left
  unfoldable pub minimum : ℕ → Node V → Outcome (Iterator V)
  minimum zero t = throws
  minimum (suc fuel) t = elim (view t) [
    | View.nothing ↦ bad_access
    | View.a_leaf v ↦ done (at v)
    | View.an_inner n ↦ elim (Body.min_slot n.body) [
      | none ↦ bad_access
      | some i ↦ minimum fuel (Body.child n.body i)
    ]
  ]

  -- `maximum()`, with `fuel` levels left
  unfoldable pub maximum : ℕ → Node V → Outcome (Iterator V)
  maximum zero t = throws
  maximum (suc fuel) t = elim (view t) [
    | View.nothing ↦ bad_access
    | View.a_leaf v ↦ done (at v)
    | View.an_inner n ↦ elim (Body.max_slot n.body) [
      | none ↦ bad_access
      | some i ↦ maximum fuel (Body.child n.body i)
    ]
  ]

  -- `successor(key)` of the nearest ancestor, where `fuel` levels are enough below any of them; the
  -- dummy node's is the end marker
  unfoldable pub successor : ℕ → Ancestors V → Key → Outcome (Iterator V)
  successor fuel [] key = done end
  successor fuel (n ∷ above) key =
      let rest = successor fuel above key in
      elim (Body.next_slot n.body (key n.depth)) [
        | none ↦ rest
        | some i ↦ minimum fuel (Body.child n.body i)
      ]

  -- `predecessor(key)` of the nearest ancestor, with that of the dummy node as an argument
  unfoldable pub predecessor : ℕ → Outcome (Iterator V) → Ancestors V → Key → Outcome (Iterator V)
  predecessor fuel dummy [] key = dummy
  predecessor fuel dummy (n ∷ above) key =
      let rest = predecessor fuel dummy above key in
      elim (Body.prev_slot n.body (key n.depth)) [
        | none ↦ rest
        | some i ↦ maximum fuel (Body.child n.body i)
      ]

  -- the `_parent` pointers from the leaf of the key up
  unfoldable pub parents : ℕ → ℕ → Ancestors V → Node V → Key → Ancestors V
  parents zero depth above t key = above
  parents (suc fuel) depth above t key = elim (view t) [
    | View.an_inner n ↦ parents fuel (suc depth) (n ∷ above) (Body.find n.body (key depth)) key
    | _ ↦ above
  ]

  -- `previous_node->successor(key)`, where `previous_node` is null above the root
  unfoldable pub successor_of_previous : ℕ → Ancestors V → Key → Outcome (Iterator V)
  successor_of_previous levels [] key = bad_access
  successor_of_previous levels (n ∷ above) key = successor levels (n ∷ above) key

module _ {V : Type 0} (key_of : V → Key) (key_size : ℕ) where
  -- the loop of `lower_bound`, or of `upper_bound` with `strict`, with `fuel` rounds left
  unfoldable pub bound_loop : Bool → ℕ → ℕ → Ancestors V → Node V → Key → Outcome (Iterator V)
  bound_loop strict zero depth above current_node key = throws
  bound_loop strict (suc fuel) depth above current_node key = elim (view current_node) [
    | View.nothing ↦ successor_of_previous (suc key_size) above key
    | View.a_leaf v ↦
        if (if strict
          then key_less key_size 0 key (key_of v)
          else not (key_less key_size 0 (key_of v) key))
        then done (at v)
        else successor_of_previous (suc key_size) above key
    | View.an_inner n ↦
        bound_loop strict fuel (suc depth) (n ∷ above) (Body.find n.body (key depth)) key
  ]
