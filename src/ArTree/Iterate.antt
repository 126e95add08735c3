-- ===== src/ArTree/Iterate.antt =====
-- The iterators of `ar_tree` in include/art/ar_tree.h, its bounds, and `erase` of an iterator.
pub mod Sorted
pub mod Removal
use cpp_art.Base.{ℕ, suc, ◌-◌, Bool, true, false, if◌then◌else◌, List, [], ◌∷◌}
use cpp_art.Node.Body
use cpp_art.Tree.{null, is_null, node_pointer}
use cpp_art.Tree.Key.{Key}
use cpp_art.Tree.Find.{Iterator, end, at, Outcome, done, throws, bad_access}
use cpp_art.Tree.Walk.{minimum, maximum, successor, predecessor, parents, bound_loop}
use cpp_art.Tree.Erase.{fix_after_erase}
use cpp_art.ArTree.{ArTree, DummyRoot, root_gone}

module _ {V : Type 0} (key_of : V → Key) (key_size : ℕ) where
  -- `begin`
  unfoldable pub begin : ArTree V → Outcome (Iterator V)
  begin t = if is_null t.root then done end else minimum (suc key_size) t.root

  -- `predecessor` of the dummy node
  unfoldable pub dummy_predecessor : ArTree V → Outcome (Iterator V)
  dummy_predecessor t = elim t.dummy_root [
    | DummyRoot.unset ↦ done end
    | DummyRoot.linked ↦ maximum (suc key_size) t.root
    | DummyRoot.dangling ↦ bad_access
  ]

  -- `operator++`; the end marker's parent is the dummy node
  unfoldable pub increment : ArTree V → Iterator V → Outcome (Iterator V)
  increment t end = done end
  increment t (at v) =
      successor (suc key_size) (parents (suc key_size) 0 [] t.root (key_of v)) (key_of v)

  -- `operator--`
  unfoldable pub decrement : ArTree V → Iterator V → Outcome (Iterator V)
  decrement t end = dummy_predecessor t
  decrement t (at v) =
      predecessor (suc key_size) (dummy_predecessor t)
        (parents (suc key_size) 0 [] t.root (key_of v)) (key_of v)

  unfoldable pub lower_bound : ArTree V → Key → Outcome (Iterator V)
  lower_bound t key =
      if is_null t.root
      then done end
      else bound_loop key_of key_size false (suc key_size) 0 [] t.root key

  unfoldable pub upper_bound : ArTree V → Key → Outcome (Iterator V)
  upper_bound t key =
      if is_null t.root
      then done end
      else bound_loop key_of key_size true (suc key_size) 0 [] t.root key

  unfoldable pub equal_range : ArTree V → Key → Outcome (Iterator V × Iterator V)
  equal_range t key = elim (lower_bound t key) [
    | throws ↦ throws
    | bad_access ↦ bad_access
    | done lower ↦ elim (upper_bound t key) [
      | throws ↦ throws
      | bad_access ↦ bad_access
      | done upper ↦ done (lower, upper)
    ]
  ]

  -- `erase(iterator)` at the leaf of a value
  unfoldable pub erase_at : ArTree V → V → Outcome (ArTree V × Iterator V)
  erase_at t v = elim (increment t (at v)) [
    | throws ↦ throws
    | bad_access ↦ bad_access
    | done next ↦ elim (parents (suc key_size) 0 [] t.root (key_of v)) [
      | [] ↦ done (record { root = null; count = t.count - 1; dummy_root = root_gone t }, next)
      | inner_node ∷ above ↦
          elim (fix_after_erase (key_of v)
            (record inner_node { body = Body.erase inner_node.body (key_of v inner_node.depth) })
            above) [
              | done r ↦ done (record t { root = r; count = t.count - 1 }, next)
              | throws ↦ throws
              | bad_access ↦ bad_access
            ]
    ]
  ]
