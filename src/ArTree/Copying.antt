-- ===== src/ArTree/Copying.antt =====
-- The copy constructor and the copy assignment of `ar_tree` in include/art/ar_tree.h.
use cpp_art.Base.{ℕ, suc, ◌==◌, if◌then◌else◌}
use cpp_art.Tree.Find.{Outcome, done, throws, bad_access}
use cpp_art.Tree.Copy.{copy_node}
use cpp_art.ArTree.{ArTree, linked, init}

module _ {V : Type 0} (key_size : ℕ) where
  -- the copy constructor
  unfoldable pub copy : ArTree V → Outcome (ArTree V)
  copy x = if x.count == 0 then done init else elim (copy_node (suc key_size) x.root) [
    | done r ↦ done (record { root = r; count = x.count; dummy_root = linked })
    | throws ↦ throws
    | bad_access ↦ bad_access
  ]

  -- copy assignment from another object; what the assigned object held is freed, and its dummy node
  -- is kept or replaced
  unfoldable pub assign : ArTree V → ArTree V → Outcome (ArTree V)
  assign t x = if x.count == 0 then done init else elim (copy_node (suc key_size) x.root) [
    | done r ↦ done (record t { root = r; count = x.count; dummy_root = linked })
    | throws ↦ throws
    | bad_access ↦ bad_access
  ]
