-- ===== src/ArTree.antt =====
-- The tree object `ar_tree` of include/art/ar_tree.h: root, count and dummy node, and the public
-- operations on them.
pub mod Laws
pub mod Erasure
pub mod Contract
pub mod Program
pub mod Iterate
pub mod Edge
pub mod Transfer
pub mod Emplace
pub mod Copying
use cpp_art.Base.{
  ℕ, zero, suc, ◌+◌, ◌^◌, ◌*◌, ◌-◌, ◌≡◌, Bool, true, false, ltb, ◌==◌, if◌then◌else◌, List, [], ◌∷◌,
  Option, none, some,
}
use cpp_art.Tree.{Node, View, view, null, leaf, is_null}
use cpp_art.Tree.Key.{Key, key_eq}
use cpp_art.Tree.Wf.{Wf}
use cpp_art.Tree.Leaves.{leaves}
use cpp_art.Tree.Find.{Iterator, end, at, Outcome, done, throws, bad_access, find_loop}
use cpp_art.Tree.Insert.{Placed, insert_loop}
use cpp_art.Tree.Erase.{erase_loop}

-- `_M_dummy_node->_root`: null, the tree's root, or a node that has been deleted or given away.
pub data DummyRoot : Type 0 where
  unset linked dangling : DummyRoot

pub record ArTree (V : Type 0) : Type 0 where
  pub root : Node V
  pub count : ℕ
  pub dummy_root : DummyRoot

module _ {V : Type 0} where
  -- `init`, and the constructors that only call it
  unfoldable pub init : ArTree V
  init = record { root = null; count = 0; dummy_root = DummyRoot.unset }

  unfoldable pub size : ArTree V → ℕ
  size t = t.count

  unfoldable pub empty : ArTree V → Bool
  empty t = t.count == 0

  -- The dummy node keeps its pointer when the root it points to goes away.
  abbrev pub root_gone : ArTree V → DummyRoot
  root_gone t =
      if is_null t.root
      then t.dummy_root
      else elim t.dummy_root [ DummyRoot.unset ↦ DummyRoot.unset | _ ↦ DummyRoot.dangling ]

  unfoldable pub clear : ArTree V → ArTree V
  clear t = record { root = null; count = 0; dummy_root = root_gone t }

  -- `replace_root`
  unfoldable pub replace_root : ArTree V → Node V → ArTree V
  replace_root t node = record t { root = node; dummy_root = DummyRoot.linked }

  -- `swap`: each object takes what the other had, the dummy node included
  unfoldable pub swap : ArTree V × ArTree V → ArTree V × ArTree V
  swap (a, b) = (b, a)

  -- the move constructor: the new object, and what is left of the source
  unfoldable pub move : ArTree V → ArTree V × ArTree V
  move x = (
    record {
      root = x.root;
      count = x.count;
      dummy_root = if is_null x.root then DummyRoot.unset else DummyRoot.linked;
    },
    record { root = null; count = 0; dummy_root = root_gone x },
  )

  -- move assignment, with what is left of the source
  unfoldable pub move_assign : ArTree V → ArTree V → ArTree V × ArTree V
  move_assign t x = (
    record {
      root = x.root;
      count = x.count;
      dummy_root = if is_null x.root then root_gone t else DummyRoot.linked;
    },
    record { root = null; count = 0; dummy_root = root_gone x },
  )

-- `max_size` for a key of `key_size` bytes, with a `size_type` of eight
unfoldable pub max_size : ℕ → ℕ
max_size key_size = if ltb key_size 8 then 2 ^ (8 * key_size) else 2 ^ 64 - 1

module _ {V : Type 0} (key_of : V → Key) (key_size : ℕ) where
  unfoldable pub find : ArTree V → Key → Outcome (Iterator V)
  find t key =
      if is_null t.root then done end else find_loop key_of key_size (suc key_size) 0 t.root key

  -- A root that is replaced is linked to the dummy node, as the old one was.
  unfoldable pub insert_unique : ArTree V → V → Outcome (ArTree V × Iterator V × Bool)
  insert_unique t x =
      if is_null t.root
      then done (record (replace_root t (leaf x)) { count = t.count + 1 }, at x, true)
      else elim (insert_loop key_of key_size (suc key_size) 0 [] t.root x) [
        | done (Placed.existing w) ↦ done (t, at w, false)
        | done (Placed.placed r) ↦ done (record t { root = r; count = t.count + 1 }, at x, true)
        | throws ↦ throws
        | bad_access ↦ bad_access
      ]

  -- `insert_unique(first, last)`
  unfoldable pub insert_range : ArTree V → List V → Outcome (ArTree V)
  insert_range t [] = done t
  insert_range t (x ∷ xs) = elim (insert_unique t x) [
    | done (t', i, b) ↦ insert_range t' xs
    | throws ↦ throws
    | bad_access ↦ bad_access
  ]

  -- `assign_unique(first, last)`
  unfoldable pub assign_unique : ArTree V → List V → Outcome (ArTree V)
  assign_unique t xs = insert_range (clear t) xs

  -- `erase_unique`: the tree and how many values went. A root that is replaced is linked to the
  -- dummy node, as the old one was.
  unfoldable pub erase_unique : ArTree V → Key → Outcome (ArTree V × ℕ)
  erase_unique t key = elim (view t.root) [
    | View.nothing ↦ done (t, 0)
    | View.a_leaf w ↦
        if key_eq key_size key (key_of w)
        then done (record { root = null; count = t.count - 1; dummy_root = root_gone t }, 1)
        else done (t, 0)
    | View.an_inner n ↦ elim (erase_loop key_of key_size key_size 0 [] n key) [
      | done none ↦ done (t, 0)
      | done (some r) ↦ done (record t { root = r; count = t.count - 1 }, 1)
      | throws ↦ throws
      | bad_access ↦ bad_access
    ]
  ]

  -- The invariant of the object: the tree's, the count of its leaves, and the dummy node's pointer
  -- wherever there is a root.
  pub record IsValid (t : ArTree V) : Type 0 where
    pub wf : Wf key_of key_size 0 (λ _. 0) t.root
    pub counted : t.count ≡ leaves key_size t.root
    pub rooted : is_null t.root ≡ false → t.dummy_root ≡ DummyRoot.linked
