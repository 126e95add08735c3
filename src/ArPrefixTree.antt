-- ===== src/ArPrefixTree.antt =====
-- The tree object `ar_prefix_tree` of include/art/ar_prefix_tree.h: root, count and dummy node, and
-- the public operations on them.
pub mod Lookup
pub mod Contract
pub mod Erasure
pub mod Program
use cpp_art.Base.{
  ℕ, zero, suc, ◌+◌, ◌-◌, ◌≡◌, Bool, true, false, ◌==◌, if◌then◌else◌, List, [], ◌∷◌, Option, none,
  some,
}
use cpp_art.Tree.Key.{Key, key_eq}
use cpp_art.Tree.Find.{Iterator, end, at, Outcome, done, throws, bad_access}
use cpp_art.PrefixTree.{Node, View, view, null, leaf, is_null, Counted}
use cpp_art.PrefixTree.Wf.{Wf}
use cpp_art.PrefixTree.Find.{find_loop}
use cpp_art.PrefixTree.Insert.{Placed, insert_loop}
use cpp_art.PrefixTree.Erase.{erase_loop}
use cpp_art.ArTree.{DummyRoot}

pub record ArPrefixTree (V : Type 0) : Type 0 where
  pub root : Node V
  pub count : ℕ
  pub dummy_root : DummyRoot

module _ {V : Type 0} where
  -- `init`, and the constructors that only call it
  unfoldable pub init : ArPrefixTree V
  init = record { root = null; count = 0; dummy_root = DummyRoot.unset }

  unfoldable pub size : ArPrefixTree V → ℕ
  size t = t.count

  unfoldable pub empty : ArPrefixTree V → Bool
  empty t = t.count == 0

  -- The dummy node keeps its pointer when the root it points to goes away.
  abbrev pub root_gone : ArPrefixTree V → DummyRoot
  root_gone t =
      if is_null t.root
      then t.dummy_root
      else elim t.dummy_root [ DummyRoot.unset ↦ DummyRoot.unset | _ ↦ DummyRoot.dangling ]

  unfoldable pub clear : ArPrefixTree V → ArPrefixTree V
  clear t = record { root = null; count = 0; dummy_root = root_gone t }

  -- `replace_root`
  unfoldable pub replace_root : ArPrefixTree V → Node V → ArPrefixTree V
  replace_root t node = record t { root = node; dummy_root = DummyRoot.linked }

  -- `swap`: each object takes what the other had, the dummy node included
  unfoldable pub swap : ArPrefixTree V × ArPrefixTree V → ArPrefixTree V × ArPrefixTree V
  swap (a, b) = (b, a)

module _ {V : Type 0} (key_of : V → Key) (key_size : ℕ) where
  unfoldable pub find : ArPrefixTree V → Key → Outcome (Iterator V)
  find t key =
      if is_null t.root then done end else find_loop key_of key_size (suc key_size) 0 t.root key

  -- A root that is replaced is linked to the dummy node, as the old one was.
  unfoldable pub insert_unique : ArPrefixTree V → V → Outcome (ArPrefixTree V × Iterator V × Bool)
  insert_unique t x =
      if is_null t.root
      then done (record (replace_root t (leaf x)) { count = t.count + 1 }, at x, true)
      else elim (insert_loop key_of key_size (suc key_size) 0 [] t.root x) [
        | done (Placed.existing w) ↦ done (t, at w, false)
        | done (Placed.placed r) ↦ done (record t { root = r; count = t.count + 1 }, at x, true)
        | throws ↦ throws
        | bad_access ↦ bad_access
      ]

  -- `insert_unique(first, last)`
  unfoldable pub insert_range : ArPrefixTree V → List V → Outcome (ArPrefixTree V)
  insert_range t [] = done t
  insert_range t (x ∷ xs) = elim (insert_unique t x) [
    | done (t', i, b) ↦ insert_range t' xs
    | throws ↦ throws
    | bad_access ↦ bad_access
  ]

  -- `assign_unique(first, last)`
  unfoldable pub assign_unique : ArPrefixTree V → List V → Outcome (ArPrefixTree V)
  assign_unique t xs = insert_range (clear t) xs

  -- `erase_unique`: the tree and how many values went. A root that is replaced is linked to the
  -- dummy node, as the old one was.
  unfoldable pub erase_unique : ArPrefixTree V → Key → Outcome (ArPrefixTree V × ℕ)
  erase_unique t key = elim (view t.root) [
    | View.nothing ↦ done (t, 0)
    | View.a_leaf w ↦
        if key_eq key_size key (key_of w)
        then done (record { root = null; count = t.count - 1; dummy_root = root_gone t }, 1)
        else done (t, 0)
    | View.an_inner n ↦ elim (erase_loop key_of key_size key_size 0 [] n key) [
      | done none ↦ done (t, 0)
      | done (some r) ↦ done (record t { root = r; count = t.count - 1 }, 1)
      | throws ↦ throws
      | bad_access ↦ bad_access
    ]
  ]

  -- The invariant of the object: the tree's, the count of its leaves, and the dummy node's pointer
  -- wherever there is a root.
  pub record IsValid (t : ArPrefixTree V) : Type 0 where
    pub wf : Wf key_of key_size key_size 0 (λ _. 0) t.root
    pub counted : Counted t.root t.count
    pub rooted : is_null t.root ≡ false → t.dummy_root ≡ DummyRoot.linked
