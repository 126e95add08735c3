-- ===== src/Tree/Wf.antt =====
-- The invariant of a subtree of include/art/ar_tree.h.
use cpp_art.Base.{ℕ, zero, suc, ◌≡◌, ◌<◌, ◌≤◌, true, set}
use cpp_art.Node.Body
use cpp_art.Tree.{Node, Inner, View, view, is_leaf, node_pointer}
use cpp_art.Tree.Key.{Key, Agree}

module _ {V : Type 0} (key_of : V → Key) where
  -- An inner node at a depth: its record of the depth is right, its class's invariant holds, it is
  -- not smaller than its class allows (but a `_Node_4` may be a one-way node above another inner
  -- node), and every child satisfies `below` for the path that leads to it.
  pub record InnerWf (d : ℕ) (path : Key) (below : Key → Node V → Type 0) (n : Inner V)
      : Type 0 where
    pub at_depth : n.depth ≡ d
    pub valid : Body.IsValid n.body
    pub sized : 0 < Body.size n.body
    pub roomy : 2 < Body.min_size n.body → Body.min_size n.body ≤ Body.size n.body
    pub leaf_sized : (c : ℕ) → c < 256 → is_leaf (Body.find n.body c) ≡ true → 2 ≤ Body.size n.body
    pub children : (c : ℕ) → c < 256 → below (set path d c) (Body.find n.body c)

  abbrev pub Layer : ℕ → Key → (Key → Node V → Type 0) → View V → Type 0
  Layer d path below View.nothing = Unit {0}
  Layer d path below (View.a_leaf v) = Agree d (key_of v) path
  Layer d path below (View.an_inner n) = InnerWf d path below n

  -- At the depth of a whole key there are only leaves.
  abbrev pub Bottom : ℕ → Key → View V → Type 0
  Bottom d path View.nothing = Unit {0}
  Bottom d path (View.a_leaf v) = Agree d (key_of v) path
  Bottom d path (View.an_inner n) = ⊥

  -- A subtree `r` bytes above the end of the keys, at depth `d`, below the first `d` bytes of `path`.
  abbrev pub Wf : ℕ → ℕ → Key → Node V → Type 0
  Wf zero d path t = Bottom d path (view t)
  Wf (suc r) d path t = Layer d path (Wf r (suc d)) (view t)
