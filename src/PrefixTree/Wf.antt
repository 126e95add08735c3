-- ===== src/PrefixTree/Wf.antt =====
-- The invariant of a subtree of include/art/ar_prefix_tree.h.
use cpp_art.Base.{ℕ, zero, suc, ◌+◌, ◌≡◌, ◌<◌, ◌≤◌, set}
use cpp_art.Node.Body
use cpp_art.PrefixTree.{Node, Inner, View, view, node_pointer}
use cpp_art.Tree.Key.{Key, Agree}

-- `MAX_PREFIX_LENGTH`
abbrev pub max_prefix_length : ℕ
max_prefix_length = 8

module _ {V : Type 0} (key_of : V → Key) (key_size : ℕ) where
  -- An inner node at a depth: its record of the depth is right, its class's invariant holds, it
  -- is not smaller than its class allows, its prefix ends before the last byte of the keys and
  -- stands for bytes of a path `line` that goes on from `path`, of which it stores the first
  -- eight, and every child satisfies `below` for the depth and the path that lead to it.
  pub record InnerWf (d : ℕ) (path : Key) (below : ℕ → Key → Node V → Type 0) (n : Inner V)
      : Type 0 where
    pub at_depth : n.head.depth ≡ d
    pub valid : Body.IsValid n.body
    pub roomy : Body.min_size n.body ≤ Body.size n.body
    pub span : d + n.head.prefix_length < key_size
    pub line : Key
    pub onward : Agree d line path
    pub bytes : (j : ℕ) → j < n.head.prefix_length → line (d + j) < 256
    pub stored :
        (j : ℕ) → j < n.head.prefix_length → j < max_prefix_length → n.head.prefix j ≡ line (d + j)
    pub children :
        (c : ℕ)
        → c < 256
        → below
            (suc (d + n.head.prefix_length))
            (set line (d + n.head.prefix_length) c)
            (Body.find n.body c)

  abbrev pub Layer : ℕ → Key → (ℕ → Key → Node V → Type 0) → View V → Type 0
  Layer d path below View.nothing = Unit {0}
  Layer d path below (View.a_leaf v) = Agree d (key_of v) path
  Layer d path below (View.an_inner n) = InnerWf d path below n

  -- No inner node.
  abbrev pub Bottom : ℕ → Key → View V → Type 0
  Bottom d path View.nothing = Unit {0}
  Bottom d path (View.a_leaf v) = Agree d (key_of v) path
  Bottom d path (View.an_inner n) = ⊥

  -- A subtree of at most `r` layers of inner nodes, at depth `d`, below the first `d` bytes of
  -- `path`.
  abbrev pub Wf : ℕ → ℕ → Key → Node V → Type 0
  Wf zero d path t = Bottom d path (view t)
  Wf (suc r) d path t = Layer d path (Wf r) (view t)
