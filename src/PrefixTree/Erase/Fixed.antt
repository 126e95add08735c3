-- ===== src/PrefixTree/Erase/Fixed.antt =====
-- What `fix_after_erase` of include/art/ar_prefix_tree.h starts from and what it should give.
use cpp_art.Base.{ℕ, suc, ◌+◌, ◌≡◌, ◌<◌, ◌≤◌, false, set}
use cpp_art.Node.Body
use cpp_art.PrefixTree.{Node, Inner, node_pointer, is_null, Member, Counted}
use cpp_art.PrefixTree.Wf.{Wf, max_prefix_length}
use cpp_art.Tree.Key.{Key}

module _ {V : Type 0} (key_of : V → Key) (key_size : ℕ) where
  -- An inner node on the way of a key, prefix included, that may lack one child.
  pub record Thin (r d : ℕ) (k : Key) (n : Inner V) : Type 0 where
    pub at_depth : n.head.depth ≡ d
    pub valid : Body.IsValid n.body
    pub sized : Body.min_size n.body ≤ Body.size n.body + 1
    pub span : d + n.head.prefix_length < key_size
    pub stored :
        (j : ℕ) → j < n.head.prefix_length → j < max_prefix_length → n.head.prefix j ≡ k (d + j)
    pub children :
        (c : ℕ)
        → c < 256
        → Wf key_of key_size r
            (suc (d + n.head.prefix_length))
            (set k (d + n.head.prefix_length) c)
            (Body.find n.body c)

  -- A subtree that holds the invariant and has the values of another.
  pub record Fixed (d : ℕ) (k : Key) (t t' : Node V) : Type 0 where
    pub layers : ℕ
    pub wf : Wf key_of key_size layers d k t'
    pub solid : is_null t' ≡ false
    pub into : (v : V) → Member v t → Member v t'
    pub out : (v : V) → Member v t' → Member v t
    pub count : (m : ℕ) → Counted t m → Counted t' m
