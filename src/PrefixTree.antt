-- ===== src/PrefixTree.antt =====
-- The path-compressed radix tree of include/art/ar_prefix_tree.h: its nodes. The four classes of
-- inner nodes have the arrays and the methods of include/art/ar_tree.h and a prefix besides.
pub mod Wf
pub mod Prefix
pub mod Find
pub mod Insert
pub mod Replace
pub mod Erase
use cpp_art.Base.{sum_below, ℕ, Bool, true, false, Array, Pointer, List, ◌≡◌, ◌<◌, refl}
use cpp_art.Node.Body
use cpp_art.Node.Body.{Body}

-- The fields of `_Inner_Node` besides `_count`: `_depth`, `_prefix_length` and `_prefix`.
pub record Header : Type 0 where
  pub depth : ℕ
  pub prefix_length : ℕ
  pub prefix : Array ℕ

-- A `Node_ptr` with what it points to: null, a leaf, or an inner node of one of four classes.
pub data Node (V : Type 0) : Type 0 where
  null : Node V
  leaf : V → Node V
  inner_4 : Header → ℕ → Array ℕ → (ℕ → Node V) → Node V
  inner_16 : Header → ℕ → Array ℕ → (ℕ → Node V) → Node V
  inner_48 : Header → ℕ → Array ℕ → (ℕ → Node V) → Node V
  inner_256 : Header → ℕ → (ℕ → Node V) → Node V

-- `_Inner_Node`; `_count` stands in the body.
pub record Inner (V : Type 0) : Type 0 where
  pub head : Header
  pub body : Body (Node V)

-- A node pointer after the tests `== nullptr` and `is_leaf()`.
pub data View (V : Type 0) : Type 0 where
  nothing : View V
  a_leaf : V → View V
  an_inner : Inner V → View V

module _ {V : Type 0} where
  abbrev pub view : Node V → View V
  view null = View.nothing
  view (leaf v) = View.a_leaf v
  view (inner_4 h c k ch) =
      View.an_inner
        (record { head = h; body = Body.node_4 (record { count = c; keys = k; children = ch }) })
  view (inner_16 h c k ch) =
      View.an_inner
        (record { head = h; body = Body.node_16 (record { count = c; keys = k; children = ch }) })
  view (inner_48 h c x ch) = View.an_inner (record {
    head = h;
    body = Body.node_48 (record { count = c; child_index = x; children = ch });
  })
  view (inner_256 h c ch) =
      View.an_inner
        (record { head = h; body = Body.node_256 (record { count = c; children = ch }) })

  of_body : Header → Body (Node V) → Node V
  of_body h (Body.node_4 n) = inner_4 h n.count n.keys n.children
  of_body h (Body.node_16 n) = inner_16 h n.count n.keys n.children
  of_body h (Body.node_48 n) = inner_48 h n.count n.child_index n.children
  of_body h (Body.node_256 n) = inner_256 h n.count n.children

  -- an inner node as a `Node_ptr`
  unfoldable pub of_inner : Inner V → Node V
  unfolding of_body
  of_inner n = of_body n.head n.body

  view-of_body :
      (h : Header) (b : Body (Node V))
      → view (of_body h b) ≡ View.an_inner (record { head = h; body = b })
  unfolding of_body
  view-of_body h (Body.node_4 n) = refl
  view-of_body h (Body.node_16 n) = refl
  view-of_body h (Body.node_48 n) = refl
  view-of_body h (Body.node_256 n) = refl

  pub view-of_inner : (n : Inner V) → view (of_inner n) ≡ View.an_inner n
  unfolding of_inner
  view-of_inner n = view-of_body n.head n.body

  abbrev pub is_nothing : View V → Bool
  is_nothing View.nothing = true
  is_nothing _ = false

  abbrev pub is_a_leaf : View V → Bool
  is_a_leaf (View.a_leaf v) = true
  is_a_leaf _ = false

  -- `is_leaf()`
  abbrev pub is_leaf : Node V → Bool
  is_leaf t = is_a_leaf (view t)

  -- `node == nullptr`
  abbrev pub is_null : Node V → Bool
  is_null t = is_nothing (view t)

  pub eq_null : (t : Node V) → is_null t ≡ true → t ≡ null
  eq_null null h = refl
  eq_null t h = cc

  instance abbrev pub node_pointer : Pointer (Node V)
  node_pointer = record { null = null; is_null = is_null; is_null-null = refl; eq_null = eq_null }

pub not_null : {V : Type 0} (t : Node V) → is_null t ≡ false → ¬ (t ≡ null)
not_null t h p = cc

-- A node pointer is null, or points to a leaf, or to an inner node.
pub data NodeCase {V : Type 0} (t : Node V) : Type 0 where
  null_case : t ≡ null → NodeCase t
  leaf_case : (v : V) → t ≡ leaf v → NodeCase t
  inner_case : (n : Inner V) → t ≡ of_inner n → NodeCase t

pub node_case : {V : Type 0} (t : Node V) → NodeCase t
unfolding of_inner of_body
node_case null = NodeCase.null_case refl
node_case (leaf v) = NodeCase.leaf_case v refl
node_case (inner_4 h c k ch) =
    NodeCase.inner_case
      (record { head = h; body = Body.node_4 (record { count = c; keys = k; children = ch }) }) refl
node_case (inner_16 h c k ch) =
    NodeCase.inner_case
      (record { head = h; body = Body.node_16 (record { count = c; keys = k; children = ch }) })
      refl
node_case (inner_48 h c x ch) =
    NodeCase.inner_case
      (record {
        head = h;
        body = Body.node_48 (record { count = c; child_index = x; children = ch });
      })
      refl
node_case (inner_256 h c ch) =
    NodeCase.inner_case
      (record { head = h; body = Body.node_256 (record { count = c; children = ch }) }) refl

-- `_parent` of the node below: the ancestors, nearest first. The dummy node above the root is the
-- end of the list. A node that changes in place is seen through its parent's pointer, so a change
-- is written into the parent, and so on up to the root.
abbrev pub Ancestors : Type 0 → Type 0
Ancestors V = List (Inner V)

-- A value of the subtree.
pub data Member {V : Type 0} (v : V) : Node V → Type 0 where
  here : {t : Node V} → t ≡ leaf v → Member v t
  below :
      {t : Node V} (n : Inner V) (c : ℕ)
      → t ≡ of_inner n
      → c < 256
      → Member v (Body.find n.body c)
      → Member v t

-- The subtree holds that many leaves.
pub data Counted {V : Type 0} : Node V → ℕ → Type 0 where
  no_leaf : {t : Node V} → t ≡ null → Counted t 0
  one_leaf : {t : Node V} (v : V) → t ≡ leaf v → Counted t 1
  in_children :
      {t : Node V} {k : ℕ} (n : Inner V) (f : ℕ → ℕ)
      → t ≡ of_inner n
      → k ≡ sum_below 256 f
      → ((c : ℕ) → c < 256 → Counted (Body.find n.body c) (f c))
      → Counted t k
