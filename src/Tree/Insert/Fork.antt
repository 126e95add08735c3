-- ===== src/Tree/Insert/Fork.antt =====
-- The two kinds of `_Node_4` in the chain that replaces a leaf.
use cpp_art.Base.{ℕ, ◌≡◌, ◌≢◌, false, refl, if◌then◌else◌, ◌==◌, eq→==, arith}
use cpp_art.Node.Sorted
use cpp_art.Node.Sorted.{Sorted}
use cpp_art.Node.Sorted.Change.{insert-IsValid, find-insert, count-insert}
use cpp_art.Node.Sorted.Update.{
  update_child_ptr-IsValid, find-update_child_ptr, count-update_child_ptr,
}
use cpp_art.Node.Growth.{node_4_of_leaf}
use cpp_art.Node.Growth.Copies.{node_4_of_leaf-IsValid, find-node_4_of_leaf}
use cpp_art.Tree.{Node, null, leaf, node_pointer, is_null}
use cpp_art.Tree.Key.{Key, IsBytes}

module _ {V : Type 0} (key_of : V → Key) where
  -- The last node of the chain, which holds both leaves.
  unfoldable pub fork : V → V → ℕ → Sorted (Node V)
  fork w x d = Sorted.insert (node_4_of_leaf (leaf w) (key_of w d)) (key_of x d) (leaf x)

  -- A node of the chain above `c`.
  unfoldable pub joint : V → ℕ → Node V → Sorted (Node V)
  joint w d c = Sorted.update_child_ptr (node_4_of_leaf (leaf w) (key_of w d)) (key_of w d) c

module _ {V : Type 0} (key_of : V → Key) (bytes : (v : V) → IsBytes (key_of v)) where
  pub start-IsValid : (w : V) (d : ℕ) → Sorted.IsValid 4 (node_4_of_leaf (leaf w) (key_of w d))
  start-IsValid w d = node_4_of_leaf-IsValid (leaf w) (key_of w d) refl (bytes w d)

  pub count-start : (w : V) (d : ℕ) → (node_4_of_leaf (leaf w) (key_of w d)).count ≡ 1
  unfolding node_4_of_leaf
  count-start w d = refl

  pub find-start_ne :
      (w x : V) (d : ℕ)
      → key_of w d ≢ key_of x d
      → Sorted.find (node_4_of_leaf (leaf w) (key_of w d)) (key_of x d) ≡ null
  find-start_ne w x d ne = ground (arith, find-node_4_of_leaf (leaf w) (key_of w d) (key_of x d))

  pub fork-IsValid :
      (w x : V) (d : ℕ) → key_of w d ≢ key_of x d → Sorted.IsValid 4 (fork key_of w x d)
  unfolding fork
  fork-IsValid w x d ne =
      insert-IsValid (key_of x d) (leaf x) (start-IsValid w d) (omega (arith, count-start w d))
        (bytes x d) (find-start_ne w x d ne) refl

  pub find-fork :
      (w x : V) (d c : ℕ)
      → key_of w d ≢ key_of x d
      → Sorted.find (fork key_of w x d) c
        ≡ (if c == key_of x d then leaf x else (if c == key_of w d then leaf w else null))
  unfolding fork
  find-fork w x d c ne = ground (
    arith,
    find-node_4_of_leaf (leaf w) (key_of w d) c,
    find-insert (key_of x d) (leaf x) c (start-IsValid w d) (omega (arith, count-start w d))
        (bytes x d) (find-start_ne w x d ne) refl,
  )

  pub count-fork : (w x : V) (d : ℕ) → (fork key_of w x d).count ≡ 2
  unfolding fork
  count-fork w x d = omega (
    arith,
    count-start w d,
    count-insert (node_4_of_leaf (leaf w) (key_of w d)) (key_of x d) (leaf x),
  )

  pub find-start_self :
      (w : V) (d : ℕ)
      → is_null (Sorted.find (node_4_of_leaf (leaf w) (key_of w d)) (key_of w d)) ≡ false
  find-start_self w d = rw (find-node_4_of_leaf, eq→== (key_of w d) (key_of w d) refl)

  pub joint-IsValid :
      (w : V) (d : ℕ) (c : Node V) → is_null c ≡ false → Sorted.IsValid 4 (joint key_of w d c)
  unfolding joint
  joint-IsValid w d c solid = update_child_ptr-IsValid (key_of w d) c (start-IsValid w d) solid

  pub find-joint :
      (w : V) (d : ℕ) (t : Node V) (c : ℕ)
      → is_null t ≡ false
      → Sorted.find (joint key_of w d t) c ≡ (if c == key_of w d then t else null)
  unfolding joint
  find-joint w d t c solid = ground (
    arith,
    find-node_4_of_leaf (leaf w) (key_of w d) c,
    find-update_child_ptr (key_of w d) t c (start-IsValid w d) (find-start_self w d) solid,
  )

  pub count-joint : (w : V) (d : ℕ) (t : Node V) → (joint key_of w d t).count ≡ 1
  unfolding joint
  count-joint w d t = omega (
    arith,
    count-start w d,
    count-update_child_ptr (node_4_of_leaf (leaf w) (key_of w d)) (key_of w d) t,
  )
