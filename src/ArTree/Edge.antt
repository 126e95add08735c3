-- ===== src/ArTree/Edge.antt =====
-- The dummy node of an emptied tree, in include/art/ar_tree.h.
pub mod Bounds
use cpp_art.Base.{ℕ, ◌≡◌, true, refl, arith, ap, ◌-◌, ◌∙◌}
use cpp_art.Tree.{null, leaf, view}
use cpp_art.Tree.Leaves.{leaves, leaves-leaf}
use cpp_art.Tree.Key.{Key, key_eq}
use cpp_art.Tree.Find.{end, done, bad_access}
use cpp_art.ArTree.{ArTree, linked, dangling, root_gone, erase_unique, IsValid}
use cpp_art.ArTree.Erasure.{at_view}
use cpp_art.ArTree.Iterate.{decrement, dummy_predecessor}

module _ {V : Type 0} (key_of : V → Key) (key_size : ℕ) where
  -- In a tree that holds the invariant and whose root is a leaf, `erase_unique` of the leaf's key
  -- returns 1 and a tree that has no root and counts nothing, where the tree counted one value, and
  -- of which a decrement of the end uses a deleted node.
  pub erase_unique-decrement :
      (t : ArTree V) (k : Key) (v : V)
      → IsValid key_of key_size t
      → t.root ≡ leaf v
      → key_eq key_size k (key_of v) ≡ true
      → (t' : ArTree V) × (erase_unique key_of key_size t k ≡ done (t', 1))
        × (t'.root ≡ null)
        × (t.count ≡ 1)
        × (t'.count ≡ 0)
        × (decrement key_of key_size t' end ≡ bad_access)
  unfolding decrement dummy_predecessor
  erase_unique-decrement t k v valid p same =
      let held : t.dummy_root ≡ linked = valid.rooted (rw p refl) in
      let gone : root_gone t ≡ dangling = rw p (rw held refl) in
      let one : t.count ≡ 1 = valid.counted ∙ ap (leaves key_size) p ∙ leaves-leaf key_size v in
      (
        record { root = null; count = t.count - 1; dummy_root = root_gone t },
        at_view key_of key_size t k (ap view p) ∙ rw same refl,
        refl,
        one,
        omega (arith, one),
        rw gone refl,
      )
