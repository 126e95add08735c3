-- ===== src/ArTree/Program.antt =====
-- The operations of `ar_tree` of include/art/ar_tree.h as those that a container asks of its tree.
pub mod Refine
use cpp_art.Base.{ℕ, ◌≡◌, refl, Bool, sym, ◌∙◌}
use cpp_art.Tree.Key.{Key, IsBytes}
use cpp_art.Tree.Find.{Iterator, end, at, Outcome, done}
use cpp_art.SearchTree.{Operations, Laws}
use cpp_art.SearchTree as Search
use cpp_art.ArTree.{ArTree, IsValid}
use cpp_art.ArTree as Tree
use cpp_art.ArTree.Laws.{insert_unique_lem}
use cpp_art.ArTree.Laws as TreeLaws
use cpp_art.ArTree.Erasure.{erase_unique_lem}
use cpp_art.ArTree.Erasure as TreeErasure
use cpp_art.ArTree.Contract.{init-IsValid, find-init}

module _ {V : Type 0} (key_of : V → Key) (key_size : ℕ) where
  abbrev pub operations : Operations V (ArTree V)
  operations = record {
    init = Tree.init;
    size = Tree.size;
    find = Tree.find key_of key_size;
    insert_unique = Tree.insert_unique key_of key_size;
    erase_unique = Tree.erase_unique key_of key_size;
  }

module _ {V : Type 0} (key_of : V → Key) (key_size : ℕ) (bytes : (v : V) → IsBytes (key_of v)) where
  inserts :
      (t : ArTree V) (x : V) {o : Outcome (ArTree V × Iterator V × Bool)}
      → TreeLaws.InsertResult key_of key_size bytes t x o
      → Search.InsertResult key_of key_size
          (operations key_of key_size)
          (IsValid key_of key_size)
          t
          x
          o
  unfolding Tree.size
  inserts t x (TreeLaws.refused w o f) = Search.refused w o f
  inserts t x (TreeLaws.accepted t' o v c f g) = Search.accepted t' o v c f g

  erases :
      (t : ArTree V) (k : Key) {o : Outcome (ArTree V × ℕ)}
      → TreeErasure.EraseResult key_of key_size t k o
      → Search.EraseResult key_of key_size
          (operations key_of key_size)
          (IsValid key_of key_size)
          t
          k
          o
  unfolding Tree.size
  erases t k (TreeErasure.absent o f) = Search.absent o f
  erases t k (TreeErasure.removed t' w o f v c g) = Search.removed t' w o f v c g

  -- They hold the laws of a finite map.
  pub laws : Laws key_of key_size (operations key_of key_size)
  unfolding Tree.size Tree.init
  laws = record {
    Valid = IsValid key_of key_size;
    init_valid = init-IsValid key_of key_size;
    init_empty = find-init key_of key_size;
    init_size = refl;
    inserts = λ t x v. inserts t x (insert_unique_lem key_of key_size bytes t x v);
    erases = λ t k b v. erases t k (erase_unique_lem key_of key_size t k b v);
  }
