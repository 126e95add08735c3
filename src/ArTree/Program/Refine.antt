-- ===== src/ArTree/Program/Refine.antt =====
-- Programs of calls on an `ar_tree` of include/art/ar_tree.h.
use cpp_art.Base.{ℕ, ◌≡◌, List, []}
use cpp_art.Tree.Key.{Key, IsBytes}
use cpp_art.Tree.Find.{done}
use cpp_art.ArTree.{init}
use cpp_art.ArTree.Program.{operations, laws}
use cpp_art.SearchTree.Program.{Call, run, list_run, AllBytes}
use cpp_art.SearchTree.Program.Refine.{run-new}

module _ {V : Type 0} (key_of : V → Key) (key_size : ℕ) (bytes : (v : V) → IsBytes (key_of v)) where
  -- Over keys whose transformed form is made of bytes, a program of calls of `insert_unique`,
  -- `erase_unique`, `find` and `size` on a new tree returns, and its answers are those of the same
  -- program on an association list of the values, where only the key bytes of the calls are read.
  pub run-init :
      (cs : List (Call V))
      → AllBytes cs
      → run (operations key_of key_size) init cs ≡ done (list_run key_of key_size [] cs)
  run-init cs b =
      run-new key_of key_size bytes (operations key_of key_size) (laws key_of key_size bytes) cs b
