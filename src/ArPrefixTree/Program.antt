-- ===== src/ArPrefixTree/Program.antt =====
-- Programs of calls on an `ar_prefix_tree` of include/art/ar_prefix_tree.h and on an
-- `ar_tree` of include/art/ar_tree.h.
use cpp_art.Base.{ℕ, ◌≡◌, ◌≤◌, ◌^◌, ◌∙◌, sym, refl, List}
use cpp_art.Tree.Key.{Key, IsBytes}
use cpp_art.SearchTree.{Laws}
use cpp_art.SearchTree.Program.{Call, run, AllBytes}
use cpp_art.SearchTree.Program.Refine.{run-new}
use cpp_art.ArTree.Program as Plain
use cpp_art.ArTree.Program.Refine.{run-init}
use cpp_art.ArTree as ArTree
use cpp_art.ArPrefixTree.{init, size, IsValid}
use cpp_art.ArPrefixTree.Contract.{operations, init-IsValid, find-init, insert_unique_lem}
use cpp_art.ArPrefixTree.Erasure.{erase_unique_lem}

module _ {V : Type 0} (key_of : V → Key) (key_size : ℕ) (short : key_size ≤ 2 ^ 16)
    (bytes : (v : V) → IsBytes (key_of v)) where
  -- The operations hold the laws of a finite map.
  pub laws : Laws key_of key_size (operations key_of key_size)
  unfolding size init
  laws = record {
    Valid = IsValid key_of key_size;
    init_valid = init-IsValid key_of key_size;
    init_empty = find-init key_of key_size;
    init_size = refl;
    inserts = insert_unique_lem key_of key_size short bytes;
    erases = erase_unique_lem key_of key_size short;
  }

  -- Over keys whose transformed form is made of bytes, at most 65536 of them, a program of calls of
  -- `insert_unique`, `erase_unique`, `find` and `size` gives the same answers on a new
  -- `ar_prefix_tree` as on a new `ar_tree`.
  pub run-ar_prefix_tree :
      (cs : List (Call V))
      → AllBytes cs
      → run (operations key_of key_size) init cs
        ≡ run (Plain.operations key_of key_size) ArTree.init cs
  run-ar_prefix_tree cs b =
      run-new key_of key_size bytes (operations key_of key_size) laws cs b
      ∙ sym (run-init key_of key_size bytes cs b)
