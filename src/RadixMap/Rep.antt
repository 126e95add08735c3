-- ===== src/RadixMap/Rep.antt =====
-- The tree that a container of include/art/radix_map.h takes for the length of its keys.
use cpp_art.Base.{ℕ, ◌≡◌, ◌≤◌, ◌^◌, List, [], leb, Bool-cases, inl, inr, true, false}
use cpp_art.Tree.Key.{Key, IsBytes}
use cpp_art.Tree.Find.{Outcome, done}
use cpp_art.SearchTree.Program.{Call, Answer, run, list_run, AllBytes}
use cpp_art.SearchTree.Program.Refine.{run-new}
use cpp_art.ArTree
use cpp_art.ArTree.Program as Plain
use cpp_art.ArTree.Program.Refine.{run-init}
use cpp_art.ArPrefixTree
use cpp_art.ArPrefixTree.Contract as Compressed
use cpp_art.ArPrefixTree.Program.{laws}

module _ {V : Type 0} (key_of : V → Key) (key_size : ℕ) where
  -- `_Rep_type`: a program of calls on a new tree, of the class without prefixes for transformed
  -- keys of at most 6 bytes, of the class with prefixes for longer ones.
  unfoldable pub rep_run : List (Call V) → Outcome (List (Answer V))
  rep_run cs = elim (leb key_size 6) [
    | true ↦ run (Plain.operations key_of key_size) ArTree.init cs
    | false ↦ run (Compressed.operations key_of key_size) ArPrefixTree.init cs
  ]

module _ {V : Type 0} (key_of : V → Key) (key_size : ℕ) (short : key_size ≤ 2 ^ 16)
    (bytes : (v : V) → IsBytes (key_of v)) where
  -- Over keys whose transformed form is made of bytes, at most 65536 of them, a program of calls of
  -- `insert_unique`, `erase_unique`, `find` and `size` on a new tree of the class that the container
  -- takes returns, and its answers are those of the same program on an association list.
  pub rep_run_lem :
      (cs : List (Call V))
      → AllBytes cs
      → rep_run key_of key_size cs ≡ done (list_run key_of key_size [] cs)
  unfolding rep_run
  rep_run_lem cs b = elim (Bool-cases (leb key_size 6)) [
    | inl few ↦ rw (rep_run, few) (run-init key_of key_size bytes cs b)
    | inr many ↦
        rw (rep_run, many)
          (run-new key_of key_size bytes (Compressed.operations key_of key_size)
            (laws key_of key_size short bytes) cs b)
  ]
