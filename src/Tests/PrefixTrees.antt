-- ===== src/Tests/PrefixTrees.antt =====
-- The path-compressed tree at concrete values: keys of three bytes with a common prefix.
use cpp_art.Base.{
  ltb, ◌-◌, ℕ, ◌≡◌, ◌%◌, ◌/◌, ◌<◌, true, refl, arith, List, [], ◌∷◌, if◌then◌else◌, ◌==◌, eq_or_ne,
  inl, inr, ◌∙◌,
}
use cpp_art.Tree.Key.{Key, key_eq, IsBytes}
use cpp_art.Tree.Find.{at, done}
use cpp_art.PrefixTree.{Node, Inner, leaf, of_inner, node_pointer, one_leaf}
use cpp_art.PrefixTree.Wf.{Wf, InnerWf}
use cpp_art.PrefixTree.Prefix.Steps.{Wf-Agree, InnerWf-of_Wf, is_null-of_inner}
use cpp_art.PrefixTree.Prefix.{prefix_mismatch_pos}
use cpp_art.PrefixTree.Prefix.Least.{Mismatch, prefix_mismatch_pos_lem}
use cpp_art.PrefixTree.Insert.Tiebreak.{fork, fork-Grown}
use cpp_art.PrefixTree.Insert.Open.{Grown}
use cpp_art.ArTree.{DummyRoot}
use cpp_art.ArPrefixTree.{ArPrefixTree, IsValid, init, find, insert_unique, erase_unique}
use cpp_art.ArPrefixTree.Contract.{operations, insert_unique_lem}
use cpp_art.ArPrefixTree.Erasure.{erase_unique_lem}
use cpp_art.ArPrefixTree.Program.{run-ar_prefix_tree}
use cpp_art.ArTree as ArTree
use cpp_art.ArTree.Program as Plain
use cpp_art.SearchTree.{InsertResult, EraseResult}
use cpp_art.SearchTree.Program.{
  Call, insert, erase, look_up, get_size, AllBytes, run, inserted, erased, found, sized, list_run,
  list_call, list_find, list_remove, list_size,
}
use cpp_art.ArTree.Program.Refine.{run-init}
use cpp_art.PrefixTree.Insert.{match_prefix}
use cpp_art.RadixMap.Rep.{rep_run, rep_run_lem}
use cpp_art.PrefixTree.Insert.Lone.{lone, lone-Open}
use cpp_art.PrefixTree.Insert.Descend.{Matched, match_prefix_lem}
use cpp_art.PrefixTree.Erase.{shrink_step, compress_step}
use cpp_art.PrefixTree.Erase.Fixed.{Thin, Fixed}
use cpp_art.PrefixTree.Erase.Fix.{fix_lem}
use cpp_art.ArPrefixTree.Lookup.{find_lem}
use cpp_art.PrefixTree.Find.Steps.{Found}

-- A number as a value with a key of three bytes, the largest byte first.
abbrev key3 : ℕ → Key
key3 v j = if j == 0 then (v / 65536) % 256 else (if j == 1 then (v / 256) % 256 else v % 256)

key3-IsBytes : (v : ℕ) → IsBytes (key3 v)
key3-IsBytes v j = ground (arith, mod_lt (v / 65536), mod_lt (v / 256), mod_lt v)
  where
    mod_lt : (x : ℕ) → x % 256 < 256
    mod_lt x = omega arith

-- The same with a key of seven bytes, of which the first four are zero.
abbrev key7 : ℕ → Key
key7 v j = if ltb j 4 then 0 else key3 v (j - 4)

key7-IsBytes : (v : ℕ) → IsBytes (key7 v)
key7-IsBytes v j = ground (arith, key3-IsBytes v (j - 4))

abbrev long_program : List (Call ℕ)
long_program = insert 0x010203 ∷ insert 0x010204 ∷ erase (key7 0x010203) ∷ get_size ∷ []

long_program-AllBytes : AllBytes long_program
long_program-AllBytes = (key7-IsBytes 0x010203, tt)

-- The keys 1 2 3 and 1 2 4, below a node with the prefix 1 2.
abbrev pair_node : Inner ℕ
pair_node = fork key3 0 2 0x010203 0x010204

agree : (j : ℕ) → j < 2 → key3 0x010203 j ≡ key3 0x010204 j
agree j h = elim (eq_or_ne j 0) [
  | inl p ↦ ground arith
  | inr ne ↦ let one : j ≡ 1 = omega arith in ground arith
]

pair_node-Grown : Grown key3 3 0 0x010204 (leaf 0x010203) (of_inner pair_node)
pair_node-Grown =
    fork-Grown key3 3 (omega arith) key3-IsBytes 0 2 0x010203 0x010204 agree (omega arith)
      (omega arith) (λ e. absurd (omega arith))

abbrev path : Key
path _ = 0

two_values : ArPrefixTree ℕ
two_values = record { root = of_inner pair_node; count = 2; dummy_root = DummyRoot.linked }

two_values-IsValid : IsValid key3 3 two_values
unfolding two_values
two_values-IsValid = record {
  wf =
      Wf-Agree key3 3 pair_node-Grown.layers 3 0 (key3 0x010204) path (of_inner pair_node)
        (omega arith) (λ j l. absurd (omega arith)) pair_node-Grown.wf;
  counted = pair_node-Grown.more 1 (one_leaf 0x010203 refl);
  rooted = λ h. refl;
}

find_lem_example :
    Found key3 3 two_values.root (key3 0x010204) (find key3 3 two_values (key3 0x010204))
find_lem_example =
    find_lem key3 3 two_values (key3 0x010204) two_values-IsValid (key3-IsBytes 0x010204)

insert_unique_lem_example :
    InsertResult key3 3
      (operations key3 3)
      (IsValid key3 3)
      two_values
      0x010300
      (insert_unique key3 3 two_values 0x010300)
insert_unique_lem_example =
    insert_unique_lem key3 3 (omega arith) key3-IsBytes two_values 0x010300 two_values-IsValid

erase_unique_lem_example :
    EraseResult key3 3
      (operations key3 3)
      (IsValid key3 3)
      two_values
      (key3 0x010203)
      (erase_unique key3 3 two_values (key3 0x010203))
erase_unique_lem_example =
    erase_unique_lem key3 3 (omega arith) two_values (key3 0x010203) (key3-IsBytes 0x010203)
      two_values-IsValid

-- Two values with a common prefix, a third that splits it, and an erasure that joins it again.
abbrev program : List (Call ℕ)
program =
    insert 0x010203
    ∷ insert 0x010204
    ∷ insert 0x010300
    ∷ erase (key3 0x010300)
    ∷ look_up (key3 0x010204)
    ∷ get_size
    ∷ []

program-AllBytes : AllBytes program
program-AllBytes = (key3-IsBytes 0x010300, (key3-IsBytes 0x010204, tt))

run-ar_prefix_tree_example :
    run (operations key3 3) init program ≡ run (Plain.operations key3 3) ArTree.init program
run-ar_prefix_tree_example =
    run-ar_prefix_tree key3 3 (omega arith) key3-IsBytes program program-AllBytes

rep_run_lem_example : rep_run key7 7 long_program ≡ done (list_run key7 7 [] long_program)
rep_run_lem_example =
    rep_run_lem key7 7 (omega arith) key7-IsBytes long_program long_program-AllBytes

pair_node-InnerWf : InnerWf key3 3 0 (key3 0x010300) (Wf key3 3 3) pair_node
pair_node-InnerWf = InnerWf-of_Wf key3 3 3 0 (key3 0x010300) pair_node (
    Wf-Agree key3 3 pair_node-Grown.layers 4 0 (key3 0x010204) (key3 0x010300) (of_inner pair_node)
      (omega arith) (λ j l. absurd (omega arith)) pair_node-Grown.wf)

prefix_mismatch_pos_lem_example :
    (pos : ℕ) × (prefix_mismatch_pos key3 3 pair_node (key3 0x010300) ≡ done pos)
    × Mismatch 0 pos pair_node pair_node-InnerWf.line (key3 0x010300)
prefix_mismatch_pos_lem_example =
    prefix_mismatch_pos_lem key3 3 3 0 (key3 0x010300) (key3 0x010300) pair_node pair_node-InnerWf

match_prefix_lem_example :
    Matched key3 3
      (omega arith)
      3
      0
      0x010300
      pair_node
      pair_node-InnerWf
      (match_prefix key3 3 pair_node (key3 0x010300))
match_prefix_lem_example =
    match_prefix_lem key3 3 (omega arith) 3 0 0x010300 pair_node pair_node-InnerWf

-- A one-way node above an inner node, as an erasure leaves it.
abbrev low_node : Inner ℕ
low_node = fork key3 1 2 0x010203 0x010204

low_node-Grown : Grown key3 3 1 0x010204 (leaf 0x010203) (of_inner low_node)
low_node-Grown =
    fork-Grown key3 3 (omega arith) key3-IsBytes 1 2 0x010203 0x010204 agree (omega arith)
      (omega arith) (λ e. absurd (omega arith))

abbrev one_way : Inner ℕ
one_way = lone (record { depth = 0; prefix_length = 0; prefix = λ j. 0 }) (of_inner low_node) 1

one_way-Thin : Thin key3 3 3 0 (key3 0x010204) one_way
one_way-Thin =
    let o =
      lone-Open key3 3 3 0 0x010204 one_way.head (of_inner low_node) 1 refl (omega arith)
        (λ j h l. absurd (omega arith)) (omega arith) (is_null-of_inner low_node)
        (Wf-Agree key3 3 low_node-Grown.layers 3 1 (key3 0x010204) _ (of_inner low_node)
          (omega arith) (λ j h. ground arith) low_node-Grown.wf) in
    record {
      at_depth = o.at_depth;
      valid = o.valid;
      sized = o.sized;
      span = o.span;
      stored = o.stored;
      children = o.children;
    }

fix_lem_example :
    (t : Node ℕ) × (compress_step (shrink_step one_way) ≡ done t)
    × Fixed key3 3 0 (key3 0x010204) (of_inner one_way) t
fix_lem_example =
    fix_lem key3 3 (omega arith) 3 0 (key3 0x010204) one_way (key3-IsBytes 0x010204) one_way-Thin

-- What the program answers.
run-program :
    run (operations key3 3) init program
    ≡ done (
        inserted (at 0x010203) true
        ∷ inserted (at 0x010204) true
        ∷ inserted (at 0x010300) true
        ∷ erased 1
        ∷ found (at 0x010204)
        ∷ sized 2
        ∷ [])
run-program =
    run-ar_prefix_tree key3 3 (omega arith) key3-IsBytes program program-AllBytes
    ∙ run-init key3 3 key3-IsBytes program program-AllBytes
    ∙ unfold list_run list_call list_find list_remove list_size key_eq in refl
