-- ===== src/Tests/Trees.antt =====
-- The tree at concrete values: three keys of two bytes, two of them below a common byte.
use cpp_art.Base.{ℕ, ◌+◌, ◌≡◌, Bool, true, false, refl, ◌∙◌, arith, List, [], ◌∷◌, if◌then◌else◌}
use cpp_art.Tree.{of_inner}
use cpp_art.Tree.Key.{key_eq}
use cpp_art.Tree.Find.{Iterator, end, at, done}
use cpp_art.Tree.Insert.{insert_loop}
use cpp_art.Tree.Insert.Loop.{Inserted, insert_loop_lem}
use cpp_art.Tree.Erase.{erase_loop}
use cpp_art.Tree.Erase.Loop.{Erased, erase_loop_lem}
use cpp_art.Tree.Find.Steps.{Wf-of_inner, Wf-Agree, InnerWf-of_Wf}
use cpp_art.ArTree.{ArTree, init, find, insert_unique, erase_unique, IsValid}
use cpp_art.ArTree.{clear, move, move_assign}
use cpp_art.ArTree.Transfer.{move_lem}
use cpp_art.ArTree.Laws.{find_returns}
use cpp_art.ArTree.Contract.{insert_unique_contract, erase_unique_contract}
use cpp_art.ArTree.Program.{operations}
use cpp_art.SearchTree.Program.{
  Call, insert, erase, look_up, get_size, inserted, erased, found, sized, run, list_run, list_call,
  list_find, list_remove, list_size,
}
use cpp_art.ArTree.Program.Refine.{run-init}
use cpp_art.Tests.Samples.{
  key_of, key_of-IsBytes, origin, top_node, top_node-InnerWf, three_values, three_values-IsValid,
}

abbrev program : List (Call ℕ)
program =
    insert 258 ∷ insert 259 ∷ insert 258 ∷ get_size ∷ erase (key_of 258) ∷ look_up (key_of 259) ∷ []

run-init_example : run (operations key_of 2) init program ≡ done (list_run key_of 2 [] program)
run-init_example =
    run-init key_of 2 key_of-IsBytes program (key_of-IsBytes 258, (key_of-IsBytes 259, tt))

insert_unique_contract_example :
    (t' : ArTree ℕ) × (w : ℕ) × (inserted : Bool) × (insert_unique key_of 2 three_values 300
      ≡ done (t', at w, inserted))
    × IsValid key_of 2 t'
    × (t'.count ≡ (if inserted then 4 else 3))
    × (find key_of 2 three_values (key_of 300) ≡ done (if inserted then end else at w))
    × ((if inserted then 300 else w) ≡ w)
    × (find key_of 2 t' (key_of 512) ≡ (
        if key_eq 2 (key_of 512) (key_of 300)
        then done (at w)
        else find key_of 2 three_values (key_of 512)))
insert_unique_contract_example =
    insert_unique_contract key_of 2 key_of-IsBytes three_values 300 (key_of 512)
      three_values-IsValid (key_of-IsBytes 512)

erase_unique_contract_example :
    (t' : ArTree ℕ) × (n : ℕ) × (i : Iterator ℕ) × (erase_unique key_of 2 three_values (key_of 258)
      ≡ done (t', n))
    × IsValid key_of 2 t'
    × (t'.count + n ≡ 3)
    × (find key_of 2 three_values (key_of 258) ≡ done i)
    × (n ≡ elim i [ end ↦ 0 | at w ↦ 1 ])
    × (find key_of 2 t' (key_of 259) ≡ (
        if key_eq 2 (key_of 259) (key_of 258)
        then done end
        else find key_of 2 three_values (key_of 259)))
erase_unique_contract_example =
    erase_unique_contract key_of 2 three_values (key_of 258) (key_of 259) three_values-IsValid
      (key_of-IsBytes 258) (key_of-IsBytes 259)

find_returns_example : (i : Iterator ℕ) × (find key_of 2 three_values (key_of 258) ≡ done i)
find_returns_example =
    find_returns key_of 2 three_values (key_of 258) three_values-IsValid (key_of-IsBytes 258)

insert_loop_lem_example :
    Inserted key_of 2 key_of-IsBytes 2 0 []
      (of_inner top_node)
      300
      (insert_loop key_of 2 3 0 [] (of_inner top_node) 300)
insert_loop_lem_example =
    insert_loop_lem key_of 2 key_of-IsBytes 2 0 [] (of_inner top_node) 300 refl
      (Wf-Agree key_of 2 0 origin (key_of 300) (of_inner top_node) (λ j h. absurd (omega arith))
        (Wf-of_inner key_of 1 0 origin top_node top_node-InnerWf))
      (unfold of_inner in refl) tt

erase_loop_lem_example :
    Erased key_of 2 2 0 []
      (of_inner top_node)
      (key_of 258)
      (erase_loop key_of 2 2 0 [] top_node (key_of 258))
erase_loop_lem_example =
    erase_loop_lem key_of 2 1 0 [] top_node (key_of 258) refl (key_of-IsBytes 258) refl (
      InnerWf-of_Wf key_of 1 0 (key_of 258) top_node (
        Wf-Agree key_of 2 0 origin (key_of 258) (of_inner top_node) (λ j h. absurd (omega arith))
          (Wf-of_inner key_of 1 0 origin top_node top_node-InnerWf)))

-- What a new tree answers to the program.
run-program :
    run (operations key_of 2) init program
    ≡ done (
        inserted (at 258) true
        ∷ inserted (at 259) true
        ∷ inserted (at 258) false
        ∷ sized 2
        ∷ erased 1
        ∷ found (at 259)
        ∷ [])
run-program =
    run-init key_of 2 key_of-IsBytes program (key_of-IsBytes 258, (key_of-IsBytes 259, tt))
    ∙ unfold list_run list_call list_find list_remove list_size key_eq in refl

move_lem_example :
    (IsValid key_of 2 (move three_values).0
      × ((move three_values).0.count ≡ 3)
      × (find key_of 2 (move three_values).0 (key_of 258)
          ≡ find key_of 2 three_values (key_of 258)))
    × (IsValid key_of 2 (move_assign init three_values).0
        × ((move_assign init three_values).0.count ≡ 3)
        × (find key_of 2 (move_assign init three_values).0 (key_of 258)
            ≡ find key_of 2 three_values (key_of 258)))
    × (IsValid key_of 2 (move three_values).1
        × ((move three_values).1.count ≡ 0)
        × (find key_of 2 (move three_values).1 (key_of 258) ≡ done end))
    × (IsValid key_of 2 (move_assign init three_values).1
        × ((move_assign init three_values).1.count ≡ 0)
        × (find key_of 2 (move_assign init three_values).1 (key_of 258) ≡ done end))
    × (IsValid key_of 2 (clear three_values)
        × ((clear three_values).count ≡ 0)
        × (find key_of 2 (clear three_values) (key_of 258) ≡ done end))
move_lem_example = move_lem key_of 2 init three_values (key_of 258) three_values-IsValid
