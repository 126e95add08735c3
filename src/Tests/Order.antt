-- ===== src/Tests/Order.antt =====
-- The order of three values, one value alone, `emplace_unique`, a copy, and a set.
use cpp_art.Base.{Bool, ◌==◌, ℕ, ◌≡◌, true, false, refl, arith, if◌then◌else◌}
use cpp_art.Node.Sorted
use cpp_art.Node.Body
use cpp_art.Tree.{Node, null, leaf, of_inner}
use cpp_art.Tree.Key.{key_eq}
use cpp_art.Tree.Leaves.{leaves}
use cpp_art.Tree.Find.{Iterator, end, at, done, bad_access, find_loop}
use cpp_art.Tree.Find.Steps.{Wf-leaf}
use cpp_art.Tree.Walk.{key_less, bound_loop, successor_of_previous}
use cpp_art.ArTree.{ArTree, DummyRoot, find, insert_unique, erase_unique, IsValid}
use cpp_art.ArTree.Iterate.{increment, decrement, lower_bound, upper_bound}
use cpp_art.ArTree.Iterate.Sorted.{Bound, lower_bound_first, upper_bound_first, increment_next}
use cpp_art.ArTree.Edge.{erase_unique-decrement}
use cpp_art.ArTree.Edge.Bounds.{BoundsResult, bounds_outcome}
use cpp_art.Node.Indexed.{Indexed}
use cpp_art.Tree.Copy.{copy_node}
use cpp_art.Tree.Copy.Failure.{copy_node-48}
use cpp_art.ArTree.Iterate.{erase_at}
use cpp_art.ArTree.Iterate.Removal.{erase_at-eq-erase_unique}
use cpp_art.RadixSet as Set
use cpp_art.RadixSet.Membership.{count-insert, count-erase}
use cpp_art.ArTree.Emplace.{emplace_unique}
use cpp_art.ArTree.Emplace.Same.{emplace_unique-eq-insert_unique}
use cpp_art.Tests.Samples.{key_of, key_of-IsBytes, origin, three_values, three_values-IsValid}

find_512 : find key_of 2 three_values (key_of 512) ≡ done (at 512)
find_512 = unfold find find_loop of_inner Body.find Sorted.find Sorted.position key_eq in refl

find_259 : find key_of 2 three_values (key_of 259) ≡ done (at 259)
find_259 = unfold find find_loop of_inner Body.find Sorted.find Sorted.position key_eq in refl

lower_bound_first_example :
    (i : Iterator ℕ) × (lower_bound key_of 2 three_values (key_of 260) ≡ done i)
    × Bound key_of 2 key_of-IsBytes false three_values (key_of 260) 512 i
lower_bound_first_example =
    lower_bound_first key_of 2 key_of-IsBytes three_values (key_of 260) 512 three_values-IsValid
      (key_of-IsBytes 260) (unfold of_inner in refl) find_512

upper_bound_first_example :
    (i : Iterator ℕ) × (upper_bound key_of 2 three_values (key_of 259) ≡ done i)
    × Bound key_of 2 key_of-IsBytes true three_values (key_of 259) 512 i
upper_bound_first_example =
    upper_bound_first key_of 2 key_of-IsBytes three_values (key_of 259) 512 three_values-IsValid
      (key_of-IsBytes 259) (unfold of_inner in refl) find_512

increment_next_example :
    (i : Iterator ℕ) × (increment key_of 2 three_values (at 259) ≡ done i)
    × Bound key_of 2 key_of-IsBytes true three_values (key_of 259) 512 i
increment_next_example =
    increment_next key_of 2 key_of-IsBytes three_values 259 512 three_values-IsValid find_259
      find_512

abbrev one_value : ArTree ℕ
one_value = record { root = leaf 258; count = 1; dummy_root = DummyRoot.linked }

one_value-IsValid : IsValid key_of 2 one_value
one_value-IsValid = record {
  wf = Wf-leaf key_of 2 0 origin 258 (λ j h. absurd (omega arith));
  counted = unfold leaves in refl;
  rooted = λ h. refl;
}

find_258 : find key_of 2 one_value (key_of 258) ≡ done (at 258)
find_258 = unfold find find_loop key_eq in refl

bounds_outcome_example :
    BoundsResult key_of 2 key_of-IsBytes (one_value.count == 1) one_value (key_of 300) 258
bounds_outcome_example =
    bounds_outcome key_of 2 key_of-IsBytes one_value (key_of 300) 258 one_value-IsValid
      (key_of-IsBytes 300) find_258

-- `lower_bound` of a later key uses the null pointer.
beyond : lower_bound key_of 2 one_value (key_of 300) ≡ bad_access
beyond = unfold lower_bound bound_loop key_less successor_of_previous in refl

erase_unique-decrement_example :
    (t' : ArTree ℕ) × (erase_unique key_of 2 one_value (key_of 258) ≡ done (t', 1))
    × (t'.root ≡ null)
    × (one_value.count ≡ 1)
    × (t'.count ≡ 0)
    × (decrement key_of 2 t' end ≡ bad_access)
erase_unique-decrement_example =
    erase_unique-decrement key_of 2 one_value (key_of 258) 258 one_value-IsValid refl
      (unfold key_eq in refl)

emplace_unique-eq-insert_unique_example :
    emplace_unique key_of 2 three_values 300 ≡ insert_unique key_of 2 three_values 300
emplace_unique-eq-insert_unique_example =
    emplace_unique-eq-insert_unique key_of 2 key_of-IsBytes three_values 300 three_values-IsValid

-- A `_Node_48` with one child, at byte 200.
abbrev wide : Indexed (Node ℕ)
wide = record {
  count = 1;
  child_index = λ b. if b == 200 then 0 else 63;
  children = λ i. if i == 0 then leaf 200 else null;
}

copy_node-48_example :
    ¬ (copy_node 3 (of_inner (record { depth = 1; body = Body.node_48 wide })) ≡ done (leaf 200))
copy_node-48_example = copy_node-48 3 1 200 wide (leaf 200) (omega arith) (omega arith) refl

count-insert_example :
    (s : ArTree ℕ) × (i : Iterator ℕ) × (inserted : Bool) × (Set.insert key_of 2 three_values 300
      ≡ done (s, i, inserted))
    × IsValid key_of 2 s
    × (Set.count key_of 2 three_values 300 ≡ done (if inserted then 0 else 1))
    × (Set.count key_of 2 s 512 ≡ (
        if key_eq 2 (key_of 512) (key_of 300) then done 1 else Set.count key_of 2 three_values 512))
count-insert_example =
    count-insert key_of 2 key_of-IsBytes three_values 300 512 three_values-IsValid

count-erase_example :
    (s : ArTree ℕ) × (n : ℕ) × (Set.erase key_of 2 three_values 258 ≡ done (s, n))
    × IsValid key_of 2 s
    × (Set.count key_of 2 three_values 258 ≡ done n)
    × (Set.count key_of 2 s 512 ≡ (
        if key_eq 2 (key_of 512) (key_of 258) then done 0 else Set.count key_of 2 three_values 512))
count-erase_example = count-erase key_of 2 key_of-IsBytes three_values 258 512 three_values-IsValid

erase_at-eq-erase_unique_example :
    (t : ArTree ℕ) × (next : Iterator ℕ) × (erase_at key_of 2 three_values 259 ≡ done (t, next))
    × (erase_unique key_of 2 three_values (key_of 259) ≡ done (t, 1))
    × (increment key_of 2 three_values (at 259) ≡ done next)
erase_at-eq-erase_unique_example =
    erase_at-eq-erase_unique key_of 2 key_of-IsBytes three_values 259 three_values-IsValid find_259
