-- ===== src/Tests/Nodes.antt =====
-- The inner node classes at concrete nodes.
use cpp_art.Base.{ℕ, ◌+◌, ◌≡◌, ◌<◌, ◌≤◌, refl, arith, some}
use cpp_art.Node.Sorted
use cpp_art.Node.Sorted.{Sorted}
use cpp_art.Node.Body
use cpp_art.Node.Body.{Body}
use cpp_art.Node.Body.Laws.{insert-IsValid, find-insert, erase-IsValid, find-erase}
use cpp_art.Node.Body.Resize.{grow_lem, shrink_lem, Resized}
use cpp_art.Node.Body.Order.{next_slot_lem, prev_slot_lem}
use cpp_art.Node.Slots.{Least, Greatest, AtSlot}
use cpp_art.Tree.{Node, null, leaf, node_pointer}
use cpp_art.Tests.Samples.{pair, pair-IsValid}

abbrev two : Body (Node ℕ)
two = Body.node_4 (pair 2 (leaf 258) 3 (leaf 259))

two-IsValid : Body.IsValid two
two-IsValid = pair-IsValid 2 3 (leaf 258) (leaf 259) (omega arith) (omega arith) refl refl

-- A node with the children 0 to `n` - 1.
abbrev first : ℕ → Sorted (Node ℕ)
first n = record { count = n; keys = λ i. i; children = λ i. leaf i }

first-IsValid : (cap n : ℕ) → n ≤ cap → cap < 256 → Sorted.IsValid cap (first n)
first-IsValid cap n h k = record {
  fits = h;
  ascending = λ i j p q. p;
  byte = λ i p. omega arith;
  present = λ i p. refl;
}

insert-IsValid_example : Body.IsValid (Body.insert two 7 (leaf 7))
insert-IsValid_example =
    insert-IsValid two 7 (leaf 7) two-IsValid (unfold Body.size Body.max_size in omega arith)
      (omega arith) (unfold Body.find Sorted.find Sorted.position in refl) refl

find-insert_example : Body.find (Body.insert two 7 (leaf 7)) 7 ≡ leaf 7
find-insert_example =
    find-insert two 7 (leaf 7) 7 two-IsValid (unfold Body.size Body.max_size in omega arith)
      (omega arith) (omega arith) (unfold Body.find Sorted.find Sorted.position in refl) refl

erase-IsValid_example : Body.IsValid (Body.erase two 3)
erase-IsValid_example =
    erase-IsValid two 3 two-IsValid (omega arith)
      (unfold Body.find Sorted.find Sorted.position in refl)

find-erase_example : Body.find (Body.erase two 3) 2 ≡ Body.find two 2
find-erase_example =
    find-erase two 3 2 two-IsValid (omega arith) (omega arith)
      (unfold Body.find Sorted.find Sorted.position in refl)

grow_lem_example :
    (m : Body (Node ℕ)) × (Body.grow (Body.node_4 (first 4)) ≡ some m)
    × Resized (Body.node_4 (first 4)) m
    × (Body.size m < Body.max_size m)
    × (Body.min_size m ≡ Body.size m + 1)
grow_lem_example =
    grow_lem (Body.node_4 (first 4)) (first-IsValid 4 4 (omega arith) (omega arith))
      (unfold Body.size Body.max_size in refl) (unfold Body.max_size in omega arith)

shrink_lem_example :
    Resized (Body.node_16 (first 4)) (Body.shrink (Body.node_16 (first 4)))
    × (Body.min_size (Body.shrink (Body.node_16 (first 4)))
        < Body.size (Body.shrink (Body.node_16 (first 4))))
shrink_lem_example =
    shrink_lem (Body.node_16 (first 4)) (first-IsValid 16 4 (omega arith) (omega arith))
      (unfold Body.size Body.min_size in refl) (unfold Body.min_size in omega arith)

next_slot_lem_example :
    AtSlot
      (Body.next_slot two 2)
      (λ i. Least (Body.find two) 3 (Body.child two i))
      ((c : ℕ) → 2 < c → c < 256 → Body.find two c ≡ null)
next_slot_lem_example = next_slot_lem two 2 two-IsValid (omega arith)

prev_slot_lem_example :
    AtSlot
      (Body.prev_slot two 3)
      (λ i. Greatest (Body.find two) 3 (Body.child two i))
      ((c : ℕ) → c < 3 → Body.find two c ≡ null)
prev_slot_lem_example = prev_slot_lem two 3 two-IsValid (omega arith)
