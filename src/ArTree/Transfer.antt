-- ===== src/ArTree/Transfer.antt =====
-- Lemmas about `clear` and the moves of `ar_tree` of include/art/ar_tree.h.
use cpp_art.Base.{ℕ, suc, ap, ◌≡◌, refl, sym, ◌∙◌, arith}
use cpp_art.Tree.{Node, null}
use cpp_art.Tree.Key.{Key}
use cpp_art.Tree.Leaves.{leaves-null}
use cpp_art.Tree.Find.{end, done, find_loop}
use cpp_art.Tree.Find.Steps.{Wf-null, find_loop-null}
use cpp_art.ArTree.{ArTree, DummyRoot, root_gone, clear, move, move_assign, find, IsValid}
use cpp_art.ArTree.Laws.{find-eq-loop}

module _ {V : Type 0} (key_of : V → Key) (key_size : ℕ) where
  abbrev emptied : DummyRoot → ArTree V
  emptied d = record { root = null; count = 0; dummy_root = d }

  emptied-IsValid : (d : DummyRoot) → IsValid key_of key_size (emptied d)
  emptied-IsValid d = record {
    wf = Wf-null key_of key_size 0 (λ _. 0);
    counted = sym (leaves-null V key_size);
    rooted = λ h. absurd (ground arith);
  }

  find-emptied : (d : DummyRoot) (k : Key) → find key_of key_size (emptied d) k ≡ done end
  find-emptied d k =
      find-eq-loop key_of key_size (emptied d) k ∙ find_loop-null key_of key_size key_size 0 k

  find-root :
      (t x : ArTree V) (k : Key)
      → t.root ≡ x.root
      → find key_of key_size t k ≡ find key_of key_size x k
  find-root t x k p =
      find-eq-loop key_of key_size t k
      ∙ ap (λ (r : Node V). find_loop key_of key_size (suc key_size) 0 r k) p
      ∙ sym (find-eq-loop key_of key_size x k)

  -- From a tree `x` that holds the invariant, move construction and move assignment to any tree give
  -- trees that hold it, count as `x` did and find what `x` found; what either of them leaves of `x`
  -- holds it, counts nothing and finds nothing, and so does a tree that is cleared.
  pub move_lem :
      (t x : ArTree V) (k : Key)
      → IsValid key_of key_size x
      → (IsValid key_of key_size (move x).0
          × ((move x).0.count ≡ x.count)
          × (find key_of key_size (move x).0 k ≡ find key_of key_size x k))
        × (IsValid key_of key_size (move_assign t x).0
            × ((move_assign t x).0.count ≡ x.count)
            × (find key_of key_size (move_assign t x).0 k ≡ find key_of key_size x k))
        × (IsValid key_of key_size (move x).1
            × ((move x).1.count ≡ 0)
            × (find key_of key_size (move x).1 k ≡ done end))
        × (IsValid key_of key_size (move_assign t x).1
            × ((move_assign t x).1.count ≡ 0)
            × (find key_of key_size (move_assign t x).1 k ≡ done end))
        × (IsValid key_of key_size (clear x)
            × ((clear x).count ≡ 0)
            × (find key_of key_size (clear x) k ≡ done end))
  unfolding move move_assign clear
  move_lem t x k v = (
    (
      record { wf = v.wf; counted = v.counted; rooted = λ h. rw h refl },
      refl,
      find-root _ x k refl,
    ),
    (
      record { wf = v.wf; counted = v.counted; rooted = λ h. rw h refl },
      refl,
      find-root _ x k refl,
    ),
    (emptied-IsValid (root_gone x), refl, find-emptied (root_gone x) k),
    (emptied-IsValid (root_gone x), refl, find-emptied (root_gone x) k),
    (emptied-IsValid (root_gone x), refl, find-emptied (root_gone x) k),
  )
