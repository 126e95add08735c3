-- ===== src/Tests/Maps.antt =====
-- A `radix_map` of one pair.
use cpp_art.Base.{ℕ, ◌≡◌, Bool, refl, arith, if◌then◌else◌, none, some}
use cpp_art.Tree.{leaf}
use cpp_art.Tree.Key.{key_eq}
use cpp_art.Tree.Leaves.{leaves}
use cpp_art.Tree.Find.{done}
use cpp_art.Tree.Find.Steps.{Wf-leaf}
use cpp_art.ArTree.{ArTree, DummyRoot, IsValid}
use cpp_art.RadixMap.{key_of_pair, at_key, index}
use cpp_art.RadixMap.Element.{index_contract}
use cpp_art.Tests.Samples.{key_of, key_of-IsBytes, origin}

abbrev one_pair : ArTree (ℕ × ℕ)
one_pair = record { root = leaf (258, 7); count = 1; dummy_root = DummyRoot.linked }

one_pair-IsValid : IsValid (key_of_pair key_of) 2 one_pair
one_pair-IsValid = record {
  wf = Wf-leaf (key_of_pair {T = ℕ} key_of) 2 0 origin (258, 7) (λ j h. absurd (omega arith));
  counted = unfold leaves in refl;
  rooted = λ h. refl;
}

index_contract_example :
    (m' : ArTree (ℕ × ℕ)) × (v : ℕ) × (fresh : Bool) × (index key_of 2 0 one_pair 300
      ≡ done (m', v))
    × IsValid (key_of_pair key_of) 2 m'
    × (m'.count ≡ (if fresh then 2 else 1))
    × (at_key key_of 2 one_pair 300 ≡ done (if fresh then none else some v))
    × ((if fresh then v else 0) ≡ 0)
    × (at_key key_of 2 m' 258 ≡ (
        if key_eq 2 (key_of 258) (key_of 300) then done (some v) else at_key key_of 2 one_pair 258))
index_contract_example = index_contract key_of 2 key_of-IsBytes 0 one_pair 300 258 one_pair-IsValid
