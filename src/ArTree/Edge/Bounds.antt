-- ===== src/ArTree/Edge/Bounds.antt =====
-- `lower_bound`, `upper_bound` and `equal_range` of include/art/ar_tree.h on every tree with a value,
-- the trees of one value included.
use cpp_art.Base.{
  ℕ, suc, ◌≡◌, ◌==◌, ◌&&◌, not, Bool, true, false, if◌then◌else◌, refl, sym, arith, ap, inl, inr,
  Bool-cases, ◌∙◌, [],
}
use mathlib.Core.Path.{subst}
use cpp_art.Tree.{leaf, is_null, is_leaf, node_pointer, null_case, leaf_case, inner_case, node_case}
use cpp_art.Tree.Leaves.{leaves, leaves-leaf}
use cpp_art.Tree.Leaves.AtLeast.{leaves-Enough}
use cpp_art.Tree.Key.{Key, IsBytes}
use cpp_art.Tree.Find.{Iterator, end, at, done, bad_access}
use cpp_art.Tree.Find.Steps.{find_loop-leaf, find_loop-null, is_leaf-of_inner, is_null-of_inner}
use cpp_art.Tree.Walk.{key_less, bound_loop, successor_of_previous}
use cpp_art.Tree.Walk.Least.{key_less_irrefl, key_less_asym}
use cpp_art.Tree.Walk.Bounds.{wanted}
use cpp_art.ArTree.{ArTree, find, IsValid}
use cpp_art.ArTree.Laws.{find-eq-loop}
use cpp_art.ArTree.Iterate.{lower_bound, upper_bound, equal_range}
use cpp_art.ArTree.Iterate.Sorted.{Bound, lower_bound_first, upper_bound_first}

module _ {V : Type 0} (key_of : V → Key) (key_size : ℕ) where
  found_in_leaf :
      (t : ArTree V) (u w : V)
      → t.root ≡ leaf u
      → find key_of key_size t (key_of w) ≡ done (at w)
      → u ≡ w
  found_in_leaf t u w p f = ground (
    arith,
    p,
    find-eq-loop key_of key_size t (key_of w),
    find_loop-leaf key_of key_size key_size 0 u (key_of w),
    f,
  )

  bound_loop-leaf :
      (strict : Bool) (w : V) (key : Key)
      → bound_loop key_of key_size strict (suc key_size) 0 [] (leaf w) key
        ≡ (if wanted key_size strict key (key_of w) then done (at w) else bad_access)
  unfolding bound_loop successor_of_previous
  bound_loop-leaf strict w key = refl

module _ {V : Type 0} (key_of : V → Key) (key_size : ℕ) (bytes : (v : V) → IsBytes (key_of v)) where
  -- The bound of a key at a leaf, without the use of the null pointer.
  leaf_bound : Bool → Key → V → Iterator V
  leaf_bound strict key w = if wanted key_size strict key (key_of w) then at w else end

  leaf_bound-Bound :
      (strict : Bool) (t : ArTree V) (key : Key) (w : V)
      → find key_of key_size t (key_of w) ≡ done (at w)
      → Bound key_of key_size bytes strict t key w (leaf_bound strict key w)
  unfolding leaf_bound
  leaf_bound-Bound strict t key w f = elim (Bool-cases (wanted key_size strict key (key_of w))) [
    | inl h ↦
        rw h (f, h, ground (arith, h, key_less_irrefl key_size 0 (key_of w) (key_of w) (λ x. refl)))
    | inr h ↦ rw h h
  ]

  -- What a bound returns at a root leaf.
  at_root_leaf :
      (strict one outside : Bool) (key : Key) (w : V)
      → one ≡ true
      → wanted key_size strict key (key_of w) ≡ not outside
      → bound_loop key_of key_size strict (suc key_size) 0 [] (leaf w) key
        ≡ (if one && outside then bad_access else done (leaf_bound strict key w))
  unfolding leaf_bound
  at_root_leaf strict one true key w h e =
      rw h (bound_loop-leaf key_of key_size strict w key ∙ rw e refl)
  at_root_leaf strict one false key w h e =
      rw h (bound_loop-leaf key_of key_size strict w key ∙ rw e refl)

  -- A value before the key is not after it.
  before_not_after :
      (one : Bool) (key : Key) (w : V)
      → (one && key_less key_size 0 (key_of w) key) ≡ true
      → (one && not (key_less key_size 0 key (key_of w))) ≡ true
  before_not_after one key w h = ground (arith, h, key_less_asym key_size 0 (key_of w) key)

  lower_bound-root_leaf :
      (t : ArTree V) (key : Key) (w : V)
      → t.root ≡ leaf w
      → lower_bound key_of key_size t key
        ≡ bound_loop key_of key_size false (suc key_size) 0 [] (leaf w) key
  unfolding lower_bound
  lower_bound-root_leaf t key w p = rw p refl

  upper_bound-root_leaf :
      (t : ArTree V) (key : Key) (w : V)
      → t.root ≡ leaf w
      → upper_bound key_of key_size t key
        ≡ bound_loop key_of key_size true (suc key_size) 0 [] (leaf w) key
  unfolding upper_bound
  upper_bound-root_leaf t key w p = rw p refl

  equal_range_lem :
      (t : ArTree V) (key : Key) (i j : Iterator V) (b c : Bool)
      → lower_bound key_of key_size t key ≡ (if b then bad_access else done i)
      → upper_bound key_of key_size t key ≡ (if c then bad_access else done j)
      → (b ≡ true → c ≡ true)
      → equal_range key_of key_size t key ≡ (if c then bad_access else done (i, j))
  unfolding equal_range
  equal_range_lem t key i j true true e g h = rw (e, equal_range) refl
  equal_range_lem t key i j true false e g h = absurd (ground (arith, h))
  equal_range_lem t key i j false true e g h = rw (e, equal_range) (rw (g, equal_range) refl)
  equal_range_lem t key i j false false e g h = rw (e, equal_range) (rw (g, equal_range) refl)

  -- What `lower_bound`, `upper_bound` and `equal_range` return in a tree that holds `w`, which has
  -- one value where `one` is set.
  abbrev pub BoundsResult : Bool → ArTree V → Key → V → Type 0
  BoundsResult one t key w =
      (i : Iterator V) × (j : Iterator V) × (lower_bound key_of key_size t key
        ≡ (if one && key_less key_size 0 (key_of w) key then bad_access else done i))
      × (upper_bound key_of key_size t key
          ≡ (if one && not (key_less key_size 0 key (key_of w)) then bad_access else done j))
      × (equal_range key_of key_size t key
          ≡ (if one && not (key_less key_size 0 key (key_of w)) then bad_access else done (i, j)))
      × Bound key_of key_size bytes false t key w i
      × Bound key_of key_size bytes true t key w j

  with_range :
      (one : Bool) (t : ArTree V) (key : Key) (w : V) (i j : Iterator V)
      → lower_bound key_of key_size t key
        ≡ (if one && key_less key_size 0 (key_of w) key then bad_access else done i)
      → upper_bound key_of key_size t key
        ≡ (if one && not (key_less key_size 0 key (key_of w)) then bad_access else done j)
      → Bound key_of key_size bytes false t key w i
      → Bound key_of key_size bytes true t key w j
      → BoundsResult one t key w
  with_range one t key w i j low up first above = (
    i,
    j,
    low,
    up,
    equal_range_lem t key i j _ _ low up (before_not_after one key w),
    first,
    above,
  )

  one_value :
      (t : ArTree V) (key : Key) (w : V)
      → t.root ≡ leaf w
      → find key_of key_size t (key_of w) ≡ done (at w)
      → BoundsResult true t key w
  one_value t key w p f =
      with_range true t key w (leaf_bound false key w) (leaf_bound true key w)
        (lower_bound-root_leaf t key w p
          ∙ at_root_leaf false true (key_less key_size 0 (key_of w) key) key w refl refl)
        (upper_bound-root_leaf t key w p
          ∙ at_root_leaf true true (not (key_less key_size 0 key (key_of w))) key w refl
              (ground arith))
        (leaf_bound-Bound false t key w f) (leaf_bound-Bound true t key w f)

  several_values :
      (t : ArTree V) (key : Key) (w : V)
      → IsValid key_of key_size t
      → IsBytes key
      → is_leaf t.root ≡ false
      → find key_of key_size t (key_of w) ≡ done (at w)
      → BoundsResult false t key w
  several_values t key w v b inner f =
      let (i, low, first) = lower_bound_first key_of key_size bytes t key w v b inner f in
      let (j, up, above) = upper_bound_first key_of key_size bytes t key w v b inner f in
      with_range false t key w i j low up first above

  -- In a tree that holds the invariant and the value `w`, over keys of bytes, for a key of bytes:
  -- in a tree of one value `lower_bound` uses a null pointer if `w` is before the key, and
  -- `upper_bound` and `equal_range` do if `w` is not after the key. In all other cases they return, in
  -- trees of any number of values, and the two bounds are the end only if `w` is not wanted, or at a
  -- value of the tree that is wanted, with `w` not between the key and it; `equal_range` is the two.
  pub bounds_outcome :
      (t : ArTree V) (key : Key) (w : V)
      → IsValid key_of key_size t
      → IsBytes key
      → find key_of key_size t (key_of w) ≡ done (at w)
      → BoundsResult (t.count == 1) t key w
  bounds_outcome t key w v b f = elim (node_case t.root) [
    | null_case p ↦ absurd (
        ground (
          arith,
          p,
          find-eq-loop key_of key_size t (key_of w),
          find_loop-null key_of key_size key_size 0 (key_of w),
          f,
        ))
    | leaf_case u p ↦
        let one : (t.count == 1) ≡ true =
          ground (arith, v.counted, ap (leaves key_size) p, leaves-leaf key_size u) in
        subst (λ c. BoundsResult c t key w) (sym one)
          (one_value t key w (p ∙ ap leaf (found_in_leaf key_of key_size t u w p f)) f)
    | inner_case n p ↦
        let inner : is_leaf t.root ≡ false = ap is_leaf p ∙ is_leaf-of_inner n in
        let enough = leaves-Enough key_of key_size 0 (λ _. 0) t.root v.wf in
        let several : (t.count == 1) ≡ false =
          ground (arith, v.counted, enough.1 (ap is_null p ∙ is_null-of_inner n) inner) in
        subst (λ c. BoundsResult c t key w) (sym several) (several_values t key w v b inner f)
  ]
