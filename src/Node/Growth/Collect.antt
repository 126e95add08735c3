-- ===== src/Node/Growth/Collect.antt =====
-- From `_Node_48` to `_Node_16`, and from `_Node_256` to `_Node_48`.
use cpp_art.Base.{
  ℕ, zero, suc, ◌≡◌, true, ◌<◌, ◌≤◌, Pointer, arith, not, inl, inr, eq_or_ne, Bool-cases, refl,
  lt_or_le, count_below, count_below_ext, count_below_mono, count_below_prefix, count_below_strict,
  count_below_injective, ltb, if◌then◌else◌,
}
use cpp_art.Node.Sorted
use cpp_art.Node.Sorted.{Sorted}
use cpp_art.Node.Sorted.Find.{find_at, find_nowhere, at, nowhere, locate}
use cpp_art.Node.Indexed
use cpp_art.Node.Indexed.{Indexed, used, empty_marker}
use cpp_art.Node.Direct
use cpp_art.Node.Direct.{Direct, held}
use cpp_art.Node.Direct.Change.{find-eq-child}
use cpp_art.Node.Growth.{collect_48, collect_256, node_16_of_48, node_48_of_256}

module _ {P : Type 0} ⦃pt : Pointer P⦄ where
  count-collect_48 : (n : Indexed P) (i : ℕ) → (collect_48 n i).count ≡ count_below i (used n)
  unfolding collect_48 count_below
  count-collect_48 n zero = refl
  count-collect_48 n (suc i) = ground (arith, count-collect_48 n i)

  -- An entry of the new node: a byte in use below the bound, at the number of those before it.
  record Collected (n : Indexed P) (i j : ℕ) : Type 0 where
    below : (collect_48 n i).keys j < i
    in_use : used n ((collect_48 n i).keys j) ≡ true
    rank : count_below ((collect_48 n i).keys j) (used n) ≡ j
    child : (collect_48 n i).children j ≡ n.children (n.child_index ((collect_48 n i).keys j))

  -- A round of the loop keeps the entries that are there.
  Collected-suc :
      (n : Indexed P) (i j : ℕ)
      → j < (collect_48 n i).count
      → Collected n i j
      → Collected n (suc i) j
  unfolding collect_48
  Collected-suc n i j h r = record {
    below = ground (arith, r.below);
    in_use = ground (arith, r.in_use);
    rank = ground (arith, r.rank);
    child = ground (arith, r.child);
  }

  Collected-last :
      (n : Indexed P) (i : ℕ) → used n i ≡ true → Collected n (suc i) (collect_48 n i).count
  unfolding collect_48
  Collected-last n i u = record {
    below = ground arith;
    in_use = ground arith;
    rank = ground (arith, count-collect_48 n i);
    child = ground arith;
  }

  collected : (n : Indexed P) (i j : ℕ) → j < (collect_48 n i).count → Collected n i j
  unfolding collect_48
  collected n zero j h = absurd (omega arith)
  collected n (suc i) j h = elim (Bool-cases (used n i)) [
    | inl u ↦ elim (eq_or_ne j (collect_48 n i).count) [
      | inl e ↦ rw e (Collected-last n i u)
      | inr ne ↦
          let k : j < (collect_48 n i).count = ground arith in
          Collected-suc n i j k (collected n i j k)
    ]
    | inr u ↦
        let k : j < (collect_48 n i).count = ground arith in
        Collected-suc n i j k (collected n i j k)
  ]

  module _ {n : Indexed P} (v : Indexed.IsValid n) (e : n.count ≡ 16) where
    entry : (j : ℕ) → j < 16 → Collected n 256 j
    entry j h = collected n 256 j (omega (arith, count-collect_48 n 256, v.bytes_counted))

    pub node_16_of_48-IsValid : Sorted.IsValid 16 (node_16_of_48 n)
    unfolding node_16_of_48
    node_16_of_48-IsValid = record {
      fits = omega arith;
      ascending = λ i j h k.
          elim (lt_or_le ((collect_48 n 256).keys i) ((collect_48 n 256).keys j)) [
            | inl less ↦ less
            | inr le ↦ absurd (
                omega (
                  arith,
                  count_below_mono _ _ (used n) le,
                  (entry i (omega arith)).rank,
                  (entry j k).rank,
                ))
          ];
      byte = λ i h. (entry i h).below;
      present = λ i h. ground (
        arith,
        (entry i h).child,
        (entry i h).below,
        (entry i h).in_use,
        v.present ((collect_48 n 256).keys i),
      );
    }

    pub find-node_16_of_48 : (c : ℕ) → c < 256 → Sorted.find (node_16_of_48 n) c ≡ Indexed.find n c
    unfolding Indexed.find node_16_of_48
    find-node_16_of_48 c small = elim (locate (node_16_of_48 n) c) [
      | at i h k ↦
          ground (arith, find_at i node_16_of_48-IsValid h k, (entry i h).child, (entry i h).in_use)
      | nowhere out ↦ elim (Bool-cases (used n c)) [
        | inl u ↦
            let j = count_below c (used n) in
            let h : j < 16 =
              omega (arith, count_below_strict (used n) c 256 small u, v.bytes_counted) in
            let k = entry j h in
            absurd (out j h (count_below_injective (used n) _ c k.in_use u k.rank))
        | inr u ↦ rw u (find_nowhere (node_16_of_48 n) out)
      ]
    ]

  count-collect_256 : (n : Direct P) (i : ℕ) → (collect_256 n i).count ≡ count_below i (held n)
  unfolding collect_256 count_below
  count-collect_256 n zero = refl
  count-collect_256 n (suc i) = ground (arith, count-collect_256 n i)

  index_fresh : (n : Direct P) (i c : ℕ) → i ≤ c → (collect_256 n i).child_index c ≡ empty_marker
  unfolding collect_256
  index_fresh n zero c h = refl
  index_fresh n (suc i) c h = ground (arith, index_fresh n i c)

  index_of :
      (n : Direct P) (i c : ℕ)
      → c < i
      → (collect_256 n i).child_index c
        ≡ (if held n c then count_below c (held n) else empty_marker)
  unfolding collect_256
  index_of n zero c h = absurd (omega arith)
  index_of n (suc i) c h = elim (eq_or_ne c i) [
    | inl e ↦ ground (arith, count-collect_256 n i, index_fresh n i i)
    | inr ne ↦ ground (arith, index_of n i c)
  ]

  child_of :
      (n : Direct P) (i c : ℕ)
      → c < i
      → held n c ≡ true
      → (collect_256 n i).children (count_below c (held n)) ≡ n.children c
  unfolding collect_256
  child_of n zero c h u = absurd (omega arith)
  child_of n (suc i) c h u = elim (eq_or_ne c i) [
    | inl e ↦ ground (arith, count-collect_256 n i)
    | inr ne ↦
        ground (arith, child_of n i c, count-collect_256 n i, count_below_strict (held n) c i)
  ]

  slots_filled :
      (n : Direct P) (i j : ℕ)
      → pt.is_null ((collect_256 n i).children j) ≡ not (ltb j (collect_256 n i).count)
  unfolding collect_256
  slots_filled n zero j = ground (arith, pt.is_null-null)
  slots_filled n (suc i) j = ground (arith, slots_filled n i j)

  module _ {n : Direct P} (v : Direct.IsValid n) (e : n.count ≡ 48) where
    few : (c : ℕ) → c < 256 → held n c ≡ true → count_below c (held n) < 48
    few c h u = omega (arith, count_below_strict (held n) c 256 h u, v.counted)

    pub find-node_48_of_256 :
        (c : ℕ) → c < 256 → Indexed.find (node_48_of_256 n) c ≡ Direct.find n c
    find-node_48_of_256 c h =
        unfold node_48_of_256 Indexed.find in
        ground (
          arith,
          find-eq-child n c,
          index_of n 256 c h,
          child_of n 256 c h,
          few c h,
          pt.eq_null (n.children c),
        )

    pub node_48_of_256-IsValid : Indexed.IsValid (node_48_of_256 n)
    unfolding node_48_of_256
    node_48_of_256-IsValid = record {
      bytes_counted = omega (
        arith,
        v.counted,
        count_below_ext 256 (held n) (used (node_48_of_256 n))
            (λ c h. ground (arith, index_of n 256 c h, few c h)),
      );
      slots_counted =
          count_below_prefix (λ i. not (pt.is_null ((collect_256 n 256).children i))) 48 48
            (λ i h. ground (arith, slots_filled n 256 i, count-collect_256 n 256, v.counted))
            (λ i h. ground (arith, slots_filled n 256 i, count-collect_256 n 256, v.counted))
            (omega arith);
      in_range = λ c h u. ground (arith, index_of n 256 c h, few c h);
      present = λ c h u. ground (arith, index_of n 256 c h, child_of n 256 c h);
      distinct = λ b c h k u w q.
          ground
            (arith, index_of n 256 b h, index_of n 256 c k, count_below_injective (held n) b c);
    }
