-- ===== src/PrefixTree/Insert/Split.antt =====
-- `split_prefix_into_parent` of include/art/ar_prefix_tree.h.
use cpp_art.Base.{
  ℕ, suc, ◌+◌, ◌-◌, ◌%◌, ◌^◌, ◌≡◌, ◌<◌, ◌≤◌, refl, arith, inl, inr, set, eq_or_ne, lt_or_le, ne→==,
  lt→ltb, le→ltb, Array,
}
use mathlib.Core.Path.{subst}
use cpp_art.Node.Growth.{zeros}
use cpp_art.Node.Body
use cpp_art.Node.Body.{Body}
use cpp_art.PrefixTree.{
  Header, Inner, null, of_inner, node_pointer, Member, below, Counted, in_children,
}
use cpp_art.PrefixTree.Wf.{InnerWf, Wf, max_prefix_length}
use cpp_art.PrefixTree.Prefix.Least.{Mismatch, inner_minimum}
use cpp_art.PrefixTree.Prefix.Steps.{
  Wf-of_inner, Member-of_inner, Counted-of_inner, is_null-of_inner,
}
use cpp_art.PrefixTree.Insert.{
  rest_of_prefix, new_node_4, split_stored, split_loaded, split_prefix_into_parent, copy_range,
  capped,
}
use cpp_art.PrefixTree.Insert.Open.{Open}
use cpp_art.Tree.Key.{Key, Agree}
use cpp_art.Tree.Find.{done}
use cpp_art.PrefixTree.Insert.Lone.{find-lone, Member-lone, lone-Member, lone-Counted, lone-Open}

module _ {V : Type 0} (key_of : V → Key) (key_size : ℕ) (short : key_size ≤ 2 ^ 16) where
  module _ (r d : ℕ) (x : V) (n : Inner V) (m : ℕ)
      (i : InnerWf key_of key_size d (key_of x) (Wf key_of key_size r) n)
      (apart : Mismatch d m n i.line (key_of x)) (inside : m < n.head.prefix_length) where
    -- the node after the split, with its new prefix array
    rest : Array ℕ → Inner V
    rest prefix = record n { head = rest_of_prefix n.head m prefix }

    rest_length : (n.head.prefix_length + 2 ^ 16 - (m + 1)) % 2 ^ 16 + suc m ≡ n.head.prefix_length
    rest_length = omega (arith, i.span)

    -- It holds the invariant below the mismatch.
    rest-InnerWf :
        (prefix : Array ℕ)
        → ((j : ℕ)
            → j + suc m < n.head.prefix_length
            → j < max_prefix_length
            → prefix j ≡ i.line (suc (d + m) + j))
        → InnerWf key_of key_size
            (suc (d + m))
            (set (key_of x) (d + m) (i.line (d + m)))
            (Wf key_of key_size r)
            (rest prefix)
    unfolding rest
    rest-InnerWf prefix p = record {
      at_depth = omega (arith, i.at_depth);
      valid = i.valid;
      roomy = i.roomy;
      span = omega (arith, rest_length, i.span);
      line = i.line;
      onward = λ j h. elim (eq_or_ne j (d + m)) [
        | inl e ↦ ground arith
        | inr ne ↦ elim (lt_or_le j d) [
          | inl l ↦ ground (arith, i.onward j l)
          | inr l ↦ ground (arith, apart.same (j - d))
        ]
      ];
      bytes = λ j h.
          let e : d + (suc m + j) ≡ suc (d + m) + j = omega arith in
          rw e at (i.bytes (suc m + j) (omega (arith, rest_length)));
      stored = λ j h l. p j (omega (arith, rest_length)) l;
      children = λ c h.
          let e : d + n.head.prefix_length
              ≡ suc (d + m) + ((n.head.prefix_length + 2 ^ 16 - (m + 1)) % 2 ^ 16) =
            omega (arith, rest_length) in
          subst (λ (q : ℕ). Wf key_of key_size r (suc q) (set i.line q c) (Body.find n.body c)) e
            (i.children c h);
    }

    -- The new parent: on the way of `x`, with room, and with nothing at the byte of `x`, and the values of
    -- the node that was split.
    pub record Parted (parent : Inner V) : Type 0 where
      pub way : Open key_of key_size (suc r) d x parent
      pub length : parent.head.prefix_length ≡ m
      pub free : Body.find parent.body (key_of x (d + m)) ≡ null
      pub into : (v : V) → Member v (of_inner n) → Member v (of_inner parent)
      pub out : (v : V) → Member v (of_inner parent) → Member v (of_inner n)
      pub count : (k : ℕ) → Counted (of_inner n) k → Counted (of_inner parent) k

    parent-Parted :
        (prefix first : Array ℕ) (b : ℕ)
        → ((j : ℕ)
            → j + suc m < n.head.prefix_length
            → j < max_prefix_length
            → prefix j ≡ i.line (suc (d + m) + j))
        → ((j : ℕ) → j < m → j < max_prefix_length → first j ≡ n.head.prefix j)
        → b ≡ i.line (d + m)
        → Parted (new_node_4 (of_inner (rest prefix)) b n.head.depth m first)
    unfolding rest
    parent-Parted prefix first b p q e = record {
      way =
          lone-Open key_of key_size (suc r) d x head (of_inner (rest prefix)) b i.at_depth
            (omega (arith, same, i.span))
            (λ j h l. ground (arith, same, q j, i.stored j, apart.same j)) small
            (is_null-of_inner (rest prefix))
            (rw (same, e)
              (Wf-of_inner key_of key_size r (suc (d + m)) _ (rest prefix)
                (rest-InnerWf prefix p)));
      length = same;
      free =
          rw
            (
              find-lone head (of_inner (rest prefix)) b (key_of x (d + m)),
              ne→== (key_of x (d + m)) b (ground (arith, e, apart.other inside)),
            )
            refl;
      into = λ v k.
          let (c, h, l) = Member-of_inner n v k in
          lone-Member head (of_inner (rest prefix)) b v small (below (rest prefix) c refl h l);
      out = λ v k.
          let (c, h, l) =
            Member-of_inner (rest prefix) v (Member-lone head (of_inner (rest prefix)) b v k) in
          below n c refl h l;
      count = λ k u.
          let (f, s, all) = Counted-of_inner n k u in
          lone-Counted head (of_inner (rest prefix)) b k small
            (in_children (rest prefix) f refl s all);
    }
      where
        head : Header
        head = record { depth = n.head.depth; prefix_length = m % 2 ^ 16; prefix = first }

        same : m % 2 ^ 16 ≡ m
        same = omega (arith, i.span)

        small : b < 256
        small = ground (arith, i.bytes m inside)

    split_stored-Parted : n.head.prefix_length < max_prefix_length → Parted (split_stored n m)
    unfolding split_stored rest
    split_stored-Parted l =
        parent-Parted (copy_range (max_prefix_length - (m + 1)) n.head.prefix (m + 1) n.head.prefix)
          (copy_range m n.head.prefix 0 zeros) (n.head.prefix m)
          (λ j h k.
            let e : d + (m + 1 + j) ≡ suc (d + m) + j = omega arith in
            ground (arith, i.stored (m + 1 + j), e))
          (λ j h k. ground arith) (i.stored m inside (omega arith))

    split_loaded-Parted :
        (k : Key) → Agree (d + n.head.prefix_length) k i.line → Parted (split_loaded n m k)
    unfolding split_loaded rest
    split_loaded-Parted k along =
        parent-Parted
          (copy_range (capped (n.head.prefix_length - (m + 1))) k (n.head.depth + m + 1)
            n.head.prefix)
          n.head.prefix (k (n.head.depth + m))
          (λ j h l.
            let e : n.head.depth + m + 1 + j ≡ suc (d + m) + j = omega (arith, i.at_depth) in
            ground (arith, along (suc (d + m) + j), e))
          (λ j h l. refl) (ground (arith, i.at_depth, along (d + m)))

    -- The prefix is split at the mismatch, whether or not the node stores all of it.
    pub split_prefix_into_parent_lem :
        (parent : Inner V) × (split_prefix_into_parent key_of key_size n m ≡ done parent)
        × Parted parent
    unfolding split_prefix_into_parent
    split_prefix_into_parent_lem = elim (lt_or_le max_prefix_length (suc n.head.prefix_length)) [
      | inl l ↦
          let (v, least, held, along) = inner_minimum key_of key_size r d (key_of x) n i in
          (
            split_loaded n m (key_of v),
            rw
                (
                  split_prefix_into_parent,
                  le→ltb n.head.prefix_length max_prefix_length (omega arith),
                  least,
                )
                refl,
            split_loaded-Parted (key_of v) along,
          )
      | inr l ↦ (
        split_stored n m,
        rw (split_prefix_into_parent, lt→ltb n.head.prefix_length max_prefix_length (omega arith))
            refl,
        split_stored-Parted (omega arith),
      )
    ]
