-- ===== src/PrefixTree/Insert/Lone.antt =====
-- A `_Node_4` of include/art/ar_prefix_tree.h with one child, on the way of a new key.
use cpp_art.Base.{
  sum_below_change, sum_below_zero, ℕ, suc, ◌+◌, ◌≡◌, ◌<◌, false, refl, arith, inl, inr, set,
  eq_or_ne, ◌==◌, eq→==, ne→==, if◌then◌else◌,
}
use cpp_art.Node.Growth.{node_4_of_leaf}
use cpp_art.Node.Growth.Copies.{node_4_of_leaf-IsValid, find-node_4_of_leaf}
use cpp_art.Node.Body
use cpp_art.Node.Body.{Body}
use cpp_art.PrefixTree.{
  Header, Node, Inner, null, of_inner, node_pointer, is_null, Member, below, Counted, in_children,
  no_leaf,
}
use cpp_art.PrefixTree.Wf.{Wf, max_prefix_length}
use cpp_art.PrefixTree.Prefix.Steps.{Wf-null, Member-of_inner, not-Member_null}
use cpp_art.PrefixTree.Insert.Open.{Open}
use cpp_art.Tree.Key.{Key}

module _ {V : Type 0} where
  -- a `_Node_4` with one child
  abbrev pub lone : Header → Node V → ℕ → Inner V
  lone h child b = record { head = h; body = Body.node_4 (node_4_of_leaf child b) }

  pub find-lone :
      (h : Header) (child : Node V) (b c : ℕ)
      → Body.find (lone h child b).body c ≡ (if c == b then child else null)
  unfolding Body.find
  find-lone h child b c = find-node_4_of_leaf child b c

  pub Member-lone :
      (h : Header) (child : Node V) (b : ℕ) (v : V)
      → Member v (of_inner (lone h child b))
      → Member v child
  Member-lone h child b v m =
      let (c, l, i) = Member-of_inner (lone h child b) v m in
      elim (eq_or_ne c b) [
        | inl p ↦ rw (find-lone h child b c, eq→== c b p) at i
        | inr p ↦ absurd (not-Member_null v (rw (find-lone h child b c, ne→== c b p) at i))
      ]

  pub lone-Member :
      (h : Header) (child : Node V) (b : ℕ) (v : V)
      → b < 256
      → Member v child
      → Member v (of_inner (lone h child b))
  lone-Member h child b v l m =
      below (lone h child b) b refl l (rw (find-lone h child b b, eq→== b b refl) m)

  pub lone-Counted :
      (h : Header) (child : Node V) (b k : ℕ)
      → b < 256
      → Counted child k
      → Counted (of_inner (lone h child b)) k
  lone-Counted h child b k l m =
      in_children (lone h child b) (λ c. if c == b then k else 0) refl
        (ground (
          arith,
          sum_below_zero 256 (λ c. 0) (λ i h. refl),
          sum_below_change 256 (λ c. 0) (λ c. if c == b then k else 0) b l (λ j h ne. ground arith),
        ))
        (λ c h. elim (eq_or_ne c b) [
          | inl p ↦ rw (find-lone, eq→== c b p) m
          | inr p ↦ rw (find-lone, ne→== c b p) (no_leaf refl)
        ])

module _ {V : Type 0} (key_of : V → Key) (key_size : ℕ) where
  -- It is on the way of `x` and has room.
  pub lone-Open :
      (r d : ℕ) (x : V) (h : Header) (child : Node V) (b : ℕ)
      → h.depth ≡ d
      → d + h.prefix_length < key_size
      → ((j : ℕ) → j < h.prefix_length → j < max_prefix_length → h.prefix j ≡ key_of x (d + j))
      → b < 256
      → is_null child ≡ false
      → Wf key_of key_size r
          (suc (d + h.prefix_length))
          (set (key_of x) (d + h.prefix_length) b)
          child
      → Open key_of key_size r d x (lone h child b)
  unfolding Body.size Body.min_size Body.max_size node_4_of_leaf
  lone-Open r d x h child b e s p l solid w = record {
    at_depth = e;
    valid = node_4_of_leaf-IsValid child b solid l;
    room = omega arith;
    sized = omega arith;
    span = s;
    stored = p;
    children = λ c k. elim (eq_or_ne c b) [
      | inl q ↦ rw (find-lone h child b c, eq→== c b q, q) w
      | inr q ↦ rw (find-lone h child b c, ne→== c b q) (Wf-null key_of key_size r _ _)
    ];
  }
