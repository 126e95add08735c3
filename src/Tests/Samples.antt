-- ===== src/Tests/Samples.antt =====
-- Keys of two bytes and small trees over them.
use cpp_art.Base.{
  ℕ, suc, ◌≡◌, ◌<◌, ◌%◌, ◌/◌, false, refl, if◌then◌else◌, ◌==◌, arith, inl, inr, eq_or_ne, eq→==,
  ne→==, set, sum_below,
}
use cpp_art.Node.Sorted
use cpp_art.Node.Sorted.{Sorted}
use cpp_art.Node.Body
use cpp_art.Node.Body.{Body}
use cpp_art.Tree.{Node, Inner, null, leaf, of_inner, node_pointer, is_null}
use cpp_art.Tree.Key.{Key, IsBytes}
use cpp_art.Tree.Wf.{InnerWf, Wf}
use cpp_art.Tree.Leaves.{leaves}
use cpp_art.Tree.Find.Steps.{Wf-null, Wf-leaf, Wf-of_inner}
use cpp_art.ArTree.{ArTree, DummyRoot, IsValid}

-- A number as a value with a key of two bytes, the larger byte first.
abbrev pub key_of : ℕ → Key
key_of v j = if j == 0 then (v / 256) % 256 else v % 256

pub key_of-IsBytes : (v : ℕ) → IsBytes (key_of v)
key_of-IsBytes v j = elim (eq_or_ne j 0) [
  | inl p ↦ ground (arith, mod_lt (v / 256))
  | inr p ↦ ground (arith, mod_lt v)
]
  where
    mod_lt : (x : ℕ) → x % 256 < 256
    mod_lt x = omega arith

-- A `_Node_4` with two children.
abbrev pub pair : ℕ → Node ℕ → ℕ → Node ℕ → Sorted (Node ℕ)
pair a s b t = record {
  count = 2;
  keys = λ i. if i == 0 then a else b;
  children = λ i. if i == 0 then s else t;
}

find-pair :
    (a b c : ℕ) (s t : Node ℕ)
    → a < b
    → Body.find (Body.node_4 (pair a s b t)) c ≡ (if c == a then s else if c == b then t else null)
unfolding Body.find Sorted.find Sorted.position
find-pair a b c s t h = ground arith

pub pair-IsValid :
    (a b : ℕ) (s t : Node ℕ)
    → a < b
    → b < 256
    → is_null s ≡ false
    → is_null t ≡ false
    → Sorted.IsValid 4 (pair a s b t)
pair-IsValid a b s t h small x y = record {
  fits = omega arith;
  ascending = λ i j p q. ground arith;
  byte = λ i p. ground arith;
  present = λ i p. ground arith;
}

pub pair-InnerWf :
    (r d a b : ℕ) (path : Key) (s t : Node ℕ)
    → a < b
    → b < 256
    → is_null s ≡ false
    → is_null t ≡ false
    → Wf key_of r (suc d) (set path d a) s
    → Wf key_of r (suc d) (set path d b) t
    → InnerWf key_of d path
        (Wf key_of r (suc d))
        (record { depth = d; body = Body.node_4 (pair a s b t) })
unfolding Body.size Body.min_size
pair-InnerWf r d a b path s t h small x y v w = record {
  at_depth = refl;
  valid = pair-IsValid a b s t h small x y;
  sized = omega arith;
  roomy = λ z. absurd (omega arith);
  leaf_sized = λ c z l. omega arith;
  children = λ c z. elim (eq_or_ne c a) [
    | inl p ↦ rw (find-pair a b c s t h) (rw (p, eq→== a a refl) v)
    | inr p ↦ elim (eq_or_ne c b) [
      | inl q ↦ rw (find-pair a b c s t h) (rw (ne→== c a p) (rw (q, eq→== b b refl) w))
      | inr q ↦
          rw (find-pair a b c s t h)
            (rw (ne→== c a p) (rw (ne→== c b q) (Wf-null key_of r (suc d) (set path d c))))
    ]
  ];
}

-- Keys 0x0102 and 0x0103 below a common byte, and 0x0200.
abbrev pub low_node : Inner ℕ
low_node = record { depth = 1; body = Body.node_4 (pair 2 (leaf 258) 3 (leaf 259)) }

abbrev pub top_node : Inner ℕ
top_node = record { depth = 0; body = Body.node_4 (pair 1 (of_inner low_node) 2 (leaf 512)) }

abbrev pub origin : Key
origin j = 0

pub low_node-InnerWf : (path : Key) → path 0 ≡ 1 → InnerWf key_of 1 path (Wf key_of 0 2) low_node
low_node-InnerWf path p =
    pair-InnerWf 0 1 2 3 path (leaf 258) (leaf 259) (omega arith) (omega arith) refl refl
      (Wf-leaf key_of 0 2 (set path 1 2) 258 (λ j h. ground arith))
      (Wf-leaf key_of 0 2 (set path 1 3) 259 (λ j h. ground arith))

pub top_node-InnerWf : InnerWf key_of 0 origin (Wf key_of 1 1) top_node
top_node-InnerWf =
    pair-InnerWf 1 0 1 2 origin (of_inner low_node) (leaf 512) (omega arith) (omega arith)
      (unfold of_inner in refl) refl
      (Wf-of_inner key_of 0 1 (set origin 0 1) low_node (low_node-InnerWf (set origin 0 1) refl))
      (Wf-leaf key_of 1 1 (set origin 0 2) 512 (λ j h. ground arith))

abbrev pub three_values : ArTree ℕ
three_values = record { root = of_inner top_node; count = 3; dummy_root = DummyRoot.linked }

pub three_values-IsValid : IsValid key_of 2 three_values
three_values-IsValid = record {
  wf = Wf-of_inner key_of 1 0 origin top_node top_node-InnerWf;
  counted = unfold leaves sum_below of_inner Body.find Sorted.find Sorted.position in refl;
  rooted = λ h. refl;
}
