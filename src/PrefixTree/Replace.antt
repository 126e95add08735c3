-- ===== src/PrefixTree/Replace.antt =====
-- An inner node of include/art/ar_prefix_tree.h with one child replaced.
use cpp_art.Base.{
  ℕ, suc, ◌+◌, ◌≡◌, ◌≢◌, ◌<◌, false, refl, arith, inl, inr, eq_or_ne, ◌==◌, eq→==, ne→==,
  if◌then◌else◌, ◌∷◌,
}
use cpp_art.Node.Body
use cpp_art.Node.Body.Laws.{
  update_child_ptr-IsValid, find-update_child_ptr, size-update_child_ptr, min_size-update_child_ptr,
}
use cpp_art.PrefixTree.{Node, Inner, of_inner, node_pointer, is_null, Ancestors}
use cpp_art.PrefixTree.Wf.{InnerWf, Wf}
use cpp_art.PrefixTree.Prefix.Steps.{Wf-Agree, Wf-of_inner}
use cpp_art.PrefixTree.Insert.{plug}
use cpp_art.Tree.Key.{Key, IsBytes, Agree}

-- The write into a parent whose record of its depth is right.
pub plug_at_depth :
    {V : Type 0} (k : Key) (d : ℕ) (n : Inner V) (above : Ancestors V) (t : Node V)
    → n.head.depth ≡ d
    → plug k (n ∷ above) t
      ≡ plug k above (
          of_inner
            (record n { body = Body.update_child_ptr n.body (k (d + n.head.prefix_length)) t }))
unfolding plug
plug_at_depth k d n above t e = λ i.
    plug k above (
      of_inner
        (record n { body = Body.update_child_ptr n.body (k (e i + n.head.prefix_length)) t }))

module _ {V : Type 0} (key_of : V → Key) (key_size : ℕ) (r s d : ℕ) (k : Key) (n : Inner V)
    (t : Node V) (bytes : IsBytes k) (i : InnerWf key_of key_size d k (Wf key_of key_size r) n)
    (along : Agree (d + n.head.prefix_length) i.line k)
    (held : is_null (Body.find n.body (k (d + n.head.prefix_length))) ≡ false)
    (wf : Wf key_of key_size s (suc (d + n.head.prefix_length)) k t)
    (solid : is_null t ≡ false) where
  -- the byte of the child
  abbrev pub branch : ℕ
  branch = k (d + n.head.prefix_length)

  abbrev pub updated : Inner V
  updated = record n { body = Body.update_child_ptr n.body branch t }

  find-updated :
      (c : ℕ) → c < 256 → Body.find updated.body c ≡ (if c == branch then t else Body.find n.body c)
  find-updated c h =
      find-update_child_ptr n.body branch t c i.valid (bytes (d + n.head.prefix_length)) h held
        solid

  pub at_branch : Body.find updated.body branch ≡ t
  at_branch = ground (arith, find-updated branch (bytes (d + n.head.prefix_length)))

  pub elsewhere : (c : ℕ) → c < 256 → c ≢ branch → Body.find updated.body c ≡ Body.find n.body c
  elsewhere c h ne = ground (arith, find-updated c h)

  updated-InnerWf : InnerWf key_of key_size d k (Wf key_of key_size key_size) updated
  updated-InnerWf = record {
    at_depth = i.at_depth;
    valid =
        update_child_ptr-IsValid n.body branch t i.valid (bytes (d + n.head.prefix_length)) solid;
    roomy = omega (
      arith,
      i.roomy,
      size-update_child_ptr n.body branch t,
      min_size-update_child_ptr n.body branch t,
    );
    span = i.span;
    line = i.line;
    onward = i.onward;
    bytes = i.bytes;
    stored = i.stored;
    children = λ c h. elim (eq_or_ne c branch) [
      | inl p ↦
          rw (find-updated c h, eq→== c branch p)
            (Wf-Agree key_of key_size s key_size _ k _ t (omega arith)
              (λ j l. ground (arith, along j)) wf)
      | inr p ↦
          rw (find-updated c h, ne→== c branch p)
            (Wf-Agree key_of key_size r key_size _ _ _ (Body.find n.body c) (omega arith)
              (λ j l. refl) (i.children c h))
    ];
  }

  -- The invariant holds again.
  pub updated-Wf : Wf key_of key_size (suc key_size) d k (of_inner updated)
  updated-Wf = Wf-of_inner key_of key_size key_size d k updated updated-InnerWf
