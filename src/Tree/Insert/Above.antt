-- ===== src/Tree/Insert/Above.antt =====
-- The ancestors of a node, as the loop of `insert_unique` writes through them.
use cpp_art.Base.{ℕ, suc, ◌≡◌, ◌<◌, [], ◌∷◌, refl, arith}
use cpp_art.Node.Body
use cpp_art.Node.Body.{Body}
use cpp_art.Tree.{Node, Inner, of_inner, node_pointer, Ancestors}
use cpp_art.Tree.Key.{Key, Agree}
use cpp_art.Tree.Insert.{plug}

-- The ancestors of a node at depth `d` stand at smaller depths.
abbrev pub Above : {V : Type 0} → ℕ → Ancestors V → Type 0
Above d [] = Unit
Above d (n ∷ above) = (n.depth < d) × Above d above

pub Above-suc : {V : Type 0} (d : ℕ) (above : Ancestors V) → Above d above → Above (suc d) above
Above-suc d [] h = tt
Above-suc d (n ∷ above) h = (omega arith, Above-suc d above h.1)

-- Ancestors read only the bytes above them.
pub plug-Agree :
    {V : Type 0} (d : ℕ) (k j : Key) (above : Ancestors V) (t : Node V)
    → Agree d k j
    → Above d above
    → plug k above t ≡ plug j above t
unfolding plug
plug-Agree d k j [] t a h = refl
plug-Agree d k j (n ∷ above) t a h = rw (a n.depth h.0) (plug-Agree d k j above _ a h.1)

-- The write into a parent whose record of its depth is right.
pub plug_at_depth :
    {V : Type 0} (k : Key) (d : ℕ) (n : Inner V) (above : Ancestors V) (t : Node V)
    → n.depth ≡ d
    → plug k (n ∷ above) t
      ≡ plug k above (of_inner (record { depth = d; body = Body.update_child_ptr n.body (k d) t }))
unfolding plug
plug_at_depth k d n above t e = λ i.
    plug k above
      (of_inner (record { depth = e i; body = Body.update_child_ptr n.body (k (e i)) t }))
