-- ===== src/Tree/Erase/Collapse.antt =====
-- A lemma about the one-way nodes above a leaf that `shrink_after_erase` of include/art/ar_tree.h drops.
use cpp_art.Base.{
  ℕ, suc, ◌+◌, ◌≡◌, ◌≢◌, ◌<◌, refl, inl, inr, arith, sum_below_zero, sum_below_change, eq_or_ne,
  set,
}
use cpp_art.Node.Body
use cpp_art.Node.Body.{Body}
use cpp_art.Tree.{Node, null, leaf, node_pointer}
use cpp_art.Tree.Key.{Key, Agree, key_eq_ne}
use cpp_art.Tree.Find.Steps.{Wf-leaf, Agree-Wf_leaf, find_loop-leaf, find_loop-null}
use cpp_art.Tree.Leaves.{leaves, leaves-null, leaves-leaf}
use cpp_art.Tree.Erase.Lost.{Lost, LostBelow}

module _ {V : Type 0} (key_of : V → Key) (key_size : ℕ) where
  pub collapse_Lost :
      (r d : ℕ) (k : Key) (t : Node V) (m : Body (Node V)) (b : ℕ) (u : V)
      → suc r + d ≡ key_size
      → LostBelow key_of key_size r d k t m
      → b < 256
      → Body.find m b ≡ leaf u
      → ((c : ℕ) → c ≢ b → Body.find m c ≡ null)
      → Lost key_of key_size (suc r) d k t (leaf u)
  collapse_Lost r d k t m b u e l small here alone = record {
    wf = Wf-leaf key_of (suc r) d k u (λ j h. ground (arith, path j));
    solid = refl;
    fewer = ground (
      arith,
      l.fewer,
      leaves-leaf (suc r) u,
      leaves-leaf r u,
      leaves-null V r,
      here,
      sum_below_zero 256 (λ c. leaves {V = V} r null) (λ c h. leaves-null V r),
      sum_below_change 256 (λ c. leaves {V = V} r null) (λ c. leaves r (Body.find m c)) b small
          (λ j h ne. ground (arith, alone j)),
    );
    gone = l.gone;
    had = l.had;
    finds = λ j h a. elim (eq_or_ne (j d) b) [
      | inl q ↦ ground (
        arith,
        l.finds j h a,
        here,
        find_loop-leaf key_of key_size (suc r) d u j,
        find_loop-leaf key_of key_size r (suc d) u j,
      )
      | inr q ↦ ground (
        arith,
        l.finds j h a,
        alone (j d) q,
        find_loop-leaf key_of key_size (suc r) d u j,
        find_loop-null key_of key_size r (suc d) j,
        key_eq_ne key_size d j (key_of u),
        path d,
      )
    ];
  }
    where
      path : Agree (suc d) (key_of u) (set k d b)
      path = Agree-Wf_leaf key_of r (suc d) (set k d b) u (rw here at (l.children b small))
