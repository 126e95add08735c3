-- ===== src/Tree/Erase/Settle.antt =====
-- Lemmas about `shrink_after_erase` of include/art/ar_tree.h: a description of where the changed
-- node goes, without its loops.
use cpp_art.Base.{
  ℕ, suc, ◌+◌, ◌-◌, ◌≡◌, ◌<◌, ◌≤◌, [], ◌∷◌, true, false, refl, ◌∙◌, if◌then◌else◌, leb, ◌&&◌, some,
  le→ltb, lt→ltb, Bool-cases, inl, inr, arith,
}
use cpp_art.Node.Body
use cpp_art.Node.Body.{Body}
use cpp_art.Node.Body.Laws.{update_child_ptr_twice, size-update_child_ptr}
use cpp_art.Tree.{Node, Inner, view, node_pointer, is_leaf, Ancestors}
use cpp_art.Tree.Key.{Key}
use cpp_art.Tree.Find.{done}
use cpp_art.Tree.Insert.{plug}
use cpp_art.Tree.Erase.{size, min_size, compress, shrink_round, shrink_after_erase}

-- The ancestors of a node at depth `d` stand at the depths right above it, up to the root at 0.
abbrev pub Chain : {V : Type 0} → ℕ → Ancestors V → Type 0
Chain d [] = d ≡ 0
Chain d (n ∷ above) = (suc n.depth ≡ d) × Chain n.depth above

module _ {V : Type 0} where
  unfoldable pub settle : Key → Ancestors V → Node V → Node V
  settle k [] t = t
  settle k (parent ∷ above) t =
      if is_leaf t && leb (Body.size parent.body) 1
      then settle k above t
      else plug k (parent ∷ above) t

  pub settle-inner :
      (k : Key) (above : Ancestors V) (t : Node V)
      → is_leaf t ≡ false
      → settle k above t ≡ plug k above t
  unfolding settle
  settle-inner k [] t h = unfold plug in refl
  settle-inner k (parent ∷ above) t h = rw h

  -- A write of the node into its parent changes nothing.
  settle_written :
      (k : Key) (g : Inner V) (above : Ancestors V) (t : Node V)
      → settle k (record g { body = Body.update_child_ptr g.body (k g.depth) t } ∷ above) t
        ≡ settle k (g ∷ above) t
  unfolding settle plug
  settle_written k g above t = rw (size-update_child_ptr, update_child_ptr_twice)

  pub settle-cons :
      (k : Key) (parent : Inner V) (above : Ancestors V) (t : Node V)
      → settle k (parent ∷ above) t ≡ (
          if is_leaf t && leb (Body.size parent.body) 1
          then settle k above t
          else plug k (parent ∷ above) t)
  unfolding settle
  settle-cons k parent above t = refl

  pub compress-settle :
      (k : Key) (depth d j : ℕ) (t : Node V) (above : Ancestors V)
      → Chain d above
      → d + j ≡ suc depth
      → plug k (compress k depth t j above).1 (compress k depth t j above).0 ≡ settle k above t
  unfolding compress
  compress-settle k depth d j t [] c e = unfold plug settle in refl
  compress-settle k depth d j t (parent ∷ []) c e =
      let bound : leb j (depth + 1) ≡ true = ground arith in
      rw (settle-cons, bound)
        (elim (Bool-cases (is_leaf t)) [
          | inl h ↦ rw h (elim (Bool-cases (leb (Body.size parent.body) 1)) [
            | inl g ↦ rw g (unfold plug settle in refl)
            | inr g ↦ rw g refl
          ])
          | inr h ↦ rw h refl
        ])
  compress-settle k depth d j t (parent ∷ (grandparent ∷ above)) c e =
      let bound : leb j (depth + 1) ≡ true = ground arith in
      let place : depth - j - 1 ≡ grandparent.depth = omega arith in
      let rest =
        compress-settle k depth parent.depth (suc j) t
          (record grandparent {
            body = Body.update_child_ptr grandparent.body (k (depth - j - 1)) t;
          }
            ∷ above)
          (c.1.0, c.1.1) (omega arith) in
      rw (settle-cons, bound)
        (elim (Bool-cases (is_leaf t)) [
          | inl h ↦ rw h (elim (Bool-cases (leb (Body.size parent.body) 1)) [
            | inl g ↦ rw g (rest ∙ written place)
            | inr g ↦ rw g refl
          ])
          | inr h ↦ rw h refl
        ])
    where
      written :
          {b : ℕ}
          → b ≡ grandparent.depth
          → settle k
              (record grandparent { body = Body.update_child_ptr grandparent.body (k b) t } ∷ above)
              t
            ≡ settle k (grandparent ∷ above) t
      written p = rw p (settle_written k grandparent above t)

  pub compress-inner :
      (k : Key) (depth j : ℕ) (t : Node V) (above : Ancestors V)
      → is_leaf t ≡ false
      → compress k depth t j above ≡ (t, above)
  unfolding compress
  compress-inner k depth j t [] h = refl
  compress-inner k depth j t (parent ∷ []) h = rw h
  compress-inner k depth j t (parent ∷ (grandparent ∷ above)) h = rw h

  pub compress-node :
      (k : Key) (depth j : ℕ) (t : Node V) (above : Ancestors V)
      → (compress k depth t j above).0 ≡ t
  unfolding compress
  compress-node k depth j t [] = refl
  compress-node k depth j t (parent ∷ []) = ground arith
  compress-node k depth j t (parent ∷ (grandparent ∷ above)) = ground (
    arith,
    compress-node k depth (suc j) t (
        record grandparent { body = Body.update_child_ptr grandparent.body (k (depth - j - 1)) t }
        ∷ above),
  )

  -- The outer loop ends at a node that is not underfull.
  pub round_done :
      (f : ℕ) (k : Key) (depth : ℕ) (t : Node V) (above : Ancestors V)
      → min_size (view t) ≤ size (view t)
      → shrink_after_erase (suc f) k depth t above ≡ done (t, above)
  unfolding shrink_after_erase
  round_done f k depth t above h =
      rw (le→ltb (size (view t)) (min_size (view t)) h, shrink_after_erase)

  pub round_next :
      (f : ℕ) (k : Key) (depth : ℕ) (t t' : Node V) (above above' : Ancestors V)
      → size (view t) < min_size (view t)
      → shrink_round k depth (view t) above ≡ some (t', above', true)
      → shrink_after_erase (suc f) k depth t above ≡ shrink_after_erase f k depth t' above'
  unfolding shrink_after_erase
  round_next f k depth t t' above above' h e =
      rw (lt→ltb (size (view t)) (min_size (view t)) h, e, shrink_after_erase)

  pub round_last :
      (f : ℕ) (k : Key) (depth : ℕ) (t t' : Node V) (above above' : Ancestors V)
      → size (view t) < min_size (view t)
      → shrink_round k depth (view t) above ≡ some (t', above', false)
      → shrink_after_erase (suc f) k depth t above ≡ done (t', above')
  unfolding shrink_after_erase
  round_last f k depth t t' above above' h e =
      rw (lt→ltb (size (view t)) (min_size (view t)) h, e, shrink_after_erase)
