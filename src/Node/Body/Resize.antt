-- ===== src/Node/Body/Resize.antt =====
-- Lemmas about `grow` and `shrink` of include/art/ar_tree.h.
use cpp_art.Base.{ℕ, ◌+◌, ◌≡◌, ◌<◌, refl, some, Pointer, arith}
use cpp_art.Node.Node16
use cpp_art.Node.Growth.{
  node_4_of_16, node_16_of_4, node_16_of_48, node_48_of_16, node_48_of_256, node_256_of_48,
}
use cpp_art.Node.Growth.Copies.{
  node_16_of_4-IsValid, find-node_16_of_4, node_4_of_16-IsValid, find-node_4_of_16,
  node_256_of_48-IsValid, find-node_256_of_48,
}
use cpp_art.Node.Growth.Fill.{node_48_of_16-IsValid, find-node_48_of_16}
use cpp_art.Node.Growth.Collect.{
  node_16_of_48-IsValid, find-node_16_of_48, node_48_of_256-IsValid, find-node_48_of_256,
}
use cpp_art.Node.Body.{
  Body, node_4, node_16, node_48, node_256, size, max_size, min_size, find, grow, shrink, IsValid,
}

module _ {P : Type 0} ⦃pt : Pointer P⦄ where
  -- What a changed node keeps: it is valid, has the same size and finds the same children.
  pub record Resized (n m : Body P) : Type 0 where
    pub valid : IsValid m
    pub same_size : size m ≡ size n
    pub same_find : (c : ℕ) → c < 256 → find m c ≡ find n c

  -- A valid node that is full and of a class that can grow, grows into a valid node of the same
  -- size that finds the same children, has room, and is one child short of what its class asks
  -- for.
  pub grow_lem :
      (n : Body P)
      → IsValid n
      → size n ≡ max_size n
      → max_size n < 256
      → (m : Body P) × (grow n ≡ some m)
        × Resized n m
        × (size m < max_size m)
        × (min_size m ≡ size m + 1)
  unfolding grow size max_size min_size find Node16.find
  grow_lem (node_4 n) v full small = (
    node_16 (node_16_of_4 n),
    refl,
    record {
      valid = node_16_of_4-IsValid v full;
      same_size = unfold node_16_of_4 in omega arith;
      same_find = λ c h. find-node_16_of_4 v full c;
    },
    unfold node_16_of_4 in omega arith,
    unfold node_16_of_4 in omega arith,
  )
  grow_lem (node_16 n) v full small = (
    node_48 (node_48_of_16 n),
    refl,
    record {
      valid = node_48_of_16-IsValid v full;
      same_size = unfold node_48_of_16 in omega arith;
      same_find = λ c h. find-node_48_of_16 v full c;
    },
    unfold node_48_of_16 in omega arith,
    unfold node_48_of_16 in omega arith,
  )
  grow_lem (node_48 n) v full small = (
    node_256 (node_256_of_48 n),
    refl,
    record {
      valid = node_256_of_48-IsValid v full;
      same_size = unfold node_256_of_48 in omega arith;
      same_find = λ c h. find-node_256_of_48 n c;
    },
    unfold node_256_of_48 in omega arith,
    unfold node_256_of_48 in omega arith,
  )
  grow_lem (node_256 n) v full small = absurd (omega arith)

  -- A valid node of a larger class that is one child short of what its class asks for shrinks
  -- into a valid node of the same size that finds the same children and has more than its new
  -- class asks for.
  pub shrink_lem :
      (n : Body P)
      → IsValid n
      → size n + 1 ≡ min_size n
      → 2 < min_size n
      → Resized n (shrink n) × (min_size (shrink n) < size (shrink n))
  unfolding shrink size min_size find Node16.find
  shrink_lem (node_4 n) v short large = absurd (omega arith)
  shrink_lem (node_16 n) v short large =
      let e : n.count ≡ 4 = omega arith in
      (
        record {
          valid = node_4_of_16-IsValid v e;
          same_size = unfold node_4_of_16 in omega arith;
          same_find = λ c h. find-node_4_of_16 v e c;
        },
        unfold node_4_of_16 in omega arith,
      )
  shrink_lem (node_48 n) v short large =
      let e : n.count ≡ 16 = omega arith in
      (
        record {
          valid = node_16_of_48-IsValid v e;
          same_size = unfold node_16_of_48 in omega arith;
          same_find = λ c h. find-node_16_of_48 v e c h;
        },
        unfold node_16_of_48 in omega arith,
      )
  shrink_lem (node_256 n) v short large =
      let e : n.count ≡ 48 = omega arith in
      (
        record {
          valid = node_48_of_256-IsValid v e;
          same_size = unfold node_48_of_256 in omega arith;
          same_find = λ c h. find-node_48_of_256 v e c h;
        },
        unfold node_48_of_256 in omega arith,
      )
