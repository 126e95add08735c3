-- ===== src/Tree/Insert/Room.antt =====
-- The node that takes a new leaf: it has room, after growing if it was full.
use cpp_art.Base.{ℕ, ◌+◌, ◌≡◌, ◌<◌, ◌≤◌, some, refl, eq→==, ne→==, inl, inr, arith, Pointer}
use cpp_art.Node.Body
use cpp_art.Node.Body.{Body}
use cpp_art.Node.Body.Laws.{room_or_full}
use cpp_art.Node.Body.Resize.{grow_lem, Resized}
use cpp_art.Tree.Insert.{make_room}

module _ {P : Type 0} ⦃pt : Pointer P⦄ where
  -- What the node with room keeps.
  pub record Roomy (n m : Body P) : Type 0 where
    pub kept : Resized n m
    pub room : Body.size m < Body.max_size m
    pub sized : Body.min_size m ≤ Body.size m + 1

  -- A node with an absent byte gets room: the growth of a full one never reaches the `throw`.
  pub make_room_lem :
      (n : Body P) (b : ℕ)
      → Body.IsValid n
      → (2 < Body.min_size n → Body.min_size n ≤ Body.size n)
      → 0 < Body.size n
      → b < 256
      → Body.find n b ≡ pt.null
      → (m : Body P) × (make_room n ≡ some m) × Roomy n m
  unfolding make_room
  make_room_lem n b v roomy pos small free = elim (room_or_full n b v small free) [
    | inl room ↦ (
      n,
      rw (ne→== (Body.size n) (Body.max_size n) (omega arith)),
      record {
        kept = record { valid = v; same_size = refl; same_find = λ c h. refl };
        room = room;
        sized = ground arith;
      },
    )
    | inr full ↦
        let (m, grown, kept, room, least) = grow_lem n v full.0 full.1 in
        (
          m,
          rw (eq→== (Body.size n) (Body.max_size n) full.0) grown,
          record { kept = kept; room = room; sized = omega arith },
        )
  ]
