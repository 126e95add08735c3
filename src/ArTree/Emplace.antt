-- ===== src/ArTree/Emplace.antt =====
-- `emplace_unique` of include/art/ar_tree.h: the place of a new leaf, then its insertion.
pub mod Same
use cpp_art.Base.{
  ℕ, zero, suc, ◌+◌, ◌-◌, Bool, true, false, ◌==◌, if◌then◌else◌, Option, none, some, List, [], ◌∷◌,
  Pointer,
}
use cpp_art.Node.Growth.{node_4_of_leaf}
use cpp_art.Node.Body
use cpp_art.Node.Body.{Body}
use cpp_art.Tree.{Node, Inner, View, view, leaf, of_inner, is_null, Ancestors, node_pointer}
use cpp_art.Tree.Key.{Key, key_eq}
use cpp_art.Tree.Find.{Iterator, end, at, Outcome, done, throws, bad_access}
use cpp_art.Tree.Insert.{plug, make_room}
use cpp_art.ArTree.{ArTree, replace_root}

-- What `get_insert_unique_pos` returns: the dummy node of an empty tree, the leaf with the same key,
-- or the inner node that takes the leaf, with its ancestors. The nodes that were made on the way
-- are among them.
pub data Position (V : Type 0) : Type 0 where
  dummy : Position V
  taken : V → Position V
  inside : Inner V → Ancestors V → Position V

module _ {V : Type 0} (key_of : V → Key) (key_size : ℕ) where
  -- From a leaf in the way, the inner node that takes both leaves. The loop's last round, at the
  -- byte after the key, is not reached by keys that differ.
  unfoldable pub tiebreak_pos : ℕ → ℕ → Ancestors V → V → Key → Outcome (Position V)
  tiebreak_pos zero j above existing_leaf key = throws
  tiebreak_pos (suc r) j above existing_leaf key =
      let node : Inner V = record {
        depth = j;
        body = Body.node_4 (node_4_of_leaf (leaf existing_leaf) (key_of existing_leaf j));
      } in
      let rest = tiebreak_pos r (suc j) (node ∷ above) existing_leaf key in
      if key_of existing_leaf j == key j then rest else done (inside node above)

  -- An empty place below `previous_node`, the nearest ancestor.
  unfoldable pub room_pos : Ancestors V → Outcome (Position V)
  room_pos [] = done dummy
  room_pos (previous_node ∷ above) = elim (make_room previous_node.body) [
    | none ↦ throws
    | some b ↦ done (inside (record previous_node { body = b }) above)
  ]

  -- the loop of `get_insert_unique_pos` with `fuel` rounds left
  unfoldable pub pos_loop : ℕ → ℕ → Ancestors V → Node V → Key → Outcome (Position V)
  pos_loop zero depth above current_node key = throws
  pos_loop (suc fuel) depth above current_node key = elim (view current_node) [
    | View.nothing ↦ room_pos above
    | View.a_leaf w ↦
        if key_eq key_size key (key_of w)
        then done (taken w)
        else tiebreak_pos (suc key_size - depth) depth above w key
    | View.an_inner n ↦ pos_loop fuel (suc depth) (n ∷ above) (Body.find n.body (key depth)) key
  ]

  unfoldable pub get_insert_unique_pos : ArTree V → Key → Outcome (Position V)
  get_insert_unique_pos t key =
      if is_null t.root then done dummy else pos_loop (suc key_size) 0 [] t.root key

  -- `insert_leaf` at an inner node
  unfoldable pub insert_leaf : Inner V → Ancestors V → V → Node V
  insert_leaf parent above x =
      plug (key_of x) above (
        of_inner
          (record parent { body = Body.insert parent.body (key_of x parent.depth) (leaf x) }))

  -- `emplace_unique` of a value that has been made; the leaf is deleted if the key is there
  unfoldable pub emplace_unique : ArTree V → V → Outcome (ArTree V × Iterator V × Bool)
  emplace_unique t x = elim (get_insert_unique_pos t (key_of x)) [
    | done dummy ↦ done (record (replace_root t (leaf x)) { count = t.count + 1 }, at x, true)
    | done (taken w) ↦ done (t, at w, false)
    | done (inside parent above) ↦
        done (record t { root = insert_leaf parent above x; count = t.count + 1 }, at x, true)
    | throws ↦ throws
    | bad_access ↦ bad_access
  ]
