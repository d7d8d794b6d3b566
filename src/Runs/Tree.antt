-- ===== src/Runs/Tree.antt =====
-- Trees at concrete values.
use protoc_gen_codec.Base.{
  List, [], arith, drop, if◌then◌else◌, length, ltb, none, refl, replicate, some, ℕ, ◌++◌, ◌==◌,
  ◌∷◌, ◌≡◌,
}
use protoc_gen_codec.Fixtures.Tree.{
  Tree, TreeSlots, child_then, nil_then, no_more, node, tree, zero_tree,
}
use protoc_gen_codec.Fixtures.Tree.Laws.{
  AreChildren, IsTree, children_after, children_wire, tree_after, tree_round_trip, tree_wire,
}
use protoc_gen_codec.Message.{marshal_codec, marshal_to_codec, size_codec, unmarshal_codec}
use protoc_gen_codec.Runtime.Errors.{buffer_too_short, err, ok, sentinel}
use protoc_gen_codec.Runtime.Varint.Groups.{groups, varint}
use protoc_gen_codec.Wire.Loop.{done}

-- "ab".
abbrev ab : List ℕ
ab = 97 ∷ 98 ∷ []

abbrev room : List ℕ
room = replicate 80 7

-- Three levels, with a nil pointer among the children of the root.
abbrev pub some_tree : Tree
some_tree = node ab (
    child_then (node [] (child_then (node ab no_more) no_more))
      (nil_then (child_then zero_tree no_more)))

abbrev other_tree : Tree
other_tree = node [] (child_then zero_tree no_more)

-- The first slot of every backing array holds an old message.
abbrev pub tree_slots : TreeSlots
tree_slots off k = if k == 0 then some (node ab no_more) else none

some_tree-IsTree : IsTree some_tree
unfolding IsTree AreChildren tree_wire children_wire varint groups
some_tree-IsTree = (
  omega arith,
  (
    ((omega arith, (((omega arith, tt), omega arith), tt)), omega arith),
    (((omega arith, tt), omega arith), tt),
  ),
)

tree_round_trip_example :
    (marshal_codec (tree tree_slots) (some some_tree) ≡ ok (tree_wire some_tree))
    × (size_codec (tree tree_slots) (some some_tree) ≡ length (tree_wire some_tree))
    × (marshal_to_codec (tree tree_slots) (some some_tree) room ≡ (
        if ltb (length room) (length (tree_wire some_tree))
        then err (sentinel buffer_too_short)
        else ok (
          tree_wire some_tree ++ drop (length (tree_wire some_tree)) room,
          length (tree_wire some_tree),
        )))
    × (unmarshal_codec (tree tree_slots) (some other_tree) (tree_wire some_tree)
        ≡ done (tree_after some_tree) (length (tree_wire some_tree)))
tree_round_trip_example = tree_round_trip tree_slots some_tree other_tree room some_tree-IsTree

-- The nil pointer is gone.
tree_after_run :
    tree_after some_tree
    ≡ node ab
        (child_then (node [] (child_then (node ab no_more) no_more)) (child_then zero_tree no_more))
unfolding tree_after children_after
tree_after_run = refl
