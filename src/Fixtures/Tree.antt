-- ===== src/Fixtures/Tree.antt =====
-- The type `Tree` of lang/go/integration/fixture.go and its methods in fixture.codec.go: a message that
-- holds a slice of pointers to messages of its own type.
pub mod Laws
use protoc_gen_codec.Base.{List, Option, [], if◌then◌else◌, length, suc, zero, ℕ, ◌+◌, ◌==◌}
use protoc_gen_codec.Message.{Methods}
use protoc_gen_codec.Message.Kinds.{
  bad_tag, bytes_case, emit_bytes_field, from_slab, size_bytes_field, skip_case,
}
use protoc_gen_codec.Message.Kinds.Nested.{message_case, or_new}
use protoc_gen_codec.Runtime.Varint.{size_varint}
use protoc_gen_codec.Wire.Emit.{Emit, Writer, into, nothing, push, put_varint, ◌⨾◌}
use protoc_gen_codec.Wire.Loop.{Run, Switch, decode_fields, spent}

-- A string is the list of its bytes. The children are a list of pointers: `nil_then` is a nil element.
mutual
  pub data Tree : Type 0 where
    node : List ℕ → Children → Tree

  pub data Children : Type 0 where
    no_more : Children
    nil_then : Children → Children
    child_then : Tree → Children → Children

-- `Tree{}`, and what `new(Tree)` points to.
abbrev pub zero_tree : Tree
zero_tree = node [] no_more

unfoldable mutual
  pub tree_size : Tree → ℕ
  tree_size (node label cs) = size_bytes_field label + children_size cs

  pub children_size : Children → ℕ
  children_size no_more = 0
  children_size (nil_then cs) = children_size cs
  children_size (child_then t cs) = (1 + size_varint (tree_size t) + tree_size t) + children_size cs

unfoldable mutual
  pub tree_marshal_internal : Tree → Writer
  tree_marshal_internal (node label cs) buf = (emit_bytes_field 0x0a label ⨾ children_emit cs) buf 0

  pub children_emit : Children → Emit
  children_emit no_more = nothing
  children_emit (nil_then cs) = children_emit cs
  children_emit (child_then t cs) =
      (push 0x12 ⨾ into (put_varint (tree_size t)) ⨾ into (tree_marshal_internal t))
      ⨾ children_emit cs

unfoldable pub tree_reset : Tree → Tree
tree_reset m = zero_tree

-- `len(m.Children)`, and `append(m.Children, elem)`
unfoldable pub child_count : Children → ℕ
child_count no_more = 0
child_count (nil_then cs) = suc (child_count cs)
child_count (child_then t cs) = suc (child_count cs)

unfoldable pub add_child : Children → Tree → Children
add_child no_more x = child_then x no_more
add_child (nil_then cs) x = nil_then (add_child cs x)
add_child (child_then t cs) x = child_then t (add_child cs x)

-- What the backing arrays hold behind the elements of `m.Children`: for the message whose body stands
-- at an offset of the slab, from an index to the pointer there, `none` for nil or beyond the capacity.
abbrev pub TreeSlots : Type 0
TreeSlots = ℕ → ℕ → Option Tree

-- The methods, with `decode` for the UnmarshalCodecInternal of the children.
abbrev pub tree_with : (List ℕ → List ℕ → ℕ → Tree → Run Tree) → Methods Tree
tree_with decode = record {
  size = tree_size;
  marshal_internal = tree_marshal_internal;
  unmarshal_internal = decode;
  slab = λ bs. bs;
  reset = tree_reset;
}

unfoldable pub tree_switch :
    (List ℕ → List ℕ → ℕ → Tree → Run Tree) → TreeSlots → List ℕ → List ℕ → ℕ → Switch Tree
tree_switch decode slots body slab slab_off num wire_type i (node label cs) =
    if num == 1
    then bytes_case "Label" 1 body wire_type i (node label cs) (from_slab slab slab_off)
        (λ s. node s cs)
    else if num == 2
    then message_case (tree_with decode) "Children" 2 body slab slab_off wire_type i (node label cs)
        (or_new zero_tree (slots slab_off (child_count cs))) (λ x. node label (add_child cs x))
    else skip_case body wire_type i (node label cs)

-- The depth of the recursion is bounded by the fuel.
unfoldable pub tree_decode : TreeSlots → ℕ → List ℕ → List ℕ → ℕ → Tree → Run Tree
tree_decode slots zero body slab slab_off m = spent
tree_decode slots (suc fuel) body slab slab_off m =
    decode_fields bad_tag body (tree_switch (tree_decode slots fuel) slots body slab slab_off)
      zero_tree

-- The body of a child is shorter than the one it stands in, so the length of the body is enough.
unfoldable pub tree_unmarshal_internal : TreeSlots → List ℕ → List ℕ → ℕ → Tree → Run Tree
tree_unmarshal_internal slots body slab slab_off m =
    tree_decode slots (suc (length body)) body slab slab_off m

abbrev pub tree : TreeSlots → Methods Tree
tree slots = tree_with (tree_unmarshal_internal slots)
