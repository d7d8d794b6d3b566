-- ===== src/Fixtures/Tree/Laws.antt =====
-- `Tree` on the wire: its methods are lawful, by recursion on the tree.
use protoc_gen_codec.Base.{
  List, [], ap, arith, drop, if◌then◌else◌, length, length-append, ltb, refl, some, suc, sym, zero,
  ℕ, ◌++◌, ◌<◌, ◌==◌, ◌≡◌, ◌≤◌,
}
use protoc_gen_codec.Fixtures.Tree.{
  Children, Tree, TreeSlots, add_child, child_count, child_then, children_emit, children_size,
  nil_then, no_more, node, tree, tree_decode, tree_marshal_internal, tree_size, tree_switch,
  tree_unmarshal_internal, tree_with, zero_tree,
}
use protoc_gen_codec.Message.{marshal_codec, marshal_to_codec, size_codec, unmarshal_codec}
use protoc_gen_codec.Message.Kinds.{bad_tag, emit_bytes_field}
use protoc_gen_codec.Message.Kinds.Bytes.{IsShort, bytes_wire, element_wire}
use protoc_gen_codec.Message.Kinds.Delimited.{InSlab-ReadsBody}
use protoc_gen_codec.Message.Kinds.Nested.{emit_message, or_new, size_message}
use protoc_gen_codec.Message.Kinds.Nested.Laws.{Ends-message_case}
use protoc_gen_codec.Message.Laws.{EncodesAt, Lawful, codec_lem}
use protoc_gen_codec.Message.Parts.{Part, Part-to, string_part, ◌⊕◌}
use protoc_gen_codec.Message.Parts.Nested.{element_part}
use protoc_gen_codec.Message.Parts.Numeric.{absent_part}
use protoc_gen_codec.Message.Parts.Stays.{bytes-Stays, on◌stays◌or◌, skip-Stays}
use protoc_gen_codec.Runtime.Errors.{buffer_too_short, err, ok, sentinel}
use protoc_gen_codec.Runtime.Varint.Groups.{varint}
use protoc_gen_codec.Wire.Emit.{◌⨾◌}
use protoc_gen_codec.Wire.Emit.Laws.{Writes-Appends}
use protoc_gen_codec.Wire.Loop.{done}
use protoc_gen_codec.Wire.Loop.Laws.{decode_fields_lem}
use protoc_gen_codec.Wire.Loop.Safe.{EndsAll, EndsAt, decode_fields_ends}
use protoc_gen_codec.Wire.Slab.{InSlab}

unfoldable mutual
  pub tree_wire : Tree → List ℕ
  tree_wire (node label cs) = bytes_wire 0x0a label ++ children_wire cs

  pub children_wire : Children → List ℕ
  children_wire no_more = []
  children_wire (nil_then cs) = children_wire cs
  children_wire (child_then t cs) = element_wire 0x12 (tree_wire t) ++ children_wire cs

-- The values that the Go types of the fields admit.
unfoldable mutual
  pub IsTree : Tree → Type 0
  IsTree (node label cs) = IsShort label × AreChildren cs

  pub AreChildren : Children → Type 0
  AreChildren no_more = Unit {0}
  AreChildren (nil_then cs) = AreChildren cs
  AreChildren (child_then t cs) = (IsTree t × IsShort (tree_wire t)) × AreChildren cs

-- What is read back: the tree without its nil pointers.
unfoldable mutual
  pub tree_after : Tree → Tree
  tree_after (node label cs) = node label (children_after cs)

  pub children_after : Children → Children
  children_after no_more = no_more
  children_after (nil_then cs) = children_after cs
  children_after (child_then t cs) = child_then (tree_after t) (children_after cs)

-- One list of children behind the other.
unfoldable pub append_children : Children → Children → Children
append_children no_more ds = ds
append_children (nil_then cs) ds = nil_then (append_children cs ds)
append_children (child_then t cs) ds = child_then t (append_children cs ds)

append_children-add_child :
    (got : Children) (x : Tree) (cs : Children)
    → append_children (add_child got x) cs ≡ append_children got (child_then x cs)
unfolding append_children add_child
append_children-add_child no_more x cs = refl
append_children-add_child (nil_then got) x cs = ap nil_then (append_children-add_child got x cs)
append_children-add_child (child_then t got) x cs =
    ap (child_then t) (append_children-add_child got x cs)

append_children_no_more : (got : Children) → append_children got no_more ≡ got
unfolding append_children
append_children_no_more no_more = refl
append_children_no_more (nil_then got) = ap nil_then (append_children_no_more got)
append_children_no_more (child_then t got) = ap (child_then t) (append_children_no_more got)

module _ (slots : TreeSlots) where
  -- The label, and then the children.
  tree_part :
      (label : List ℕ) (cs : Children) (f : ℕ)
      → IsShort label
      → Part
          (tree_switch (tree_decode slots f) slots)
          (children_size cs)
          (children_emit cs)
          (children_wire cs)
          (node label no_more)
          (node label (append_children no_more (children_after cs)))
      → Part
          (tree_switch (tree_decode slots f) slots)
          (tree_size (node label cs))
          (emit_bytes_field 0x0a label ⨾ children_emit cs)
          (tree_wire (node label cs))
          zero_tree
          (tree_after (node label cs))
  unfolding tree_size tree_wire tree_after tree_switch append_children
  tree_part label cs f h children =
      string_part "Label" 1 (omega arith) (λ s. node s no_more) label h
        (λ body slab slab_off i. refl)
      ⊕ children

  mutual
    unfolding tree_size children_size tree_marshal_internal children_emit tree_wire children_wire
        IsTree AreChildren tree_after children_after tree_switch tree_decode append_children
        size_message emit_message

    tree_encodes :
        (t : Tree) (f : ℕ)
        → IsTree t
        → length (tree_wire t) < f
        → EncodesAt (tree_with (tree_decode slots f)) t (tree_wire t) (tree_after t)
    tree_encodes t zero v h = absurd (omega (arith, h))
    tree_encodes (node label cs) (suc f) v h =
        let parts = tree_part label cs f v.0 (
          children_parts cs label no_more f v.1
            (omega (arith, h, length-append (bytes_wire 0x0a label) (children_wire cs)))) in
        record {
          size_at = parts.sized;
          writes_at = Writes-Appends parts.writes;
          reads_at = λ r slab slab_off inside.
              decode_fields_lem (parts.reads (tree_wire (node label cs)) slab slab_off inside);
        }

    children_parts :
        (cs : Children) (label : List ℕ) (got : Children) (f : ℕ)
        → AreChildren cs
        → length (children_wire cs) ≤ f
        → Part
            (tree_switch (tree_decode slots f) slots)
            (children_size cs)
            (children_emit cs)
            (children_wire cs)
            (node label got)
            (node label (append_children got (children_after cs)))
    children_parts no_more label got f v h =
        Part-to (ap (node label) (sym (append_children_no_more got))) absent_part
    children_parts (nil_then cs) label got f v h = children_parts cs label got f v h
    children_parts (child_then t cs) label got f v h =
        let whole = length-append (element_wire 0x12 (tree_wire t)) (children_wire cs) in
        let element = length-append (varint (length (tree_wire t))) (tree_wire t) in
        Part-to (ap (node label) (append_children-add_child got (tree_after t) (children_after cs)))
          (element_part "Children" 2 (omega arith) (node label got)
              (λ off. or_new zero_tree (slots off (child_count got)))
              (λ x. node label (add_child got x))
              (tree_encodes t f v.0.0 (omega (arith, h, whole, element))) v.0.1
              (λ body slab slab_off i. refl)
            ⊕ children_parts cs label (add_child got (tree_after t)) f v.1
                (omega (arith, h, whole)))

  tree_switch_ends :
      (f : ℕ) (body slab : List ℕ) (slab_off : ℕ)
      → InSlab body slab slab_off
      → ((s : List ℕ) (off : ℕ)
          → InSlab s slab off
          → length s < length body
          → (x : Tree) → EndsAt (length s) (tree_decode slots f s slab off x))
      → EndsAll (length body) (tree_switch (tree_decode slots f) slots body slab slab_off)
  unfolding tree_switch
  tree_switch_ends f body slab slab_off r nested num wire_type i (node label cs) g =
      let reads = InSlab-ReadsBody body slab slab_off r in
      (on num == 1
        stays bytes-Stays "Label" 1 body wire_type i (node label cs) g _ _ reads
        or on num == 2
        stays record {
          ends =
              Ends-message_case (tree_with (tree_decode slots f)) "Children" 2 body slab slab_off r
                (node label cs) _ _ wire_type i g
                (λ s off inside shorter. nested s off inside shorter _);
        }
        or skip-Stays body wire_type i (node label cs) g).ends

  tree_decode_ends :
      (f : ℕ) (body slab : List ℕ) (slab_off : ℕ) (m : Tree)
      → length body < f
      → InSlab body slab slab_off
      → EndsAt (length body) (tree_decode slots f body slab slab_off m)
  unfolding tree_decode
  tree_decode_ends zero body slab slab_off m h r = absurd (omega (arith, h))
  tree_decode_ends (suc f) body slab slab_off m h r =
      decode_fields_ends bad_tag body _
        (tree_switch_ends f body slab slab_off r
          (λ s off inside shorter x. tree_decode_ends f s slab off x (omega (arith, h)) inside))
        zero_tree

  pub tree-Lawful : Lawful (tree slots) IsTree tree_wire tree_after
  unfolding tree_unmarshal_internal
  tree-Lawful = record {
    size_wire = λ m v. (tree_encodes m (suc (length (tree_wire m))) v (omega arith)).size_at;
    writes_wire = λ m v. (tree_encodes m (suc (length (tree_wire m))) v (omega arith)).writes_at;
    reads_wire = λ m r slab slab_off v h.
        (tree_encodes m (suc (length (tree_wire m))) v (omega arith)).reads_at r slab slab_off h;
    slab_body = λ bs r. refl;
    ends_at = λ r body slab slab_off h.
        tree_decode_ends (suc (length body)) body slab slab_off r (omega arith) h;
  }

  -- For every valid `Tree`, of whatever depth, MarshalCodec returns its wire bytes, as many as SizeCodec
  -- says; MarshalToCodec writes them at the front of a buffer that holds them and leaves the rest of it,
  -- and on a shorter buffer returns ErrBufferTooShort; and UnmarshalCodec on the bytes reads to the end
  -- and leaves the tree without its nil pointers in any receiver, whatever the backing arrays of its
  -- slices hold.
  pub tree_round_trip :
      (m r : Tree) (buf : List ℕ)
      → IsTree m
      → (marshal_codec (tree slots) (some m) ≡ ok (tree_wire m))
        × (size_codec (tree slots) (some m) ≡ length (tree_wire m))
        × (marshal_to_codec (tree slots) (some m) buf ≡ (
            if ltb (length buf) (length (tree_wire m))
            then err (sentinel buffer_too_short)
            else ok (tree_wire m ++ drop (length (tree_wire m)) buf, length (tree_wire m))))
        × (unmarshal_codec (tree slots) (some r) (tree_wire m)
            ≡ done (tree_after m) (length (tree_wire m)))
  tree_round_trip m r buf v = codec_lem tree-Lawful m r buf v
