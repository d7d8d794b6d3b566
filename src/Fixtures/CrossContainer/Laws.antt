-- ===== src/Fixtures/CrossContainer/Laws.antt =====
-- `CrossContainer` on the wire: its methods are lawful.
use protoc_gen_codec.Base.{
  All, List, Option, [], ap, arith, bit_and, bit_or, drop, if◌then◌else◌, length, ltb, map_id, none,
  refl, some, ℕ, ◌++◌, ◌+◌, ◌==◌, ◌^◌, ◌∙◌, ◌≡◌,
}
use protoc_gen_codec.Fixtures.CrossContainer.{
  CrossContainer, CrossContainerRun, cross_container, cross_container_finish,
  cross_container_marshal_internal, cross_container_return, cross_container_size,
  cross_container_start, cross_container_switch, cross_container_unmarshal_internal,
}
use protoc_gen_codec.Fixtures.External.{External, external, zero_external}
use protoc_gen_codec.Fixtures.External.Laws.{IsExternal, external-Lawful, external_wire}
use protoc_gen_codec.Message.{marshal_codec, marshal_to_codec, size_codec, unmarshal_codec}
use protoc_gen_codec.Message.Kinds.{bad_tag, emit_bytes_field, size_bytes_field}
use protoc_gen_codec.Message.Kinds.Bytes.{IsShort, bytes_wire}
use protoc_gen_codec.Message.Kinds.Delimited.{InSlab-ReadsBody}
use protoc_gen_codec.Message.Kinds.Nested.{
  emit_pointer_field, emit_pointers_field, emit_values_field, or_new, size_pointer_field,
  size_pointers_field, size_values_field,
}
use protoc_gen_codec.Message.Laws.{Lawful, codec_lem, unmarshal_codec_ends}
use protoc_gen_codec.Message.Parts.{Part, Part-to, string_part, ◌⊕◌}
use protoc_gen_codec.Message.Parts.Nested.{
  IsSent, bit_if, keep, message-Stays, pointer_after, pointer_part, pointer_wire, pointers_after,
  pointers_part, pointers_wire, values_part, values_wire,
}
use protoc_gen_codec.Message.Parts.Numeric.{AllOption, stored}
use protoc_gen_codec.Message.Parts.Stays.{bytes-Stays, on◌stays◌or◌, skip-Stays}
use protoc_gen_codec.Runtime.Errors.{buffer_too_short, err, ok, sentinel}
use protoc_gen_codec.Wire.Emit.{◌⨾◌}
use protoc_gen_codec.Wire.Emit.Laws.{Writes-Appends}
use protoc_gen_codec.Wire.Loop.{Run, done, failed, panicked, spent}
use protoc_gen_codec.Wire.Loop.Laws.{decode_fields_lem}
use protoc_gen_codec.Wire.Loop.Safe.{EndsAll, EndsAt, decode_fields_ends}
use protoc_gen_codec.Wire.Slab.{InSlab}

-- The values that the Go types of the fields admit.
pub record IsCrossContainer (m : CrossContainer) : Type 0 where
  pub name_short : IsShort m.name
  pub item_sent : AllOption (IsSent IsExternal external_wire) m.item
  pub items_sent : All (IsSent IsExternal external_wire) m.items
  pub ptr_items_sent : All (AllOption (IsSent IsExternal external_wire)) m.ptr_items

abbrev pub cross_container_wire : CrossContainer → List ℕ
cross_container_wire m =
    bytes_wire 0x0a m.name
    ++ pointer_wire external_wire 0x12 m.item
    ++ values_wire external_wire 0x1a m.items
    ++ pointers_wire external_wire 0x22 m.ptr_items

-- What is read back: a pointer to a message without bytes is nil, and nil elements are left out.
unfoldable pub cross_container_after : CrossContainer → CrossContainer
cross_container_after m = record m {
  item = pointer_after external_wire (λ x. x) m.item;
  ptr_items = pointers_after (λ x. x) m.ptr_items;
}

-- The state of the loop once the fields of `m` are read into the receiver `r`.
abbrev cross_container_read : CrossContainer → CrossContainer → CrossContainerRun
cross_container_read m r =
    let s0 = cross_container_start r in
    let s1 : CrossContainerRun = record s0 { value = record s0.value { name = m.name } } in
    let s2 : CrossContainerRun = record {
      value = record s1.value { item = keep (pointer_after external_wire (λ x. x) m.item) r.item };
      seen_optional = bit_if (pointer_after external_wire (λ x. x) m.item) (2 ^ 2);
    } in
    let s3 : CrossContainerRun = record s2 { value = record s2.value { items = m.items } } in
    record s3 { value = record s3.value { ptr_items = pointers_after (λ x. x) m.ptr_items } }

cross_container_unseen :
    (p old : Option External)
    → (if bit_and (bit_if p (2 ^ 2)) (2 ^ 2) == 0 then none else keep p old) ≡ p
cross_container_unseen none old = refl
cross_container_unseen (some x) old = refl

cross_container_finish-read :
    (m r : CrossContainer)
    → cross_container_finish (cross_container_read m r) ≡ cross_container_after m
unfolding cross_container_finish cross_container_after
cross_container_finish-read m r =
    ap (λ q. record (cross_container_after m) { item = q })
      (cross_container_unseen (pointer_after external_wire (λ x. x) m.item) r.item)

-- The pointer field is stored where it is read, and stays as it was otherwise.
cross_container_stored :
    (s : CrossContainerRun) (old : Option External)
    → s.value.item ≡ old
    → s.seen_optional ≡ 0
    → (p : Option External)
    → stored
        (λ y. record s {
          value = record s.value { item = some y };
          seen_optional = bit_or s.seen_optional (2 ^ 2);
        })
        s
        p
      ≡ record s { value = record s.value { item = keep p old }; seen_optional = bit_if p (2 ^ 2) }
cross_container_stored s old e f none = ground arith
cross_container_stored s old e f (some x) = rw f refl

module _ (items_slot : ℕ → External) (ptr_items_slot : ℕ → Option External) where
  cross_container_parts :
      (m r : CrossContainer)
      → IsCrossContainer m
      → Part
          (cross_container_switch items_slot ptr_items_slot)
          (size_bytes_field m.name
            + size_pointer_field external m.item
            + size_values_field external m.items
            + size_pointers_field external m.ptr_items)
          (emit_bytes_field 0x0a m.name
            ⨾ emit_pointer_field external 0x12 m.item
            ⨾ emit_values_field external 0x1a m.items
            ⨾ emit_pointers_field external 0x22 m.ptr_items)
          (cross_container_wire m)
          (cross_container_start r)
          (cross_container_read m r)
  unfolding cross_container_switch
  cross_container_parts m r v =
      let s0 : CrossContainerRun = cross_container_start r in
      let s1 : CrossContainerRun = record s0 { value = record s0.value { name = m.name } } in
      let s2 : CrossContainerRun = record {
        value = record s1.value {
          item = keep (pointer_after external_wire (λ x. x) m.item) r.item;
        };
        seen_optional = bit_if (pointer_after external_wire (λ x. x) m.item) (2 ^ 2);
      } in
      let s3 : CrossContainerRun = record s2 { value = record s2.value { items = m.items } } in
      string_part "Name" 1 (omega arith) (λ y. record s0 { value = record s0.value { name = y } })
        m.name v.name_short (λ body slab slab_off i. refl)
      ⊕ Part-to
          (cross_container_stored s1 r.item refl refl (pointer_after external_wire (λ x. x) m.item))
          (pointer_part external-Lawful "Item" 2 (omega arith) s1
            (or_new zero_external s1.value.item)
            (λ y. record s1 {
              value = record s1.value { item = some y };
              seen_optional = bit_or s1.seen_optional (2 ^ 2);
            })
            m.item v.item_sent (λ body slab slab_off i. refl))
      ⊕ Part-to (ap (λ y. record s2 { value = record s2.value { items = y } }) (map_id m.items)) (
          values_part external-Lawful "Items" 3 (omega arith) (λ got. items_slot (length got))
            (λ y. record s2 { value = record s2.value { items = y } }) [] m.items v.items_sent
            (λ got body slab slab_off i. refl))
      ⊕ pointers_part external-Lawful "PtrItems" 4 (omega arith)
          (λ got. or_new zero_external (ptr_items_slot (length got)))
          (λ y. record s3 { value = record s3.value { ptr_items = y } }) [] m.ptr_items
          v.ptr_items_sent (λ got body slab slab_off i. refl)

  cross_container_switch_ends :
      (body slab : List ℕ) (slab_off : ℕ)
      → InSlab body slab slab_off
      → EndsAll (length body) (cross_container_switch items_slot ptr_items_slot body slab slab_off)
  unfolding cross_container_switch
  cross_container_switch_ends body slab slab_off r num wire_type i m h =
      (on num == 1
        stays bytes-Stays "Name" 1 body wire_type i m h _ _ (InSlab-ReadsBody body slab slab_off r)
        or on num == 2
        stays message-Stays external-Lawful "Item" 2 body slab slab_off wire_type i m _ _ h r
        or on num == 3
        stays message-Stays external-Lawful "Items" 3 body slab slab_off wire_type i m _ _ h r
        or on num == 4
        stays message-Stays external-Lawful "PtrItems" 4 body slab slab_off wire_type i m _ _ h r
        or skip-Stays body wire_type i m h).ends

  cross_container_return_ends :
      (l : ℕ) (run : Run CrossContainerRun) → EndsAt l run → EndsAt l (cross_container_return run)
  cross_container_return_ends l (done s i) h = h
  cross_container_return_ends l (failed e s) h = tt
  cross_container_return_ends l panicked h = h
  cross_container_return_ends l spent h = h

  pub cross_container-Lawful :
      Lawful
        (cross_container items_slot ptr_items_slot)
        IsCrossContainer
        cross_container_wire
        cross_container_after
  unfolding cross_container_size cross_container_marshal_internal cross_container_unmarshal_internal
  cross_container-Lawful = record {
    size_wire = λ m v. (cross_container_parts m m v).sized;
    writes_wire = λ m v. Writes-Appends (cross_container_parts m m v).writes;
    reads_wire = λ m r slab slab_off v h.
        ap cross_container_return (
          decode_fields_lem
            ((cross_container_parts m r v).reads (cross_container_wire m) slab slab_off h))
        ∙ ap (λ u. done u (length (cross_container_wire m))) (cross_container_finish-read m r);
    slab_body = λ bs r. refl;
    ends_at = λ r body slab slab_off h. cross_container_return_ends (length body) _ (
        decode_fields_ends bad_tag body _ (cross_container_switch_ends body slab slab_off h)
          (cross_container_start r));
  }

  -- For every valid `CrossContainer`, MarshalCodec returns its wire bytes, as many as SizeCodec says;
  -- MarshalToCodec writes them at the front of a buffer that holds them and leaves the rest of it,
  -- and on a shorter buffer returns ErrBufferTooShort; and UnmarshalCodec on the bytes reads to the
  -- end and leaves the value that `cross_container_after` gives in any receiver, whatever the
  -- backing arrays of its slices hold.
  pub cross_container_round_trip :
      (m r : CrossContainer) (buf : List ℕ)
      → IsCrossContainer m
      → (marshal_codec (cross_container items_slot ptr_items_slot) (some m)
          ≡ ok (cross_container_wire m))
        × (size_codec (cross_container items_slot ptr_items_slot) (some m)
            ≡ length (cross_container_wire m))
        × (marshal_to_codec (cross_container items_slot ptr_items_slot) (some m) buf ≡ (
            if ltb (length buf) (length (cross_container_wire m))
            then err (sentinel buffer_too_short)
            else ok (
              cross_container_wire m ++ drop (length (cross_container_wire m)) buf,
              length (cross_container_wire m),
            )))
        × (unmarshal_codec
              (cross_container items_slot ptr_items_slot)
              (some r)
              (cross_container_wire m)
            ≡ done (cross_container_after m) (length (cross_container_wire m)))
  cross_container_round_trip m r buf v = codec_lem cross_container-Lawful m r buf v

  -- On any bytes and for any receiver, whatever the backing arrays of its slices hold, UnmarshalCodec
  -- of `CrossContainer` returns: with the whole input read, or with an error, also from within a nested
  -- message, and never with a panic.
  pub cross_container_unmarshal_ends :
      (r : CrossContainer) (bs : List ℕ)
      → EndsAt (length bs) (unmarshal_codec (cross_container items_slot ptr_items_slot) (some r) bs)
  cross_container_unmarshal_ends r bs = unmarshal_codec_ends cross_container-Lawful r bs
