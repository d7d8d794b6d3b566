-- ===== src/Fixtures/ValueContainer/Laws.antt =====
-- `ValueContainer` on the wire: its methods are lawful.
use protoc_gen_codec.Base.{
  All, Bool-cases, List, [], ap, arith, drop, false, if◌then◌else◌, inl, inr, length, length-append,
  length_zero, ltb, ltb_false→le, map_id, refl, some, sym, true, ℕ, ◌++◌, ◌+◌, ◌==◌, ◌∙◌, ◌≡◌, ◌⊎◌,
}
use protoc_gen_codec.Fixtures.Inner.{Inner, inner, inner_reset, zero_inner}
use protoc_gen_codec.Fixtures.Inner.Laws.{IsInner, inner-Lawful, inner_wire}
use protoc_gen_codec.Fixtures.ValueContainer.{
  ValueContainer, value_container, value_container_marshal_internal, value_container_size,
  value_container_switch, value_container_unmarshal_internal,
}
use protoc_gen_codec.Message.{marshal_codec, marshal_to_codec, size_codec, unmarshal_codec}
use protoc_gen_codec.Message.Kinds.{bad_tag, emit_bytes_field, size_bytes_field}
use protoc_gen_codec.Message.Kinds.Bytes.{IsShort, bytes_wire}
use protoc_gen_codec.Message.Kinds.Delimited.{InSlab-ReadsBody}
use protoc_gen_codec.Message.Kinds.Nested.{
  emit_value_field, emit_values_field, size_value_field, size_values_field,
}
use protoc_gen_codec.Message.Kinds.Scalar.{varint_wire}
use protoc_gen_codec.Message.Laws.{Lawful, codec_lem, unmarshal_codec_ends}
use protoc_gen_codec.Message.Parts.{Part, Part-to, string_part, ◌⊕◌}
use protoc_gen_codec.Message.Parts.Nested.{
  IsSent, message-Stays, value_part, value_wire, values_part, values_wire,
}
use protoc_gen_codec.Message.Parts.Stays.{bytes-Stays, on◌stays◌or◌, skip-Stays}
use protoc_gen_codec.Runtime.Errors.{buffer_too_short, err, ok, sentinel}
use protoc_gen_codec.Wire.Emit.{◌⨾◌}
use protoc_gen_codec.Wire.Emit.Laws.{Writes-Appends}
use protoc_gen_codec.Wire.Loop.{done}
use protoc_gen_codec.Wire.Loop.Laws.{decode_fields_lem}
use protoc_gen_codec.Wire.Loop.Safe.{EndsAll, EndsAt, decode_fields_ends}
use protoc_gen_codec.Wire.Slab.{InSlab}

-- The values that the Go types of the fields admit.
pub record IsValueContainer (m : ValueContainer) : Type 0 where
  pub name_short : IsShort m.name
  pub inner_sent : IsSent IsInner inner_wire m.inner
  pub items_sent : All (IsSent IsInner inner_wire) m.items

abbrev pub value_container_wire : ValueContainer → List ℕ
value_container_wire m =
    bytes_wire 0x0a m.name
    ++ value_wire inner_wire 0x12 m.inner
    ++ values_wire inner_wire 0x1a m.items

inner_empty : (x : Inner) → length (inner_wire x) ≡ 0 → x ≡ zero_inner
inner_empty x e =
    ap (λ (p : List ℕ × ℕ). record { label = p.0; count = p.1 })
      (pair (length_zero x.label no_label) no_count)
  where
    parts : length (bytes_wire 0x0a x.label) + length (varint_wire 0x10 x.count) ≡ 0
    parts = sym (length-append (bytes_wire 0x0a x.label) (varint_wire 0x10 x.count)) ∙ e

    no_label : length x.label ≡ 0
    no_label = ground (arith, parts)

    no_count : x.count ≡ 0
    no_count = ground (arith, parts)

    pair : {a : List ℕ} {b : ℕ} → a ≡ [] → b ≡ 0 → Path (List ℕ × ℕ) (a, b) ([], 0)
    pair p q i = (p i, q i)

-- A message without bytes is the one that the receiver has already.
inner_present :
    (put : Inner → ValueContainer) (x : Inner)
    → (ltb 0 (length (inner_wire x)) ≡ true) ⊎ (ltb 0 (length (inner_wire x)) ≡ false)
    → (if ltb 0 (length (inner_wire x)) then put x else put zero_inner) ≡ put x
inner_present put x (inl yes_case) = rw yes_case refl
inner_present put x (inr no_case) =
    rw no_case
      (ap put (sym (inner_empty x (omega (arith, ltb_false→le 0 (length (inner_wire x)) no_case)))))

module _ (items_slot : ℕ → Inner) where
  value_container_parts :
      (m r : ValueContainer)
      → IsValueContainer m
      → Part
          (value_container_switch items_slot)
          (size_bytes_field m.name
            + size_value_field inner m.inner
            + size_values_field inner m.items)
          (emit_bytes_field 0x0a m.name
            ⨾ emit_value_field inner 0x12 m.inner
            ⨾ emit_values_field inner 0x1a m.items)
          (value_container_wire m)
          (record r { name = []; inner = zero_inner; items = [] })
          (m)
  unfolding value_container_switch
  value_container_parts m r v =
      let s0 : ValueContainer = record r { name = []; inner = zero_inner; items = [] } in
      let s1 : ValueContainer = record s0 { name = m.name } in
      let s2 : ValueContainer = record s1 { inner = m.inner } in
      string_part "Name" 1 (omega arith) (λ y. record s0 { name = y }) m.name v.name_short
        (λ body slab slab_off i. refl)
      ⊕ Part-to
          (inner_present (λ y. record s1 { inner = y }) m.inner
            (Bool-cases (ltb 0 (length (inner_wire m.inner)))))
          (value_part inner-Lawful "Inner" 2 (omega arith) s1 s1.inner
            (λ y. record s1 { inner = y }) m.inner v.inner_sent (λ body slab slab_off i. refl))
      ⊕ Part-to (ap (λ y. record s2 { items = y }) (map_id m.items)) (
          values_part inner-Lawful "Items" 3 (omega arith) (λ got. items_slot (length got))
            (λ y. record s2 { items = y }) [] m.items v.items_sent
            (λ got body slab slab_off i. refl))

  value_container_switch_ends :
      (body slab : List ℕ) (slab_off : ℕ)
      → InSlab body slab slab_off
      → EndsAll (length body) (value_container_switch items_slot body slab slab_off)
  unfolding value_container_switch
  value_container_switch_ends body slab slab_off r num wire_type i m h =
      (on num == 1
        stays bytes-Stays "Name" 1 body wire_type i m h _ _ (InSlab-ReadsBody body slab slab_off r)
        or on num == 2
        stays message-Stays inner-Lawful "Inner" 2 body slab slab_off wire_type i m _ _ h r
        or on num == 3
        stays message-Stays inner-Lawful "Items" 3 body slab slab_off wire_type i m _ _ h r
        or skip-Stays body wire_type i m h).ends

  pub value_container-Lawful :
      Lawful (value_container items_slot) IsValueContainer value_container_wire (λ m. m)
  unfolding value_container_size value_container_marshal_internal value_container_unmarshal_internal
      inner_reset
  value_container-Lawful = record {
    size_wire = λ m v. (value_container_parts m m v).sized;
    writes_wire = λ m v. Writes-Appends (value_container_parts m m v).writes;
    reads_wire = λ m r slab slab_off v h.
        decode_fields_lem
          ((value_container_parts m r v).reads (value_container_wire m) slab slab_off h);
    slab_body = λ bs r. refl;
    ends_at = λ r body slab slab_off h.
        decode_fields_ends bad_tag body _ (value_container_switch_ends body slab slab_off h) _;
  }

  -- For every valid `ValueContainer`, MarshalCodec returns its wire bytes, as many as SizeCodec says;
  -- MarshalToCodec writes them at the front of a buffer that holds them and leaves the rest of it,
  -- and on a shorter buffer returns ErrBufferTooShort; and UnmarshalCodec on the bytes reads to the
  -- end and leaves exactly that value in any receiver, whatever the
  -- backing arrays of its slices hold.
  pub value_container_round_trip :
      (m r : ValueContainer) (buf : List ℕ)
      → IsValueContainer m
      → (marshal_codec (value_container items_slot) (some m) ≡ ok (value_container_wire m))
        × (size_codec (value_container items_slot) (some m) ≡ length (value_container_wire m))
        × (marshal_to_codec (value_container items_slot) (some m) buf ≡ (
            if ltb (length buf) (length (value_container_wire m))
            then err (sentinel buffer_too_short)
            else ok (
              value_container_wire m ++ drop (length (value_container_wire m)) buf,
              length (value_container_wire m),
            )))
        × (unmarshal_codec (value_container items_slot) (some r) (value_container_wire m)
            ≡ done m (length (value_container_wire m)))
  value_container_round_trip m r buf v = codec_lem value_container-Lawful m r buf v

  -- On any bytes and for any receiver, whatever the backing arrays of its slices hold, UnmarshalCodec
  -- of `ValueContainer` returns: with the whole input read, or with an error, also from within a nested
  -- message, and never with a panic.
  pub value_container_unmarshal_ends :
      (r : ValueContainer) (bs : List ℕ)
      → EndsAt (length bs) (unmarshal_codec (value_container items_slot) (some r) bs)
  value_container_unmarshal_ends r bs = unmarshal_codec_ends value_container-Lawful r bs
