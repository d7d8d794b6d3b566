-- ===== src/Fixtures/Container/Laws.antt =====
-- `Container` on the wire: its methods are lawful.
use protoc_gen_codec.Base.{
  All, List, Option, [], ap, arith, bit_and, bit_or, drop, if◌then◌else◌, length, ltb, none, refl,
  some, ℕ, ◌++◌, ◌+◌, ◌==◌, ◌^◌, ◌∙◌, ◌≡◌,
}
use protoc_gen_codec.Fixtures.Container.{
  Container, ContainerRun, container, container_finish, container_marshal_internal,
  container_return, container_size, container_start, container_switch, container_unmarshal_internal,
}
use protoc_gen_codec.Fixtures.Inner.{Inner, inner, zero_inner}
use protoc_gen_codec.Fixtures.Inner.Laws.{IsInner, inner-Lawful, inner_wire}
use protoc_gen_codec.Message.{marshal_codec, marshal_to_codec, size_codec, unmarshal_codec}
use protoc_gen_codec.Message.Kinds.{bad_tag, emit_bytes_field, size_bytes_field}
use protoc_gen_codec.Message.Kinds.Bytes.{IsShort, bytes_wire}
use protoc_gen_codec.Message.Kinds.Delimited.{InSlab-ReadsBody}
use protoc_gen_codec.Message.Kinds.Nested.{
  emit_pointer_field, emit_pointers_field, or_new, size_pointer_field, size_pointers_field,
}
use protoc_gen_codec.Message.Laws.{Lawful, codec_lem, unmarshal_codec_ends}
use protoc_gen_codec.Message.Parts.{Part, Part-to, string_part, ◌⊕◌}
use protoc_gen_codec.Message.Parts.Nested.{
  IsSent, bit_if, keep, message-Stays, pointer_after, pointer_part, pointer_wire, pointers_after,
  pointers_part, pointers_wire,
}
use protoc_gen_codec.Message.Parts.Numeric.{AllOption, stored}
use protoc_gen_codec.Message.Parts.Stays.{bytes-Stays, on◌stays◌or◌, skip-Stays}
use protoc_gen_codec.Runtime.Errors.{buffer_too_short, err, ok, sentinel}
use protoc_gen_codec.Wire.Emit.{◌⨾◌}
use protoc_gen_codec.Wire.Emit.Laws.{Writes-Appends}
use protoc_gen_codec.Wire.Loop.{Run, done, failed, panicked, spent}
use protoc_gen_codec.Wire.Loop.Laws.{decode_fields_lem}
use protoc_gen_codec.Wire.Loop.Safe.{EndsAll, EndsAt, decode_fields_ends}
use protoc_gen_codec.Wire.Slab.{InSlab}

-- The values that the Go types of the fields admit.
pub record IsContainer (m : Container) : Type 0 where
  pub name_short : IsShort m.name
  pub inner_sent : AllOption (IsSent IsInner inner_wire) m.inner
  pub children_sent : All (AllOption (IsSent IsInner inner_wire)) m.children

abbrev pub container_wire : Container → List ℕ
container_wire m =
    bytes_wire 0x0a m.name
    ++ pointer_wire inner_wire 0x12 m.inner
    ++ pointers_wire inner_wire 0x1a m.children

-- What is read back: a pointer to a message without bytes is nil, and nil elements are left out.
unfoldable pub container_after : Container → Container
container_after m = record m {
  inner = pointer_after inner_wire (λ x. x) m.inner;
  children = pointers_after (λ x. x) m.children;
}

-- The state of the loop once the fields of `m` are read into the receiver `r`.
abbrev container_read : Container → Container → ContainerRun
container_read m r =
    let s0 = container_start r in
    let s1 : ContainerRun = record s0 { value = record s0.value { name = m.name } } in
    let s2 : ContainerRun = record {
      value = record s1.value { inner = keep (pointer_after inner_wire (λ x. x) m.inner) r.inner };
      seen_optional = bit_if (pointer_after inner_wire (λ x. x) m.inner) (2 ^ 2);
    } in
    record s2 { value = record s2.value { children = pointers_after (λ x. x) m.children } }

container_unseen :
    (p old : Option Inner)
    → (if bit_and (bit_if p (2 ^ 2)) (2 ^ 2) == 0 then none else keep p old) ≡ p
container_unseen none old = refl
container_unseen (some x) old = refl

container_finish-read :
    (m r : Container) → container_finish (container_read m r) ≡ container_after m
unfolding container_finish container_after
container_finish-read m r =
    ap (λ q. record (container_after m) { inner = q })
      (container_unseen (pointer_after inner_wire (λ x. x) m.inner) r.inner)

-- The pointer field is stored where it is read, and stays as it was otherwise.
container_stored :
    (s : ContainerRun) (old : Option Inner)
    → s.value.inner ≡ old
    → s.seen_optional ≡ 0
    → (p : Option Inner)
    → stored
        (λ y. record s {
          value = record s.value { inner = some y };
          seen_optional = bit_or s.seen_optional (2 ^ 2);
        })
        s
        p
      ≡ record s { value = record s.value { inner = keep p old }; seen_optional = bit_if p (2 ^ 2) }
container_stored s old e f none = ground arith
container_stored s old e f (some x) = rw f refl

module _ (children_slot : ℕ → Option Inner) where
  container_parts :
      (m r : Container)
      → IsContainer m
      → Part
          (container_switch children_slot)
          (size_bytes_field m.name
            + size_pointer_field inner m.inner
            + size_pointers_field inner m.children)
          (emit_bytes_field 0x0a m.name
            ⨾ emit_pointer_field inner 0x12 m.inner
            ⨾ emit_pointers_field inner 0x1a m.children)
          (container_wire m)
          (container_start r)
          (container_read m r)
  unfolding container_switch
  container_parts m r v =
      let s0 : ContainerRun = container_start r in
      let s1 : ContainerRun = record s0 { value = record s0.value { name = m.name } } in
      let s2 : ContainerRun = record {
        value = record s1.value {
          inner = keep (pointer_after inner_wire (λ x. x) m.inner) r.inner;
        };
        seen_optional = bit_if (pointer_after inner_wire (λ x. x) m.inner) (2 ^ 2);
      } in
      string_part "Name" 1 (omega arith) (λ y. record s0 { value = record s0.value { name = y } })
        m.name v.name_short (λ body slab slab_off i. refl)
      ⊕ Part-to (container_stored s1 r.inner refl refl (pointer_after inner_wire (λ x. x) m.inner))
          (pointer_part inner-Lawful "Inner" 2 (omega arith) s1 (or_new zero_inner s1.value.inner)
            (λ y. record s1 {
              value = record s1.value { inner = some y };
              seen_optional = bit_or s1.seen_optional (2 ^ 2);
            })
            m.inner v.inner_sent (λ body slab slab_off i. refl))
      ⊕ pointers_part inner-Lawful "Children" 3 (omega arith)
          (λ got. or_new zero_inner (children_slot (length got)))
          (λ y. record s2 { value = record s2.value { children = y } }) [] m.children
          v.children_sent (λ got body slab slab_off i. refl)

  container_switch_ends :
      (body slab : List ℕ) (slab_off : ℕ)
      → InSlab body slab slab_off
      → EndsAll (length body) (container_switch children_slot body slab slab_off)
  unfolding container_switch
  container_switch_ends body slab slab_off r num wire_type i m h =
      (on num == 1
        stays bytes-Stays "Name" 1 body wire_type i m h _ _ (InSlab-ReadsBody body slab slab_off r)
        or on num == 2
        stays message-Stays inner-Lawful "Inner" 2 body slab slab_off wire_type i m _ _ h r
        or on num == 3
        stays message-Stays inner-Lawful "Children" 3 body slab slab_off wire_type i m _ _ h r
        or skip-Stays body wire_type i m h).ends

  container_return_ends :
      (l : ℕ) (run : Run ContainerRun) → EndsAt l run → EndsAt l (container_return run)
  container_return_ends l (done s i) h = h
  container_return_ends l (failed e s) h = tt
  container_return_ends l panicked h = h
  container_return_ends l spent h = h

  pub container-Lawful : Lawful (container children_slot) IsContainer container_wire container_after
  unfolding container_size container_marshal_internal container_unmarshal_internal
  container-Lawful = record {
    size_wire = λ m v. (container_parts m m v).sized;
    writes_wire = λ m v. Writes-Appends (container_parts m m v).writes;
    reads_wire = λ m r slab slab_off v h.
        ap container_return
          (decode_fields_lem ((container_parts m r v).reads (container_wire m) slab slab_off h))
        ∙ ap (λ u. done u (length (container_wire m))) (container_finish-read m r);
    slab_body = λ bs r. refl;
    ends_at = λ r body slab slab_off h. container_return_ends (length body) _ (
        decode_fields_ends bad_tag body _ (container_switch_ends body slab slab_off h)
          (container_start r));
  }

  -- For every valid `Container`, MarshalCodec returns its wire bytes, as many as SizeCodec says;
  -- MarshalToCodec writes them at the front of a buffer that holds them and leaves the rest of it,
  -- and on a shorter buffer returns ErrBufferTooShort; and UnmarshalCodec on the bytes reads to the
  -- end and leaves the value that `container_after` gives in any receiver, whatever the
  -- backing arrays of its slices hold.
  pub container_round_trip :
      (m r : Container) (buf : List ℕ)
      → IsContainer m
      → (marshal_codec (container children_slot) (some m) ≡ ok (container_wire m))
        × (size_codec (container children_slot) (some m) ≡ length (container_wire m))
        × (marshal_to_codec (container children_slot) (some m) buf ≡ (
            if ltb (length buf) (length (container_wire m))
            then err (sentinel buffer_too_short)
            else ok (
              container_wire m ++ drop (length (container_wire m)) buf,
              length (container_wire m),
            )))
        × (unmarshal_codec (container children_slot) (some r) (container_wire m)
            ≡ done (container_after m) (length (container_wire m)))
  container_round_trip m r buf v = codec_lem container-Lawful m r buf v

  -- On any bytes and for any receiver, whatever the backing arrays of its slices hold, UnmarshalCodec
  -- of `Container` returns: with the whole input read, or with an error, also from within a nested
  -- message, and never with a panic.
  pub container_unmarshal_ends :
      (r : Container) (bs : List ℕ)
      → EndsAt (length bs) (unmarshal_codec (container children_slot) (some r) bs)
  container_unmarshal_ends r bs = unmarshal_codec_ends container-Lawful r bs
