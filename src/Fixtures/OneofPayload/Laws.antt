-- ===== src/Fixtures/OneofPayload/Laws.antt =====
-- `OneofPayload` on the wire: its methods are lawful where a branch is set.
use protoc_gen_codec.Base.{
  Bool-cases, List, [], ap, arith, drop, if◌then◌else◌, inl, inr, length, ltb, refl, some, ℕ, ◌++◌,
  ◌+◌, ◌==◌, ◌∙◌, ◌∷◌, ◌≡◌, ◌≤◌,
}
use protoc_gen_codec.Fixtures.Inner.{Inner, inner, inner_reset, zero_inner}
use protoc_gen_codec.Fixtures.Inner.Laws.{IsInner, inner-Lawful, inner_wire}
use protoc_gen_codec.Fixtures.OneofPayload.{
  OneofPayload, nested_case, oneof_emit, oneof_payload, oneof_payload_marshal_internal,
  oneof_payload_size, oneof_payload_start, oneof_payload_switch, oneof_payload_unmarshal_internal,
  oneof_size,
}
use protoc_gen_codec.Message.{marshal_codec, marshal_to_codec, size_codec, unmarshal_codec}
use protoc_gen_codec.Message.Kinds.{bad_tag, emit_bytes_field, size_bytes_field}
use protoc_gen_codec.Message.Kinds.Bytes.{IsShort, bytes_wire, element_wire}
use protoc_gen_codec.Message.Kinds.Delimited.{InSlab-ReadsBody, from_body-ReadsBody}
use protoc_gen_codec.Message.Kinds.Nested.{emit_message, size_message}
use protoc_gen_codec.Message.Kinds.Nested.Laws.{
  Appends-message, length-message, message_case-message,
}
use protoc_gen_codec.Message.Laws.{Lawful, codec_lem, encodes_at, unmarshal_codec_ends}
use protoc_gen_codec.Message.Parts.{Part, string_part, ◌⊕◌}
use protoc_gen_codec.Message.Parts.Nested.{IsSent, message-Stays}
use protoc_gen_codec.Message.Parts.Numeric.{absent_part}
use protoc_gen_codec.Message.Parts.Oneof.{
  Part-if, bytes_branch, fixed64_branch, text_branch, uint64_branch,
}
use protoc_gen_codec.Message.Parts.Stays.{
  Stays, bytes-Stays, fixed64-Stays, on◌stays◌or◌, skip-Stays, varint-Stays,
}
use protoc_gen_codec.Runtime.Errors.{buffer_too_short, err, ok, sentinel}
use protoc_gen_codec.Runtime.Varint.{IsU64}
use protoc_gen_codec.Runtime.Varint.Groups.{varint}
use protoc_gen_codec.Wire.Emit.{little_endian, ◌⨾◌}
use protoc_gen_codec.Wire.Emit.Laws.{Writes-Appends}
use protoc_gen_codec.Wire.Loop.{done}
use protoc_gen_codec.Wire.Loop.Laws.{Takes-tag, decode_fields_lem}
use protoc_gen_codec.Wire.Loop.Safe.{Ends-and_then, EndsAll, EndsAt, decode_fields_ends}
use protoc_gen_codec.Wire.Slab.{InSlab}

-- The values that the Go types of the fields admit.
pub record IsOneofPayload (m : OneofPayload) : Type 0 where
  pub label_short : IsShort m.label
  pub text_short : IsShort m.text
  pub number_fits : IsU64 m.number
  pub nested_sent : IsSent IsInner inner_wire m.nested
  pub blob_short : IsShort m.blob
  pub amount_fits : IsU64 m.amount

-- The discriminator names one of the branches.
abbrev pub HasBranch : OneofPayload → Type 0
HasBranch m = (10 ≤ m.kind) × (m.kind ≤ 14)

abbrev pub branch_wire : OneofPayload → List ℕ
branch_wire m =
    if m.kind == 10
    then element_wire 0x52 m.text
    else if m.kind == 11
    then 0x58 ∷ varint m.number
    else if m.kind == 12
    then element_wire 0x62 (inner_wire m.nested)
    else if m.kind == 13
    then element_wire 0x6a m.blob
    else if m.kind == 14
    then 0x71 ∷ little_endian 8 m.amount
    else []

abbrev pub oneof_payload_wire : OneofPayload → List ℕ
oneof_payload_wire m = bytes_wire 0x0a m.label ++ branch_wire m

-- The receiver `s` once the branch of `m` is read: as it was, where none is set.
unfoldable pub branch_read : OneofPayload → OneofPayload → OneofPayload
branch_read m s =
    if m.kind == 10
    then record s { text = m.text; kind = 10 }
    else if m.kind == 11
    then record s { number = m.number; kind = 11 }
    else if m.kind == 12
    then record s { nested = m.nested; kind = 12 }
    else if m.kind == 13
    then record s { blob = m.blob; kind = 13 }
    else if m.kind == 14
    then record s { amount = m.amount; kind = 14 }
    else s

-- A message with nothing but a label and a discriminator.
abbrev pub labelled : List ℕ → ℕ → OneofPayload
labelled s k = record {
  label = s;
  kind = k;
  text = [];
  number = 0;
  nested = zero_inner;
  blob = [];
  amount = 0;
}

-- What is read back: the label and the branch that is set. The other branches are not sent.
unfoldable pub oneof_payload_after : OneofPayload → OneofPayload
oneof_payload_after m = branch_read m (labelled m.label m.kind)

nested_part :
    (m : OneofPayload) (x : Inner)
    → IsSent IsInner inner_wire x
    → Part oneof_payload_switch
        (size_message inner x)
        (emit_message inner 0x62 x)
        (element_wire 0x62 (inner_wire x))
        m
        (record m { nested = x; kind = 12 })
unfolding oneof_payload_switch nested_case
nested_part m x v = record {
  sized = length-message 0x62 (encodes_at inner-Lawful x v.0) v.1;
  writes = Appends-message 0x62 (encodes_at inner-Lawful x v.0) v.1;
  reads = λ body slab slab_off r. Takes-tag 12 2 _ (omega arith) (omega arith) λ i rest at.
      rw
        (message_case-message "Nested" 12 body slab slab_off r m m.nested
          (λ y. record m { nested = y }) i rest (encodes_at inner-Lawful x v.0) v.1 at)
        refl;
}

branch_part :
    (m s : OneofPayload)
    → IsOneofPayload m
    → Part oneof_payload_switch (oneof_size m) (oneof_emit m) (branch_wire m) s (branch_read m s)
unfolding oneof_payload_switch oneof_size oneof_emit branch_read
branch_part m s v =
    Part-if (m.kind == 10)
      (text_branch "Text" 10 (omega arith) s (λ y. record s { text = y; kind = 10 }) m.text
        v.text_short (λ body slab slab_off i. refl))
      (Part-if (m.kind == 11)
        (uint64_branch "Number" 11 (omega arith) s (λ y. record s { number = y; kind = 11 })
          m.number v.number_fits (λ body slab slab_off i. refl))
        (Part-if (m.kind == 12) (nested_part s m.nested v.nested_sent) (
          Part-if (m.kind == 13)
            (bytes_branch "Blob" 13 (omega arith) s (λ y. record s { blob = y; kind = 13 }) m.blob
              v.blob_short (λ body slab slab_off i. refl))
            (Part-if (m.kind == 14)
              (fixed64_branch "Amount" 14 (omega arith) s (λ y. record s { amount = y; kind = 14 })
                m.amount v.amount_fits (λ body slab slab_off i. refl))
              absent_part))))

-- The whole message, read into the receiver `r`.
pub oneof_payload_parts :
    (m r : OneofPayload)
    → IsOneofPayload m
    → Part oneof_payload_switch
        (size_bytes_field m.label + oneof_size m)
        (emit_bytes_field 0x0a m.label ⨾ oneof_emit m)
        (oneof_payload_wire m)
        (labelled [] r.kind)
        (branch_read m (labelled m.label r.kind))
unfolding oneof_payload_switch
oneof_payload_parts m r v =
    string_part "Label" 1 (omega arith) (λ y. labelled y r.kind) m.label v.label_short
      (λ body slab slab_off i. refl)
    ⊕ branch_part m (labelled m.label r.kind) v

pub oneof_payload_reads :
    (m r : OneofPayload) (slab : List ℕ) (slab_off : ℕ)
    → IsOneofPayload m
    → InSlab (oneof_payload_wire m) slab slab_off
    → oneof_payload_unmarshal_internal (oneof_payload_wire m) slab slab_off r
      ≡ done (branch_read m (labelled m.label r.kind)) (length (oneof_payload_wire m))
unfolding oneof_payload_unmarshal_internal oneof_payload_start inner_reset
oneof_payload_reads m r slab slab_off v h =
    decode_fields_lem ((oneof_payload_parts m r v).reads (oneof_payload_wire m) slab slab_off h)

-- Where a branch is set, the discriminator that the receiver had does not matter.
branch_read-labelled :
    (m : OneofPayload) (k : ℕ)
    → HasBranch m
    → branch_read m (labelled m.label k) ≡ branch_read m (labelled m.label m.kind)
unfolding branch_read
branch_read-labelled m k v = elim (Bool-cases (m.kind == 10)) [
  | inl c ↦ rw c refl
  | inr c ↦ elim (Bool-cases (m.kind == 11)) [
    | inl d ↦ rw (c, d) refl
    | inr d ↦ elim (Bool-cases (m.kind == 12)) [
      | inl e ↦ rw (c, d, e) refl
      | inr e ↦ elim (Bool-cases (m.kind == 13)) [
        | inl f ↦ rw (c, d, e, f) refl
        | inr f ↦ elim (Bool-cases (m.kind == 14)) [
          | inl g ↦ rw (c, d, e, f, g) refl
          | inr g ↦ absurd (ground (arith, v, c, d, e, f, g))
        ]
      ]
    ]
  ]
]

nested_case-Stays :
    (body slab : List ℕ) (slab_off wire_type i : ℕ) (m : OneofPayload)
    → i ≤ length body
    → InSlab body slab slab_off
    → Stays i (length body) (nested_case body slab slab_off wire_type i m)
unfolding nested_case
nested_case-Stays body slab slab_off wire_type i m h r = record {
  ends =
      Ends-and_then i i (length body) _ _
        (message-Stays inner-Lawful "Nested" 12 body slab slab_off wire_type i m m.nested _ h
          r).ends
        λ m' i' lo hi. (lo, hi);
}

oneof_payload_switch_ends :
    (body slab : List ℕ) (slab_off : ℕ)
    → InSlab body slab slab_off
    → EndsAll (length body) (oneof_payload_switch body slab slab_off)
unfolding oneof_payload_switch
oneof_payload_switch_ends body slab slab_off r num wire_type i m h =
    let reads = InSlab-ReadsBody body slab slab_off r in
    (on num == 1
      stays bytes-Stays "Label" 1 body wire_type i m h _ _ reads
      or on num == 10
      stays bytes-Stays "Text" 10 body wire_type i m h _ _ reads
      or on num == 11
      stays varint-Stays "Number" 11 body wire_type i m h _
      or on num == 12
      stays nested_case-Stays body slab slab_off wire_type i m h r
      or on num == 13
      stays bytes-Stays "Blob" 13 body wire_type i m h _ _ (from_body-ReadsBody body)
      or on num == 14
      stays fixed64-Stays "Amount" 14 body wire_type i m h _
      or skip-Stays body wire_type i m h).ends

pub oneof_payload-Lawful :
    Lawful oneof_payload
      (λ m. IsOneofPayload m × HasBranch m)
      oneof_payload_wire
      oneof_payload_after
unfolding oneof_payload_size oneof_payload_marshal_internal oneof_payload_unmarshal_internal
    oneof_payload_after
oneof_payload-Lawful = record {
  size_wire = λ m v. (oneof_payload_parts m m v.0).sized;
  writes_wire = λ m v. Writes-Appends (oneof_payload_parts m m v.0).writes;
  reads_wire = λ m r slab slab_off v h.
      oneof_payload_reads m r slab slab_off v.0 h
      ∙ ap (λ u. done u (length (oneof_payload_wire m))) (branch_read-labelled m r.kind v.1);
  slab_body = λ bs r. refl;
  ends_at = λ r body slab slab_off h.
      decode_fields_ends bad_tag body _ (oneof_payload_switch_ends body slab slab_off h) _;
}

-- For every valid `OneofPayload` with a branch set, MarshalCodec returns its wire bytes, as many as
-- SizeCodec says; MarshalToCodec writes them at the front of a buffer that holds them and leaves the
-- rest of it, and on a shorter buffer returns ErrBufferTooShort; and UnmarshalCodec on the bytes reads
-- to the end and leaves the label, the discriminator and the branch that it names in any receiver,
-- every other branch at its zero value.
pub oneof_payload_round_trip :
    (m r : OneofPayload) (buf : List ℕ)
    → IsOneofPayload m
    → HasBranch m
    → (marshal_codec oneof_payload (some m) ≡ ok (oneof_payload_wire m))
      × (size_codec oneof_payload (some m) ≡ length (oneof_payload_wire m))
      × (marshal_to_codec oneof_payload (some m) buf ≡ (
          if ltb (length buf) (length (oneof_payload_wire m))
          then err (sentinel buffer_too_short)
          else ok (
            oneof_payload_wire m ++ drop (length (oneof_payload_wire m)) buf,
            length (oneof_payload_wire m),
          )))
      × (unmarshal_codec oneof_payload (some r) (oneof_payload_wire m)
          ≡ done (oneof_payload_after m) (length (oneof_payload_wire m)))
oneof_payload_round_trip m r buf v b = codec_lem oneof_payload-Lawful m r buf (v, b)

-- On any bytes and for any receiver, UnmarshalCodec of `OneofPayload` returns: with the whole input
-- read, or with an error, and never with a panic.
pub oneof_payload_unmarshal_ends :
    (r : OneofPayload) (bs : List ℕ)
    → EndsAt (length bs) (unmarshal_codec oneof_payload (some r) bs)
oneof_payload_unmarshal_ends r bs = unmarshal_codec_ends oneof_payload-Lawful r bs
