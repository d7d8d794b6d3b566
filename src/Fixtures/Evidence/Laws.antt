-- ===== src/Fixtures/Evidence/Laws.antt =====
-- `Evidence` on the wire: its methods are lawful.
use protoc_gen_codec.Base.{
  All, List, [], arith, drop, if◌then◌else◌, length, ltb, refl, some, ℕ, ◌++◌, ◌+◌, ◌<◌, ◌==◌, ◌^◌,
  ◌≡◌,
}
use protoc_gen_codec.Fixtures.Evidence.{
  Evidence, evidence, evidence_marshal_internal, evidence_reset, evidence_size, evidence_switch,
  evidence_unmarshal_internal,
}
use protoc_gen_codec.Message.{
  marshal_codec, marshal_to_codec, reset_codec, size_codec, unmarshal_codec,
}
use protoc_gen_codec.Message.Kinds.{
  bad_tag, emit_bytes_field, emit_digest_field, emit_repeated_field, emit_varint_field, from_slab,
  size_bytes_field, size_digest_field, size_repeated_field, size_varint_field, zero_digest,
}
use protoc_gen_codec.Message.Kinds.Bytes.{IsShort, bytes_wire, digest_wire, repeated_wire}
use protoc_gen_codec.Message.Kinds.Delimited.{InSlab-ReadsBody, ReadsBody}
use protoc_gen_codec.Message.Kinds.Scalar.{varint_wire}
use protoc_gen_codec.Message.Laws.{Lawful, codec_lem, unmarshal_codec_ends}
use protoc_gen_codec.Message.Parts.{
  Part, digest_part, string_part, strings_part, uint64_part, uint_part, ◌⊕◌,
}
use protoc_gen_codec.Message.Parts.Stays.{
  bytes-Stays, digest-Stays, on◌stays◌or◌, skip-Stays, varint-Stays,
}
use protoc_gen_codec.Runtime.Errors.{buffer_too_short, err, ok, sentinel}
use protoc_gen_codec.Runtime.Varint.{IsU64}
use protoc_gen_codec.Wire.Emit.{◌⨾◌}
use protoc_gen_codec.Wire.Emit.Laws.{Writes-Appends}
use protoc_gen_codec.Wire.Loop.{done}
use protoc_gen_codec.Wire.Loop.Laws.{decode_fields_lem}
use protoc_gen_codec.Wire.Loop.Safe.{EndsAll, EndsAt, decode_fields_ends}

-- The values that the Go types of the fields admit.
pub record IsEvidence (m : Evidence) : Type 0 where
  pub kind_fits : m.kind < 2 ^ 8
  pub durability_fits : m.durability < 2 ^ 8
  pub access_fits : m.access < 2 ^ 8
  pub trace_id_short : IsShort m.trace_id
  pub federation_trace_id_short : IsShort m.federation_trace_id
  pub job_id_short : IsShort m.job_id
  pub thread_id_short : IsShort m.thread_id
  pub tenant_id_short : IsShort m.tenant_id
  pub timestamp_ms_fits : IsU64 m.timestamp_ms
  pub payload_ref_full : length m.payload_ref ≡ 32
  pub jurisdictions_short : All IsShort m.jurisdictions
  pub retention_policy_id_short : IsShort m.retention_policy_id

abbrev pub evidence_wire : Evidence → List ℕ
evidence_wire m =
    varint_wire 0x08 m.kind
    ++ varint_wire 0x10 m.durability
    ++ varint_wire 0x18 m.access
    ++ bytes_wire 0x22 m.trace_id
    ++ bytes_wire 0x2a m.federation_trace_id
    ++ bytes_wire 0x32 m.job_id
    ++ bytes_wire 0x3a m.thread_id
    ++ bytes_wire 0x42 m.tenant_id
    ++ varint_wire 0x48 m.timestamp_ms
    ++ digest_wire 0x52 m.payload_ref
    ++ repeated_wire 0x5a m.jurisdictions
    ++ bytes_wire 0x62 m.retention_policy_id

-- The receiver as the loop finds it.
abbrev no_evidence : Evidence
no_evidence = record {
  kind = 0;
  durability = 0;
  access = 0;
  trace_id = [];
  federation_trace_id = [];
  job_id = [];
  thread_id = [];
  tenant_id = [];
  timestamp_ms = 0;
  payload_ref = zero_digest;
  jurisdictions = [];
  retention_policy_id = [];
}

-- The fields, each from where the one before leaves the receiver.
abbrev evidence_parts :
    (m : Evidence)
    → IsEvidence m
    → Part evidence_switch
        (size_varint_field m.kind
          + size_varint_field m.durability
          + size_varint_field m.access
          + size_bytes_field m.trace_id
          + size_bytes_field m.federation_trace_id
          + size_bytes_field m.job_id
          + size_bytes_field m.thread_id
          + size_bytes_field m.tenant_id
          + size_varint_field m.timestamp_ms
          + size_digest_field m.payload_ref
          + size_repeated_field m.jurisdictions
          + size_bytes_field m.retention_policy_id)
        (emit_varint_field 0x08 m.kind
          ⨾ emit_varint_field 0x10 m.durability
          ⨾ emit_varint_field 0x18 m.access
          ⨾ emit_bytes_field 0x22 m.trace_id
          ⨾ emit_bytes_field 0x2a m.federation_trace_id
          ⨾ emit_bytes_field 0x32 m.job_id
          ⨾ emit_bytes_field 0x3a m.thread_id
          ⨾ emit_bytes_field 0x42 m.tenant_id
          ⨾ emit_varint_field 0x48 m.timestamp_ms
          ⨾ emit_digest_field 0x52 m.payload_ref
          ⨾ emit_repeated_field 0x5a m.jurisdictions
          ⨾ emit_bytes_field 0x62 m.retention_policy_id)
        (evidence_wire m)
        no_evidence
        m
unfolding evidence_switch
evidence_parts m v =
    let m1 : Evidence = record no_evidence { kind = m.kind } in
    let m2 : Evidence = record m1 { durability = m.durability } in
    let m3 : Evidence = record m2 { access = m.access } in
    let m4 : Evidence = record m3 { trace_id = m.trace_id } in
    let m5 : Evidence = record m4 { federation_trace_id = m.federation_trace_id } in
    let m6 : Evidence = record m5 { job_id = m.job_id } in
    let m7 : Evidence = record m6 { thread_id = m.thread_id } in
    let m8 : Evidence = record m7 { tenant_id = m.tenant_id } in
    let m9 : Evidence = record m8 { timestamp_ms = m.timestamp_ms } in
    let m10 : Evidence = record m9 { payload_ref = m.payload_ref } in
    let m11 : Evidence = record m10 { jurisdictions = m.jurisdictions } in
    uint_part "Kind" 1 (omega arith) 8 (λ y. record no_evidence { kind = y }) m.kind (omega arith)
      v.kind_fits (λ body slab slab_off i. refl)
    ⊕ uint_part "Durability" 2 (omega arith) 8 (λ y. record m1 { durability = y }) m.durability
        (omega arith) v.durability_fits (λ body slab slab_off i. refl)
    ⊕ uint_part "Access" 3 (omega arith) 8 (λ y. record m2 { access = y }) m.access (omega arith)
        v.access_fits (λ body slab slab_off i. refl)
    ⊕ string_part "TraceID" 4 (omega arith) (λ y. record m3 { trace_id = y }) m.trace_id
        v.trace_id_short (λ body slab slab_off i. refl)
    ⊕ string_part "FederationTraceID" 5 (omega arith) (λ y. record m4 { federation_trace_id = y })
        m.federation_trace_id v.federation_trace_id_short (λ body slab slab_off i. refl)
    ⊕ string_part "JobID" 6 (omega arith) (λ y. record m5 { job_id = y }) m.job_id v.job_id_short
        (λ body slab slab_off i. refl)
    ⊕ string_part "ThreadID" 7 (omega arith) (λ y. record m6 { thread_id = y }) m.thread_id
        v.thread_id_short (λ body slab slab_off i. refl)
    ⊕ string_part "TenantID" 8 (omega arith) (λ y. record m7 { tenant_id = y }) m.tenant_id
        v.tenant_id_short (λ body slab slab_off i. refl)
    ⊕ uint64_part "TimestampMs" 9 (omega arith) (λ y. record m8 { timestamp_ms = y }) m.timestamp_ms
        v.timestamp_ms_fits (λ body slab slab_off i. refl)
    ⊕ digest_part "PayloadRef" 10 (omega arith) (λ y. record m9 { payload_ref = y }) m.payload_ref
        v.payload_ref_full (λ body slab slab_off i. refl)
    ⊕ strings_part "Jurisdictions" 11 (omega arith) (λ y. record m10 { jurisdictions = y })
        m.jurisdictions v.jurisdictions_short (λ body slab slab_off i got. refl)
    ⊕ string_part "RetentionPolicyID" 12 (omega arith) (λ y. record m11 { retention_policy_id = y })
        m.retention_policy_id v.retention_policy_id_short (λ body slab slab_off i. refl)

evidence_switch_ends :
    (body slab : List ℕ) (slab_off : ℕ)
    → ReadsBody body (from_slab slab slab_off)
    → EndsAll (length body) (evidence_switch body slab slab_off)
unfolding evidence_switch
evidence_switch_ends body slab slab_off r num wire_type i m h =
    (on num == 1
      stays varint-Stays "Kind" 1 body wire_type i m h _
      or on num == 2
      stays varint-Stays "Durability" 2 body wire_type i m h _
      or on num == 3
      stays varint-Stays "Access" 3 body wire_type i m h _
      or on num == 4
      stays bytes-Stays "TraceID" 4 body wire_type i m h _ _ r
      or on num == 5
      stays bytes-Stays "FederationTraceID" 5 body wire_type i m h _ _ r
      or on num == 6
      stays bytes-Stays "JobID" 6 body wire_type i m h _ _ r
      or on num == 7
      stays bytes-Stays "ThreadID" 7 body wire_type i m h _ _ r
      or on num == 8
      stays bytes-Stays "TenantID" 8 body wire_type i m h _ _ r
      or on num == 9
      stays varint-Stays "TimestampMs" 9 body wire_type i m h _
      or on num == 10
      stays digest-Stays "PayloadRef" 10 body wire_type i m h _
      or on num == 11
      stays bytes-Stays "Jurisdictions" 11 body wire_type i m h _ _ r
      or on num == 12
      stays bytes-Stays "RetentionPolicyID" 12 body wire_type i m h _ _ r
      or skip-Stays body wire_type i m h).ends

pub evidence-Lawful : Lawful evidence IsEvidence evidence_wire (λ m. m)
unfolding evidence_size evidence_marshal_internal evidence_unmarshal_internal
evidence-Lawful = record {
  size_wire = λ m v. (evidence_parts m v).sized;
  writes_wire = λ m v. Writes-Appends (evidence_parts m v).writes;
  reads_wire = λ m r slab slab_off v h.
      decode_fields_lem ((evidence_parts m v).reads (evidence_wire m) slab slab_off h);
  slab_body = λ bs r. refl;
  ends_at = λ r body slab slab_off h.
      decode_fields_ends bad_tag body _
        (evidence_switch_ends body slab slab_off (InSlab-ReadsBody body slab slab_off h))
        no_evidence;
}

-- For every valid `Evidence`, MarshalCodec returns its wire bytes, as many as SizeCodec says;
-- MarshalToCodec writes them at the front of a buffer that holds them and leaves the rest of it,
-- and on a shorter buffer returns ErrBufferTooShort; and UnmarshalCodec on the bytes leaves
-- exactly that value in any receiver and reads to the end.
pub evidence_round_trip :
    (m r : Evidence) (buf : List ℕ)
    → IsEvidence m
    → (marshal_codec evidence (some m) ≡ ok (evidence_wire m))
      × (size_codec evidence (some m) ≡ length (evidence_wire m))
      × (marshal_to_codec evidence (some m) buf ≡ (
          if ltb (length buf) (length (evidence_wire m))
          then err (sentinel buffer_too_short)
          else ok
              (evidence_wire m ++ drop (length (evidence_wire m)) buf, length (evidence_wire m))))
      × (unmarshal_codec evidence (some r) (evidence_wire m) ≡ done m (length (evidence_wire m)))
evidence_round_trip m r buf v = codec_lem evidence-Lawful m r buf v

-- On any bytes and for any receiver, UnmarshalCodec of `Evidence` returns: with the whole input
-- read, or with an error, and never with a panic. What the receiver held before does not show in
-- the outcome, which is that on the receiver after ResetCodec.
pub evidence_unmarshal_safe :
    (r : Evidence) (bs : List ℕ)
    → EndsAt (length bs) (unmarshal_codec evidence (some r) bs)
      × (unmarshal_codec evidence (some r) bs
          ≡ unmarshal_codec evidence (reset_codec evidence (some r)) bs)
unfolding unmarshal_codec reset_codec evidence_unmarshal_internal evidence_reset
evidence_unmarshal_safe r bs = (unmarshal_codec_ends evidence-Lawful r bs, refl)
