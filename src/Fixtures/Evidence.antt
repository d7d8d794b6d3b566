-- ===== src/Fixtures/Evidence.antt =====
-- The type `Evidence` of lang/go/integration/fixture.go and its methods in fixture.codec.go: many strings, repeated strings and a digest.
pub mod Laws
use protoc_gen_codec.Base.{List, [], if◌then◌else◌, ℕ, ◌%◌, ◌++◌, ◌+◌, ◌==◌, ◌^◌, ◌∷◌}
use protoc_gen_codec.Message.{Methods}
use protoc_gen_codec.Message.Kinds.{
  bad_tag, bytes_case, digest_case, emit_bytes_field, emit_digest_field, emit_repeated_field,
  emit_varint_field, from_slab, size_bytes_field, size_digest_field, size_repeated_field,
  size_varint_field, skip_case, varint_case, zero_digest,
}
use protoc_gen_codec.Wire.Emit.{Writer, ◌⨾◌}
use protoc_gen_codec.Wire.Loop.{Run, Switch, decode_fields}

-- Strings and byte slices are the lists of their bytes. Integers are their bit patterns.
pub record Evidence : Type 0 where
  pub kind : ℕ
  pub durability : ℕ
  pub access : ℕ
  pub trace_id : List ℕ
  pub federation_trace_id : List ℕ
  pub job_id : List ℕ
  pub thread_id : List ℕ
  pub tenant_id : List ℕ
  pub timestamp_ms : ℕ
  pub payload_ref : List ℕ
  pub jurisdictions : List (List ℕ)
  pub retention_policy_id : List ℕ

unfoldable pub evidence_size : Evidence → ℕ
evidence_size m =
    size_varint_field m.kind
    + size_varint_field m.durability
    + size_varint_field m.access
    + size_bytes_field m.trace_id
    + size_bytes_field m.federation_trace_id
    + size_bytes_field m.job_id
    + size_bytes_field m.thread_id
    + size_bytes_field m.tenant_id
    + size_varint_field m.timestamp_ms
    + size_digest_field m.payload_ref
    + size_repeated_field m.jurisdictions
    + size_bytes_field m.retention_policy_id

unfoldable pub evidence_marshal_internal : Evidence → Writer
evidence_marshal_internal m buf =
    (emit_varint_field 0x08 m.kind
        ⨾ emit_varint_field 0x10 m.durability
        ⨾ emit_varint_field 0x18 m.access
        ⨾ emit_bytes_field 0x22 m.trace_id
        ⨾ emit_bytes_field 0x2a m.federation_trace_id
        ⨾ emit_bytes_field 0x32 m.job_id
        ⨾ emit_bytes_field 0x3a m.thread_id
        ⨾ emit_bytes_field 0x42 m.tenant_id
        ⨾ emit_varint_field 0x48 m.timestamp_ms
        ⨾ emit_digest_field 0x52 m.payload_ref
        ⨾ emit_repeated_field 0x5a m.jurisdictions
        ⨾ emit_bytes_field 0x62 m.retention_policy_id)
      buf 0

unfoldable pub evidence_reset : Evidence → Evidence
evidence_reset m = record m {
  kind = 0;
  durability = 0;
  access = 0;
  trace_id = [];
  federation_trace_id = [];
  job_id = [];
  thread_id = [];
  tenant_id = [];
  timestamp_ms = 0;
  payload_ref = zero_digest;
  jurisdictions = [];
  retention_policy_id = [];
}

unfoldable pub evidence_switch : List ℕ → List ℕ → ℕ → Switch Evidence
evidence_switch body slab slab_off num wire_type i m =
    if num == 1
    then varint_case "Kind" 1 body wire_type i m (λ v. record m { kind = v % 2 ^ 8 })
    else if num == 2
    then varint_case "Durability" 2 body wire_type i m (λ v. record m { durability = v % 2 ^ 8 })
    else if num == 3
    then varint_case "Access" 3 body wire_type i m (λ v. record m { access = v % 2 ^ 8 })
    else if num == 4
    then bytes_case "TraceID" 4 body wire_type i m (from_slab slab slab_off)
        (λ s. record m { trace_id = s })
    else if num == 5
    then bytes_case "FederationTraceID" 5 body wire_type i m (from_slab slab slab_off)
        (λ s. record m { federation_trace_id = s })
    else if num == 6
    then bytes_case "JobID" 6 body wire_type i m (from_slab slab slab_off)
        (λ s. record m { job_id = s })
    else if num == 7
    then bytes_case "ThreadID" 7 body wire_type i m (from_slab slab slab_off)
        (λ s. record m { thread_id = s })
    else if num == 8
    then bytes_case "TenantID" 8 body wire_type i m (from_slab slab slab_off)
        (λ s. record m { tenant_id = s })
    else if num == 9
    then varint_case "TimestampMs" 9 body wire_type i m (λ v. record m { timestamp_ms = v })
    else if num == 10
    then digest_case "PayloadRef" 10 body wire_type i m (λ s. record m { payload_ref = s })
    else if num == 11
    then bytes_case "Jurisdictions" 11 body wire_type i m (from_slab slab slab_off)
        (λ s. record m { jurisdictions = m.jurisdictions ++ (s ∷ []) })
    else if num == 12
    then bytes_case "RetentionPolicyID" 12 body wire_type i m (from_slab slab slab_off)
        (λ s. record m { retention_policy_id = s })
    else skip_case body wire_type i m

unfoldable pub evidence_unmarshal_internal : List ℕ → List ℕ → ℕ → Evidence → Run Evidence
evidence_unmarshal_internal body slab slab_off m =
    decode_fields bad_tag body (evidence_switch body slab slab_off) (record m {
      kind = 0;
      durability = 0;
      access = 0;
      trace_id = [];
      federation_trace_id = [];
      job_id = [];
      thread_id = [];
      tenant_id = [];
      timestamp_ms = 0;
      payload_ref = zero_digest;
      jurisdictions = [];
      retention_policy_id = [];
    })

abbrev pub evidence : Methods Evidence
evidence = record {
  size = evidence_size;
  marshal_internal = evidence_marshal_internal;
  unmarshal_internal = evidence_unmarshal_internal;
  slab = λ bs. bs;
  reset = evidence_reset;
}
