-- ===== src/Fixtures/Fixture.antt =====
-- The type `Fixture` of lang/go/integration/fixture.go and its methods in fixture.codec.go: all scalar types, repeated strings and bytes.
pub mod Laws
pub mod Unknown
use protoc_gen_codec.Base.{
  Bool, List, [], false, if◌then◌else◌, not, ℕ, ◌%◌, ◌++◌, ◌+◌, ◌==◌, ◌^◌, ◌∷◌,
}
use protoc_gen_codec.Fixtures.TimeHolder.{timestamp}
use protoc_gen_codec.Message.{Methods}
use protoc_gen_codec.Message.Kinds.{
  bad_tag, bytes_case, digest_case, emit_bool_field, emit_bytes_field, emit_digest_field,
  emit_repeated_field, emit_varint_field, from_body, from_slab, size_bool_field, size_bytes_field,
  size_digest_field, size_repeated_field, size_varint_field, skip_case, varint_case, zero_digest,
}
use protoc_gen_codec.Wire.Emit.{Writer, ◌⨾◌}
use protoc_gen_codec.Wire.Loop.{Run, Switch, decode_fields}

-- Strings and byte slices are the lists of their bytes. Integers are their bit patterns.
pub record Fixture : Type 0 where
  pub id : List ℕ
  pub kind : ℕ
  pub status : ℕ
  pub score : ℕ
  pub sequence : ℕ
  pub enabled : Bool
  pub timestamp : ℕ
  pub ref : List ℕ
  pub tags : List (List ℕ)
  pub data_bytes : List ℕ

unfoldable pub fixture_size : Fixture → ℕ
fixture_size m =
    size_bytes_field m.id
    + size_varint_field m.kind
    + size_varint_field m.status
    + size_varint_field m.score
    + size_varint_field m.sequence
    + size_bool_field m.enabled
    + size_varint_field m.timestamp
    + size_digest_field m.ref
    + size_repeated_field m.tags
    + size_bytes_field m.data_bytes

unfoldable pub fixture_marshal_internal : Fixture → Writer
fixture_marshal_internal m buf =
    (emit_bytes_field 0x0a m.id
        ⨾ emit_varint_field 0x10 m.kind
        ⨾ emit_varint_field 0x18 m.status
        ⨾ emit_varint_field 0x20 m.score
        ⨾ emit_varint_field 0x28 m.sequence
        ⨾ emit_bool_field 0x30 m.enabled
        ⨾ emit_varint_field 0x38 m.timestamp
        ⨾ emit_digest_field 0x42 m.ref
        ⨾ emit_repeated_field 0x4a m.tags
        ⨾ emit_bytes_field 0x52 m.data_bytes)
      buf 0

unfoldable pub fixture_reset : Fixture → Fixture
fixture_reset m = record m {
  id = [];
  kind = 0;
  status = 0;
  score = 0;
  sequence = 0;
  enabled = false;
  timestamp = 0;
  ref = zero_digest;
  tags = [];
  data_bytes = [];
}

unfoldable pub fixture_switch : List ℕ → List ℕ → ℕ → Switch Fixture
fixture_switch body slab slab_off num wire_type i m =
    if num == 1
    then bytes_case "ID" 1 body wire_type i m (from_slab slab slab_off) (λ s. record m { id = s })
    else if num == 2
    then varint_case "Kind" 2 body wire_type i m (λ v. record m { kind = v % 2 ^ 32 })
    else if num == 3
    then varint_case "Status" 3 body wire_type i m (λ v. record m { status = v % 2 ^ 8 })
    else if num == 4
    then varint_case "Score" 4 body wire_type i m (λ v. record m { score = v })
    else if num == 5
    then varint_case "Sequence" 5 body wire_type i m (λ v. record m { sequence = v })
    else if num == 6
    then varint_case "Enabled" 6 body wire_type i m (λ v. record m { enabled = not (v == 0) })
    else if num == 7
    then varint_case "Timestamp" 7 body wire_type i m (λ v. record m { timestamp = v })
    else if num == 8
    then digest_case "Ref" 8 body wire_type i m (λ s. record m { ref = s })
    else if num == 9
    then bytes_case "Tags" 9 body wire_type i m (from_slab slab slab_off)
        (λ s. record m { tags = m.tags ++ (s ∷ []) })
    else if num == 10
    then bytes_case "Data" 10 body wire_type i m (from_body body) (λ s. record m { data_bytes = s })
    else skip_case body wire_type i m

unfoldable pub fixture_unmarshal_internal : List ℕ → List ℕ → ℕ → Fixture → Run Fixture
fixture_unmarshal_internal body slab slab_off m =
    decode_fields bad_tag body (fixture_switch body slab slab_off) (record m {
      id = [];
      kind = 0;
      status = 0;
      score = 0;
      sequence = 0;
      enabled = false;
      timestamp = 0;
      ref = zero_digest;
      tags = [];
      data_bytes = [];
    })

abbrev pub fixture : Methods Fixture
fixture = record {
  size = fixture_size;
  marshal_internal = fixture_marshal_internal;
  unmarshal_internal = fixture_unmarshal_internal;
  slab = λ bs. bs;
  reset = fixture_reset;
}
