-- ===== src/Fixtures/TypedStrings.antt =====
-- The type `TypedStrings` of lang/go/integration/fixture.go and its methods in fixture.codec.go: strings of named types.
pub mod Laws
use protoc_gen_codec.Base.{List, [], if◌then◌else◌, ℕ, ◌++◌, ◌+◌, ◌==◌, ◌∷◌}
use protoc_gen_codec.Message.{Methods}
use protoc_gen_codec.Message.Kinds.{
  bad_tag, bytes_case, emit_bytes_field, emit_repeated_field, from_slab, size_bytes_field,
  size_repeated_field, skip_case,
}
use protoc_gen_codec.Wire.Emit.{Writer, ◌⨾◌}
use protoc_gen_codec.Wire.Loop.{Run, Switch, decode_fields}

-- Strings and byte slices are the lists of their bytes.
pub record TypedStrings : Type 0 where
  pub id : List ℕ
  pub tags : List (List ℕ)

unfoldable pub typed_strings_size : TypedStrings → ℕ
typed_strings_size m = size_bytes_field m.id + size_repeated_field m.tags

unfoldable pub typed_strings_marshal_internal : TypedStrings → Writer
typed_strings_marshal_internal m buf =
    (emit_bytes_field 0x0a m.id ⨾ emit_repeated_field 0x12 m.tags) buf 0

unfoldable pub typed_strings_reset : TypedStrings → TypedStrings
typed_strings_reset m = record m { id = []; tags = [] }

unfoldable pub typed_strings_switch : List ℕ → List ℕ → ℕ → Switch TypedStrings
typed_strings_switch body slab slab_off num wire_type i m =
    if num == 1
    then bytes_case "ID" 1 body wire_type i m (from_slab slab slab_off) (λ s. record m { id = s })
    else if num == 2
    then bytes_case "Tags" 2 body wire_type i m (from_slab slab slab_off)
        (λ s. record m { tags = m.tags ++ (s ∷ []) })
    else skip_case body wire_type i m

unfoldable pub typed_strings_unmarshal_internal :
    List ℕ → List ℕ → ℕ → TypedStrings → Run TypedStrings
typed_strings_unmarshal_internal body slab slab_off m =
    decode_fields bad_tag body (typed_strings_switch body slab slab_off)
      (record m { id = []; tags = [] })

abbrev pub typed_strings : Methods TypedStrings
typed_strings = record {
  size = typed_strings_size;
  marshal_internal = typed_strings_marshal_internal;
  unmarshal_internal = typed_strings_unmarshal_internal;
  slab = λ bs. bs;
  reset = typed_strings_reset;
}
