-- ===== src/Fixtures/BoolMapHolder.antt =====
-- The type `BoolMapHolder` of lang/go/integration/fixture.go and its methods in fixture.codec.go: a map
-- whose keys are Booleans, sent without sorting.
pub mod Laws
use protoc_gen_codec.Base.{Bool, List, [], false, if◌then◌else◌, not, true, ℕ, ◌+◌, ◌==◌}
use protoc_gen_codec.Message.{Methods}
use protoc_gen_codec.Message.Kinds.{bad_tag, emit_element, size_element, skip_case}
use protoc_gen_codec.Message.Kinds.Maps.{
  EntryKind, emit_entry, entry_bytes, entry_varint, map_case, size_map_field,
}
use protoc_gen_codec.Message.Maps.{map_get, map_has, map_set}
use protoc_gen_codec.Wire.Emit.{Emit, Writer, push, when, ◌⨾◌}
use protoc_gen_codec.Wire.Loop.{Run, Switch, decode_fields}

-- A string is the list of its bytes, a map the list of its entries.
pub record BoolMapHolder : Type 0 where
  pub flags : List (Bool × List ℕ)

unfoldable pub bool_eq : Bool → Bool → Bool
bool_eq true b = b
bool_eq false b = not b

-- What the methods do for an entry.
abbrev pub flags_entry : EntryKind Bool (List ℕ)
flags_entry = record {
  size_kv = λ p. 1 + 1 + size_element p.1;
  emit_kv = λ p. push 0x08 ⨾ push (if p.0 then 1 else 0) ⨾ emit_element 0x12 p.1;
  no_entry = (false, []);
  entry_switch = λ entry slab slab_off num wire_type i kv.
      if num == 1
      then entry_varint entry i kv (λ v. (not (v == 0), kv.1))
      else if num == 2
      then entry_bytes entry i kv slab slab_off (λ s. (kv.0, s))
      else skip_case entry wire_type i kv;
}

unfoldable pub bool_map_holder_size : BoolMapHolder → ℕ
bool_map_holder_size m = size_map_field flags_entry m.flags

-- `if _, ok := m.Flags[k]; ok { v := m.Flags[k]; … }`
unfoldable pub emit_flag : BoolMapHolder → Bool → Emit
emit_flag m k =
    when (map_has bool_eq m.flags k) (emit_entry flags_entry 0x0a (k, map_get bool_eq [] m.flags k))

unfoldable pub bool_map_holder_marshal_internal : BoolMapHolder → Writer
bool_map_holder_marshal_internal m buf = (emit_flag m false ⨾ emit_flag m true) buf 0

unfoldable pub bool_map_holder_reset : BoolMapHolder → BoolMapHolder
bool_map_holder_reset m = record m { flags = [] }

unfoldable pub bool_map_holder_switch : List ℕ → List ℕ → ℕ → Switch BoolMapHolder
bool_map_holder_switch body slab slab_off num wire_type i m =
    if num == 1
    then map_case flags_entry "Flags" 1 body slab slab_off wire_type i m
        (λ p. record m { flags = map_set bool_eq m.flags p.0 p.1 })
    else skip_case body wire_type i m

unfoldable pub bool_map_holder_unmarshal_internal :
    List ℕ → List ℕ → ℕ → BoolMapHolder → Run BoolMapHolder
bool_map_holder_unmarshal_internal body slab slab_off m =
    decode_fields bad_tag body (bool_map_holder_switch body slab slab_off) (record m { flags = [] })

abbrev pub bool_map_holder : Methods BoolMapHolder
bool_map_holder = record {
  size = bool_map_holder_size;
  marshal_internal = bool_map_holder_marshal_internal;
  unmarshal_internal = bool_map_holder_unmarshal_internal;
  slab = λ bs. bs;
  reset = bool_map_holder_reset;
}
