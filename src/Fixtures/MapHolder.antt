-- ===== src/Fixtures/MapHolder.antt =====
-- The type `MapHolder` of lang/go/integration/fixture.go and its methods in fixture.codec.go: maps from
-- strings to strings and to numbers.
pub mod Laws
pub mod Determined
use protoc_gen_codec.Base.{List, [], if◌then◌else◌, ℕ, ◌+◌, ◌==◌}
use protoc_gen_codec.Message.{Methods}
use protoc_gen_codec.Message.Kinds.{bad_tag, emit_element, size_element, skip_case}
use protoc_gen_codec.Message.Kinds.Maps.{
  EntryKind, emit_map_field, entry_bytes, entry_varint, map_case, size_map_field,
}
use protoc_gen_codec.Message.Maps.{by_key, bytes_eq, map_set}
use protoc_gen_codec.Runtime.Varint.{size_varint}
use protoc_gen_codec.Wire.Emit.{Writer, into, push, put_varint, ◌⨾◌}
use protoc_gen_codec.Wire.Loop.{Run, Switch, decode_fields}

-- A string is the list of its bytes, an int64 its bit pattern, a map the list of its entries.
pub record MapHolder : Type 0 where
  pub attrs : List (List ℕ × List ℕ)
  pub counts : List (List ℕ × ℕ)

-- What the methods do for an entry of `Attrs`, and of `Counts`.
abbrev pub attrs_entry : EntryKind (List ℕ) (List ℕ)
attrs_entry = record {
  size_kv = λ p. size_element p.0 + size_element p.1;
  emit_kv = λ p. emit_element 0x0a p.0 ⨾ emit_element 0x12 p.1;
  no_entry = ([], []);
  entry_switch = λ entry slab slab_off num wire_type i kv.
      if num == 1
      then entry_bytes entry i kv slab slab_off (λ s. (s, kv.1))
      else if num == 2
      then entry_bytes entry i kv slab slab_off (λ s. (kv.0, s))
      else skip_case entry wire_type i kv;
}

abbrev pub counts_entry : EntryKind (List ℕ) ℕ
counts_entry = record {
  size_kv = λ p. size_element p.0 + (1 + size_varint p.1);
  emit_kv = λ p. emit_element 0x0a p.0 ⨾ (push 0x10 ⨾ into (put_varint p.1));
  no_entry = ([], 0);
  entry_switch = λ entry slab slab_off num wire_type i kv.
      if num == 1
      then entry_bytes entry i kv slab slab_off (λ s. (s, kv.1))
      else if num == 2
      then entry_varint entry i kv (λ v. (kv.0, v))
      else skip_case entry wire_type i kv;
}

unfoldable pub map_holder_size : MapHolder → ℕ
map_holder_size m = size_map_field attrs_entry m.attrs + size_map_field counts_entry m.counts

unfoldable pub map_holder_marshal_internal : MapHolder → Writer
map_holder_marshal_internal m buf =
    (emit_map_field attrs_entry 0x0a (by_key [] m.attrs)
        ⨾ emit_map_field counts_entry 0x12 (by_key 0 m.counts))
      buf 0

unfoldable pub map_holder_reset : MapHolder → MapHolder
map_holder_reset m = record m { attrs = []; counts = [] }

unfoldable pub map_holder_switch : List ℕ → List ℕ → ℕ → Switch MapHolder
map_holder_switch body slab slab_off num wire_type i m =
    if num == 1
    then map_case attrs_entry "Attrs" 1 body slab slab_off wire_type i m
        (λ p. record m { attrs = map_set bytes_eq m.attrs p.0 p.1 })
    else if num == 2
    then map_case counts_entry "Counts" 2 body slab slab_off wire_type i m
        (λ p. record m { counts = map_set bytes_eq m.counts p.0 p.1 })
    else skip_case body wire_type i m

unfoldable pub map_holder_unmarshal_internal : List ℕ → List ℕ → ℕ → MapHolder → Run MapHolder
map_holder_unmarshal_internal body slab slab_off m =
    decode_fields bad_tag body (map_holder_switch body slab slab_off)
      (record m { attrs = []; counts = [] })

abbrev pub map_holder : Methods MapHolder
map_holder = record {
  size = map_holder_size;
  marshal_internal = map_holder_marshal_internal;
  unmarshal_internal = map_holder_unmarshal_internal;
  slab = λ bs. bs;
  reset = map_holder_reset;
}
