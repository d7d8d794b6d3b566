-- ===== src/Message/Kinds/Maps.antt =====
-- The pieces for map fields. An entry is a message of its own on the wire, with the key as its field
-- 1 and the value as its field 2.
pub mod Laws
use Prim.Native.String.{String}
use protoc_gen_codec.Base.{List, if◌then◌else◌, length, ltb, not, ℕ, ◌+◌, ◌-◌, ◌==◌}
use protoc_gen_codec.Message.Kinds.{field_error, from_slab}
use protoc_gen_codec.Message.Maps.{sum_of}
use protoc_gen_codec.Runtime.Errors.{buffer_too_short, invalid_varint, invalid_wire_type, sentinel}
use protoc_gen_codec.Runtime.Varint.{size_varint}
use protoc_gen_codec.Wire.Emit.{Emit, each, into, push, put_varint, ◌⨾◌}
use protoc_gen_codec.Wire.Loop.{Run, Switch, and_then, decode_fields, done, failed, reading}
use protoc_gen_codec.Wire.Read.{read_varint, slice}

-- What the methods do for the entries of one map field: `entrySz`, the bytes of key and value, the
-- variables `mk` and `mv` before the loop over an entry, and the loop's `switch etag >> 3 { … }`.
-- The part of the data up to `entryEnd` is a slice of its own here, with indices from its start.
pub record EntryKind (K V : Type 0) : Type 0 where
  pub size_kv : K × V → ℕ
  pub emit_kv : K × V → Emit
  pub no_entry : K × V
  pub entry_switch : List ℕ → List ℕ → ℕ → Switch (K × V)

module _ {K V : Type 0} (c : EntryKind K V) where
  unfoldable pub size_entry : K × V → ℕ
  size_entry p = 1 + size_varint (c.size_kv p) + c.size_kv p

  unfoldable pub emit_entry : ℕ → K × V → Emit
  emit_entry tag p = push tag ⨾ into (put_varint (c.size_kv p)) ⨾ c.emit_kv p

  unfoldable pub size_map_field : List (K × V) → ℕ
  size_map_field m = sum_of size_entry m

  unfoldable pub emit_map_field : ℕ → List (K × V) → Emit
  emit_map_field tag ps = each ps (emit_entry tag)

  -- The case of the switch; `put` is `m.F[mk] = mv`.
  unfoldable pub map_case {ℓ} :
      {M : Type ℓ} → String → ℕ → List ℕ → List ℕ → ℕ → ℕ → ℕ → M → (K × V → M) → Run M
  map_case name num body slab slab_off wire_type i m put =
      if not (wire_type == 2)
      then failed (field_error name num invalid_wire_type) m
      else reading (read_varint (field_error name num invalid_varint) body i) m λ v.
        if ltb (length body - v.1) v.0
        then failed (field_error name num buffer_too_short) m
        else reading (slice body v.1 (v.1 + v.0)) m λ entry.
          and_then
            (decode_fields (λ _. field_error name num invalid_varint) entry
              (c.entry_switch entry slab (slab_off + v.1)) c.no_entry)
            (λ e kv. failed e m) (λ kv k. done (put kv) (v.1 + k))

-- The cases for a key or a value within an entry. The wire type is not looked at, and the errors do
-- not name the field.
module _ {E : Type 0} (entry : List ℕ) (i : ℕ) (kv : E) where
  unfoldable pub entry_bytes : List ℕ → ℕ → (List ℕ → E) → Run E
  entry_bytes slab slab_off set = reading (read_varint (sentinel invalid_varint) entry i) kv λ v.
      if ltb (length entry - v.1) v.0
      then failed (sentinel buffer_too_short) kv
      else reading (from_slab slab slab_off v.1 v.0) kv (λ s. done (set s) (v.1 + v.0))

  unfoldable pub entry_varint : (ℕ → E) → Run E
  entry_varint set =
      reading (read_varint (sentinel invalid_varint) entry i) kv (λ v. done (set v.0) v.1)
