-- ===== src/Message/Kinds/Packed.antt =====
-- The pieces for a packed repeated field of varints. `code` is what the elements are written as.
pub mod Laws
use Prim.Native.String.{String}
use protoc_gen_codec.Base.{List, [], if◌then◌else◌, length, ltb, suc, zero, ℕ, ◌+◌, ◌-◌, ◌==◌, ◌∷◌}
use protoc_gen_codec.Message.Kinds.{field_error}
use protoc_gen_codec.Runtime.Errors.{buffer_too_short, invalid_varint, invalid_wire_type}
use protoc_gen_codec.Runtime.Varint.{size_varint}
use protoc_gen_codec.Wire.Emit.{Emit, each, into, push, put_varint, when, ◌⨾◌}
use protoc_gen_codec.Wire.Loop.{Run, done, failed, reading, spent}
use protoc_gen_codec.Wire.Read.{read_varint}

-- `l := 0; for _, v := range vs { l += SizeVarint(code(v)) }`
unfoldable pub packed_length : (ℕ → ℕ) → List ℕ → ℕ
packed_length code [] = 0
packed_length code (v ∷ vs) = size_varint (code v) + packed_length code vs

-- `if len(vs) > 0 { … }`
unfoldable pub size_packed_field : (ℕ → ℕ) → List ℕ → ℕ
size_packed_field code vs =
    if ltb 0 (length vs) then 1 + size_varint (packed_length code vs) + packed_length code vs else 0

unfoldable pub emit_packed_field : (ℕ → ℕ) → ℕ → List ℕ → Emit
emit_packed_field code tag vs = when (ltb 0 (length vs)) (
    push tag
    ⨾ into (put_varint (packed_length code vs))
    ⨾ each vs (λ v. into (put_varint (code v))))

module _ {ℓ} {M : Type ℓ} (name : String) (num : ℕ) (body : List ℕ) (add : M → ℕ → M) where
  -- `for i < end { … }`. An element may reach past `end`, since it is read from `data[i:]`. It takes
  -- a byte at least, so `length body` rounds are enough.
  unfoldable pub packed_loop : ℕ → ℕ → ℕ → M → Run M
  packed_loop end zero i m = if ltb i end then spent else done m i
  packed_loop end (suc fuel) i m =
      let element =
        reading (read_varint (field_error name num invalid_varint) body i) m
          λ v. packed_loop end fuel v.1 (add m v.0) in
      if ltb i end then element else done m i

  unfoldable pub packed_case : ℕ → ℕ → M → Run M
  packed_case wire_type i m =
      if wire_type == 2
      then (reading (read_varint (field_error name num invalid_varint) body i) m λ p.
          if ltb (length body - p.1) p.0
          then failed (field_error name num buffer_too_short) m
          else packed_loop (p.1 + p.0) (length body) p.1 m)
      else if wire_type == 0
      then reading (read_varint (field_error name num invalid_varint) body i) m
          (λ v. done (add m v.0) v.1)
      else failed (field_error name num invalid_wire_type) m
