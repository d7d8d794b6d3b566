-- ===== src/Message/Kinds.antt =====
-- The pieces that the generated methods have for a field, by its kind: its part of `SizeCodec`, of
-- `MarshalCodecInternal`, and its case of the switch in `UnmarshalCodecInternal`.
pub mod Scalar
pub mod Bytes
pub mod Delimited
pub mod Numeric
pub mod Packed
pub mod Nested
pub mod Maps
use Prim.Native.String.{String}
use protoc_gen_codec.Base.{
  Bool, List, [], if◌then◌else◌, length, ltb, not, replicate, true, ℕ, ◌&&◌, ◌+◌, ◌-◌, ◌==◌, ◌∷◌,
}
use protoc_gen_codec.Runtime.Errors.{
  Error, Res, Sentinel, at_offset, buffer_too_short, in_field, invalid_length, invalid_tag,
  invalid_varint, invalid_wire_type, ok, sentinel, ◌>>=◌,
}
use protoc_gen_codec.Runtime.Varint.{size_varint}
use protoc_gen_codec.Wire.Emit.{
  Emit, Writer, copy, each, into, push, put_fixed, put_varint, when, ◌⨾◌,
}
use protoc_gen_codec.Wire.Loop.{Run, done, failed, reading}
use protoc_gen_codec.Wire.Read.{get_fixed, read_varint, skip_at, slice}

-- `if x != 0 { tag; EncodeVarint(x) }`
unfoldable pub size_varint_field : ℕ → ℕ
size_varint_field x = if not (x == 0) then 1 + size_varint x else 0

unfoldable pub emit_varint_field : ℕ → ℕ → Emit
emit_varint_field tag x = when (not (x == 0)) (push tag ⨾ into (put_varint x))

-- `if b { tag; 1 }`
unfoldable pub size_bool_field : Bool → ℕ
size_bool_field b = if b then 2 else 0

unfoldable pub emit_bool_field : ℕ → Bool → Emit
emit_bool_field tag b = when b (push tag ⨾ push 1)

-- `if x != 0 { tag; PutUint64(x) }`
unfoldable pub size_fixed64_field : ℕ → ℕ
size_fixed64_field x = if not (x == 0) then 9 else 0

unfoldable pub emit_fixed64_field : ℕ → ℕ → Emit
emit_fixed64_field tag x = when (not (x == 0)) (push tag ⨾ into (put_fixed 8 x))

-- One string or byte slice: `tag; EncodeVarint(len(s)); copy(s)`
unfoldable pub size_element : List ℕ → ℕ
size_element s = 1 + size_varint (length s) + length s

unfoldable pub emit_element : ℕ → List ℕ → Emit
emit_element tag s = push tag ⨾ into (put_varint (length s)) ⨾ into (copy s)

-- `if len(s) > 0 { … }`
unfoldable pub size_bytes_field : List ℕ → ℕ
size_bytes_field s = if ltb 0 (length s) then size_element s else 0

unfoldable pub emit_bytes_field : ℕ → List ℕ → Emit
emit_bytes_field tag s = when (ltb 0 (length s)) (emit_element tag s)

-- `for _, s := range ss { … }`
unfoldable pub size_repeated_field : List (List ℕ) → ℕ
size_repeated_field [] = 0
size_repeated_field (s ∷ ss) = size_element s + size_repeated_field ss

unfoldable pub emit_repeated_field : ℕ → List (List ℕ) → Emit
emit_repeated_field tag ss = each ss (emit_element tag)

-- A [32]byte is a list of 32 numbers. `d != (Digest{})`.
abbrev pub zero_digest : List ℕ
zero_digest = replicate 32 0

unfoldable pub is_zero_digest : List ℕ → Bool
is_zero_digest [] = true
is_zero_digest (b ∷ bs) = b == 0 && is_zero_digest bs

unfoldable pub size_digest_field : List ℕ → ℕ
size_digest_field d = if not (is_zero_digest d) then 34 else 0

-- `copy(buf[n:], d[:]); n += 32`
unfoldable pub copy_digest : List ℕ → Writer
copy_digest d buf = copy d buf >>= λ s. ok (s.0, 32)

unfoldable pub emit_digest_field : ℕ → List ℕ → Emit
emit_digest_field tag d =
    when (not (is_zero_digest d)) (push tag ⨾ into (put_varint 32) ⨾ into (copy_digest d))

-- `fmt.Errorf("field NAME (%d): %w", num, err)`
abbrev pub field_error : String → ℕ → Sentinel → Error
field_error name num s = in_field name num (sentinel s)

-- The cases of the switch. `set` assigns to the field of the receiver `m`.
module _ {ℓ} {M : Type ℓ} (name : String) (num : ℕ) (body : List ℕ) (wire_type i : ℕ) (m : M) where
  abbrev wrong_type : Run M
  wrong_type = failed (field_error name num invalid_wire_type) m

  unfoldable pub varint_case : (ℕ → M) → Run M
  varint_case set =
      if not (wire_type == 0)
      then wrong_type
      else reading (read_varint (field_error name num invalid_varint) body i) m
          (λ v. done (set v.0) v.1)

  unfoldable pub fixed64_case : (ℕ → M) → Run M
  fixed64_case set =
      if not (wire_type == 1)
      then wrong_type
      else if ltb (length body - i) 8
      then failed (field_error name num buffer_too_short) m
      else reading (get_fixed 8 body i) m (λ x. done (set x) (i + 8))

  -- `read j v` takes the `v` bytes from index `j` on: from the slab, or from the body.
  unfoldable pub bytes_case : (ℕ → ℕ → Res (List ℕ)) → (List ℕ → M) → Run M
  bytes_case read set =
      if not (wire_type == 2)
      then wrong_type
      else reading (read_varint (field_error name num invalid_varint) body i) m λ v.
        if ltb (length body - v.1) v.0
        then failed (field_error name num buffer_too_short) m
        else reading (read v.1 v.0) m (λ s. done (set s) (v.1 + v.0))

  unfoldable pub digest_case : (List ℕ → M) → Run M
  digest_case set =
      if not (wire_type == 2)
      then wrong_type
      else reading (read_varint (field_error name num invalid_varint) body i) m λ v.
        if not (v.0 == 32)
        then failed (field_error name num invalid_length) m
        else if ltb (length body - v.1) 32
        then failed (field_error name num buffer_too_short) m
        else reading (slice body v.1 (v.1 + 32)) m (λ s. done (set s) (v.1 + 32))

-- `default:` skips the field.
unfoldable pub skip_case {ℓ} : {M : Type ℓ} → List ℕ → ℕ → ℕ → M → Run M
skip_case body wire_type i m = reading (skip_at body wire_type i) m (λ j. done m j)

-- `slab[slabOff+i : slabOff+i+int(vLen)]` and `data[i:i+int(vLen)]`
unfoldable pub from_slab : List ℕ → ℕ → ℕ → ℕ → Res (List ℕ)
from_slab slab slab_off j v = slice slab (slab_off + j) (slab_off + j + v)

unfoldable pub from_body : List ℕ → ℕ → ℕ → Res (List ℕ)
from_body body j v = slice body j (j + v)

-- The error for a tag that does not decode.
unfoldable pub bad_tag : ℕ → Error
bad_tag i = at_offset i (sentinel invalid_tag)
