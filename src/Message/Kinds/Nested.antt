-- ===== src/Message/Kinds/Nested.antt =====
-- The pieces for nested messages, whose type has the methods `c`. A pointer to a message is an
-- Option, `none` being nil.
pub mod Laws
use Prim.Native.String.{String}
use protoc_gen_codec.Base.{
  List, Option, [], if◌then◌else◌, length, ltb, none, not, some, ℕ, ◌+◌, ◌-◌, ◌==◌, ◌∷◌,
}
use protoc_gen_codec.Message.{Methods}
use protoc_gen_codec.Message.Kinds.{field_error}
use protoc_gen_codec.Runtime.Errors.{buffer_too_short, in_field, invalid_varint, invalid_wire_type}
use protoc_gen_codec.Runtime.Varint.{size_varint}
use protoc_gen_codec.Wire.Emit.{Emit, each, into, nothing, push, put_varint, when, ◌⨾◌}
use protoc_gen_codec.Wire.Loop.{Run, and_then, done, failed, reading}
use protoc_gen_codec.Wire.Read.{read_varint, slice}

module _ {ℓ} {N : Type ℓ} (c : Methods N) where
  -- An element of a repeated field: `tag; EncodeVarint(sz); MarshalCodecInternal(buf[n:])`
  unfoldable pub size_message : N → ℕ
  size_message x = 1 + size_varint (c.size x) + c.size x

  unfoldable pub emit_message : ℕ → N → Emit
  emit_message tag x = push tag ⨾ into (put_varint (c.size x)) ⨾ into (c.marshal_internal x)

  -- `if sz := x.SizeCodec(); sz > 0 { … }`
  unfoldable pub size_value_field : N → ℕ
  size_value_field x = if ltb 0 (c.size x) then size_message x else 0

  unfoldable pub emit_value_field : ℕ → N → Emit
  emit_value_field tag x = when (ltb 0 (c.size x)) (emit_message tag x)

  -- The same below `if p != nil { … }`
  unfoldable pub size_pointer_field : Option N → ℕ
  size_pointer_field none = 0
  size_pointer_field (some x) = size_value_field x

  unfoldable pub emit_pointer_field : ℕ → Option N → Emit
  emit_pointer_field tag none = nothing
  emit_pointer_field tag (some x) = emit_value_field tag x

  -- `for idx := range xs { elem := &xs[idx]; … }`
  unfoldable pub size_values_field : List N → ℕ
  size_values_field [] = 0
  size_values_field (x ∷ xs) = size_message x + size_values_field xs

  unfoldable pub emit_values_field : ℕ → List N → Emit
  emit_values_field tag xs = each xs (emit_message tag)

  -- `for _, elem := range ps { if elem == nil { continue }; … }`
  unfoldable pub size_pointers_field : List (Option N) → ℕ
  size_pointers_field [] = 0
  size_pointers_field (none ∷ ps) = size_pointers_field ps
  size_pointers_field (some x ∷ ps) = size_message x + size_pointers_field ps

  unfoldable pub emit_pointers_field : ℕ → List (Option N) → Emit
  emit_pointers_field tag ps =
      each ps (λ p. elim p [ none ↦ nothing | some x ↦ emit_message tag x ])

  -- The case of the switch. `elem` is the message that the body is decoded into, in place: `set`
  -- puts it into the receiver, also where its decoding fails.
  unfoldable pub message_case {κ} :
      {M : Type κ} → String → ℕ → List ℕ → List ℕ → ℕ → ℕ → ℕ → M → N → (N → M) → Run M
  message_case name num body slab slab_off wire_type i m elem set =
      if not (wire_type == 2)
      then failed (field_error name num invalid_wire_type) m
      else reading (read_varint (field_error name num invalid_varint) body i) m λ v.
        if ltb (length body - v.1) v.0
        then failed (field_error name num buffer_too_short) m
        else reading (slice body v.1 (v.1 + v.0)) m λ s.
          and_then (c.unmarshal_internal s slab (slab_off + v.1) elem)
            (λ e x. failed (in_field name num e) (set x)) (λ x k. done (set x) (v.1 + v.0))

-- `if p == nil { p = new(N) }`, where `new(N)` points to `fresh`.
abbrev pub or_new {ℓ} : {N : Type ℓ} → N → Option N → N
or_new fresh none = fresh
or_new fresh (some x) = x
