-- ===== src/Message/Kinds/Numeric.antt =====
-- The pieces for zigzag fields and for optional fields, which are pointers: `none` is nil.
use protoc_gen_codec.Base.{Bool, Option, if◌then◌else◌, none, not, some, ℕ, ◌+◌, ◌==◌}
use protoc_gen_codec.Runtime.Time.{sign_extend}
use protoc_gen_codec.Runtime.Varint.{size_varint}
use protoc_gen_codec.Runtime.Zigzag.{zigzag_encode32, zigzag_encode64}
use protoc_gen_codec.Wire.Emit.{Emit, into, nothing, push, put_fixed, put_varint, when, ◌⨾◌}

-- `if x != 0 { tag; EncodeVarint(uint64(ZigzagEncode32(x))) }`
unfoldable pub size_zigzag32_field : ℕ → ℕ
size_zigzag32_field x = if not (x == 0) then 1 + size_varint (zigzag_encode32 x) else 0

unfoldable pub emit_zigzag32_field : ℕ → ℕ → Emit
emit_zigzag32_field tag x = when (not (x == 0)) (push tag ⨾ into (put_varint (zigzag_encode32 x)))

unfoldable pub size_zigzag64_field : ℕ → ℕ
size_zigzag64_field x = if not (x == 0) then 1 + size_varint (zigzag_encode64 x) else 0

unfoldable pub emit_zigzag64_field : ℕ → ℕ → Emit
emit_zigzag64_field tag x = when (not (x == 0)) (push tag ⨾ into (put_varint (zigzag_encode64 x)))

-- `if p != nil { tag; EncodeVarint(uint64(*p)) }` on a pointer to an int32
unfoldable pub size_optional_int32_field : Option ℕ → ℕ
size_optional_int32_field none = 0
size_optional_int32_field (some x) = 1 + size_varint (sign_extend x)

unfoldable pub emit_optional_int32_field : ℕ → Option ℕ → Emit
emit_optional_int32_field tag none = nothing
emit_optional_int32_field tag (some x) = push tag ⨾ into (put_varint (sign_extend x))

-- `if p != nil { tag; if *p { 1 } else { 0 } }`
unfoldable pub size_optional_bool_field : Option Bool → ℕ
size_optional_bool_field none = 0
size_optional_bool_field (some b) = 2

unfoldable pub emit_optional_bool_field : ℕ → Option Bool → Emit
emit_optional_bool_field tag none = nothing
emit_optional_bool_field tag (some b) = push tag ⨾ push (if b then 1 else 0)

-- `if p != nil { tag; PutUint64(uint64(*p)) }`
unfoldable pub size_optional_fixed64_field : Option ℕ → ℕ
size_optional_fixed64_field none = 0
size_optional_fixed64_field (some x) = 9

unfoldable pub emit_optional_fixed64_field : ℕ → Option ℕ → Emit
emit_optional_fixed64_field tag none = nothing
emit_optional_fixed64_field tag (some x) = push tag ⨾ into (put_fixed 8 x)
