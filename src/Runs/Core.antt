-- ===== src/Runs/Core.antt =====
-- The tag functions at concrete inputs.
use protoc_gen_codec.Base.{List, [], arith, bit_and, length, some, ℕ, ◌++◌, ◌/◌, ◌∷◌, ◌≡◌}
use protoc_gen_codec.Core.Tags.{
  sov_local, tag_bytes, tag_size, tag_value, wire_len_del, wire_number,
}
use protoc_gen_codec.Core.Tags.Laws.{decode_varint-tag_bytes, sov_local-size_varint}
use protoc_gen_codec.Runtime.Errors.{ok}
use protoc_gen_codec.Runtime.Varint.{decode_varint, size_varint}

sov_local-size_varint_example : sov_local 300 ≡ size_varint 300
sov_local-size_varint_example = sov_local-size_varint 300 (omega arith)

-- Field 16 is the first with a tag of two bytes.
decode_varint-tag_bytes_example :
    (bs : List ℕ) × (tag_bytes 16 wire_len_del ≡ ok bs)
    × (length bs ≡ tag_size 16)
    × (decode_varint (bs ++ (7 ∷ [])) ≡ some (tag_value 16 wire_len_del, tag_size 16))
    × (tag_value 16 wire_len_del / 8 ≡ 16)
    × (bit_and (tag_value 16 wire_len_del) 0x7 ≡ wire_number wire_len_del)
decode_varint-tag_bytes_example = decode_varint-tag_bytes 16 wire_len_del (7 ∷ []) (omega arith)
