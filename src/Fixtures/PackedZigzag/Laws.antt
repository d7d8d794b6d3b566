-- ===== src/Fixtures/PackedZigzag/Laws.antt =====
-- `PackedZigzag` on the wire: its methods are lawful.
use native.Mathlib.Nat.{mod-eq_of_lt}
use protoc_gen_codec.Base.{
  All, List, [], arith, drop, if◌then◌else◌, length, ltb, refl, some, ℕ, ◌%◌, ◌++◌, ◌+◌, ◌<◌, ◌==◌,
  ◌^◌, ◌∷◌, ◌≡◌,
}
use protoc_gen_codec.Fixtures.PackedZigzag.{
  PackedZigzag, add32, add64, packed_zigzag, packed_zigzag_marshal_internal, packed_zigzag_size,
  packed_zigzag_switch, packed_zigzag_unmarshal_internal,
}
use protoc_gen_codec.Message.{marshal_codec, marshal_to_codec, size_codec, unmarshal_codec}
use protoc_gen_codec.Message.Kinds.{bad_tag}
use protoc_gen_codec.Message.Kinds.Bytes.{IsShort}
use protoc_gen_codec.Message.Kinds.Packed.{emit_packed_field, size_packed_field}
use protoc_gen_codec.Message.Kinds.Packed.Laws.{packed_body, packed_wire}
use protoc_gen_codec.Message.Laws.{Lawful, codec_lem}
use protoc_gen_codec.Message.Parts.{Part, ◌⊕◌}
use protoc_gen_codec.Message.Parts.Packed.{packed-Stays, packed_part}
use protoc_gen_codec.Message.Parts.Stays.{on◌stays◌or◌, skip-Stays}
use protoc_gen_codec.Runtime.Errors.{buffer_too_short, err, ok, sentinel}
use protoc_gen_codec.Runtime.Varint.{IsU64}
use protoc_gen_codec.Runtime.Zigzag.{
  zigzag_decode32, zigzag_decode64, zigzag_encode32, zigzag_encode64,
}
use protoc_gen_codec.Runtime.Zigzag.Laws.{zigzag_inverse32, zigzag_inverse64}
use protoc_gen_codec.Wire.Emit.{◌⨾◌}
use protoc_gen_codec.Wire.Emit.Laws.{Writes-Appends}
use protoc_gen_codec.Wire.Loop.{done}
use protoc_gen_codec.Wire.Loop.Laws.{decode_fields_lem}
use protoc_gen_codec.Wire.Loop.Safe.{EndsAll, decode_fields_ends}

-- The values that the Go types of the fields admit, in bodies of a length that an int holds.
pub record IsPackedZigzag (m : PackedZigzag) : Type 0 where
  pub values32_fit : All (λ v. v < 2 ^ 32) m.values32
  pub values32_short : IsShort (packed_body zigzag_encode32 m.values32)
  pub values64_fit : All IsU64 m.values64
  pub values64_short : IsShort (packed_body zigzag_encode64 m.values64)

abbrev pub packed_zigzag_wire : PackedZigzag → List ℕ
packed_zigzag_wire m =
    packed_wire zigzag_encode32 0x0a m.values32 ++ packed_wire zigzag_encode64 0x12 m.values64

codes32 :
    (vs : List ℕ)
    → All (λ v. v < 2 ^ 32) vs
    → All (λ v. IsU64 (zigzag_encode32 v) × (zigzag_decode32 (zigzag_encode32 v % 2 ^ 32) ≡ v)) vs
codes32 [] h = tt
codes32 (v ∷ vs) h =
    let (fits, back, _) = zigzag_inverse32 v h.0 in
    ((omega arith, rw (mod-eq_of_lt fits) back), codes32 vs h.1)

codes64 :
    (vs : List ℕ)
    → All IsU64 vs
    → All (λ v. IsU64 (zigzag_encode64 v) × (zigzag_decode64 (zigzag_encode64 v) ≡ v)) vs
codes64 [] h = tt
codes64 (v ∷ vs) h = let (fits, back, _) = zigzag_inverse64 v h.0 in ((fits, back), codes64 vs h.1)

-- The receiver as the loop finds it.
abbrev no_packed_zigzag : PackedZigzag
no_packed_zigzag = record { values32 = []; values64 = [] }

packed_zigzag_parts :
    (m : PackedZigzag)
    → IsPackedZigzag m
    → Part packed_zigzag_switch
        (size_packed_field zigzag_encode32 m.values32
          + size_packed_field zigzag_encode64 m.values64)
        (emit_packed_field zigzag_encode32 0x0a m.values32
          ⨾ emit_packed_field zigzag_encode64 0x12 m.values64)
        (packed_zigzag_wire m)
        no_packed_zigzag
        m
unfolding packed_zigzag_switch
packed_zigzag_parts m v =
    let m1 : PackedZigzag = record no_packed_zigzag { values32 = m.values32 } in
    packed_part "Values32" 1 (omega arith) zigzag_encode32 (λ x. zigzag_decode32 (x % 2 ^ 32))
      (λ y. record no_packed_zigzag { values32 = y }) add32 m.values32 (λ got x. refl)
      (codes32 m.values32 v.values32_fit) v.values32_short (λ body slab slab_off i. refl)
    ⊕ packed_part "Values64" 2 (omega arith) zigzag_encode64 zigzag_decode64
        (λ y. record m1 { values64 = y }) add64 m.values64 (λ got x. refl)
        (codes64 m.values64 v.values64_fit) v.values64_short (λ body slab slab_off i. refl)

packed_zigzag_switch_ends :
    (body slab : List ℕ) (slab_off : ℕ)
    → EndsAll (length body) (packed_zigzag_switch body slab slab_off)
unfolding packed_zigzag_switch
packed_zigzag_switch_ends body slab slab_off num wire_type i m h =
    (on num == 1
      stays packed-Stays "Values32" 1 body wire_type i m add32 h
      or on num == 2
      stays packed-Stays "Values64" 2 body wire_type i m add64 h
      or skip-Stays body wire_type i m h).ends

pub packed_zigzag-Lawful : Lawful packed_zigzag IsPackedZigzag packed_zigzag_wire (λ m. m)
unfolding packed_zigzag_size packed_zigzag_marshal_internal packed_zigzag_unmarshal_internal
    packed_zigzag_switch
packed_zigzag-Lawful = record {
  size_wire = λ m v. (packed_zigzag_parts m v).sized;
  writes_wire = λ m v. Writes-Appends (packed_zigzag_parts m v).writes;
  reads_wire = λ m r slab slab_off v h.
      decode_fields_lem ((packed_zigzag_parts m v).reads (packed_zigzag_wire m) slab slab_off h);
  slab_body = λ bs r. refl;
  ends_at = λ r body slab slab_off h.
      decode_fields_ends bad_tag body _ (packed_zigzag_switch_ends body [] 0) no_packed_zigzag;
}

-- For every valid `PackedZigzag`, MarshalCodec returns its wire bytes, as many as SizeCodec says;
-- MarshalToCodec writes them at the front of a buffer that holds them and leaves the rest of it,
-- and on a shorter buffer returns ErrBufferTooShort; and UnmarshalCodec on the bytes leaves
-- exactly that value in any receiver and reads to the end.
pub packed_zigzag_round_trip :
    (m r : PackedZigzag) (buf : List ℕ)
    → IsPackedZigzag m
    → (marshal_codec packed_zigzag (some m) ≡ ok (packed_zigzag_wire m))
      × (size_codec packed_zigzag (some m) ≡ length (packed_zigzag_wire m))
      × (marshal_to_codec packed_zigzag (some m) buf ≡ (
          if ltb (length buf) (length (packed_zigzag_wire m))
          then err (sentinel buffer_too_short)
          else ok (
            packed_zigzag_wire m ++ drop (length (packed_zigzag_wire m)) buf,
            length (packed_zigzag_wire m),
          )))
      × (unmarshal_codec packed_zigzag (some r) (packed_zigzag_wire m)
          ≡ done m (length (packed_zigzag_wire m)))
packed_zigzag_round_trip m r buf v = codec_lem packed_zigzag-Lawful m r buf v
