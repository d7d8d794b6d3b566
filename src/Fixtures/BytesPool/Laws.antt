-- ===== src/Fixtures/BytesPool/Laws.antt =====
-- `BytesPool` on the wire: its methods are lawful.
use protoc_gen_codec.Base.{
  List, [], arith, drop, if◌then◌else◌, length, ltb, refl, some, ℕ, ◌++◌, ◌==◌, ◌≡◌,
}
use protoc_gen_codec.Fixtures.BytesPool.{
  BytesPool, bytes_pool, bytes_pool_marshal_internal, bytes_pool_size, bytes_pool_switch,
  bytes_pool_unmarshal_internal,
}
use protoc_gen_codec.Message.{marshal_codec, marshal_to_codec, size_codec, unmarshal_codec}
use protoc_gen_codec.Message.Kinds.{bad_tag, emit_bytes_field, from_slab, size_bytes_field}
use protoc_gen_codec.Message.Kinds.Bytes.{IsShort, bytes_wire}
use protoc_gen_codec.Message.Kinds.Delimited.{InSlab-ReadsBody, ReadsBody, from_body-ReadsBody}
use protoc_gen_codec.Message.Laws.{Lawful, codec_lem}
use protoc_gen_codec.Message.Parts.{Part, bytes_part}
use protoc_gen_codec.Message.Parts.Stays.{bytes-Stays, on◌stays◌or◌, skip-Stays}
use protoc_gen_codec.Runtime.Errors.{buffer_too_short, err, ok, sentinel}
use protoc_gen_codec.Wire.Emit.Laws.{Writes-Appends}
use protoc_gen_codec.Wire.Loop.{done}
use protoc_gen_codec.Wire.Loop.Laws.{decode_fields_lem}
use protoc_gen_codec.Wire.Loop.Safe.{EndsAll, decode_fields_ends}

-- The values that the Go types of the fields admit.
pub record IsBytesPool (m : BytesPool) : Type 0 where
  pub payload_short : IsShort m.payload

abbrev pub bytes_pool_wire : BytesPool → List ℕ
bytes_pool_wire m = bytes_wire 0x0a m.payload

-- The receiver as the loop finds it.
abbrev no_bytes_pool : BytesPool
no_bytes_pool = record { payload = [] }

-- The fields, each from where the one before leaves the receiver.
abbrev bytes_pool_parts :
    (m : BytesPool)
    → IsBytesPool m
    → Part bytes_pool_switch
        (size_bytes_field m.payload)
        (emit_bytes_field 0x0a m.payload)
        (bytes_pool_wire m)
        no_bytes_pool
        m
unfolding bytes_pool_switch
bytes_pool_parts m v =
    bytes_part "Payload" 1 (omega arith) (λ y. record no_bytes_pool { payload = y }) m.payload
      v.payload_short (λ body slab slab_off i. refl)

bytes_pool_switch_ends :
    (body slab : List ℕ) (slab_off : ℕ)
    → ReadsBody body (from_slab slab slab_off)
    → EndsAll (length body) (bytes_pool_switch body slab slab_off)
unfolding bytes_pool_switch
bytes_pool_switch_ends body slab slab_off r num wire_type i m h =
    (on num == 1
      stays bytes-Stays "Payload" 1 body wire_type i m h _ _ (from_body-ReadsBody body)
      or skip-Stays body wire_type i m h).ends

pub bytes_pool-Lawful : Lawful bytes_pool IsBytesPool bytes_pool_wire (λ m. m)
unfolding bytes_pool_size bytes_pool_marshal_internal bytes_pool_unmarshal_internal
    bytes_pool_switch
bytes_pool-Lawful = record {
  size_wire = λ m v. (bytes_pool_parts m v).sized;
  writes_wire = λ m v. Writes-Appends (bytes_pool_parts m v).writes;
  reads_wire = λ m r slab slab_off v h.
      decode_fields_lem ((bytes_pool_parts m v).reads (bytes_pool_wire m) slab slab_off h);
  slab_body = λ bs r. refl;
  ends_at = λ r body slab slab_off h.
      decode_fields_ends bad_tag body _
        (bytes_pool_switch_ends body slab slab_off (InSlab-ReadsBody body slab slab_off h))
        no_bytes_pool;
}

-- For every valid `BytesPool`, MarshalCodec returns its wire bytes, as many as SizeCodec says;
-- MarshalToCodec writes them at the front of a buffer that holds them and leaves the rest of it,
-- and on a shorter buffer returns ErrBufferTooShort; and UnmarshalCodec on the bytes leaves
-- exactly that value in any receiver and reads to the end.
bytes_pool_round_trip :
    (m r : BytesPool) (buf : List ℕ)
    → IsBytesPool m
    → (marshal_codec bytes_pool (some m) ≡ ok (bytes_pool_wire m))
      × (size_codec bytes_pool (some m) ≡ length (bytes_pool_wire m))
      × (marshal_to_codec bytes_pool (some m) buf ≡ (
          if ltb (length buf) (length (bytes_pool_wire m))
          then err (sentinel buffer_too_short)
          else ok (
            bytes_pool_wire m ++ drop (length (bytes_pool_wire m)) buf,
            length (bytes_pool_wire m),
          )))
      × (unmarshal_codec bytes_pool (some r) (bytes_pool_wire m)
          ≡ done m (length (bytes_pool_wire m)))
bytes_pool_round_trip m r buf v = codec_lem bytes_pool-Lawful m r buf v
