-- ===== src/Fixtures/OneofPayload/Kept.antt =====
-- The discriminator of a receiver that is used again.
use protoc_gen_codec.Base.{
  [], ap, append-nil, arith, inl, inr, length, some, subst, ◌++◌, ◌<◌, ◌∙◌, ◌≡◌, ◌⊎◌,
}
use protoc_gen_codec.Fixtures.OneofPayload.{
  OneofPayload, oneof_payload, oneof_payload_marshal_internal, oneof_payload_size,
}
use protoc_gen_codec.Fixtures.OneofPayload.Laws.{
  IsOneofPayload, branch_read, branch_wire, labelled, oneof_payload_parts, oneof_payload_reads,
  oneof_payload_wire,
}
use protoc_gen_codec.Message.{marshal_codec, size_codec, unmarshal_codec}
use protoc_gen_codec.Message.Kinds.Bytes.{bytes_wire}
use protoc_gen_codec.Message.Laws.{marshal_codec-Writes}
use protoc_gen_codec.Runtime.Errors.{ok}
use protoc_gen_codec.Wire.Emit.Laws.{Writes-Appends}
use protoc_gen_codec.Wire.Loop.{done}
use protoc_gen_codec.Wire.Slab.{in_self}

branch_unset :
    (m s : OneofPayload)
    → (m.kind < 10) ⊎ (14 < m.kind)
    → (branch_wire m ≡ []) × (branch_read m s ≡ s)
unfolding branch_read
branch_unset m s (inl h) = (ground (arith, h), ground (arith, h))
branch_unset m s (inr h) = (ground (arith, h), ground (arith, h))

-- Where no branch of a valid `OneofPayload` is set, MarshalCodec returns the encoding of the label and
-- nothing else, SizeCodec is the number of its bytes, and UnmarshalCodec on them reads to the end and
-- leaves the label and zero values in any receiver, except for the discriminator: the receiver keeps
-- the one it had.
pub oneof_payload_kind_kept :
    (m r : OneofPayload)
    → IsOneofPayload m
    → (m.kind < 10) ⊎ (14 < m.kind)
    → (marshal_codec oneof_payload (some m) ≡ ok (bytes_wire 0x0a m.label))
      × (size_codec oneof_payload (some m) ≡ length (bytes_wire 0x0a m.label))
      × (unmarshal_codec oneof_payload (some r) (bytes_wire 0x0a m.label)
          ≡ done (labelled m.label r.kind) (length (bytes_wire 0x0a m.label)))
unfolding unmarshal_codec oneof_payload_size oneof_payload_marshal_internal
oneof_payload_kind_kept m r v unset =
    let (none_sent, none_read) = branch_unset m (labelled m.label r.kind) unset in
    let alone : oneof_payload_wire m ≡ bytes_wire 0x0a m.label =
      ap (λ bs. bytes_wire 0x0a m.label ++ bs) none_sent ∙ append-nil _ in
    let parts = oneof_payload_parts m m v in
    let (bytes, size) =
      marshal_codec-Writes oneof_payload m (oneof_payload_wire m) parts.sized
        (Writes-Appends parts.writes) in
    (
      bytes ∙ ap ok alone,
      size ∙ ap length alone,
      subst
          (λ bs.
            unmarshal_codec oneof_payload (some r) bs ≡ done (labelled m.label r.kind) (length bs))
          alone
          (oneof_payload_reads m r (oneof_payload_wire m) 0 v (in_self (oneof_payload_wire m))
            ∙ ap (λ u. done u (length (oneof_payload_wire m))) none_read),
    )
