-- ===== src/Core/Tags/Laws.antt =====
-- The generator's tags are the varints that the runtime writes and reads.
use mathlib.Core.Logic.{dif_pos, dif_neg}
use mathlib.Core.WellFounded.{Acc}
use native.Mathlib.Bridge.{le_prop}
use native.Mathlib.Decide.{dec_le}
use native.Mathlib.Nat.{zero-add}
use protoc_gen_codec.Base.{
  List, ap, arith, bit_and, if◌then◌else◌, length, length-replicate, ltb, refl, replicate, some,
  suc, sym, zero, ℕ, ◌*◌, ◌++◌, ◌+◌, ◌-◌, ◌/◌, ◌<◌, ◌^◌, ◌∙◌, ◌≡◌,
}
use protoc_gen_codec.Base.Bits.{bit_and_seven, bit_or_eight}
use protoc_gen_codec.Core.Tags.{
  WireKind, count_loop, sov_local, tag_bytes, tag_size, tag_value, wire_fixed32, wire_fixed64,
  wire_len_del, wire_number, wire_varint,
}
use protoc_gen_codec.Message.Laws.{slice_front}
use protoc_gen_codec.Runtime.Errors.{ok}
use protoc_gen_codec.Runtime.Time.{sign_extend}
use protoc_gen_codec.Runtime.Varint.{
  IsU64, decode_varint, encode_varint, shift_shrinks, shl64, size_varint,
}
use protoc_gen_codec.Runtime.Varint.Encode.{encode_varint_lem}
use protoc_gen_codec.Runtime.Varint.Groups.{groups, length-varint, varint}
use protoc_gen_codec.Runtime.Varint.RoundTrip.{decode_varint-varint}
use protoc_gen_codec.Runtime.Varint.Size.{size_varint-length}
use protoc_gen_codec.Wire.Loop.Laws.{tag_of}

-- A loop that starts at `n + 1` counts one for each group of seven bits.
count_loop-groups :
    (k v n : ℕ) (w : Acc ◌<◌ v) → v < 128 ^ suc k → count_loop v w (n + 1) ≡ n + length (groups k v)
unfolding count_loop groups
count_loop-groups zero v n (Acc.intro _ smaller) h =
    rw (dif_neg (dec_le 128 v) (λ p. omega arith)) refl
count_loop-groups (suc k) v n (Acc.intro _ smaller) h = elim (dec_le 128 v) [
  | yes p ↦ rw (dif_pos (dec_le 128 v) le_prop p) (
      count_loop-groups k (v / 128) (n + 1) (smaller _ (shift_shrinks v p)) (omega arith)
      ∙ ground arith)
  | no p ↦ rw (dif_neg (dec_le 128 v) p) (ground arith)
]

tag_value-tag_of : (n : ℕ) (wk : WireKind) → n < 2 ^ 29 → tag_value n wk ≡ tag_of n (wire_number wk)
unfolding tag_value sign_extend wire_number
tag_value-tag_of n wire_varint h = ground (arith, bit_or_eight n 0)
tag_value-tag_of n wire_fixed64 h = ground (arith, bit_or_eight n 1)
tag_value-tag_of n wire_len_del h = ground (arith, bit_or_eight n 2)
tag_value-tag_of n wire_fixed32 h = ground (arith, bit_or_eight n 5)

wire_number_below : (wk : WireKind) → wire_number wk < 8
unfolding wire_number
wire_number_below wire_varint = omega arith
wire_number_below wire_fixed64 = omega arith
wire_number_below wire_len_del = omega arith
wire_number_below wire_fixed32 = omega arith

-- The wire type does not change the number of bytes.
length-groups_eight :
    (k n w : ℕ)
    → w < 8
    → n * 8 + w < 128 ^ suc k
    → length (groups k (n * 8)) ≡ length (groups k (n * 8 + w))
unfolding groups
length-groups_eight zero n w hw h = refl
length-groups_eight (suc k) n w hw h =
    let same : n * 8 / 128 ≡ (n * 8 + w) / 128 = omega arith in
    ground (arith, ap (λ t. length (groups k t)) same)

tag_bytes-varint :
    (n : ℕ) (wk : WireKind) → n < 2 ^ 29 → tag_bytes n wk ≡ ok (varint (tag_value n wk))
unfolding tag_bytes encode_varint
tag_bytes-varint n wk h =
    let v = tag_value n wk in
    let fits : IsU64 v = omega (arith, tag_value-tag_of n wk h, wire_number_below wk) in
    let len = size_varint-length v fits in
    rw
      (
        encode_varint_lem v (replicate 10 0) fits
            (omega (arith, len, length-varint v, length-replicate {A = ℕ} 10 0)),
        len,
      )
      (slice_front (varint v) _)

tag_size-length :
    (n : ℕ) (wk : WireKind) → n < 2 ^ 29 → tag_size n ≡ length (varint (tag_value n wk))
unfolding tag_size varint sign_extend
tag_size-length n wk h =
    let low : shl64 (if ltb n (2 ^ 31) then n else n + (2 ^ 64 - 2 ^ 32)) 3 ≡ n * 8 =
      ground arith in
    rw (low, tag_value-tag_of n wk h)
      (count_loop-groups 9 (n * 8) 0 _ (omega arith)
        ∙ rw zero-add (
            length-groups_eight 9 n (wire_number wk) (wire_number_below wk)
              (omega (arith, wire_number_below wk))))

-- `SovLocal`, the generator's count of varint bytes, agrees with the runtime's `SizeVarint` on every uint64.
pub sov_local-size_varint : (x : ℕ) → IsU64 x → sov_local x ≡ size_varint x
unfolding sov_local varint
sov_local-size_varint x h =
    count_loop-groups 9 x 0 _ (omega arith) ∙ rw (zero-add, size_varint-length x h) refl

-- For a field number below 2 ^ 29, TagBytes gives, without a panic, the varint of TagValue, in as
-- many bytes as TagSize says; and DecodeVarint reads from them, whatever follows, a tag from which
-- the decoder's `tag >> 3` and `tag & 0x7` recover the field number and the wire type.
pub decode_varint-tag_bytes :
    (n : ℕ) (wk : WireKind) (rest : List ℕ)
    → n < 2 ^ 29
    → (bs : List ℕ) × (tag_bytes n wk ≡ ok bs)
      × (length bs ≡ tag_size n)
      × (decode_varint (bs ++ rest) ≡ some (tag_value n wk, tag_size n))
      × (tag_value n wk / 8 ≡ n)
      × (bit_and (tag_value n wk) 0x7 ≡ wire_number wk)
decode_varint-tag_bytes n wk rest h =
    let v = tag_value n wk in
    let e = tag_value-tag_of n wk h in
    let below = wire_number_below wk in
    let len = tag_size-length n wk h in
    (
      varint v,
      tag_bytes-varint n wk h,
      sym len,
      rw len (decode_varint-varint v rest (omega (arith, e, below))),
      omega (arith, e, below),
      omega (arith, e, below, bit_and_seven v),
    )
