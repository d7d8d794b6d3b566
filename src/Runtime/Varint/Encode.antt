-- ===== src/Runtime/Varint/Encode.antt =====
-- `EncodeVarint` writes the varint at the start of the slice, and panics only for want of room.
use protoc_gen_codec.Base.{ℕ, zero, suc, ◌+◌, ◌/◌, ◌%◌, ◌^◌, ◌≤◌, ◌<◌, ◌≡◌, refl, ◌∙◌, ap, bit_or}
use protoc_gen_codec.Base.{
  List, [], ◌∷◌, ◌++◌, append_assoc, append-nil, arith, ltb, length, length-append, drop,
}
use protoc_gen_codec.Base.{inl, inr, Bool-cases, ltb→lt, ltb_false→le, true, false}
use protoc_gen_codec.Base.Bits.{bit_or_128}
use protoc_gen_codec.Runtime.Errors.{ok, fault}
use protoc_gen_codec.Runtime.Varint.{
  IsU64, shift_shrinks, write_at, encode_loop, encode_varint, size_varint,
}
use protoc_gen_codec.Runtime.Varint.Groups.{groups, varint, length-groups}
use protoc_gen_codec.Runtime.Varint.Size.{size_varint-length}
use mathlib.Core.Logic.{dif_pos, dif_neg}
use mathlib.Core.WellFounded.{Acc}
use native.Mathlib.Decide.{dec_le}
use native.Mathlib.Nat.{zero-add}
use native.Mathlib.Bridge.{le_prop}

pub write_at-append :
    (front rest : List ℕ) (r b : ℕ)
    → write_at (front ++ (r ∷ rest)) (length front) b ≡ ok ((front ++ (b ∷ [])) ++ rest)
unfolding write_at
write_at-append [] rest r b = refl
write_at-append (c ∷ front) rest r b = rw (write_at-append front rest r b)

pub write_at_full : (front : List ℕ) (b : ℕ) → write_at front (length front) b ≡ fault
unfolding write_at
write_at_full [] b = refl
write_at_full (c ∷ front) b = rw (write_at_full front b)

low_byte : (x : ℕ) → bit_or (x % 256) 0x80 ≡ x % 128 + 128
low_byte x = omega (arith, bit_or_128 (x % 256))

-- One round on the last byte, on an inner byte, and where the slice is full.
low : (x : ℕ) → x < 128 → x % 256 ≡ x
low x h = omega arith

encode_last :
    (front room : List ℕ) (r x i : ℕ) (w : Acc ◌<◌ x)
    → x < 128
    → length front ≡ i
    → encode_loop (front ++ (r ∷ room)) x w i ≡ ok ((front ++ (x ∷ [])) ++ room, i + 1)
unfolding encode_loop
encode_last front room r x i (Acc.intro _ smaller) h at = elim (dec_le 128 x) [
  | yes p ↦ absurd (omega arith)
  | no p ↦ rw (dif_neg (dec_le 128 x) p, ← at, low x h, write_at-append front room r x)
]

abbrev top : ℕ → ℕ
top x = x % 128 + 128

encode_more :
    (front room : List ℕ) (r x i : ℕ) (w : Acc ◌<◌ x)
    → 128 ≤ x
    → length front ≡ i
    → (w' : Acc ◌<◌ (x / 128)) × (encode_loop (front ++ (r ∷ room)) x w i
        ≡ encode_loop ((front ++ ((x % 128 + 128) ∷ [])) ++ room) (x / 128) w' (i + 1))
unfolding encode_loop
encode_more front room r x i (Acc.intro _ smaller) h at = (
  smaller _ (shift_shrinks x h),
  rw (dif_pos (dec_le 128 x) le_prop h, ← at, write_at-append front room r _, low_byte x),
)

encode_full :
    (front : List ℕ) (x i : ℕ) (w : Acc ◌<◌ x) → length front ≡ i → encode_loop front x w i ≡ fault
unfolding encode_loop
encode_full front x i (Acc.intro _ smaller) at = elim (dec_le 128 x) [
  | yes p ↦ rw (dif_pos (dec_le 128 x) le_prop p, ← at, write_at_full front _)
  | no p ↦ rw (dif_neg (dec_le 128 x) p, ← at, write_at_full front _)
]

groups_short : (k x : ℕ) → ltb x 128 ≡ true → groups (suc k) x ≡ x ∷ []
unfolding groups
groups_short k x h = rw h

groups_long :
    (k x : ℕ) → ltb x 128 ≡ false → groups (suc k) x ≡ (x % 128 + 128) ∷ groups k (x / 128)
unfolding groups
groups_long k x h = rw h

count : (i n : ℕ) → i + 1 + n ≡ i + suc n
count i n = omega arith

-- The loop, with the bytes `front` written already.
encode_loop-groups :
    (k : ℕ) (front room : List ℕ) (x i : ℕ) (w : Acc ◌<◌ x)
    → x < 128 ^ suc k
    → length front ≡ i
    → length (groups k x) ≤ length room
    → encode_loop (front ++ room) x w i
      ≡ ok ((front ++ groups k x) ++ drop (length (groups k x)) room, i + length (groups k x))
encode_loop-groups k front [] x i w h at fits = absurd (omega (arith, length-groups k x))
encode_loop-groups zero front (r ∷ room) x i w h at fits =
    unfold groups in encode_last front room r x i w h at
encode_loop-groups (suc k) front (r ∷ room) x i w h at fits = elim (Bool-cases (ltb x 128)) [
  | inl short ↦ rw (groups_short k x short) (encode_last front room r x i w (ltb→lt _ _ short) at)
  | inr long ↦
      let (w', more) = encode_more front room r x i w (ltb_false→le _ _ long) at in
      rw (groups_long k x long, more)
        (encode_loop-groups k (front ++ (top x ∷ [])) room (x / 128) (i + 1) w' (omega arith)
            (omega (arith, length-append front (top x ∷ [])))
            (omega (arith, ap length (groups_long k x long)))
          ∙ rw (
            append_assoc front (top x ∷ []) (groups k (x / 128)),
            count i (length (groups k (x / 128))),
          ))
]

-- The loop panics where the slice has no room for every group.
encode_loop_short :
    (k : ℕ) (front room : List ℕ) (x i : ℕ) (w : Acc ◌<◌ x)
    → length front ≡ i
    → length room < length (groups k x)
    → encode_loop (front ++ room) x w i ≡ fault
encode_loop_short k front [] x i w at short = rw append-nil (encode_full front x i w at)
encode_loop_short zero front (r ∷ room) x i w at short =
    absurd (unfold groups in omega (arith, short))
encode_loop_short (suc k) front (r ∷ room) x i w at short = elim (Bool-cases (ltb x 128)) [
  | inl stop ↦ absurd (omega (arith, ap length (groups_short k x stop)))
  | inr long ↦
      let (w', more) = encode_more front room r x i w (ltb_false→le _ _ long) at in
      rw more (
        encode_loop_short k (front ++ (top x ∷ [])) room (x / 128) (i + 1) w'
          (omega (arith, length-append front (top x ∷ [])))
          (omega (arith, ap length (groups_long k x long))))
]

-- Given room for `SizeVarint(x)` bytes, `EncodeVarint` writes the varint of a uint64 at the start of
-- the slice, leaves the bytes behind it alone, and returns `SizeVarint(x)`.
pub encode_varint_lem :
    (x : ℕ) (buf : List ℕ)
    → IsU64 x
    → size_varint x ≤ length buf
    → encode_varint buf x ≡ ok (varint x ++ drop (size_varint x) buf, size_varint x)
unfolding encode_varint varint
encode_varint_lem x buf h fits = rw (size_varint-length x h) (
    encode_loop-groups 9 [] buf x 0 _ (omega arith) refl (omega (arith, size_varint-length x h))
    ∙ rw zero-add)

-- With less room than `SizeVarint(x)` bytes, `EncodeVarint` panics on a uint64.
pub encode_varint_short :
    (x : ℕ) (buf : List ℕ) → IsU64 x → length buf < size_varint x → encode_varint buf x ≡ fault
unfolding encode_varint varint
encode_varint_short x buf h short =
    encode_loop_short 9 [] buf x 0 _ refl (omega (arith, size_varint-length x h))
