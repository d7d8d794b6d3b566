-- ===== src/Wire/Read/Laws.antt =====
-- Reads within the slice do not panic, and find what was written.
use native.Mathlib.Nat.{pow-suc, add-sub_cancel_left}
use protoc_gen_codec.Base.{
  List, ap, append_assoc, arith, drop, drop-add, drop-append, drop-append_le, length, length-append,
  length-drop, le→leb, suc, take, take-append, zero, ℕ, ◌++◌, ◌+◌, ◌-◌, ◌/◌, ◌<◌, ◌^◌, ◌∙◌, ◌≡◌,
  ◌≤◌,
}
use protoc_gen_codec.Runtime.Errors.{Error, ok}
use protoc_gen_codec.Runtime.Varint.{IsU64}
use protoc_gen_codec.Runtime.Varint.Groups.{varint}
use protoc_gen_codec.Runtime.Varint.RoundTrip.{decode_varint-varint}
use protoc_gen_codec.Wire.Emit.{little_endian}
use protoc_gen_codec.Wire.Emit.Laws.{length-little_endian}
use protoc_gen_codec.Wire.Read.{
  from_little_endian, get_fixed, or_fail, read_varint, slice, slice_from,
}

-- `bs` stands at index `i`, with `rest` behind it.
abbrev pub At : List ℕ → ℕ → List ℕ → Type 0
At body i bs = (i ≤ length body) × (drop i body ≡ bs)

pub slice_from-ok : (bs : List ℕ) (i : ℕ) → i ≤ length bs → slice_from bs i ≡ ok (drop i bs)
unfolding slice_from
slice_from-ok bs i h = rw (le→leb i (length bs) h)

pub At-append :
    (body : List ℕ) (i : ℕ) (bs rest : List ℕ)
    → At body i (bs ++ rest)
    → At body (i + length bs) rest
At-append body i bs rest (h, e) = (
  omega (arith, length-drop i body, ap length e, length-append bs rest),
  drop-add i (length bs) body ∙ rw e (drop-append bs rest),
)

pub read_varint-varint :
    (e : Error) (body : List ℕ) (i x : ℕ) (rest : List ℕ)
    → IsU64 x
    → At body i (varint x ++ rest)
    → read_varint e body i ≡ ok (x, i + length (varint x))
unfolding read_varint or_fail
read_varint-varint e body i x rest h (hi, at) =
    rw (slice_from-ok body i hi, at, decode_varint-varint x rest h)

from_little_endian-little_endian :
    (w x : ℕ) → x < 256 ^ w → from_little_endian (little_endian w x) ≡ x
unfolding from_little_endian little_endian
from_little_endian-little_endian zero x h = omega arith
from_little_endian-little_endian (suc w) x h =
    omega (arith, from_little_endian-little_endian w (x / 256) (omega (arith, pow-suc 256 w)))

take_bytes : (w x : ℕ) (rest : List ℕ) → take w (little_endian w x ++ rest) ≡ little_endian w x
take_bytes w x rest = rw (length-little_endian w x) at (take-append (little_endian w x) rest)

pub get_fixed-little_endian :
    (w : ℕ) (body : List ℕ) (i x : ℕ) (rest : List ℕ)
    → x < 256 ^ w
    → At body i (little_endian w x ++ rest)
    → get_fixed w body i ≡ ok x
unfolding get_fixed
get_fixed-little_endian w body i x rest h (hi, at) = rw (
  slice_from-ok body i hi,
  at,
  le→leb w (length (little_endian w x ++ rest))
      (omega (arith, length-append (little_endian w x) rest, length-little_endian w x)),
  take_bytes w x rest,
  from_little_endian-little_endian w x h,
)

-- `slab[a:b]` where the slab holds the body behind `front`.
pub slice-append :
    (front body back : List ℕ) (i : ℕ) (bs rest : List ℕ)
    → At body i (bs ++ rest)
    → slice (front ++ (body ++ back)) (length front + i) (length front + i + length bs) ≡ ok bs
unfolding slice
slice-append front body back i bs rest (hi, at) = rw (
  le→leb (length front + i) (length front + i + length bs) (omega arith),
  le→leb (length front + i + length bs) (length (front ++ (body ++ back))) fits,
  add-sub_cancel_left (length front + i) (length bs),
  drop-add (length front) i (front ++ (body ++ back)),
  drop-append front (body ++ back),
  drop-append_le i body back hi,
  at,
  append_assoc bs rest back,
  take-append bs (rest ++ back),
)
  where
    fits : length front + i + length bs ≤ length (front ++ (body ++ back))
    fits = omega (
      arith,
      length-append front (body ++ back),
      length-append body back,
      length-append bs rest,
      length-drop i body,
      ap length at,
    )

pub slice-ok :
    (bs : List ℕ) (i j : ℕ) → i ≤ j → j ≤ length bs → slice bs i j ≡ ok (take (j - i) (drop i bs))
unfolding slice
slice-ok bs i j h k = rw (le→leb i j h, le→leb j (length bs) k)

pub get_fixed-ok :
    (w : ℕ) (bs : List ℕ) (i : ℕ)
    → i + w ≤ length bs
    → get_fixed w bs i ≡ ok (from_little_endian (take w (drop i bs)))
unfolding get_fixed
get_fixed-ok w bs i h = rw (
  slice_from-ok bs i (omega arith),
  le→leb w (length (drop i bs)) (omega (arith, length-drop i bs)),
)
