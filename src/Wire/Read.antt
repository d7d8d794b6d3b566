-- ===== src/Wire/Read.antt =====
-- Reading at the index `i` of the slice `data`.
pub mod Laws
use protoc_gen_codec.Base.{
  ℕ, zero, suc, ◌+◌, ◌*◌, ◌-◌, List, [], ◌∷◌, length, take, drop, leb, ltb, if◌then◌else◌, Option,
  none, some, ◌&&◌,
}
use protoc_gen_codec.Runtime.Errors.{Error, Res, ok, err, fault, ◌>>=◌}
use protoc_gen_codec.Runtime.Varint.{decode_varint}
use protoc_gen_codec.Runtime.Skip.{skip_field}

-- `data[i:]` and `data[i:j]`, which panic out of range.
unfoldable pub slice_from : List ℕ → ℕ → Res (List ℕ)
slice_from bs i = if leb i (length bs) then ok (drop i bs) else fault

unfoldable pub slice : List ℕ → ℕ → ℕ → Res (List ℕ)
slice bs i j = if leb i j && leb j (length bs) then ok (take (j - i) (drop i bs)) else fault

unfoldable pub or_fail : Error → ℕ → Option (ℕ × ℕ) → Res (ℕ × ℕ)
or_fail e i none = err e
or_fail e i (some r) = ok (r.0, i + r.1)

-- `v, n := codec.DecodeVarint(data[i:]); if n < 0 { return e }; i += n`, returning `v` and `i`.
unfoldable pub read_varint : Error → List ℕ → ℕ → Res (ℕ × ℕ)
read_varint e bs i = slice_from bs i >>= λ rest. or_fail e i (decode_varint rest)

-- `n, err := codec.SkipField(data[i:], wireType); if err != nil { return err }; i += n`.
unfoldable pub skip_at : List ℕ → ℕ → ℕ → Res ℕ
skip_at bs wire_type i = slice_from bs i >>= λ rest. skip_field rest wire_type >>= λ n. ok (i + n)

-- The number whose bytes stand lowest first.
unfoldable pub from_little_endian : List ℕ → ℕ
from_little_endian [] = 0
from_little_endian (b ∷ bs) = b + 256 * from_little_endian bs

-- `binary.LittleEndian.Uint64(data[i:])`, and Uint32: a panic on fewer than `w` bytes.
unfoldable pub get_fixed : ℕ → List ℕ → ℕ → Res ℕ
get_fixed w bs i = slice_from bs i >>= λ rest.
    if leb w (length rest) then ok (from_little_endian (take w rest)) else fault
