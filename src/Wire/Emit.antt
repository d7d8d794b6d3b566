-- ===== src/Wire/Emit.antt =====
-- Writing at the cursor `n` into the slice `buf`. A step returns both anew, or panics.
pub mod Laws
use protoc_gen_codec.Base.{
  ℕ, zero, suc, ◌+◌, ◌/◌, ◌%◌, ◌^◌, List, [], ◌∷◌, ◌++◌, length, take, drop, leb, if◌then◌else◌,
  Bool,
}
use protoc_gen_codec.Runtime.Errors.{Res, ok, err, fault, ◌>>=◌}
use protoc_gen_codec.Runtime.Varint.{write_at, encode_varint}

-- A function that writes at the start of a slice, and returns the slice and its count.
abbrev pub Writer : Type 0
Writer = List ℕ → Res (List ℕ × ℕ)

abbrev pub Emit : Type 0
Emit = List ℕ → ℕ → Res (List ℕ × ℕ)

unfoldable pub nothing : Emit
nothing buf n = ok (buf, n)

infixl 6 ◌⨾◌
unfoldable pub ◌⨾◌ : Emit → Emit → Emit
◌⨾◌ p q buf n = p buf n >>= λ s. q s.0 s.1

-- `buf[n] = b; n++`
unfoldable pub push : ℕ → Emit
push b buf n = write_at buf n b >>= λ buf'. ok (buf', n + 1)

-- `n += f(buf[n:])`
unfoldable pub into : Writer → Emit
into f buf n =
    if leb n (length buf) then (f (drop n buf) >>= λ s. ok (take n buf ++ s.0, n + s.1)) else fault

unfoldable pub when : Bool → Emit → Emit
when c p = if c then p else nothing

-- `for _, x := range xs { p(x) }`
unfoldable pub each {ℓ} : {A : Type ℓ} → List A → (A → Emit) → Emit
each [] p = nothing
each (x ∷ xs) p = p x ⨾ each xs p

-- The built-in `copy(buf, src)`: as many elements as both have.
unfoldable pub copy : List ℕ → Writer
copy [] buf = ok (buf, 0)
copy (b ∷ src) [] = ok ([], 0)
copy (b ∷ src) (c ∷ buf) = copy src buf >>= λ s. ok (b ∷ s.0, s.1 + 1)

unfoldable pub put_varint : ℕ → Writer
put_varint x buf = encode_varint buf x

-- The `w` bytes of a number, the lowest first.
unfoldable pub little_endian : ℕ → ℕ → List ℕ
little_endian zero x = []
little_endian (suc w) x = x % 256 ∷ little_endian w (x / 256)

-- `binary.LittleEndian.PutUint64(buf, x); n += 8`, and PutUint32: a panic unless the bytes fit.
unfoldable pub put_fixed : ℕ → ℕ → Writer
put_fixed w x buf = if leb w (length buf) then ok (little_endian w x ++ drop w buf, w) else fault
