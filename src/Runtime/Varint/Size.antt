-- ===== src/Runtime/Varint/Size.antt =====
-- `SizeVarint` counts the bytes of the varint.
use protoc_gen_codec.Base.{ℕ, zero, suc, ◌+◌, ◌*◌, ◌/◌, ◌^◌, ◌≤◌, ◌<◌, ◌≡◌, refl, bit_or}
use protoc_gen_codec.Base.{arith, length}
use protoc_gen_codec.Base.Bits.{bit_or_one}
use protoc_gen_codec.Runtime.Varint.{IsU64, bit_len, size_varint}
use protoc_gen_codec.Runtime.Varint.Groups.{groups, varint}
use native.Mathlib.Nat.{pow-suc, pow-le-pow_right, le_trans}

bit_len_pos : (k x : ℕ) → 1 ≤ x → 1 ≤ bit_len (suc k) x
unfolding bit_len
bit_len_pos k x pos = ground arith

bit_len-le : (k n x : ℕ) → x < 2 ^ n → bit_len k x ≤ n
unfolding bit_len
bit_len-le zero n x h = omega arith
bit_len-le (suc k) zero x h = ground arith
bit_len-le (suc k) (suc n) x h = ground (arith, bit_len-le k n (x / 2) (omega (arith, pow-suc 2 n)))

-- The last digit does not count.
bit_len-bit_or_one : (k x : ℕ) → 1 ≤ x → bit_len k (bit_or x 1) ≡ bit_len k x
unfolding bit_len
bit_len-bit_or_one zero x pos = refl
bit_len-bit_or_one (suc k) x pos =
    rw (bit_or_one x) (half (x / 2 * 2 + 1) x (omega arith) (omega arith) (omega arith))
  where
    half : (y z : ℕ) → 1 ≤ y → 1 ≤ z → y / 2 ≡ z / 2 → bit_len (suc k) y ≡ bit_len (suc k) z
    half y z hy hz e = ground (arith, e)

bit_len-suc : (k x : ℕ) → 1 ≤ x → bit_len (suc k) x ≡ suc (bit_len k (x / 2))
unfolding bit_len
bit_len-suc k x pos = ground arith

-- Seven digits are one group.
bit_len_group :
    (k x : ℕ)
    → 128 ≤ x
    → bit_len (suc (suc (suc (suc (suc (suc (suc k))))))) x ≡ 7 + bit_len k (x / 128)
bit_len_group k x h = ground (
  arith,
  bit_len-suc (suc (suc (suc (suc (suc (suc k)))))) x,
  bit_len-suc (suc (suc (suc (suc (suc k))))) (x / 2),
  bit_len-suc (suc (suc (suc (suc k)))) (x / 2 / 2),
  bit_len-suc (suc (suc (suc k))) (x / 2 / 2 / 2),
  bit_len-suc (suc (suc k)) (x / 2 / 2 / 2 / 2),
  bit_len-suc (suc k) (x / 2 / 2 / 2 / 2 / 2),
  bit_len-suc k (x / 2 / 2 / 2 / 2 / 2 / 2),
)

small : (k x : ℕ) → x < 2 ^ k → 1 ≤ x → x < 128 → (bit_len k x + 6) / 7 ≡ 1
small zero x h pos lt = absurd (omega arith)
small (suc k) x h pos lt = omega (arith, bit_len_pos k x pos, bit_len-le (suc k) 7 x lt)

pow_seven : (k : ℕ) → 2 ^ suc (suc (suc (suc (suc (suc (suc k)))))) ≡ 128 * 2 ^ k
pow_seven k = simp pow-suc (omega arith)

-- At most `7 * (j + 1)` digits: the groups are the digits by sevens, rounded up.
bit_len-groups :
    (j k x : ℕ) → x < 2 ^ k → k ≤ 7 * (j + 1) → 1 ≤ x → (bit_len k x + 6) / 7 ≡ length (groups j x)
unfolding groups
bit_len-groups zero k x h fits pos =
    small k x h pos (le_trans h (pow-le-pow_right (omega arith) fits))
bit_len-groups (suc j) zero x h fits pos = absurd (omega arith)
bit_len-groups (suc j) (suc zero) x h fits pos = ground (arith, small 1 x)
bit_len-groups (suc j) (suc (suc zero)) x h fits pos = ground (arith, small 2 x)
bit_len-groups (suc j) (suc (suc (suc zero))) x h fits pos = ground (arith, small 3 x)
bit_len-groups (suc j) (suc (suc (suc (suc zero)))) x h fits pos = ground (arith, small 4 x)
bit_len-groups (suc j) (suc (suc (suc (suc (suc zero))))) x h fits pos = ground (arith, small 5 x)
bit_len-groups (suc j) (suc (suc (suc (suc (suc (suc zero)))))) x h fits pos =
    ground (arith, small 6 x)
bit_len-groups (suc j) (suc (suc (suc (suc (suc (suc (suc k))))))) x h fits pos = ground (
  arith,
  small (suc (suc (suc (suc (suc (suc (suc k))))))) x,
  bit_len_group k x,
  bit_len-groups j k (x / 128) (omega (arith, pow_seven k)) (omega arith),
)

-- `SizeVarint` gives the number of bytes of the varint, on every uint64.
pub size_varint-length : (x : ℕ) → IsU64 x → size_varint x ≡ length (varint x)
unfolding size_varint varint
size_varint-length zero h = unfold bit_len groups in refl
size_varint-length (suc x) h =
    rw (bit_len-bit_or_one 64 (suc x) (omega arith))
      (bit_len-groups 9 64 (suc x) h (omega arith) (omega arith))
