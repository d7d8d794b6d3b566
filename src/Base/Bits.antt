-- ===== src/Base/Bits.antt =====
-- Bit operations on words as arithmetic, from the digit recursion that the native ones stand for.
use Prim.Native.Nat.{ℕ, zero, suc, ◌+◌, ◌-◌, ◌*◌, ◌/◌, ◌%◌, ◌^◌, ◌≤◌, ◌<◌, min, max}
use Prim.Native.Nat.{bit_and, bit_or, bit_xor, digits, bitwise, differ}
use Prim.Native.Nat.{bit_and-bitwise, bit_or-bitwise, bit_xor-bitwise}
use mathlib.Core.Path.{◌≡◌, refl, ap}
use native.Mathlib.Nat.{pow-suc, one-le-pow}
use native.Mathlib.Omega.{arith}

-- `z` serves a first number that has run out; it has to agree with `f` on the digit 0.
module _ (z : ℕ → ℕ) (f : ℕ → ℕ → ℕ) where
  digits-agree : (n m a b : ℕ) → a ≤ n → a ≤ m → digits z f n a b ≡ digits z f m a b
  digits-agree zero zero a b h k = refl
  digits-agree zero (suc m) zero b h k = refl
  digits-agree zero (suc m) (suc a) b h k = absurd (omega arith)
  digits-agree (suc n) zero zero b h k = refl
  digits-agree (suc n) zero (suc a) b h k = absurd (omega arith)
  digits-agree (suc n) (suc m) zero b h k = refl
  digits-agree (suc n) (suc m) (suc a) b h k =
      rw (digits-agree n m (suc a / 2) (b / 2) (omega arith) (omega arith))

  bitwise_step :
      ((b : ℕ) → z b ≡ z (b / 2) * 2 + f 0 (b % 2))
      → (a b : ℕ) → bitwise z f a b ≡ bitwise z f (a / 2) (b / 2) * 2 + f (a % 2) (b % 2)
  bitwise_step agree zero b = agree b
  bitwise_step agree (suc a) b =
      rw (digits-agree a (suc a / 2) (suc a / 2) (b / 2) (omega arith) (omega arith))

differ_zero : (d : ℕ) → d < 2 → differ d 0 ≡ d
differ_zero zero h = refl
differ_zero (suc d) h = refl

differ_one : (d : ℕ) → d < 2 → differ d 1 ≡ 1 - d
differ_one zero h = refl
differ_one (suc zero) h = refl
differ_one (suc (suc d)) h = absurd (omega arith)

bit_and_digit : (a b : ℕ) → bit_and a b ≡ bit_and (a / 2) (b / 2) * 2 + min (a % 2) (b % 2)
bit_and_digit a b = simp bit_and-bitwise (bitwise_step (λ y. 0) min (λ y. omega arith) a b)

bit_or_digit : (a b : ℕ) → bit_or a b ≡ bit_or (a / 2) (b / 2) * 2 + max (a % 2) (b % 2)
bit_or_digit a b = simp bit_or-bitwise (bitwise_step (λ y. y) max (λ y. omega arith) a b)

bit_xor_digit : (a b : ℕ) → bit_xor a b ≡ bit_xor (a / 2) (b / 2) * 2 + differ (a % 2) (b % 2)
bit_xor_digit a b = simp bit_xor-bitwise (bitwise_step (λ y. y) differ (λ y. omega arith) a b)

bit_or-zero_below : (n a : ℕ) → a ≤ n → bit_or a 0 ≡ a
bit_or-zero_below n zero h = refl
bit_or-zero_below zero (suc a) h = absurd (omega arith)
bit_or-zero_below (suc n) (suc a) h =
    omega (arith, bit_or_digit (suc a) 0, bit_or-zero_below n (suc a / 2) (omega arith))

pub bit_or-zero : (a : ℕ) → bit_or a 0 ≡ a
bit_or-zero a = bit_or-zero_below a a (omega arith)

bit_and-zero_below : (n a : ℕ) → a ≤ n → bit_and a 0 ≡ 0
bit_and-zero_below n zero h = refl
bit_and-zero_below zero (suc a) h = absurd (omega arith)
bit_and-zero_below (suc n) (suc a) h =
    omega (arith, bit_and_digit (suc a) 0, bit_and-zero_below n (suc a / 2) (omega arith))

bit_xor-zero_below : (n a : ℕ) → a ≤ n → bit_xor a 0 ≡ a
bit_xor-zero_below n zero h = refl
bit_xor-zero_below zero (suc a) h = absurd (omega arith)
bit_xor-zero_below (suc n) (suc a) h = omega (
  arith,
  bit_xor_digit (suc a) 0,
  bit_xor-zero_below n (suc a / 2) (omega arith),
  differ_zero (suc a % 2) (omega arith),
)

pub bit_xor-zero : (a : ℕ) → bit_xor a 0 ≡ a
bit_xor-zero a = bit_xor-zero_below a a (omega arith)

double_pow : (q k : ℕ) → q * 2 ^ suc k ≡ 2 * (q * 2 ^ k)
double_pow q k = omega (arith, ap (λ (t : ℕ). q * t) (pow-suc 2 k))

-- `lo | hi << k` is a sum where `lo` fits `k` bits.
pub bit_or_disjoint : (k lo hi : ℕ) → lo < 2 ^ k → bit_or lo (hi * 2 ^ k) ≡ lo + hi * 2 ^ k
bit_or_disjoint zero zero hi h = simp bit_or-bitwise (omega arith)
bit_or_disjoint zero (suc lo) hi h = absurd (omega arith)
bit_or_disjoint (suc k) lo hi h = ground (
  arith,
  bit_or_digit lo (hi * 2 ^ suc k),
  double_pow hi k,
  pow-suc 2 k,
  bit_or_disjoint k (lo / 2) hi (omega (arith, pow-suc 2 k)),
)

-- `x ^ mask` with all `k` bits set in the mask turns every bit of `x`.
pub bit_xor_mask : (k x : ℕ) → x < 2 ^ k → bit_xor x (2 ^ k - 1) ≡ 2 ^ k - 1 - x
bit_xor_mask zero x h = omega (arith, bit_xor-zero x)
bit_xor_mask (suc k) x h = ground (
  arith,
  bit_xor_digit x (2 ^ suc k - 1),
  pow-suc 2 k,
  one-le-pow k 2,
  differ_one (x % 2) (omega arith),
  bit_xor_mask k (x / 2) (omega (arith, pow-suc 2 k)),
)

pub bit_or_one : (x : ℕ) → bit_or x 1 ≡ x / 2 * 2 + 1
bit_or_one x = omega (arith, bit_or_digit x 1, bit_or-zero (x / 2))

pub bit_or_eight : (q w : ℕ) → w < 8 → bit_or (q * 8) w ≡ q * 8 + w
bit_or_eight q w h = ground (
  arith,
  bit_or_digit (q * 8) w,
  bit_or_digit (q * 4) (w / 2),
  bit_or_digit (q * 2) (w / 2 / 2),
  bit_or-zero q,
)

-- A byte with its top bit set.
pub bit_or_128 : (x : ℕ) → x < 256 → bit_or x 128 ≡ x % 128 + 128
bit_or_128 x h = ground (
  arith,
  bit_or_digit x 128,
  bit_or_digit (x / 2) 64,
  bit_or_digit (x / 2 / 2) 32,
  bit_or_digit (x / 2 / 2 / 2) 16,
  bit_or_digit (x / 2 / 2 / 2 / 2) 8,
  bit_or_digit (x / 2 / 2 / 2 / 2 / 2) 4,
  bit_or_digit (x / 2 / 2 / 2 / 2 / 2 / 2) 2,
  bit_or_one (x / 2 / 2 / 2 / 2 / 2 / 2 / 2),
)

pub bit_and_one : (x : ℕ) → bit_and x 1 ≡ x % 2
bit_and_one x = omega (arith, bit_and_digit x 1, bit_and-zero_below (x / 2) (x / 2) (omega arith))

pub bit_and_seven : (x : ℕ) → bit_and x 7 ≡ x % 8
bit_and_seven x = omega (arith, bit_and_digit x 7, bit_and_digit (x / 2) 3, bit_and_one (x / 2 / 2))

pub bit_and_127 : (x : ℕ) → bit_and x 127 ≡ x % 128
bit_and_127 x = omega (
  arith,
  bit_and_digit x 127,
  bit_and_digit (x / 2) 63,
  bit_and_digit (x / 2 / 2) 31,
  bit_and_digit (x / 2 / 2 / 2) 15,
  bit_and_seven (x / 2 / 2 / 2 / 2),
)
