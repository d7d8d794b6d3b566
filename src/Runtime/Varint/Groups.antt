-- ===== src/Runtime/Varint/Groups.antt =====
-- The proto3 varint of a number in plain arithmetic: groups of seven bits, lowest first.
use protoc_gen_codec.Base.{ℕ, zero, suc, ◌+◌, ◌/◌, ◌%◌, ◌^◌, ◌≤◌, ◌<◌, ◌≡◌}
use protoc_gen_codec.Base.{List, [], ◌∷◌, arith, ltb, if◌then◌else◌, length, All}
use protoc_gen_codec.Runtime.Varint.{IsByte}

-- `groups k x` serves numbers below 128 ^ (k + 1).
unfoldable pub groups : ℕ → ℕ → List ℕ
groups zero x = x ∷ []
groups (suc k) x =
    let more = groups k (x / 128) in if ltb x 128 then x ∷ [] else (x % 128 + 128) ∷ more

-- Ten groups hold every uint64.
unfoldable pub varint : ℕ → List ℕ
varint x = groups 9 x

pub groups-IsByte : (k x : ℕ) → x < 128 ^ suc k → All IsByte (groups k x)
unfolding groups
groups-IsByte zero x h = omega arith
groups-IsByte (suc k) x h = ground (arith, groups-IsByte k (x / 128) (omega arith))

pub length-groups : (k x : ℕ) → (1 ≤ length (groups k x)) × (length (groups k x) ≤ k + 1)
unfolding groups
length-groups zero x = omega arith
length-groups (suc k) x = ground (arith, length-groups k (x / 128))

pub length-varint : (x : ℕ) → (1 ≤ length (varint x)) × (length (varint x) ≤ 10)
unfolding varint
length-varint x = length-groups 9 x

pub varint_one_byte : (x : ℕ) → x < 128 → varint x ≡ x ∷ []
unfolding varint groups
varint_one_byte x h = ground arith
