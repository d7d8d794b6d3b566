-- ===== src/Runtime/Errors.antt =====
-- lang/go/codec/errors.go, and the (value, error) results of Go functions that may also panic.
use Prim.Native.String.{String}
use protoc_gen_codec.Base.{ℕ}

-- The sentinel errors of errors.go.
pub data Sentinel : Type 0 where
  invalid_length invalid_wire_type invalid_tag invalid_varint buffer_too_short : Sentinel

-- An error with the context that `fmt.Errorf("…: %w", err)` puts round a sentinel.
pub data Error : Type 0 where
  sentinel : Sentinel → Error
  at_offset : ℕ → Error → Error
  in_field : String → ℕ → Error → Error
  with_wire_type : ℕ → Error → Error

-- The sentinel that `errors.Is` finds.
unfoldable pub unwrap : Error → Sentinel
unwrap (sentinel s) = s
unwrap (at_offset i e) = unwrap e
unwrap (in_field name num e) = unwrap e
unwrap (with_wire_type w e) = unwrap e

-- `fault` is a run-time panic: an index or a slice out of range.
pub data Res {ℓ} (A : Type ℓ) : Type ℓ where
  ok : A → Res A
  err : Error → Res A
  fault : Res A

infixl 5 ◌>>=◌
abbrev pub ◌>>=◌ {ℓ κ} : {A : Type ℓ} {B : Type κ} → Res A → (A → Res B) → Res B
ok a >>= f = f a
err e >>= f = err e
fault >>= f = fault
