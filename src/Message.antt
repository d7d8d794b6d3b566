-- ===== src/Message.antt =====
-- The methods that the generator emits on a message type, and what they promise. A type gives its
-- own `SizeCodec`, `MarshalCodecInternal`, `UnmarshalCodecInternal` and `ResetCodec`; `MarshalCodec`,
-- `MarshalToCodec` and `UnmarshalCodec` have the same text on every type of fixture.codec.go.
pub mod Kinds
pub mod Laws
pub mod Parts
pub mod PreScan
pub mod Maps
pub mod Unknown
use protoc_gen_codec.Base.{
  List, Option, [], if◌then◌else◌, length, ltb, none, replicate, some, ℕ, ◌==◌,
}
use protoc_gen_codec.Runtime.Errors.{Res, buffer_too_short, err, ok, sentinel, ◌>>=◌}
use protoc_gen_codec.Wire.Emit.{Writer}
use protoc_gen_codec.Wire.Loop.{Run, panicked}
use protoc_gen_codec.Wire.Read.{slice}

-- The methods of one type, on a receiver that is not nil. `slab` is the string that
-- `UnmarshalCodec` hands on: `string(data)`, or "" where the type has no string field.
pub record Methods {ℓ} (M : Type ℓ) : Type ℓ where
  pub size : M → ℕ
  pub marshal_internal : M → Writer
  pub unmarshal_internal : List ℕ → List ℕ → ℕ → M → Run M
  pub slab : List ℕ → List ℕ
  pub reset : M → M

module _ {ℓ} {M : Type ℓ} (c : Methods M) where
  -- A nil receiver, `none`, has size 0 and no bytes; a nil slice is the empty list.
  unfoldable pub size_codec : Option M → ℕ
  size_codec none = 0
  size_codec (some m) = c.size m

  unfoldable pub marshal_codec : Option M → Res (List ℕ)
  marshal_codec none = ok []
  marshal_codec (some m) =
      if c.size m == 0
      then ok []
      else (c.marshal_internal m (replicate (c.size m) 0) >>= λ s. slice s.0 0 s.1)

  -- The caller's buffer after the call, and the count.
  unfoldable pub marshal_to_codec : Option M → Writer
  marshal_to_codec none buf = ok (buf, 0)
  marshal_to_codec (some m) buf =
      if ltb (length buf) (c.size m)
      then err (sentinel buffer_too_short)
      else c.marshal_internal m buf

  -- On a nil receiver the first assignment to a field panics.
  unfoldable pub unmarshal_codec : Option M → List ℕ → Run M
  unmarshal_codec none bs = panicked
  unmarshal_codec (some m) bs = c.unmarshal_internal bs (c.slab bs) 0 m

  unfoldable pub reset_codec : Option M → Option M
  reset_codec none = none
  reset_codec (some m) = some (c.reset m)
