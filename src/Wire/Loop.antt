-- ===== src/Wire/Loop.antt =====
-- The loop `for i < l { tag, n := codec.DecodeVarint(data[i:]); …; switch fieldNum { … } }` that
-- reads the fields of a body one after the other into a receiver.
pub mod Laws
pub mod Safe
pub mod Fails
use protoc_gen_codec.Base.{ℕ, zero, suc, ◌+◌, ◌/◌, ◌*◌, List, length, ltb, if◌then◌else◌, bit_and}
use protoc_gen_codec.Runtime.Errors.{Error, Res, ok, err, fault}
use protoc_gen_codec.Wire.Read.{read_varint}

-- How a decoding ends: with the receiver and the index, with an error and the receiver as it was
-- left, or with a panic. `spent` is no Go value: the fuel ran out.
pub data Run {ℓ} (M : Type ℓ) : Type ℓ where
  done : M → ℕ → Run M
  failed : Error → M → Run M
  panicked spent : Run M

-- Goes on with what was read, or gives the receiver up as it stands.
abbrev pub reading {ℓ κ} : {A : Type ℓ} {M : Type κ} → Res A → M → (A → Run M) → Run M
reading (ok a) m k = k a
reading (err e) m k = failed e m
reading fault m k = panicked

abbrev pub and_then {ℓ κ} :
    {M : Type ℓ} {N : Type κ} → Run M → (Error → M → Run N) → (M → ℕ → Run N) → Run N
and_then (done m i) bad k = k m i
and_then (failed e m) bad k = bad e m
and_then panicked bad k = panicked
and_then spent bad k = spent

-- What the `switch` does with a field number, a wire type, the index behind the tag and the receiver.
abbrev pub Switch {ℓ} : Type ℓ → Type ℓ
Switch M = ℕ → ℕ → ℕ → M → Run M

-- `bad_tag i` is the error for a tag that does not decode at offset `i`.
unfoldable pub field_loop {ℓ} : {M : Type ℓ} → (ℕ → Error) → List ℕ → Switch M → ℕ → ℕ → M → Run M
field_loop bad_tag bs switch zero i m = if ltb i (length bs) then spent else done m i
field_loop bad_tag bs switch (suc fuel) i m =
    let field = reading (read_varint (bad_tag i) bs i) m λ t.
      and_then (switch (t.0 / 8) (bit_and t.0 0x7) t.1 m) failed
        λ m' i'. field_loop bad_tag bs switch fuel i' m' in
    if ltb i (length bs) then field else done m i

-- The loop from index 0 on. Each field takes a byte at least, so `length bs` rounds are enough.
unfoldable pub decode_fields {ℓ} : {M : Type ℓ} → (ℕ → Error) → List ℕ → Switch M → M → Run M
decode_fields bad_tag bs switch m = field_loop bad_tag bs switch (length bs) 0 m
