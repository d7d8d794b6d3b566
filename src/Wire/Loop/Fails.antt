-- ===== src/Wire/Loop/Fails.antt =====
-- The loop stops with an error at the first field whose case of the switch fails.
use protoc_gen_codec.Base.{
  List, arith, length, lt→ltb, refl, suc, zero, ℕ, ◌%◌, ◌++◌, ◌+◌, ◌/◌, ◌<◌, ◌∙◌, ◌≡◌, ◌≤◌,
}
use protoc_gen_codec.Base.Bits.{bit_and_seven}
use protoc_gen_codec.Runtime.Errors.{Error}
use protoc_gen_codec.Runtime.Varint.{IsU64}
use protoc_gen_codec.Runtime.Varint.Groups.{varint}
use protoc_gen_codec.Wire.Loop.{Switch, decode_fields, failed, field_loop}
use protoc_gen_codec.Wire.Loop.Laws.{Takes, field_bytes, inside, tag_number, tag_of, tag_wire_type}
use protoc_gen_codec.Wire.Read.Laws.{At, At-append, read_varint-varint}

field_loop-fails {ℓ} :
    {M : Type ℓ} (bad : ℕ → Error) (body : List ℕ) (switch : Switch M) (f i t : ℕ) (e : Error)
    (m m' : M) (rest : List ℕ)
    → IsU64 t
    → At body i (varint t ++ rest)
    → switch (t / 8) (t % 8) (i + length (varint t)) m ≡ failed e m'
    → field_loop bad body switch (suc f) i m ≡ failed e m'
unfolding field_loop
field_loop-fails bad body switch f i t e m m' rest h at fails = rw (
  lt→ltb i (length body) (inside body i t rest at),
  read_varint-varint (bad i) body i t rest h at,
  bit_and_seven t,
  fails,
)

-- Fields that are taken, and one that is not.
pub decode_fields-fails {ℓ} :
    {M : Type ℓ} {bad : ℕ → Error} {switch : Switch M} {m m' m'' : M} {e : Error} (taken : List ℕ)
    (num wire_type : ℕ) (rest : List ℕ)
    → IsU64 (tag_of num wire_type)
    → wire_type < 8
    → Takes bad (taken ++ field_bytes num wire_type rest) switch taken m m'
    → ((i : ℕ)
        → At (taken ++ field_bytes num wire_type rest) i rest
        → switch num wire_type i m' ≡ failed e m'')
    → decode_fields bad (taken ++ field_bytes num wire_type rest) switch m ≡ failed e m''
unfolding decode_fields
decode_fields-fails {bad = bad} {switch = switch} {m' = m'} {m'' = m''} {e = e} taken num wire_type
      rest h w takes fails =
    let body = taken ++ field_bytes num wire_type rest in
    let t = tag_of num wire_type in
    let start : At body 0 (taken ++ field_bytes num wire_type rest) = (omega arith, refl) in
    let (f, enough, path) =
      takes.takes 0 (field_bytes num wire_type rest) start (length body) (omega arith) in
    let at = At-append body 0 taken (field_bytes num wire_type rest) start in
    path ∙ stops f enough at
  where
    stops :
        (f : ℕ)
        → length (taken ++ field_bytes num wire_type rest) ≤ f + (0 + length taken)
        → At
            (taken ++ field_bytes num wire_type rest)
            (0 + length taken)
            (field_bytes num wire_type rest)
        → field_loop bad (taken ++ field_bytes num wire_type rest) switch f (0 + length taken) m'
          ≡ failed e m''
    stops zero enough at = absurd (
        omega
          (arith, inside (taken ++ field_bytes num wire_type rest) (0 + length taken) _ rest at))
    stops (suc f) enough at =
        field_loop-fails bad _ switch f (0 + length taken) (tag_of num wire_type) e m' m'' rest h at
          (rw (tag_number num wire_type w, tag_wire_type num wire_type w)
            (fails _ (At-append _ (0 + length taken) (varint (tag_of num wire_type)) rest at)))
