-- ===== src/Wire/Loop/Laws.antt =====
-- What the loop does on a body made of fields, one field after the other.
use native.Mathlib.Nat.{zero-add}
use protoc_gen_codec.Base.{
  Bool, List, [], ap, append-nil, append_assoc, arith, false, if◌then◌else◌, length, length-append,
  length-drop, le→ltb_false, lt→ltb, refl, subst, suc, sym, true, zero, ℕ, ◌%◌, ◌*◌, ◌++◌, ◌+◌, ◌/◌,
  ◌<◌, ◌∙◌, ◌∷◌, ◌≡◌, ◌≤◌,
}
use protoc_gen_codec.Base.Bits.{bit_and_seven}
use protoc_gen_codec.Runtime.Errors.{Error}
use protoc_gen_codec.Runtime.Time.{second}
use protoc_gen_codec.Runtime.Varint.{IsU64}
use protoc_gen_codec.Runtime.Varint.Groups.{length-varint, varint, varint_one_byte}
use protoc_gen_codec.Wire.Loop.{Run, Switch, decode_fields, done, field_loop}
use protoc_gen_codec.Wire.Read.Laws.{At, At-append, read_varint-varint}

-- The tag of a field, as `number << 3 | wire type`, and a field with its payload.
abbrev pub tag_of : ℕ → ℕ → ℕ
tag_of num wire_type = num * 8 + wire_type

abbrev pub field_bytes : ℕ → ℕ → List ℕ → List ℕ
field_bytes num wire_type payload = varint (tag_of num wire_type) ++ payload

pub inside :
    (body : List ℕ) (i t : ℕ) (rest : List ℕ) → At body i (varint t ++ rest) → i < length body
inside body i t rest (hi, at) =
    omega (arith, length-drop i body, ap length at, length-append (varint t) rest, length-varint t)

pub tag_number : (num w : ℕ) → w < 8 → tag_of num w / 8 ≡ num
tag_number num w h = omega arith

pub tag_wire_type : (num w : ℕ) → w < 8 → tag_of num w % 8 ≡ w
tag_wire_type num w h = omega arith

index : (i : ℕ) (r s : List ℕ) → i + length r + length s ≡ i + length (r ++ s)
index i r s = omega (arith, length-append r s)

module _ {ℓ} {M : Type ℓ} (bad : ℕ → Error) (body : List ℕ) (switch : Switch M) where
  -- With enough fuel the loop at `i` and `m` comes to `j` and `m'`, with enough fuel left.
  abbrev Reaches : ℕ → M → ℕ → M → Type ℓ
  Reaches i m j m' =
      (f : ℕ)
      → length body ≤ f + i
      → (f' : ℕ) × (length body ≤ f' + j)
        × (field_loop bad body switch f i m ≡ field_loop bad body switch f' j m')

  -- The loop takes the bytes `r` where they stand, and makes `m'` of `m`.
  pub record Takes (r : List ℕ) (m m' : M) : Type ℓ where
    pub takes : (i : ℕ) (rest : List ℕ) → At body i (r ++ rest) → Reaches i m (i + length r) m'

  abbrev loop : ℕ → ℕ → M → Run M
  loop = field_loop bad body switch

  append-Reaches :
      (r s : List ℕ) (m m' m'' : M)
      → Takes r m m'
      → Takes s m' m''
      → (i : ℕ) (rest : List ℕ) → At body i ((r ++ s) ++ rest)
      → Reaches i m (i + length r + length s) m''
  append-Reaches r s m m' m'' hr hs i rest at f h =
      let at' : At body i (r ++ (s ++ rest)) = (at.0, at.1 ∙ append_assoc r s rest) in
      let (f', enough, first) = hr.takes i (s ++ rest) at' f h in
      let (f'', enough', second) =
        hs.takes (i + length r) rest (At-append body i r (s ++ rest) at') f' enough in
      (f'', enough', first ∙ second)

  field_loop-step :
      (f i t j : ℕ) (m m' : M) (rest : List ℕ)
      → IsU64 t
      → At body i (varint t ++ rest)
      → switch (t / 8) (t % 8) (i + length (varint t)) m ≡ done m' j
      → loop (suc f) i m ≡ loop f j m'
  unfolding field_loop
  field_loop-step f i t j m m' rest h at e = rw (
    lt→ltb i (length body) (inside body i t rest at),
    read_varint-varint (bad i) body i t rest h at,
    bit_and_seven t,
    e,
  )

  field-Reaches :
      (num wire_type : ℕ) (payload : List ℕ) (m m' : M)
      → IsU64 (tag_of num wire_type)
      → wire_type < 8
      → ((i : ℕ) (rest : List ℕ)
          → At body i (payload ++ rest)
          → switch num wire_type i m ≡ done m' (i + length payload))
      → (i : ℕ) (rest : List ℕ) → At body i (varint (tag_of num wire_type) ++ (payload ++ rest))
      → Reaches i m (i + length (field_bytes num wire_type payload)) m'
  field-Reaches num wire_type payload m m' h w e i rest at zero enough =
      absurd (omega (arith, inside body i (tag_of num wire_type) (payload ++ rest) at))
  field-Reaches num wire_type payload m m' h w e i rest at (suc f) enough =
      let t = tag_of num wire_type in
      let value =
        e (i + length (varint t)) rest (At-append body i (varint t) (payload ++ rest) at) in
      (
        f,
        omega (arith, length-varint t, length-append (varint t) payload),
        field_loop-step f i t (i + length (field_bytes num wire_type payload)) m m'
            (payload ++ rest) h at
            (rw (tag_number num wire_type w, tag_wire_type num wire_type w)
              (value ∙ ap (done m') (index i (varint t) payload))),
      )

  finish : (f : ℕ) (m : M) → loop f (0 + length body) m ≡ done m (length body)
  unfolding field_loop
  finish zero m = rw (zero-add, le→ltb_false (length body) (length body) (omega arith))
  finish (suc f) m = rw (zero-add, le→ltb_false (length body) (length body) (omega arith))

module _ {ℓ} {M : Type ℓ} {bad : ℕ → Error} {body : List ℕ} {switch : Switch M} where
  pub Takes-nil : {m : M} → Takes bad body switch [] m m
  Takes-nil {m} = record {
    takes = λ i rest at f h.
        (f, omega arith, ap (λ (j : ℕ). field_loop bad body switch f j m) (omega arith));
  }

  -- Bytes that stay away, and a receiver that has the value already.
  pub Takes-eq : {m m' : M} → m ≡ m' → Takes bad body switch [] m m'
  Takes-eq {m} e = subst (Takes bad body switch [] m) e Takes-nil

  pub Takes-append :
      {r s : List ℕ} {m m' m'' : M}
      → Takes bad body switch r m m'
      → Takes bad body switch s m' m''
      → Takes bad body switch (r ++ s) m m''
  Takes-append {r} {s} {m} {m'} {m''} hr hs = record {
    takes = λ i rest at.
        subst (λ k. Reaches bad body switch i m k m'') (index i r s)
          (append-Reaches bad body switch r s m m' m'' hr hs i rest at);
  }

  pub Takes-if :
      (c : Bool) {r : List ℕ} {m m' : M}
      → (c ≡ true → Takes bad body switch r m m')
      → (c ≡ false → m ≡ m')
      → Takes bad body switch (if c then r else []) m m'
  Takes-if true here absent = here refl
  Takes-if false here absent = Takes-eq (absent refl)

  -- A field is taken if its case of the switch takes its payload.
  pub Takes-field :
      (num wire_type : ℕ) (payload : List ℕ) {m m' : M}
      → IsU64 (tag_of num wire_type)
      → wire_type < 8
      → ((i : ℕ) (rest : List ℕ)
          → At body i (payload ++ rest)
          → switch num wire_type i m ≡ done m' (i + length payload))
      → Takes bad body switch (field_bytes num wire_type payload) m m'
  Takes-field num wire_type payload {m} {m'} h w e = record {
    takes = λ i rest at.
        field-Reaches bad body switch num wire_type payload m m' h w e i rest
          (at.0, at.1 ∙ append_assoc (varint (tag_of num wire_type)) payload rest);
  }

  -- The same for a tag of one byte, as the generated code writes it.
  pub Takes-tag :
      (num wire_type : ℕ) (payload : List ℕ) {m m' : M}
      → tag_of num wire_type < 128
      → wire_type < 8
      → ((i : ℕ) (rest : List ℕ)
          → At body i (payload ++ rest)
          → switch num wire_type i m ≡ done m' (i + length payload))
      → Takes bad body switch (tag_of num wire_type ∷ payload) m m'
  Takes-tag num wire_type payload {m} {m'} h w e =
      subst (λ t. Takes bad body switch (t ++ payload) m m')
        (varint_one_byte (tag_of num wire_type) h)
        (Takes-field num wire_type payload (omega arith) w e)

  -- A body that is taken whole is decoded to its end.
  pub decode_fields_lem :
      {m m' : M}
      → Takes bad body switch body m m'
      → decode_fields bad body switch m ≡ done m' (length body)
  unfolding decode_fields
  decode_fields_lem {m' = m'} t =
      let (f, enough, path) =
        t.takes 0 [] (omega arith, sym (append-nil body)) (length body) (omega arith) in
      path ∙ finish bad body switch f m'
