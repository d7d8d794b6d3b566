-- ===== src/Fixtures/BoolMapHolder/Laws.antt =====
-- `BoolMapHolder` on the wire: its methods are lawful.
use mathlib.Core.List.{Permᴰ}
use mathlib.Core.List.Permᴰ
use protoc_gen_codec.Base.{
  All, Bool, List, [], ap, append-nil, arith, drop, false, if◌then◌else◌, length, ltb, not, refl,
  some, subst, sym, true, ℕ, ◌++◌, ◌+◌, ◌==◌, ◌∙◌, ◌∷◌, ◌≡◌,
}
use protoc_gen_codec.Fixtures.BoolMapHolder.{
  BoolMapHolder, bool_eq, bool_map_holder, bool_map_holder_marshal_internal, bool_map_holder_size,
  bool_map_holder_switch, bool_map_holder_unmarshal_internal, emit_flag, flags_entry,
}
use protoc_gen_codec.Message.{marshal_codec, marshal_to_codec, size_codec, unmarshal_codec}
use protoc_gen_codec.Message.Kinds.{bad_tag}
use protoc_gen_codec.Message.Kinds.Bytes.{
  Appends-element, IsShort, element_wire, length-element_wire,
}
use protoc_gen_codec.Message.Kinds.Maps.{emit_entry, size_entry, size_map_field}
use protoc_gen_codec.Message.Kinds.Maps.Laws.{
  LawfulEntry, entry_bytes-Stays, entry_varint-Stays, map_case-Stays,
}
use protoc_gen_codec.Message.Laws.{Lawful, codec_lem, unmarshal_codec_ends}
use protoc_gen_codec.Message.Maps.{map_get, map_has, map_set, sum_of}
use protoc_gen_codec.Message.Maps.Laws.{All-Permᴰ, Distinct, map_set-absent, sum_of-Permᴰ}
use protoc_gen_codec.Message.Parts.{Part, Part-to, ◌⊕◌}
use protoc_gen_codec.Message.Parts.Entries.{Takes-entry_bytes, Takes-entry_varint}
use protoc_gen_codec.Message.Parts.Maps.{entry_part}
use protoc_gen_codec.Message.Parts.Nested.{IsSent}
use protoc_gen_codec.Message.Parts.Numeric.{absent_part}
use protoc_gen_codec.Message.Parts.Stays.{on◌stays◌or◌, skip-Stays}
use protoc_gen_codec.Runtime.Errors.{Error, buffer_too_short, err, ok, sentinel}
use protoc_gen_codec.Runtime.Varint.Groups.{varint_one_byte}
use protoc_gen_codec.Wire.Emit.{when, ◌⨾◌}
use protoc_gen_codec.Wire.Emit.Laws.{Appends-push, Appends-⨾, Writes-Appends}
use protoc_gen_codec.Wire.Loop.{done}
use protoc_gen_codec.Wire.Loop.Laws.{Takes, Takes-append, decode_fields_lem}
use protoc_gen_codec.Wire.Loop.Safe.{EndsAll, EndsAt, decode_fields_ends}
use protoc_gen_codec.Wire.Slab.{InSlab}

abbrev pub IsFlag : Bool × List ℕ → Type 0
IsFlag p = IsShort p.1

abbrev pub flag_wire : Bool × List ℕ → List ℕ
flag_wire p = (0x08 ∷ (if p.0 then 1 else 0) ∷ []) ++ element_wire 0x12 p.1

-- The values that the Go type of the field admits: the keys of a map are different.
pub record IsBoolMapHolder (m : BoolMapHolder) : Type 0 where
  pub flags_sent : All (IsSent IsFlag flag_wire) m.flags
  pub flags_distinct : Distinct bool_eq m.flags

-- The entry of a key, where there is one.
unfoldable pub flag_of : Bool → List (Bool × List ℕ) → List (Bool × List ℕ)
flag_of k m = if map_has bool_eq m k then (k, map_get bool_eq [] m k) ∷ [] else []

abbrev pub false_first : List (Bool × List ℕ) → List (Bool × List ℕ)
false_first m = flag_of false m ++ flag_of true m

abbrev pub bool_map_holder_wire : BoolMapHolder → List ℕ
bool_map_holder_wire m =
    (if map_has bool_eq m.flags false
      then element_wire 0x0a (flag_wire (false, map_get bool_eq [] m.flags false))
      else [])
    ++ (if map_has bool_eq m.flags true
        then element_wire 0x0a (flag_wire (true, map_get bool_eq [] m.flags true))
        else [])

-- What is read back: the same map, with `false` before `true`.
unfoldable pub bool_map_holder_after : BoolMapHolder → BoolMapHolder
bool_map_holder_after m = record { flags = false_first m.flags }

bool_eq-sym : (j k : Bool) → bool_eq j k ≡ bool_eq k j
unfolding bool_eq
bool_eq-sym true true = refl
bool_eq-sym true false = refl
bool_eq-sym false true = refl
bool_eq-sym false false = refl

false_first-Permᴰ : (m : List (Bool × List ℕ)) → Distinct bool_eq m → Permᴰ (false_first m) m
unfolding bool_eq map_has map_get flag_of
false_first-Permᴰ [] h = Permᴰ.nil
false_first-Permᴰ ((false, v) ∷ []) h = Permᴰ.refl _
false_first-Permᴰ ((true, v) ∷ []) h = Permᴰ.refl _
false_first-Permᴰ ((false, v) ∷ (true, w) ∷ []) h = Permᴰ.refl _
false_first-Permᴰ ((true, v) ∷ (false, w) ∷ []) h = Permᴰ.swap refl refl
false_first-Permᴰ ((false, v) ∷ (false, w) ∷ m) h = absurd (ground (arith, h.0.0))
false_first-Permᴰ ((true, v) ∷ (true, w) ∷ m) h = absurd (ground (arith, h.0.0))
false_first-Permᴰ ((false, v) ∷ (true, w) ∷ (false, x) ∷ m) h = absurd (ground (arith, h.0.1.0))
false_first-Permᴰ ((false, v) ∷ (true, w) ∷ (true, x) ∷ m) h = absurd (ground (arith, h.1.0.0))
false_first-Permᴰ ((true, v) ∷ (false, w) ∷ (false, x) ∷ m) h = absurd (ground (arith, h.1.0.0))
false_first-Permᴰ ((true, v) ∷ (false, w) ∷ (true, x) ∷ m) h = absurd (ground (arith, h.0.1.0))

flags_entry-Lawful : LawfulEntry flags_entry IsFlag flag_wire
flags_entry-Lawful = record {
  size_wire = λ p v. omega (arith, length-element_wire 0x12 p.1 v);
  writes_wire = λ p v.
      Appends-⨾ (Appends-⨾ (Appends-push 0x08) (Appends-push _)) (Appends-element 0x12 p.1 v);
  reads_wire = λ bad p entry slab slab_off v r. Takes-append (key bad entry slab slab_off r p.0) (
      Takes-entry_bytes bad entry slab slab_off r _ 2 (omega arith) (p.0, []) (λ s. (p.0, s)) p.1 v
        (λ i. refl));
  ends_at = λ entry slab slab_off r num wire_type i kv h.
      (on num == 1
        stays entry_varint-Stays entry kv _ i h
        or on num == 2
        stays entry_bytes-Stays entry kv slab slab_off _ i r h
        or skip-Stays entry wire_type i kv h).ends;
}
  where
    key :
        (bad : ℕ → Error) (entry slab : List ℕ) (slab_off : ℕ)
        → InSlab entry slab slab_off
        → (b : Bool)
        → Takes bad entry
            (flags_entry.entry_switch entry slab slab_off)
            (0x08 ∷ (if b then 1 else 0) ∷ [])
            (false, [])
            (b, [])
    key bad entry slab slab_off r true =
        subst
          (λ bs.
            Takes bad entry (flags_entry.entry_switch entry slab slab_off) (0x08 ∷ bs) (false, [])
              (true, []))
          (varint_one_byte 1 (omega arith))
          (Takes-entry_varint bad entry slab slab_off r _ 1 (omega arith) (false, [])
            (λ v. (not (v == 0), [])) 1 (omega arith) (λ i. refl))
    key bad entry slab slab_off r false =
        subst
          (λ bs.
            Takes bad entry (flags_entry.entry_switch entry slab slab_off) (0x08 ∷ bs) (false, [])
              (false, []))
          (varint_one_byte 0 (omega arith))
          (Takes-entry_varint bad entry slab slab_off r _ 1 (omega arith) (false, [])
            (λ v. (not (v == 0), [])) 0 (omega arith) (λ i. refl))

flag_part :
    (c : Bool) (got : List (Bool × List ℕ)) (p : Bool × List ℕ)
    → All (IsSent IsFlag flag_wire) (if c then p ∷ [] else [])
    → All (λ q. bool_eq q.0 p.0 ≡ false) got
    → Part bool_map_holder_switch
        (if c then size_entry flags_entry p else 0)
        (when c (emit_entry flags_entry 0x0a p))
        (if c then element_wire 0x0a (flag_wire p) else [])
        (record { flags = got })
        (record { flags = got ++ (if c then p ∷ [] else []) })
unfolding bool_map_holder_switch when
flag_part true got p v absent =
    Part-to
      (ap (λ (y : List (Bool × List ℕ)). record { flags = y })
        (map_set-absent bool_eq got p absent))
      (entry_part flags_entry-Lawful "Flags" 1 (omega arith) (record { flags = got })
        (λ q. record { flags = map_set bool_eq got q.0 q.1 }) p v.0 (λ body slab slab_off i. refl))
flag_part false got p v absent =
    Part-to (ap (λ (y : List (Bool × List ℕ)). record { flags = y }) (sym (append-nil got)))
      absent_part

flags_size :
    (c d : Bool) (p q : Bool × List ℕ)
    → (if c then size_entry flags_entry p else 0) + (if d then size_entry flags_entry q else 0)
      ≡ sum_of (size_entry flags_entry) ((if c then p ∷ [] else []) ++ (if d then q ∷ [] else []))
flags_size true true p q = omega arith
flags_size true false p q = omega arith
flags_size false true p q = omega arith
flags_size false false p q = refl

All-append :
    (P : Bool × List ℕ → Type 0) (xs ys : List (Bool × List ℕ))
    → All P (xs ++ ys)
    → All P xs × All P ys
All-append P [] ys h = (tt, h)
All-append P (x ∷ xs) ys h = let (hx, hy) = All-append P xs ys h.1 in ((h.0, hx), hy)

true_absent :
    (c : Bool) (s : List ℕ)
    → All (λ (q : Bool × List ℕ). bool_eq q.0 true ≡ false) (if c then (false, s) ∷ [] else [])
unfolding bool_eq
true_absent true s = (refl, tt)
true_absent false s = tt

bool_map_holder_parts :
    (m : BoolMapHolder)
    → IsBoolMapHolder m
    → Part bool_map_holder_switch
        (bool_map_holder_size m)
        (emit_flag m false ⨾ emit_flag m true)
        (bool_map_holder_wire m)
        (record { flags = [] })
        (bool_map_holder_after m)
unfolding bool_map_holder_size emit_flag bool_map_holder_after flag_of size_map_field
bool_map_holder_parts m v =
    let perm = false_first-Permᴰ m.flags v.flags_distinct in
    let (hf, ht) =
      All-append _ (flag_of false m.flags) (flag_of true m.flags)
        (All-Permᴰ _ (Permᴰ.symm perm) v.flags_sent) in
    let no = map_has bool_eq m.flags false in
    let yes = map_has bool_eq m.flags true in
    let p : Bool × List ℕ = (false, map_get bool_eq [] m.flags false) in
    let q : Bool × List ℕ = (true, map_get bool_eq [] m.flags true) in
    subst
      (λ n.
        Part bool_map_holder_switch n (emit_flag m false ⨾ emit_flag m true)
          (bool_map_holder_wire m) (record { flags = [] }) (bool_map_holder_after m))
      (flags_size no yes p q ∙ sum_of-Permᴰ (size_entry flags_entry) perm)
      (flag_part no [] p hf tt ⊕ flag_part yes (flag_of false m.flags) q ht (true_absent no p.1))

bool_map_holder_switch_ends :
    (body slab : List ℕ) (slab_off : ℕ)
    → InSlab body slab slab_off
    → EndsAll (length body) (bool_map_holder_switch body slab slab_off)
unfolding bool_map_holder_switch
bool_map_holder_switch_ends body slab slab_off r num wire_type i m h =
    (on num == 1
      stays map_case-Stays flags_entry-Lawful "Flags" 1 body slab slab_off r m _ wire_type i h
      or skip-Stays body wire_type i m h).ends

pub bool_map_holder-Lawful :
    Lawful bool_map_holder IsBoolMapHolder bool_map_holder_wire bool_map_holder_after
unfolding bool_map_holder_marshal_internal bool_map_holder_unmarshal_internal
bool_map_holder-Lawful = record {
  size_wire = λ m v. (bool_map_holder_parts m v).sized;
  writes_wire = λ m v. Writes-Appends (bool_map_holder_parts m v).writes;
  reads_wire = λ m r slab slab_off v h.
      decode_fields_lem
        ((bool_map_holder_parts m v).reads (bool_map_holder_wire m) slab slab_off h);
  slab_body = λ bs r. refl;
  ends_at = λ r body slab slab_off h.
      decode_fields_ends bad_tag body _ (bool_map_holder_switch_ends body slab slab_off h) _;
}

-- For every valid `BoolMapHolder`, MarshalCodec returns its wire bytes, the entry of `false` before
-- the one of `true`, as many as SizeCodec says; MarshalToCodec writes them at the front of a buffer
-- that holds them and leaves the rest of it, and on a shorter buffer returns ErrBufferTooShort; and
-- UnmarshalCodec on the bytes reads to the end and leaves the same entries in any receiver.
pub bool_map_holder_round_trip :
    (m r : BoolMapHolder) (buf : List ℕ)
    → IsBoolMapHolder m
    → (marshal_codec bool_map_holder (some m) ≡ ok (bool_map_holder_wire m))
      × (size_codec bool_map_holder (some m) ≡ length (bool_map_holder_wire m))
      × (marshal_to_codec bool_map_holder (some m) buf ≡ (
          if ltb (length buf) (length (bool_map_holder_wire m))
          then err (sentinel buffer_too_short)
          else ok (
            bool_map_holder_wire m ++ drop (length (bool_map_holder_wire m)) buf,
            length (bool_map_holder_wire m),
          )))
      × (unmarshal_codec bool_map_holder (some r) (bool_map_holder_wire m)
          ≡ done (bool_map_holder_after m) (length (bool_map_holder_wire m)))
      × Permᴰ (bool_map_holder_after m).flags m.flags
unfolding bool_map_holder_after
bool_map_holder_round_trip m r buf v =
    let (bytes, size, into_buf, back) = codec_lem bool_map_holder-Lawful m r buf v in
    (bytes, size, into_buf, back, false_first-Permᴰ m.flags v.flags_distinct)

-- On any bytes and for any receiver, UnmarshalCodec of `BoolMapHolder` returns: with the whole input
-- read, or with an error, also from within an entry, and never with a panic.
pub bool_map_holder_unmarshal_ends :
    (r : BoolMapHolder) (bs : List ℕ)
    → EndsAt (length bs) (unmarshal_codec bool_map_holder (some r) bs)
bool_map_holder_unmarshal_ends r bs = unmarshal_codec_ends bool_map_holder-Lawful r bs
