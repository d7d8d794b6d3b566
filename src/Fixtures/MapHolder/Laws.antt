-- ===== src/Fixtures/MapHolder/Laws.antt =====
-- `MapHolder` on the wire: its methods are lawful.
use mathlib.Core.List.{Permᴰ}
use protoc_gen_codec.Base.{
  All, List, [], arith, drop, if◌then◌else◌, length, length-append, ltb, refl, some, ℕ, ◌++◌, ◌==◌,
  ◌∷◌, ◌≡◌,
}
use protoc_gen_codec.Fixtures.MapHolder.{
  MapHolder, attrs_entry, counts_entry, map_holder, map_holder_marshal_internal, map_holder_size,
  map_holder_switch, map_holder_unmarshal_internal,
}
use protoc_gen_codec.Message.{marshal_codec, marshal_to_codec, size_codec, unmarshal_codec}
use protoc_gen_codec.Message.Kinds.{bad_tag}
use protoc_gen_codec.Message.Kinds.Bytes.{
  Appends-element, IsShort, element_wire, length-element_wire,
}
use protoc_gen_codec.Message.Kinds.Maps.{emit_map_field}
use protoc_gen_codec.Message.Kinds.Maps.Laws.{
  LawfulEntry, entry_bytes-Stays, entry_varint-Stays, map_case-Stays,
}
use protoc_gen_codec.Message.Kinds.Scalar.{Appends-tagged}
use protoc_gen_codec.Message.Laws.{Lawful, codec_lem, unmarshal_codec_ends}
use protoc_gen_codec.Message.Maps.{by_key, bytes_eq}
use protoc_gen_codec.Message.Maps.Laws.{Distinct}
use protoc_gen_codec.Message.Maps.Order.{bytes_eq-sym}
use protoc_gen_codec.Message.Maps.Sorted.{by_key-Permᴰ}
use protoc_gen_codec.Message.Parts.{Part, ◌⊕◌}
use protoc_gen_codec.Message.Parts.Entries.{
  Takes-entry_bytes, Takes-entry_varint, bytes_entry_wire, number_entry_wire,
}
use protoc_gen_codec.Message.Parts.Maps.{entries_wire, map_part}
use protoc_gen_codec.Message.Parts.Nested.{IsSent}
use protoc_gen_codec.Message.Parts.Stays.{on◌stays◌or◌, skip-Stays}
use protoc_gen_codec.Runtime.Errors.{buffer_too_short, err, ok, sentinel}
use protoc_gen_codec.Runtime.Varint.{IsU64}
use protoc_gen_codec.Runtime.Varint.Groups.{varint}
use protoc_gen_codec.Runtime.Varint.Size.{size_varint-length}
use protoc_gen_codec.Wire.Emit.{put_varint, ◌⨾◌}
use protoc_gen_codec.Wire.Emit.Laws.{Appends-⨾, Writes-Appends, Writes-put_varint}
use protoc_gen_codec.Wire.Loop.{done}
use protoc_gen_codec.Wire.Loop.Laws.{Takes-append, decode_fields_lem}
use protoc_gen_codec.Wire.Loop.Safe.{EndsAll, EndsAt, decode_fields_ends}
use protoc_gen_codec.Wire.Slab.{InSlab}

abbrev pub IsAttr : List ℕ × List ℕ → Type 0
IsAttr p = IsShort p.0 × IsShort p.1

abbrev pub IsCount : List ℕ × ℕ → Type 0
IsCount p = IsShort p.0 × IsU64 p.1

-- The values that the Go types of the fields admit: the keys of a map are different.
pub record IsMapHolder (m : MapHolder) : Type 0 where
  pub attrs_sent : All (IsSent IsAttr bytes_entry_wire) m.attrs
  pub attrs_distinct : Distinct bytes_eq m.attrs
  pub counts_sent : All (IsSent IsCount number_entry_wire) m.counts
  pub counts_distinct : Distinct bytes_eq m.counts

-- The entries stand in the order of their keys.
abbrev pub map_holder_wire : MapHolder → List ℕ
map_holder_wire m =
    entries_wire bytes_entry_wire 0x0a (by_key [] m.attrs)
    ++ entries_wire number_entry_wire 0x12 (by_key 0 m.counts)

-- What is read back: the same maps, with their entries in the order of their keys.
unfoldable pub map_holder_after : MapHolder → MapHolder
map_holder_after m = record { attrs = by_key [] m.attrs; counts = by_key 0 m.counts }

attrs_entry-Lawful : LawfulEntry attrs_entry IsAttr bytes_entry_wire
attrs_entry-Lawful = record {
  size_wire = λ p v. omega (
    arith,
    length-element_wire 0x0a p.0 v.0,
    length-element_wire 0x12 p.1 v.1,
    length-append (element_wire 0x0a p.0) (element_wire 0x12 p.1),
  );
  writes_wire = λ p v. Appends-⨾ (Appends-element 0x0a p.0 v.0) (Appends-element 0x12 p.1 v.1);
  reads_wire = λ bad p entry slab slab_off v r.
      Takes-append
        (Takes-entry_bytes bad entry slab slab_off r _ 1 (omega arith) ([], []) (λ s. (s, [])) p.0
          v.0 (λ i. refl))
        (Takes-entry_bytes bad entry slab slab_off r _ 2 (omega arith) (p.0, []) (λ s. (p.0, s)) p.1
          v.1 (λ i. refl));
  ends_at = λ entry slab slab_off r num wire_type i kv h.
      (on num == 1
        stays entry_bytes-Stays entry kv slab slab_off _ i r h
        or on num == 2
        stays entry_bytes-Stays entry kv slab slab_off _ i r h
        or skip-Stays entry wire_type i kv h).ends;
}

counts_entry-Lawful : LawfulEntry counts_entry IsCount number_entry_wire
counts_entry-Lawful = record {
  size_wire = λ p v. omega (
    arith,
    length-element_wire 0x0a p.0 v.0,
    size_varint-length p.1 v.1,
    length-append (element_wire 0x0a p.0) (0x10 ∷ varint p.1),
  );
  writes_wire = λ p v.
      Appends-⨾ (Appends-element 0x0a p.0 v.0)
        (Appends-tagged 0x10 (put_varint p.1) (varint p.1) (Writes-put_varint p.1 v.1));
  reads_wire = λ bad p entry slab slab_off v r.
      Takes-append
        (Takes-entry_bytes bad entry slab slab_off r _ 1 (omega arith) ([], 0) (λ s. (s, 0)) p.0 v.0
          (λ i. refl))
        (Takes-entry_varint bad entry slab slab_off r _ 2 (omega arith) (p.0, 0) (λ x. (p.0, x)) p.1
          v.1 (λ i. refl));
  ends_at = λ entry slab slab_off r num wire_type i kv h.
      (on num == 1
        stays entry_bytes-Stays entry kv slab slab_off _ i r h
        or on num == 2
        stays entry_varint-Stays entry kv _ i h
        or skip-Stays entry wire_type i kv h).ends;
}

map_holder_parts :
    (m : MapHolder)
    → IsMapHolder m
    → Part map_holder_switch
        (map_holder_size m)
        (emit_map_field attrs_entry 0x0a (by_key [] m.attrs)
          ⨾ emit_map_field counts_entry 0x12 (by_key 0 m.counts))
        (map_holder_wire m)
        (record { attrs = []; counts = [] })
        (map_holder_after m)
unfolding map_holder_switch map_holder_size map_holder_after
map_holder_parts m v =
    map_part attrs_entry-Lawful "Attrs" 1 (omega arith) bytes_eq bytes_eq-sym
      (λ (y : List (List ℕ × List ℕ)). record { attrs = y; counts = [] }) m.attrs
      (by_key [] m.attrs) v.attrs_sent v.attrs_distinct (by_key-Permᴰ [] m.attrs v.attrs_distinct)
      (λ got body slab slab_off i. refl)
    ⊕ map_part counts_entry-Lawful "Counts" 2 (omega arith) bytes_eq bytes_eq-sym
        (λ (y : List (List ℕ × ℕ)). record { attrs = by_key [] m.attrs; counts = y }) m.counts
        (by_key 0 m.counts) v.counts_sent v.counts_distinct
        (by_key-Permᴰ 0 m.counts v.counts_distinct) (λ got body slab slab_off i. refl)

map_holder_switch_ends :
    (body slab : List ℕ) (slab_off : ℕ)
    → InSlab body slab slab_off
    → EndsAll (length body) (map_holder_switch body slab slab_off)
unfolding map_holder_switch
map_holder_switch_ends body slab slab_off r num wire_type i m h =
    (on num == 1
      stays map_case-Stays attrs_entry-Lawful "Attrs" 1 body slab slab_off r m _ wire_type i h
      or on num == 2
      stays map_case-Stays counts_entry-Lawful "Counts" 2 body slab slab_off r m _ wire_type i h
      or skip-Stays body wire_type i m h).ends

pub map_holder-Lawful : Lawful map_holder IsMapHolder map_holder_wire map_holder_after
unfolding map_holder_marshal_internal map_holder_unmarshal_internal
map_holder-Lawful = record {
  size_wire = λ m v. (map_holder_parts m v).sized;
  writes_wire = λ m v. Writes-Appends (map_holder_parts m v).writes;
  reads_wire = λ m r slab slab_off v h.
      decode_fields_lem ((map_holder_parts m v).reads (map_holder_wire m) slab slab_off h);
  slab_body = λ bs r. refl;
  ends_at = λ r body slab slab_off h.
      decode_fields_ends bad_tag body _ (map_holder_switch_ends body slab slab_off h) _;
}

-- For every valid `MapHolder`, MarshalCodec returns its wire bytes, the entries of each map in the
-- order of their keys, as many as SizeCodec says; MarshalToCodec writes them at the front of a buffer
-- that holds them and leaves the rest of it, and on a shorter buffer returns ErrBufferTooShort; and
-- UnmarshalCodec on the bytes reads to the end and leaves the same entries in any receiver.
pub map_holder_round_trip :
    (m r : MapHolder) (buf : List ℕ)
    → IsMapHolder m
    → (marshal_codec map_holder (some m) ≡ ok (map_holder_wire m))
      × (size_codec map_holder (some m) ≡ length (map_holder_wire m))
      × (marshal_to_codec map_holder (some m) buf ≡ (
          if ltb (length buf) (length (map_holder_wire m))
          then err (sentinel buffer_too_short)
          else ok (
            map_holder_wire m ++ drop (length (map_holder_wire m)) buf,
            length (map_holder_wire m),
          )))
      × (unmarshal_codec map_holder (some r) (map_holder_wire m)
          ≡ done (map_holder_after m) (length (map_holder_wire m)))
      × Permᴰ (map_holder_after m).attrs m.attrs
      × Permᴰ (map_holder_after m).counts m.counts
unfolding map_holder_after
map_holder_round_trip m r buf v =
    let (bytes, size, into_buf, back) = codec_lem map_holder-Lawful m r buf v in
    (
      bytes,
      size,
      into_buf,
      back,
      by_key-Permᴰ [] m.attrs v.attrs_distinct,
      by_key-Permᴰ 0 m.counts v.counts_distinct,
    )

-- On any bytes and for any receiver, UnmarshalCodec of `MapHolder` returns: with the whole input read,
-- or with an error, also from within an entry, and never with a panic.
pub map_holder_unmarshal_ends :
    (r : MapHolder) (bs : List ℕ) → EndsAt (length bs) (unmarshal_codec map_holder (some r) bs)
map_holder_unmarshal_ends r bs = unmarshal_codec_ends map_holder-Lawful r bs
