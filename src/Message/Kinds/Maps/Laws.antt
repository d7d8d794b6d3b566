-- ===== src/Message/Kinds/Maps/Laws.antt =====
-- An entry is written with its length, and read back from its place in the slab; a map field stays
-- within the body whatever it holds.
use native.Mathlib.Nat.{add_assoc}
use Prim.Native.String.{String}
use protoc_gen_codec.Base.{
  Bool-cases, List, ap, append_assoc, arith, inl, inr, length, length-append, le→ltb_false, ltb,
  ltb_false→le, not, ℕ, ◌++◌, ◌+◌, ◌-◌, ◌==◌, ◌∙◌, ◌≡◌, ◌≤◌,
}
use protoc_gen_codec.Message.Kinds.{field_error}
use protoc_gen_codec.Message.Kinds.Bytes.{IsShort, element_wire}
use protoc_gen_codec.Message.Kinds.Delimited.{InSlab-ReadsBody, finds_slice, room_behind}
use protoc_gen_codec.Message.Kinds.Maps.{
  EntryKind, emit_entry, entry_bytes, entry_varint, map_case, size_entry,
}
use protoc_gen_codec.Message.Parts.Stays.{Stays}
use protoc_gen_codec.Runtime.Errors.{Error, invalid_varint}
use protoc_gen_codec.Runtime.Varint.{IsU64, size_varint}
use protoc_gen_codec.Runtime.Varint.Groups.{varint}
use protoc_gen_codec.Runtime.Varint.Size.{size_varint-length}
use protoc_gen_codec.Wire.Emit.Laws.{
  Appends, Appends-into, Appends-push, Appends-⨾, Writes-put_varint,
}
use protoc_gen_codec.Wire.Loop.{Run, and_then, done, failed, panicked, spent}
use protoc_gen_codec.Wire.Loop.Laws.{Takes, decode_fields_lem}
use protoc_gen_codec.Wire.Loop.Safe.{
  Ends, Ends-if, Ends-reading, Ends-varint, EndsAll, EndsAt, decode_fields_ends, read_varint_within,
}
use protoc_gen_codec.Wire.Read.{read_varint}
use protoc_gen_codec.Wire.Read.Laws.{At, At-append, read_varint-varint}
use protoc_gen_codec.Wire.Slab.{InSlab, InSlab-At, slice-InSlab}

-- `kv_wire` is the encoding of a valid entry.
pub record LawfulEntry {K V : Type 0} (c : EntryKind K V) (IsValid : K × V → Type 0)
    (kv_wire : K × V → List ℕ) : Type 0 where
  pub size_wire : (p : K × V) → IsValid p → c.size_kv p ≡ length (kv_wire p)
  pub writes_wire : (p : K × V) → IsValid p → Appends (c.emit_kv p) (kv_wire p)
  pub reads_wire :
      (bad : ℕ → Error) (p : K × V) (entry slab : List ℕ) (slab_off : ℕ)
      → IsValid p
      → InSlab entry slab slab_off
      → Takes bad entry (c.entry_switch entry slab slab_off) (kv_wire p) c.no_entry p
  pub ends_at :
      (entry slab : List ℕ) (slab_off : ℕ)
      → InSlab entry slab slab_off
      → EndsAll (length entry) (c.entry_switch entry slab slab_off)

module _ {E : Type 0} (entry : List ℕ) (kv : E) where
  pub entry_bytes-element :
      (slab : List ℕ) (slab_off : ℕ) (set : List ℕ → E) (i : ℕ) (s rest : List ℕ)
      → InSlab entry slab slab_off
      → IsShort s
      → At entry i ((varint (length s) ++ s) ++ rest)
      → entry_bytes entry i kv slab slab_off set
        ≡ done (set s) (i + length (varint (length s) ++ s))
  unfolding entry_bytes
  entry_bytes-element slab slab_off set i s rest r h at =
      let head = varint (length s) in
      let at' : At entry i (head ++ (s ++ rest)) = (at.0, at.1 ∙ append_assoc head s rest) in
      let j = i + length head in
      let behind = At-append entry i head (s ++ rest) at' in
      rw (
        read_varint-varint _ entry i (length s) (s ++ rest) (omega arith) at',
        le→ltb_false (length entry - j) (length s) (room_behind entry j s rest behind),
        (InSlab-ReadsBody entry slab slab_off r).finds j s rest behind,
        length-append head s,
        add_assoc i (length head) (length s),
      )

  pub entry_varint-varint :
      (set : ℕ → E) (i x : ℕ) (rest : List ℕ)
      → IsU64 x
      → At entry i (varint x ++ rest)
      → entry_varint entry i kv set ≡ done (set x) (i + length (varint x))
  unfolding entry_varint
  entry_varint-varint set i x rest h at = rw (read_varint-varint _ entry i x rest h at)

  pub entry_varint-Stays :
      (set : ℕ → E) (i : ℕ)
      → i ≤ length entry
      → Stays i (length entry) (entry_varint entry i kv set)
  unfolding entry_varint
  entry_varint-Stays set i h = record { ends = Ends-varint entry i kv h _ (λ v. set v.0) }

  pub entry_bytes-Stays :
      (slab : List ℕ) (slab_off : ℕ) (set : List ℕ → E) (i : ℕ)
      → InSlab entry slab slab_off
      → i ≤ length entry
      → Stays i (length entry) (entry_bytes entry i kv slab slab_off set)
  unfolding entry_bytes
  entry_bytes-Stays slab slab_off set i r h = record {
    ends =
        Ends-reading i (i + 1) (length entry) (λ (v : ℕ × ℕ). v.1) (read_varint _ entry i) kv _
          (read_varint_within _ entry i h)
          λ v lo hi. elim (Bool-cases (ltb (length entry - v.1) v.0)) [
            | inl short ↦ rw short tt
            | inr room ↦
                let fits : v.1 + v.0 ≤ length entry =
                  omega (arith, ltb_false→le (length entry - v.1) v.0 room) in
                rw (room, ((InSlab-ReadsBody entry slab slab_off r).within v.1 v.0 fits).1)
                  (omega arith)
          ];
  }

module _ {K V : Type 0} {c : EntryKind K V} {IsValid : K × V → Type 0} {kv_wire : K × V → List ℕ}
    (laws : LawfulEntry c IsValid kv_wire) where
  pub length-entry :
      (tag : ℕ) (p : K × V)
      → IsValid p
      → IsShort (kv_wire p)
      → size_entry c p ≡ length (element_wire tag (kv_wire p))
  unfolding size_entry
  length-entry tag p v h = omega (
    arith,
    laws.size_wire p v,
    ap size_varint (laws.size_wire p v),
    size_varint-length (length (kv_wire p)) (omega arith),
    length-append (varint (length (kv_wire p))) (kv_wire p),
  )

  pub Appends-entry :
      (tag : ℕ) (p : K × V)
      → IsValid p
      → IsShort (kv_wire p)
      → Appends (emit_entry c tag p) (element_wire tag (kv_wire p))
  unfolding emit_entry
  Appends-entry tag p v h = rw (laws.size_wire p v) (
      Appends-⨾
        (Appends-⨾ (Appends-push tag)
          (Appends-into (Writes-put_varint (length (kv_wire p)) (omega arith))))
        (laws.writes_wire p v))

  module _ {ℓ} {M : Type ℓ} (name : String) (num : ℕ) (body slab : List ℕ) (slab_off : ℕ)
      (r : InSlab body slab slab_off) (m : M) (put : K × V → M) where
    pub map_case-entry :
        (i : ℕ) (p : K × V) (rest : List ℕ)
        → IsValid p
        → IsShort (kv_wire p)
        → At body i ((varint (length (kv_wire p)) ++ kv_wire p) ++ rest)
        → map_case c name num body slab slab_off 2 i m put
          ≡ done (put p) (i + length (varint (length (kv_wire p)) ++ kv_wire p))
    unfolding map_case
    map_case-entry i p rest v h at =
        let s = kv_wire p in
        let head = varint (length s) in
        let at' : At body i (head ++ (s ++ rest)) = (at.0, at.1 ∙ append_assoc head s rest) in
        let j = i + length head in
        let behind = At-append body i head (s ++ rest) at' in
        rw (
          read_varint-varint _ body i (length s) (s ++ rest) (omega arith) at',
          le→ltb_false (length body - j) (length s) (room_behind body j s rest behind),
          finds_slice body j s rest behind,
          decode_fields_lem (
              laws.reads_wire (λ _. field_error name num invalid_varint) p s slab (slab_off + j) v
                (InSlab-At body slab slab_off j s rest r behind)),
          length-append head s,
          add_assoc i (length head) (length s),
        )

    Ends-entry :
        (i j l : ℕ) (run : Run (K × V))
        → i ≤ j
        → j + l ≤ length body
        → EndsAt l run
        → Ends i (length body) (and_then run (λ e kv. failed e m) (λ kv k. done (put kv) (j + k)))
    Ends-entry i j l (done kv k) lo hi h = omega (arith, h)
    Ends-entry i j l (failed e kv) lo hi h = tt
    Ends-entry i j l panicked lo hi h = h
    Ends-entry i j l spent lo hi h = h

    pub map_case-Stays :
        (wire_type i : ℕ)
        → i ≤ length body
        → Stays i (length body) (map_case c name num body slab slab_off wire_type i m put)
    unfolding map_case
    map_case-Stays wire_type i h = record {
      ends = Ends-if i (length body) (not (wire_type == 2)) _ _ tt (
          Ends-reading i (i + 1) (length body) (λ (v : ℕ × ℕ). v.1) (read_varint _ body i) m _
            (read_varint_within _ body i h)
            λ v lo hi. elim (Bool-cases (ltb (length body - v.1) v.0)) [
              | inl short ↦ rw short tt
              | inr room ↦
                  let fits : v.1 + v.0 ≤ length body =
                    omega (arith, ltb_false→le (length body - v.1) v.0 room) in
                  let (s, found, len, inside) = slice-InSlab body slab slab_off v.1 v.0 r fits in
                  rw (room, found)
                    (Ends-entry i v.1 (length s) _ (omega arith) (omega (arith, len)) (
                      decode_fields_ends _ s _ (laws.ends_at s slab (slab_off + v.1) inside)
                        c.no_entry))
            ]);
    }
