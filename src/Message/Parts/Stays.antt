-- ===== src/Message/Parts/Stays.antt =====
-- The cases of a switch stay within the body, whatever it holds.
use protoc_gen_codec.Base.{Bool, List, if◌then◌else◌, length, ℕ, ◌≤◌}
use protoc_gen_codec.Message.Kinds.{bytes_case, digest_case, fixed64_case, skip_case, varint_case}
use protoc_gen_codec.Message.Kinds.Delimited.{Ends-bytes_case, Ends-digest_case, ReadsBody}
use protoc_gen_codec.Message.Kinds.Scalar.{Ends-fixed64_case, Ends-varint_case}
use protoc_gen_codec.Runtime.Errors.{Res}
use protoc_gen_codec.Wire.Loop.{Run}
use protoc_gen_codec.Wire.Loop.Safe.{Ends, Ends-if, Ends-skip}
use Prim.Native.String.{String}

-- The cases of a switch, tried one after the other, stay within the body.
pub record Stays {ℓ} {M : Type ℓ} (i l : ℕ) (run : Run M) : Type 0 where
  pub ends : Ends i l run

infix 1 on◌stays◌or◌
pub on◌stays◌or◌ {ℓ} :
    {M : Type ℓ} {i l : ℕ} {x y : Run M} (c : Bool)
    → Stays i l x
    → Stays i l y
    → Stays i l (if c then x else y)
on◌stays◌or◌ {i = i} {l = l} {x = x} {y = y} c p q = record {
  ends = Ends-if i l c x y p.ends q.ends;
}

module _ {ℓ} {M : Type ℓ} (name : String) (num : ℕ) (body : List ℕ) (wire_type i : ℕ) (m : M)
    (h : i ≤ length body) where
  pub varint-Stays :
      (set : ℕ → M) → Stays i (length body) (varint_case name num body wire_type i m set)
  varint-Stays set = record { ends = Ends-varint_case name num body m set wire_type i h }

  pub fixed64-Stays :
      (set : ℕ → M) → Stays i (length body) (fixed64_case name num body wire_type i m set)
  fixed64-Stays set = record { ends = Ends-fixed64_case name num body m set wire_type i h }

  pub bytes-Stays :
      (read : ℕ → ℕ → Res (List ℕ)) (set : List ℕ → M)
      → ReadsBody body read
      → Stays i (length body) (bytes_case name num body wire_type i m read set)
  bytes-Stays read set r = record {
    ends = Ends-bytes_case name num body m set read wire_type i r h;
  }

  pub digest-Stays :
      (set : List ℕ → M) → Stays i (length body) (digest_case name num body wire_type i m set)
  digest-Stays set = record { ends = Ends-digest_case name num body m set wire_type i h }

pub skip-Stays {ℓ} :
    {M : Type ℓ} (body : List ℕ) (wire_type i : ℕ) (m : M)
    → i ≤ length body
    → Stays i (length body) (skip_case body wire_type i m)
unfolding skip_case
skip-Stays body wire_type i m h = record { ends = Ends-skip body i m h wire_type }
