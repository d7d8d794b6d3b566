-- ===== src/Message/PreScan.antt =====
-- The scan before the loop over the fields, of the types with repeated messages: it counts the
-- elements of a repeated field, so that a nil slice is made with room for them.
pub mod Bounds
pub mod Counts
use protoc_gen_codec.Base.{
  List, Option, if◌then◌else◌, length, ltb, none, some, suc, ℕ, ◌+◌, ◌-◌, ◌==◌,
}
use protoc_gen_codec.Message.Kinds.{bad_tag}
use protoc_gen_codec.Runtime.Errors.{Res, err, fault, invalid_varint, ok, sentinel}
use protoc_gen_codec.Wire.Loop.{Run, Switch, decode_fields, done, failed, panicked, spent}
use protoc_gen_codec.Wire.Read.{read_varint}

-- `break` in a case leaves the switch only, so the scan goes on where it stands.
abbrev pub or_leave {ℓ} : {A : Type ℓ} → Res A → Run ℕ → (A → Run ℕ) → Run ℕ
or_leave (ok a) leave k = k a
or_leave (err e) leave k = leave
or_leave fault leave k = panicked

-- `switch pwt { … }` at the index `pi` behind the tag, for the counter of the field `counted`.
unfoldable pub pre_switch : ℕ → List ℕ → Switch ℕ
pre_switch counted body num wire_type pi count =
    if wire_type == 0
    then or_leave (read_varint (sentinel invalid_varint) body pi) (done count pi)
        (λ v. done count v.1)
    else if wire_type == 1
    then (if ltb (length body) (pi + 8) then done count pi else done count (pi + 8))
    else if wire_type == 2
    then or_leave (read_varint (sentinel invalid_varint) body pi) (done count pi) (λ v.
      if ltb (length body - v.1) v.0
      then done count v.1
      else done (if num == counted then suc count else count) (v.1 + v.0))
    else if wire_type == 5
    then (if ltb (length body) (pi + 4) then done count pi else done count (pi + 4))
    else done count pi

-- A tag that does not decode ends the scan, with what it counted so far; no error comes of it.
-- `none` stands for a panic, or a loop that does not end.
abbrev pub counted_by : Run ℕ → Option ℕ
counted_by (done count pi) = some count
counted_by (failed e count) = some count
counted_by panicked = none
counted_by spent = none

unfoldable pub pre_count : ℕ → List ℕ → Option ℕ
pre_count counted body = counted_by (decode_fields bad_tag body (pre_switch counted body) 0)
