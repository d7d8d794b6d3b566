-- ===== src/Core/Tags.antt =====
-- The tag functions of internal/core/analysis.go, which has a varint encoder of its own.
pub mod Laws
use mathlib.Core.Logic.{dite}
use mathlib.Core.WellFounded.{Acc}
use native.Mathlib.Decide.{dec_le}
use protoc_gen_codec.Base.{List, bit_or, lt_wf, replicate, ℕ, ◌+◌, ◌/◌, ◌<◌}
use protoc_gen_codec.Runtime.Errors.{Res, ◌>>=◌}
use protoc_gen_codec.Runtime.Time.{sign_extend}
use protoc_gen_codec.Runtime.Varint.{encode_loop, shift_shrinks, shl64}
use protoc_gen_codec.Wire.Read.{slice}

pub data WireKind : Type 0 where
  wire_varint wire_fixed64 wire_len_del wire_fixed32 : WireKind

-- The value of the constant.
unfoldable pub wire_number : WireKind → ℕ
wire_number wire_varint = 0
wire_number wire_fixed64 = 1
wire_number wire_len_del = 2
wire_number wire_fixed32 = 5

-- A field number is the pattern of an int32.
unfoldable pub tag_value : ℕ → WireKind → ℕ
tag_value field_num wk = bit_or (shl64 (sign_extend field_num) 3) (wire_number wk)

-- `for v >= 0x80 { n++; v >>= 7 }`
unfoldable pub count_loop : (v : ℕ) → Acc ◌<◌ v → ℕ → ℕ
count_loop v (Acc.intro _ smaller) n =
    dite (dec_le 0x80 v) (λ more. count_loop (v / 128) (smaller _ (shift_shrinks v more)) (n + 1))
      (λ _. n)

unfoldable pub tag_size : ℕ → ℕ
tag_size field_num = let v = shl64 (sign_extend field_num) 3 in count_loop v (lt_wf.apply v) 1

-- The loop has the text of the one of EncodeVarint.
unfoldable pub tag_bytes : ℕ → WireKind → Res (List ℕ)
tag_bytes field_num wk =
    let v = tag_value field_num wk in
    encode_loop (replicate 10 0) v (lt_wf.apply v) 0 >>= λ s. slice s.0 0 s.1

unfoldable pub sov_local : ℕ → ℕ
sov_local x = count_loop x (lt_wf.apply x) 1
