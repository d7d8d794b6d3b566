-- ===== src/Wire/Slab.antt =====
-- The slab: the string that a decoding takes its strings from. It holds the body that is decoded at
-- `slabOff`, and so the bodies of nested messages at the offsets that the code hands on.
use native.Mathlib.Nat.{add-sub_cancel_left}
use protoc_gen_codec.Base.{
  List, [], ap, append-nil, append_assoc, arith, drop, length, length-append, length-drop,
  length-take, refl, sym, take, take-drop, ℕ, ◌++◌, ◌+◌, ◌∙◌, ◌≡◌, ◌≤◌,
}
use protoc_gen_codec.Runtime.Errors.{ok}
use protoc_gen_codec.Wire.Read.{slice}
use protoc_gen_codec.Wire.Read.Laws.{At, slice-ok}

pub record InSlab (body slab : List ℕ) (slab_off : ℕ) : Type 0 where
  pub front : List ℕ
  pub back : List ℕ
  pub holds : slab ≡ front ++ (body ++ back)
  pub offset : slab_off ≡ length front

pub in_slab : (front body back : List ℕ) → InSlab body (front ++ (body ++ back)) (length front)
in_slab front body back = record { front = front; back = back; holds = refl; offset = refl }

-- `UnmarshalCodec` hands the data on as the slab.
pub in_self : (body : List ℕ) → InSlab body body 0
in_self body = record { front = []; back = []; holds = sym (append-nil body); offset = refl }

-- What stands in the body at `i` stands in the slab at `slabOff + i`.
pub InSlab-At :
    (body slab : List ℕ) (slab_off i : ℕ) (s rest : List ℕ)
    → InSlab body slab slab_off
    → At body i (s ++ rest)
    → InSlab s slab (slab_off + i)
InSlab-At body slab slab_off i s rest h (hi, at) =
    let split : body ≡ take i body ++ (s ++ rest) =
      sym (take-drop i body) ∙ ap (λ t. take i body ++ t) at in
    record {
      front = h.front ++ take i body;
      back = rest ++ h.back;
      holds =
          h.holds
          ∙ ap (λ b. h.front ++ (b ++ h.back)) split
          ∙ rw
              (
                append_assoc (take i body) (s ++ rest) h.back,
                append_assoc s rest h.back,
                append_assoc h.front (take i body) (s ++ (rest ++ h.back)),
              )
              refl;
      offset = omega (arith, h.offset, length-append h.front (take i body), length-take i body);
    }

-- `data[j:j+v]` within the body is there, and in the slab.
pub slice-InSlab :
    (body slab : List ℕ) (slab_off j v : ℕ)
    → InSlab body slab slab_off
    → j + v ≤ length body
    → (s : List ℕ) × (slice body j (j + v) ≡ ok s) × (length s ≡ v) × InSlab s slab (slab_off + j)
slice-InSlab body slab slab_off j v h fits =
    let s = take v (drop j body) in
    let at : At body j (s ++ drop v (drop j body)) =
      (omega arith, sym (take-drop v (drop j body))) in
    (
      s,
      slice-ok body j (j + v) (omega arith) fits ∙ rw (add-sub_cancel_left j v) refl,
      omega (arith, length-take v (drop j body), length-drop j body),
      InSlab-At body slab slab_off j s (drop v (drop j body)) h at,
    )
