-- ===== src/Wire/Emit/Laws.antt =====
-- What the steps write. With room for `bs`, a step that appends `bs` does not panic, puts `bs` at the
-- cursor, moves the cursor behind it and changes nothing else.
use native.Mathlib.Nat.{add-zero, add_assoc, zero-add}
use native.Mathlib.Numerals.{add-one}
use protoc_gen_codec.Base.{
  Bool, List, [], ap, append-nil, append_assoc, arith, drop, drop-add, drop-append, false,
  if◌then◌else◌, length, length-append, length-drop, le→leb, refl, suc, take-append, true, zero, ℕ,
  ◌++◌, ◌+◌, ◌/◌, ◌∙◌, ◌∷◌, ◌≡◌, ◌≤◌,
}
use protoc_gen_codec.Runtime.Errors.{ok}
use protoc_gen_codec.Runtime.Varint.{IsU64}
use protoc_gen_codec.Runtime.Varint.Encode.{encode_varint_lem, write_at-append}
use protoc_gen_codec.Runtime.Varint.Groups.{varint}
use protoc_gen_codec.Runtime.Varint.Size.{size_varint-length}
use protoc_gen_codec.Wire.Emit.{
  Emit, Writer, copy, each, into, little_endian, nothing, push, put_fixed, put_varint, when, ◌⨾◌,
}

abbrev pub Writes : Writer → List ℕ → Type 0
Writes f bs =
    (room : List ℕ) → length bs ≤ length room → f room ≡ ok (bs ++ drop (length bs) room, length bs)

pub record Appends (p : Emit) (bs : List ℕ) : Type 0 where
  pub appends :
      (front room : List ℕ) (n : ℕ)
      → length front ≡ n
      → length bs ≤ length room
      → p (front ++ room) n ≡ ok ((front ++ bs) ++ drop (length bs) room, n + length bs)

pub Appends-nothing : Appends nothing []
unfolding nothing
Appends-nothing = record { appends = λ front room n at fits. rw (append-nil, add-zero) }

pub Appends-⨾ :
    {p q : Emit} {bs cs : List ℕ} → Appends p bs → Appends q cs → Appends (p ⨾ q) (bs ++ cs)
unfolding ◌⨾◌
Appends-⨾ {bs} {cs} hp hq = record {
  appends = λ front room n at fits.
      rw (hp.appends front room n at (omega (arith, length-append bs cs))) (
        hq.appends (front ++ bs) (drop (length bs) room) (n + length bs)
          (omega (arith, length-append front bs))
          (omega (arith, length-append bs cs, length-drop (length bs) room))
        ∙ rw (
          append_assoc front bs cs,
          length-append bs cs,
          drop-add (length bs) (length cs) room,
          add_assoc n (length bs) (length cs),
        ));
}

push-append :
    (b : ℕ) (front room : List ℕ) (n : ℕ)
    → length front ≡ n
    → 1 ≤ length room
    → push b (front ++ room) n ≡ ok ((front ++ (b ∷ [])) ++ drop 1 room, n + 1)
unfolding push
push-append b front [] n at fits = absurd (omega arith)
push-append b front (r ∷ room) n at fits = rw (← at, write_at-append front room r b)

pub Appends-push : (b : ℕ) → Appends (push b) (b ∷ [])
Appends-push b = record { appends = push-append b }

pub Appends-into : {f : Writer} {bs : List ℕ} → Writes f bs → Appends (into f) bs
unfolding into
Appends-into {f} {bs} h = record {
  appends = λ front room n at fits.
      rw
        (
          ← at,
          le→leb (length front) (length (front ++ room)) (omega (arith, length-append front room)),
          drop-append front room,
          h room fits,
          take-append front room,
        )
        (rw append_assoc);
}

pub Appends-when :
    (c : Bool) {p : Emit} {bs : List ℕ} → Appends p bs → Appends (when c p) (if c then bs else [])
unfolding when
Appends-when true h = h
Appends-when false h = Appends-nothing

abbrev pub concat_map {ℓ} : {A : Type ℓ} → (A → List ℕ) → List A → List ℕ
concat_map f [] = []
concat_map f (x ∷ xs) = f x ++ concat_map f xs

pub Appends-each {ℓ} :
    {A : Type ℓ} (xs : List A) (p : A → Emit) (f : A → List ℕ)
    → ((x : A) → Appends (p x) (f x))
    → Appends (each xs p) (concat_map f xs)
unfolding each
Appends-each [] p f h = Appends-nothing
Appends-each (x ∷ xs) p f h = Appends-⨾ (h x) (Appends-each xs p f h)

pub Writes-copy : (src : List ℕ) → Writes (copy src) src
unfolding copy
Writes-copy [] room fits = refl
Writes-copy (b ∷ src) [] fits = absurd (omega arith)
Writes-copy (b ∷ src) (c ∷ room) fits =
    rw (Writes-copy src room (omega arith), add-one (length src))

pub Writes-put_varint : (x : ℕ) → IsU64 x → Writes (put_varint x) (varint x)
unfolding put_varint
Writes-put_varint x h room fits =
    rw (← size_varint-length x h)
      (encode_varint_lem x room h (omega (arith, size_varint-length x h)))

pub length-little_endian : (w x : ℕ) → length (little_endian w x) ≡ w
unfolding little_endian
length-little_endian zero x = refl
length-little_endian (suc w) x = ap suc (length-little_endian w (x / 256))

pub Writes-put_fixed : (w x : ℕ) → Writes (put_fixed w x) (little_endian w x)
unfolding put_fixed
Writes-put_fixed w x room fits =
    rw (length-little_endian w x, le→leb w (length room) (omega (arith, length-little_endian w x)))

-- A method that starts at cursor 0.
pub Writes-Appends : {p : Emit} {bs : List ℕ} → Appends p bs → Writes (λ buf. p buf 0) bs
Writes-Appends h room fits = h.appends [] room 0 refl fits ∙ rw zero-add
