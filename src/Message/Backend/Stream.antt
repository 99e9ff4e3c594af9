-- ===== src/Message/Backend/Stream.antt =====
-- `Message::parse` on a byte stream: what it takes off, when it waits, and that more bytes behind a
-- whole message change nothing.

use rust_kingbase.Prelude.{
  Bytes, length, ◌>>=◌, >>=-eq-ok, Result, ok, err, panic, ℕ, ◌+◌, ◌<◌, ◌≡◌, refl, sym, ap, ◌∙◌,
  ◌≢◌, ◌↔◌, ◌⊎◌, inl, inr, Option, none, some, [], ◌∷◌, ◌++◌, append_assoc, arith,
}
use rust_kingbase.Wire.Crates.{Crates}
use rust_kingbase.Message.Backend.{if_drained, finish, parse}
use rust_kingbase.Message.Backend.Body.{parse_body, Message}
use rust_kingbase.Message.Backend.Frame.{
  cut, parse_invalid, parse_cut_off, parse_few, parse-IsFrame, IsFrame, few, cut_off, invalid,
  whole,
}

-- Too few bytes for a header, or fewer than the length field says.
abbrev pub IsPartial : Crates → Bytes → Type 0
IsPartial crates buf =
    (length buf < 5)
    ⊎ ((tag : ℕ) × (size : Bytes) × (rest : Bytes) × (buf ≡ tag ∷ (size ++ rest))
        × (length size ≡ 4)
        × (length rest + 4 < crates.read_be size))

-- The outcome of `Message::parse` with more bytes behind what it left.
abbrev pub behind : Bytes → Result (Option Message × Bytes) → Result (Option Message × Bytes)
behind more r = r >>= λ (m, rest). ok (m, rest ++ more)

if_drained-some :
    (n m : Message) (rest left xs : Bytes)
    → if_drained n rest xs ≡ ok (some m, left)
    → (left ≡ rest) × (n ≡ m) × (xs ≡ [])
if_drained-some n m rest left [] h = ground arith
if_drained-some n m rest left (x ∷ xs) h = cc

pub finish-some :
    (crates : Crates) (tag : ℕ) (body rest : Bytes) {m : Message} {left : Bytes}
    → finish crates tag body rest ≡ ok (some m, left)
    → (left ≡ rest) × (parse_body crates tag body ≡ ok (m, []))
unfolding finish
finish-some crates tag body rest {m} {left} h =
    let ((n, xs), e, g) = >>=-eq-ok (parse_body crates tag body) _ h in
    let (same, eq, empty) = if_drained-some n m rest left xs g in (same, rw (← eq, ← empty) e)

if_drained-ne-none : (n : Message) (rest left xs : Bytes) → if_drained n rest xs ≢ ok (none, left)
if_drained-ne-none n rest left [] h = cc
if_drained-ne-none n rest left (x ∷ xs) h = cc

pub finish-ne-none :
    (crates : Crates) (tag : ℕ) (body rest left : Bytes)
    → finish crates tag body rest ≢ ok (none, left)
unfolding finish
finish-ne-none crates tag body rest left h =
    let ((n, xs), e, g) = >>=-eq-ok (parse_body crates tag body) _ h in
    if_drained-ne-none n rest left xs g

bind-behind :
    (rest more : Bytes) (r : Result (Message × Bytes))
    → (r >>= λ (m, left). if_drained m (rest ++ more) left)
      ≡ behind more (r >>= λ (m, left). if_drained m rest left)
bind-behind rest more (ok (m, [])) = refl
bind-behind rest more (ok (m, b ∷ left)) = refl
bind-behind rest more (err e) = refl
bind-behind rest more panic = refl

finish-behind :
    (crates : Crates) (tag : ℕ) (body rest more : Bytes)
    → finish crates tag body (rest ++ more) ≡ behind more (finish crates tag body rest)
unfolding finish
finish-behind crates tag body rest more = bind-behind rest more (parse_body crates tag body)

module _ (crates : Crates) where
  -- `Message::parse` leaves the buffer as it was and waits exactly where no whole message stands.
  pub parse_waits_iff : (buf : Bytes) → (parse crates buf ≡ ok (none, buf)) ↔ IsPartial crates buf
  parse_waits_iff buf = (to, from)
    where
      to : parse crates buf ≡ ok (none, buf) → IsPartial crates buf
      to h = elim (cut crates buf) [
        | few short ↦ inl short
        | cut_off tag size rest e four short ↦ inr (tag, size, rest, e, four, short)
        | invalid tag size rest e four small ↦ cc (parse_invalid crates tag size rest four small)
        | whole tag body frame rest f e ↦ absurd (
            finish-ne-none crates tag body rest buf
              (sym (parse-IsFrame crates tag body frame rest f) ∙ ap (parse crates) (sym e) ∙ h))
      ]

      from : IsPartial crates buf → parse crates buf ≡ ok (none, buf)
      from (inl short) = parse_few crates buf short
      from (inr (tag, size, rest, e, four, short)) =
          rw e (parse_cut_off crates tag size rest four short)

  -- A message that `Message::parse` returns is the first frame of the buffer: its body was read to the
  -- end, and what is left is what stood behind that frame.
  pub parse_takes-IsFrame :
      (buf : Bytes) {m : Message} {rest : Bytes}
      → parse crates buf ≡ ok (some m, rest)
      → (tag : ℕ) × (body : Bytes) × (frame : Bytes) × IsFrame crates tag body frame
        × (buf ≡ frame ++ rest)
        × (parse_body crates tag body ≡ ok (m, []))
  parse_takes-IsFrame buf {m} {rest} h = elim (cut crates buf) [
    | few short ↦ cc (parse_few crates buf short)
    | cut_off tag size rest' e four short ↦ cc (parse_cut_off crates tag size rest' four short)
    | invalid tag size rest' e four small ↦ cc (parse_invalid crates tag size rest' four small)
    | whole tag body frame rest' f e ↦
        let (same, read) =
          finish-some crates tag body rest'
            (sym (parse-IsFrame crates tag body frame rest' f) ∙ ap (parse crates) (sym e) ∙ h) in
        (tag, body, frame, f, rw same e, read)
  ]

  -- Where a buffer does not make `Message::parse` wait, bytes added behind it join what is left and
  -- change neither the message nor the error.
  pub parse-append :
      (buf more : Bytes)
      → ¬ IsPartial crates buf
      → parse crates (buf ++ more) ≡ behind more (parse crates buf)
  parse-append buf more h = elim (cut crates buf) [
    | few short ↦ absurd (h (inl short))
    | cut_off tag size rest e four short ↦ absurd (h (inr (tag, size, rest, e, four, short)))
    | invalid tag size rest e four small ↦
        rw (e, append_assoc size rest more, parse_invalid crates tag size rest four small)
          (parse_invalid crates tag size (rest ++ more) four small)
    | whole tag body frame rest f e ↦
        rw
          (
            e,
            append_assoc frame rest more,
            parse-IsFrame crates tag body frame rest f,
            parse-IsFrame crates tag body frame (rest ++ more) f,
          )
          (finish-behind crates tag body rest more)
  ]
