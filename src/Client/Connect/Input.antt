-- ===== src/Client/Connect/Input.antt =====
-- What a message of the start-up stream takes off the bytes and the answers that are to come.
use rust_kingbase.Prelude.{
  Bytes, length, All, length-append, Returns, Result, ok, err, panic, ◌≤◌, ◌<◌, ◌≡◌, refl, sym, ap,
  ◌∙◌, Option, none, some, List, [], ◌∷◌, arith,
}
use rust_kingbase.Wire.Crates.{Crates}
use rust_kingbase.Message.Backend.{parse}
use rust_kingbase.Message.Backend.Body.{Message}
use rust_kingbase.Message.Backend.Stream.{finish-ne-none, parse_takes-IsFrame}
use rust_kingbase.Message.Backend.Frame.{
  cut, parse_invalid, parse_cut_off, parse_few, parse-IsFrame, few, cut_off, invalid, whole,
}
use rust_kingbase.Message.Backend.Total.{parse-Returns}
use rust_kingbase.Codec.{next, normal, async}
use rust_kingbase.Client.DbError.{ClientError}
use rust_kingbase.Client.Connection.{Incoming, no_bytes, end_of_stream, broken, arrived}
use rust_kingbase.Client.Connection.Read.Router.{IsAnswer}
use rust_kingbase.Client.Startup.{
  from_batch, refill, next_input, Reply, Input, gives, raises, awaits,
}
use rust_kingbase.Client.Connect.Session.{room}

pub parse_left :
    (crates : Crates) (buf : Bytes) {r : Option Message} {rest : Bytes}
    → parse crates buf ≡ ok (r, rest)
    → length rest ≤ length buf
parse_left crates buf {r = none} {rest = rest} h = elim (cut crates buf) [
  | few short ↦ let e : rest ≡ buf = cc (parse_few crates buf short) in rw e (omega arith)
  | cut_off tag size rest' e four short ↦
      let same : rest ≡ buf = cc (parse_cut_off crates tag size rest' four short) in
      rw same (omega arith)
  | invalid tag size rest' e four small ↦ cc (parse_invalid crates tag size rest' four small)
  | whole tag body frame rest' f e ↦ absurd (
      finish-ne-none crates tag body rest' rest
        (sym (parse-IsFrame crates tag body frame rest' f) ∙ ap (parse crates) (sym e) ∙ h))
]
parse_left crates buf {r = some m} {rest = rest} h =
    let (tag, body, frame, f, split, read) = parse_takes-IsFrame crates buf h in
    rw (split, length-append frame rest) (omega arith)

pub next_shorter :
    (crates : Crates) (buf : Bytes) {m : Message} {rest : Bytes}
    → parse crates buf ≡ ok (some m, rest)
    → length rest < length buf
next_shorter crates buf {m = m} {rest = rest} h =
    let (tag, body, frame, f, split, read) = parse_takes-IsFrame crates buf h in
    let five : 0 < length frame = rw f.laid_out (omega arith) in
    rw (split, length-append frame rest) (omega arith)

-- A message leaves less room and well-formed answers, and nothing panics.
pub data Pulled (i : Input) : Reply (Option Message) × Input → Type 0 where
  pulled :
      (m : Message) (i' : Input)
      → room i' < room i
      → All IsAnswer i'.incoming
      → Pulled i (gives (some m), i')
  closed : (i' : Input) → All IsAnswer i'.incoming → Pulled i (gives none, i')
  failing : (e : ClientError) (i' : Input) → Pulled i (raises e, i')
  waiting : (i' : Input) → Pulled i (awaits, i')

Pulled-more :
    (i j : Input) (r : Reply (Option Message) × Input) → room j ≤ room i → Pulled j r → Pulled i r
Pulled-more i j r le (pulled m i' less coming) = pulled m i' (omega arith) coming
Pulled-more i j r le (closed i' coming) = closed i' coming
Pulled-more i j r le (failing e i') = failing e i'
Pulled-more i j r le (waiting i') = waiting i'

module _ (crates : Crates) where
  from_batch-Pulled :
      (answers : List Incoming) (rest : Bytes → Reply (Option Message) × Input) (buf : Bytes)
      (r : Result (Option Message × Bytes))
      → All IsAnswer answers
      → ((buf' : Bytes) → Pulled (record { buf = buf'; incoming = answers }) (rest buf'))
      → parse crates buf ≡ r
      → Returns r
      → Pulled (record { buf = buf; incoming = answers }) (from_batch answers rest buf r)
  unfolding from_batch
  from_batch-Pulled answers rest buf (ok (some m, buf')) coming ih e t =
      let less = next_shorter crates buf e in pulled m _ (omega arith) coming
  from_batch-Pulled answers rest buf (ok (none, buf')) coming ih e t =
      let less = parse_left crates buf e in Pulled-more _ _ _ (omega arith) (ih buf')
  from_batch-Pulled answers rest buf (err e') coming ih e t = failing _ _
  from_batch-Pulled answers rest buf panic coming ih e t = absurd t

  refill-Pulled :
      (answers : List Incoming) (buf : Bytes)
      → All IsAnswer answers
      → Pulled (record { buf = buf; incoming = answers }) (refill crates answers buf)
  unfolding refill next
  refill-Pulled [] buf h = waiting _
  refill-Pulled (no_bytes ∷ answers) buf (h, hs) =
      Pulled-more _ _ _ (omega arith) (refill-Pulled answers buf hs)
  refill-Pulled (end_of_stream ∷ answers) buf (h, hs) = closed _ hs
  refill-Pulled (broken e ∷ answers) buf (h, hs) = failing _ _
  refill-Pulled (arrived (async m) ∷ answers) buf (h, hs) = pulled m _ (omega arith) hs
  refill-Pulled (arrived (normal messages complete) ∷ answers) buf (h, hs) =
      Pulled-more _ (record { buf = messages; incoming = answers }) _ (omega arith)
        (from_batch-Pulled answers (refill crates answers) messages (parse crates messages) hs
          (λ buf'. refill-Pulled answers buf' hs) refl (parse-Returns crates messages))

  -- Every message of the start-up stream leaves less to come; nothing panics.
  pub next_input-Pulled : (i : Input) → All IsAnswer i.incoming → Pulled i (next_input crates i)
  unfolding next_input next
  next_input-Pulled i h =
      from_batch-Pulled i.incoming (refill crates i.incoming) i.buf (parse crates i.buf) h
        (λ buf'. refill-Pulled i.incoming buf' h) refl (parse-Returns crates i.buf)
