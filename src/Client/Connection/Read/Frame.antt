-- ===== src/Client/Connection/Read/Frame.antt =====
-- `poll_read` leaves the write side of the connection alone.
use rust_kingbase.Prelude.{
  Bool-cases, Bytes, ◌>>=◌, Result, ok, err, panic, ℕ, zero, suc, ◌≡◌, refl, ◌∙◌, inl, inr, Bool,
  Option, some, List, [], ◌∷◌,
}
use rust_kingbase.Wire.Crates.{Crates}
use rust_kingbase.Message.Backend.Body.{
  Message, error_response, notice_response, notification_response, parameter_status,
}
use rust_kingbase.Message.Backend.Iterators.{get_str, fields}
use rust_kingbase.Codec.{next, FrontendMessage, BackendMessage, normal, async}
use rust_kingbase.Client.DbError.{parse_db_error, db_error, parse_failed}
use rust_kingbase.Client.Connection.{
  is_active, Polled, RequestMessages, Request, State, Incoming, SenderPoll, SocketPoll, Connection,
  no_bytes, end_of_stream, broken, arrived, has_room, hung_up, no_room,
}
use rust_kingbase.Client.Connection.Read.{
  poll_response_of, poll_response, or_parse_failed, read_async, unasked, respond, read_answer,
  read_round, read_loop, poll_read, ReadEnd, ReadRound, read_failed, read_panicked, read_done,
  read_on,
}

abbrev pub write_side :
    Connection
    → List (Polled Request)
      × List SocketPoll
      × List FrontendMessage
      × Bool
      × Option RequestMessages
      × State
write_side c = (c.requests, c.sockets, c.written, c.terminated, c.pending_request, c.state)

abbrev Keeps : Connection → ReadRound → Type 0
Keeps c (read_done end c') = write_side c' ≡ write_side c
Keeps c (read_on c') = write_side c' ≡ write_side c

abbrev KeepsResult : Connection → Result ReadRound → Type 0
KeepsResult c (ok r) = Keeps c r
KeepsResult c (err e) = Unit
KeepsResult c panic = Unit

>>=-Keeps :
    {S : Type 0} (c : Connection) (r : Result S) (f : S → Result ReadRound)
    → ((a : S) → KeepsResult c (f a))
    → KeepsResult c (r >>= f)
>>=-Keeps c (ok a) f h = h a
>>=-Keeps c (err e) f h = tt
>>=-Keeps c panic f h = tt

or_parse_failed-Keeps :
    (c : Connection) (r : Result ReadRound) → KeepsResult c r → Keeps c (or_parse_failed c r)
unfolding or_parse_failed
or_parse_failed-Keeps c (ok r) h = h
or_parse_failed-Keeps c (err e) h = refl
or_parse_failed-Keeps c panic h = refl

module _ (crates : Crates) (lossy : Bytes → Bytes) where
  read_async-Keeps : (m : Message) (c : Connection) → Keeps c (read_async crates lossy m c)
  unfolding read_async
  read_async-Keeps (notice_response fields) c =
      or_parse_failed-Keeps c _ (>>=-Keeps c (parse_db_error crates lossy fields) _ (λ e. refl))
  read_async-Keeps (notification_response body) c = or_parse_failed-Keeps c _ (
      >>=-Keeps c (get_str body.channel) _
        (λ channel. >>=-Keeps c (get_str body.message) _ (λ p. refl)))
  read_async-Keeps (parameter_status body) c = or_parse_failed-Keeps c _ (
      >>=-Keeps c (get_str body.name) _
        (λ name. >>=-Keeps c (get_str body.value) _ (λ value. refl)))
  read_async-Keeps _ c = refl

  unasked-Keeps : (first : Option Message) (c : Connection) → Keeps c (unasked crates lossy first c)
  unfolding unasked
  unasked-Keeps (some (error_response fields)) c =
      elim (db_error crates lossy fields)
        as (λ r. Keeps c (elim r as (λ _. ReadRound) [
          | ok e ↦ read_done (read_failed e) c
          | err e ↦ read_done (read_failed (parse_failed e)) c
          | panic ↦ read_done read_panicked c
        ])) [ ok e ↦ refl | err e ↦ refl | panic ↦ refl ]
  unasked-Keeps _ c = refl

  respond-Keeps :
      (messages : Bytes) (complete : Bool) (polls : List SenderPoll) (rs : List ℕ) (c : Connection)
      → Keeps c (respond crates lossy messages complete polls rs c)
  unfolding respond
  respond-Keeps messages complete polls [] c =
      or_parse_failed-Keeps c _
        (>>=-Keeps c (next crates messages) _ (λ r. let (first, _) = r in unasked-Keeps first c))
  respond-Keeps messages complete [] (r ∷ rs) c = refl
  respond-Keeps messages complete (no_room ∷ polls) (r ∷ rs) c = refl
  respond-Keeps messages complete (has_room ∷ polls) (r ∷ rs) c = refl
  respond-Keeps messages complete (hung_up ∷ polls) (r ∷ rs) c = refl

  read_answer-Keeps : (a : Incoming) (c : Connection) → Keeps c (read_answer crates lossy a c)
  unfolding read_answer
  read_answer-Keeps no_bytes c = refl
  read_answer-Keeps end_of_stream c = refl
  read_answer-Keeps (broken e) c = refl
  read_answer-Keeps (arrived (async m)) c = read_async-Keeps m c
  read_answer-Keeps (arrived (normal messages complete)) c =
      respond-Keeps messages complete c.senders c.responses c

  polled-Keeps :
      (ps : List BackendMessage) (answers : List Incoming) (c : Connection)
      → Keeps c (let (a, c') = poll_response_of ps answers c in read_answer crates lossy a c')
  unfolding poll_response_of
  polled-Keeps (m ∷ ms) answers c =
      read_answer-Keeps (arrived m) (record c { pending_responses = ms })
  polled-Keeps [] [] c = read_answer-Keeps no_bytes c
  polled-Keeps [] (a ∷ answers) c = read_answer-Keeps a (record c { incoming = answers })

  loop_step :
      (fuel : ℕ) (c : Connection) (r : ReadRound)
      → ((c' : Connection) → write_side (read_loop crates lossy fuel c').1 ≡ write_side c')
      → Keeps c r
      → write_side
          (elim r as (λ _. ReadEnd × Connection) [
            | read_done end c' ↦ (end, c')
            | read_on c' ↦ read_loop crates lossy fuel c'
          ]).1
        ≡ write_side c
  loop_step fuel c (read_done end c') ih k = k
  loop_step fuel c (read_on c') ih k = ih c' ∙ k

  read_loop_keeps :
      (fuel : ℕ) (c : Connection) → write_side (read_loop crates lossy fuel c).1 ≡ write_side c
  unfolding read_loop read_round poll_response
  read_loop_keeps zero c = refl
  read_loop_keeps (suc fuel) c =
      loop_step fuel c (read_round crates lossy c) (read_loop_keeps fuel)
        (polled-Keeps c.pending_responses c.incoming c)

  pub poll_read_keeps : (c : Connection) → write_side (poll_read crates lossy c).1 ≡ write_side c
  unfolding poll_read
  poll_read_keeps c = elim (Bool-cases (is_active c.state)) [
    | inl on ↦ rw on (read_loop_keeps _ c)
    | inr off ↦ rw off refl
  ]
