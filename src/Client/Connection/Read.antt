-- ===== src/Client/Connection/Read.antt =====
-- poll_response and poll_read of tokio-postgres/src/connection.rs.
pub mod Router
pub mod Rounds
pub mod Routing
pub mod Order
pub mod Frame
pub mod Decoded
use rust_kingbase.Prelude.{
  if◌then◌else◌, Bytes, length, ◌>>=◌, Result, message, ok, err, panic, ℕ, zero, suc, ◌+◌, Bool,
  Option, some, List, [], ◌∷◌, ◌++◌,
}
use rust_kingbase.Prelude.Int.{ℤ}
use rust_kingbase.Wire.Crates.{Crates}
use rust_kingbase.Message.Backend.Body.{
  Message, error_response, notice_response, notification_response, parameter_status,
}
use rust_kingbase.Message.Backend.Iterators.{get_str, parameters, fields}
use rust_kingbase.Codec.{next, BackendMessage, normal, async}
use rust_kingbase.Client.DbError.{
  parse_db_error, db_error, DbError, ClientError, io_failed, parse_failed, unexpected_message,
  connection_closed,
}
use rust_kingbase.Client.Connection.{
  is_active, insert_parameter, Incoming, SenderPoll, Connection, no_bytes, end_of_stream, broken,
  arrived, has_room, hung_up, no_room,
}

pub record Notification : Type 0 where
  pub process_id : ℤ
  pub channel : Bytes
  pub payload : Bytes

pub data AsyncMessage : Type 0 where
  notice : DbError → AsyncMessage
  notification : Notification → AsyncMessage

-- How `poll_read` ends: with nothing to report, with a message, with an error, or with a panic.
pub data ReadEnd : Type 0 where
  nothing_read : ReadEnd
  read_message : AsyncMessage → ReadEnd
  read_failed : ClientError → ReadEnd
  read_panicked : ReadEnd

-- What one round of the loop makes of the connection.
pub data ReadRound : Type 0 where
  read_done : ReadEnd → Connection → ReadRound
  read_on : Connection → ReadRound

poll_response_of : List BackendMessage → List Incoming → Connection → Incoming × Connection
poll_response_of (m ∷ ms) answers c = (arrived m, record c { pending_responses = ms })
poll_response_of [] [] c = (no_bytes, c)
poll_response_of [] (a ∷ answers) c = (a, record c { incoming = answers })

unfoldable pub poll_response : Connection → Incoming × Connection
unfolding poll_response_of
poll_response c = poll_response_of c.pending_responses c.incoming c

-- `.map_err(Error::parse)?`
unfoldable pub or_parse_failed : Connection → Result ReadRound → ReadRound
or_parse_failed c (ok r) = r
or_parse_failed c (err e) = read_done (read_failed (parse_failed e)) c
or_parse_failed c panic = read_done read_panicked c

module _ (crates : Crates) (lossy : Bytes → Bytes) where
  -- The arms of `poll_read` for `BackendMessage::Async`; the last of them is `unreachable!()`.
  unfoldable pub read_async : Message → Connection → ReadRound
  unfolding or_parse_failed
  read_async (notice_response fields) c =
      or_parse_failed c
        (do e ← parse_db_error crates lossy fields; ok (read_done (read_message (notice e)) c))
  read_async (notification_response body) c = or_parse_failed c (do
    channel ← get_str body.channel
    payload ← get_str body.message
    ok (
        read_done
          (read_message (
            notification
              (record { process_id = body.process_id; channel = channel; payload = payload })))
          c))
  read_async (parameter_status body) c = or_parse_failed c (do
    name ← get_str body.name
    value ← get_str body.value
    ok (read_on (record c { parameters = insert_parameter name value c.parameters })))
  read_async _ c = read_done read_panicked c

  -- The first message of a batch that no request waits for.
  unfoldable pub unasked : Option Message → Connection → ReadRound
  unasked (some (error_response fields)) c = elim (db_error crates lossy fields) [
    | ok e ↦ read_done (read_failed e) c
    | err e ↦ read_done (read_failed (parse_failed e)) c
    | panic ↦ read_done read_panicked c
  ]
  unasked _ c = read_done (read_failed unexpected_message) c

module _ (crates : Crates) (lossy : Bytes → Bytes) where
  -- A batch, with the answers of the senders and the responses that are waited for.
  unfoldable pub respond : Bytes → Bool → List SenderPoll → List ℕ → Connection → ReadRound
  unfolding or_parse_failed
  respond messages complete polls [] c =
      or_parse_failed c (do (first, _) ← next crates messages; ok (unasked crates lossy first c))
  respond messages complete [] (r ∷ rs) c =
      read_done nothing_read
        (record c { pending_responses = c.pending_responses ++ normal messages complete ∷ [] })
  respond messages complete (no_room ∷ polls) (r ∷ rs) c = read_done nothing_read (record c {
    senders = polls;
    pending_responses = c.pending_responses ++ normal messages complete ∷ [];
  })
  respond messages complete (has_room ∷ polls) (r ∷ rs) c = read_on (record c {
    senders = polls;
    delivered = c.delivered ++ (r, messages) ∷ [];
    responses = if complete then rs else r ∷ rs;
  })
  respond messages complete (hung_up ∷ polls) (r ∷ rs) c =
      read_on (record c { senders = polls; responses = if complete then rs else r ∷ rs })

module _ (crates : Crates) (lossy : Bytes → Bytes) where
  unfoldable pub read_answer : Incoming → Connection → ReadRound
  read_answer no_bytes c = read_done nothing_read c
  read_answer end_of_stream c = read_done (read_failed connection_closed) c
  read_answer (broken e) c = read_done (read_failed (io_failed e)) c
  read_answer (arrived (async m)) c = read_async crates lossy m c
  read_answer (arrived (normal messages complete)) c =
      respond crates lossy messages complete c.senders c.responses c

  unfoldable pub read_round : Connection → ReadRound
  read_round c = let (answer, c') = poll_response c in read_answer answer c'

module _ (crates : Crates) (lossy : Bytes → Bytes) where
  -- The loop of `poll_read`. A round that goes on has taken one of the messages that are pending or to
  -- come, so that their number and one more is enough fuel; without fuel the model panics.
  unfoldable pub read_loop : ℕ → Connection → ReadEnd × Connection
  read_loop zero c = (read_panicked, c)
  read_loop (suc fuel) c = elim (read_round crates lossy c) [
    | read_done end c' ↦ (end, c')
    | read_on c' ↦ read_loop fuel c'
  ]

module _ (crates : Crates) (lossy : Bytes → Bytes) where
  unfoldable pub poll_read : Connection → ReadEnd × Connection
  poll_read c =
      if is_active c.state
      then read_loop crates lossy (suc (length c.pending_responses + length c.incoming)) c
      else (nothing_read, c)
