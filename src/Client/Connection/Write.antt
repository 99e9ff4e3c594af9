-- ===== src/Client/Connection/Write.antt =====
-- poll_request, poll_write, poll_flush and poll_shutdown of tokio-postgres/src/connection.rs, and the
-- stream of a `CopyInReceiver` of copy_in.rs.
pub mod Output
pub mod Sending
pub mod Polling
pub mod Loop
pub mod Progress
use rust_kingbase.Prelude.{
  if◌then◌else◌, length, ◌>>=◌, expect_ok, Result, ok, err, panic, ℕ, zero, suc, Bool, true, false,
  ◌&&◌, Option, none, some, List, [], ◌∷◌, ◌++◌,
}
use rust_kingbase.Wire.Crates.{Crates}
use rust_kingbase.Message.Frontend.{copy_done, copy_fail, sync, terminate}
use rust_kingbase.Codec.{FrontendMessage, raw}
use rust_kingbase.Client.DbError.{ClientError, io_failed}
use rust_kingbase.Client.Connection.{
  is_active, is_closing, is_terminating, CopyInMessage, Polled, CopyInReceiver, RequestMessages,
  Request, SocketPoll, Connection, message_of_copy, copy_finished, not_yet, item, ended, single,
  copy_in, terminating, closing, socket_ready, socket_busy, socket_failed,
}

module _ (crates : Crates) where
  -- `poll_next` of the receiver of a copy, with the answers of its channel.
  unfoldable pub poll_receiver :
      List (Polled CopyInMessage)
      → CopyInReceiver
      → Result (Polled FrontendMessage × CopyInReceiver)
  poll_receiver [] r = ok (not_yet, r)
  poll_receiver (not_yet ∷ polls) r = ok (not_yet, record r { receiver = polls })
  poll_receiver (item (message_of_copy m) ∷ polls) r = ok (item m, record r { receiver = polls })
  poll_receiver (item copy_finished ∷ polls) r = do
    buf ← copy_done crates []
    buf ← sync crates buf
    ok (item (raw buf), record { receiver = polls; done = true })
  poll_receiver (ended ∷ polls) r = do
    buf ← expect_ok (copy_fail crates [] [])
    buf ← sync crates buf
    ok (item (raw buf), record { receiver = polls; done = true })

  unfoldable pub poll_copy_in : CopyInReceiver → Result (Polled FrontendMessage × CopyInReceiver)
  poll_copy_in r = if r.done then ok (ended, r) else poll_receiver r.receiver r

-- `poll_request` when no request is pending, with the answers of the channel of requests.
unfoldable pub poll_requests :
    List (Polled Request) → Connection → Polled RequestMessages × Connection
poll_requests [] c = (not_yet, c)
poll_requests (not_yet ∷ polls) c = (not_yet, record c { requests = polls })
poll_requests (item request ∷ polls) c = (
  item request.messages,
  record c { requests = polls; responses = c.responses ++ request.sender ∷ [] },
)
poll_requests (ended ∷ polls) c = (ended, record c { requests = polls; terminated = true })

unfoldable pub poll_request_of :
    Option RequestMessages → Connection → Polled RequestMessages × Connection
unfolding poll_requests
poll_request_of (some messages) c = (item messages, record c { pending_request = none })
poll_request_of none c = if c.terminated then (ended, c) else poll_requests c.requests c

unfoldable pub poll_request : Connection → Polled RequestMessages × Connection
poll_request c = poll_request_of c.pending_request c

-- How `poll_write` ends: with whether the stream is to be flushed, with an error, or with a panic.
pub data WriteEnd : Type 0 where
  want_flush : Bool → WriteEnd
  write_failed : ClientError → WriteEnd
  write_panicked : WriteEnd

pub data WriteRound : Type 0 where
  write_done : WriteEnd → Connection → WriteRound
  write_on : Connection → WriteRound

-- `start_send` of the stream.
abbrev pub send : FrontendMessage → Connection → Connection
send m c = record c { written = c.written ++ m ∷ [] }

abbrev pub is_empty {ℓ} : {A : Type ℓ} → List A → Bool
is_empty [] = true
is_empty (_ ∷ _) = false

module _ (crates : Crates) where
  unfoldable pub write_single : FrontendMessage → Connection → WriteRound
  write_single m c =
      if is_terminating c.state
      then write_on (record (send m c) { state = closing })
      else write_on (send m c)

  -- A poll of a copy, which stays the pending request until its stream has ended.
  unfoldable pub write_copy :
      Result (Polled FrontendMessage × CopyInReceiver) → Connection → WriteRound
  write_copy (ok (item m, r)) c =
      write_on (record (send m c) { pending_request = some (copy_in r) })
  write_copy (ok (ended, r)) c = write_on c
  write_copy (ok (not_yet, r)) c =
      write_done (want_flush true) (record c { pending_request = some (copy_in r) })
  write_copy (err e) c = write_done write_panicked c
  write_copy panic c = write_done write_panicked c

  unfoldable pub write_messages : RequestMessages → Connection → WriteRound
  write_messages (single m) c = write_single m c
  write_messages (copy_in r) c = write_copy (poll_copy_in crates r) c

  -- At the end of the requests.
  unfoldable pub write_terminate : Connection → WriteRound
  write_terminate c = elim (terminate crates []) [
    | ok buf ↦ write_messages (single (raw buf)) (record c { state = terminating })
    | err e ↦ write_done write_panicked c
    | panic ↦ write_done write_panicked c
  ]

  unfoldable pub write_request : Polled RequestMessages → Connection → WriteRound
  write_request (item request) c = write_messages request c
  write_request ended c =
      if is_empty c.responses && is_active c.state
      then write_terminate c
      else write_done (want_flush true) c
  write_request not_yet c = write_done (want_flush true) c

  -- One round of the loop, with the answers of the socket.
  unfoldable pub write_polled : List SocketPoll → Connection → WriteRound
  write_polled [] c = write_done (want_flush false) c
  write_polled (socket_busy ∷ polls) c =
      write_done (want_flush false) (record c { sockets = polls })
  write_polled (socket_failed e ∷ polls) c =
      write_done (write_failed (io_failed e)) (record c { sockets = polls })
  write_polled (socket_ready ∷ polls) c =
      let (request, c') = poll_request (record c { sockets = polls }) in write_request request c'

  unfoldable pub write_round : Connection → WriteRound
  write_round c =
      if is_closing c.state then write_done (want_flush false) c else write_polled c.sockets c

  -- The loop of `poll_write`. A round that goes on has taken an answer of the socket, so that their
  -- number and one more is enough fuel; without fuel the model panics.
  unfoldable pub write_loop : ℕ → Connection → WriteEnd × Connection
  write_loop zero c = (write_panicked, c)
  write_loop (suc fuel) c = elim (write_round c) [
    | write_done end c' ↦ (end, c')
    | write_on c' ↦ write_loop fuel c'
  ]

  unfoldable pub poll_write : Connection → WriteEnd × Connection
  poll_write c = write_loop (suc (length c.sockets)) c

-- A poll of the socket that sends what is buffered, or that closes.
pub data Settled : Type 0 where
  settled unsettled : Settled
  settle_failed : ClientError → Settled

unfoldable pub settle : List SocketPoll → Connection → Settled × Connection
settle [] c = (unsettled, c)
settle (socket_ready ∷ polls) c = (settled, record c { sockets = polls })
settle (socket_busy ∷ polls) c = (unsettled, record c { sockets = polls })
settle (socket_failed e ∷ polls) c = (settle_failed (io_failed e), record c { sockets = polls })

unfoldable pub poll_flush : Connection → Option ClientError × Connection
unfolding settle
poll_flush c =
    let (answer, c') = settle c.sockets c in
    elim answer [ settled ↦ (none, c') | unsettled ↦ (none, c') | settle_failed e ↦ (some e, c') ]

unfoldable pub poll_shutdown : Connection → Settled × Connection
unfolding settle
poll_shutdown c = if is_closing c.state then settle c.sockets c else (unsettled, c)
