-- ===== src/Client/Connection/Poll.antt =====
-- poll_message_inner, poll_message and the future of tokio-postgres/src/connection.rs.
pub mod Total
pub mod Future
use rust_kingbase.Prelude.{Bytes, length, ℕ, zero, suc, ◌+◌, true, false, Option, none, some}
use rust_kingbase.Wire.Crates.{Crates}
use rust_kingbase.Client.DbError.{ClientError}
use rust_kingbase.Client.Connection.{Connection}
use rust_kingbase.Client.Connection.Read.{
  poll_read, AsyncMessage, ReadEnd, nothing_read, read_message, read_failed, read_panicked,
}
use rust_kingbase.Client.Connection.Write.{
  poll_write, poll_flush, poll_shutdown, WriteEnd, want_flush, write_failed, write_panicked,
  settled, unsettled, settle_failed,
}

-- What `poll_message` answers: pending, `None`, a message, or an error.
pub data MessagePoll : Type 0 where
  no_message : MessagePoll
  no_more_messages : MessagePoll
  got_message : AsyncMessage → MessagePoll
  message_failed : ClientError → MessagePoll
  message_panicked : MessagePoll

-- The `match` on the message, once everything is written and flushed.
unfoldable pub after_flush : Option AsyncMessage → Connection → MessagePoll × Connection
after_flush (some m) c = (got_message m, c)
after_flush none c =
    let (answer, c') = poll_shutdown c in
    elim answer [
      | settled ↦ (no_more_messages, c')
      | unsettled ↦ (no_message, c')
      | settle_failed e ↦ (message_failed e, c')
    ]

unfoldable pub flush_message : Option AsyncMessage → Connection → MessagePoll × Connection
flush_message m c =
    let (error, c') = poll_flush c in
    elim error [ none ↦ after_flush m c' | some e ↦ (message_failed e, c') ]

unfoldable pub after_write : Option AsyncMessage → WriteEnd × Connection → MessagePoll × Connection
after_write m (want_flush true, c) = flush_message m c
after_write m (want_flush false, c) = after_flush m c
after_write m (write_failed e, c) = (message_failed e, c)
after_write m (write_panicked, c) = (message_panicked, c)

module _ (crates : Crates) where
  unfoldable pub after_read : ReadEnd × Connection → MessagePoll × Connection
  after_read (nothing_read, c) = after_write none (poll_write crates c)
  after_read (read_message m, c) = after_write (some m) (poll_write crates c)
  after_read (read_failed e, c) = (message_failed e, c)
  after_read (read_panicked, c) = (message_panicked, c)

-- A terminal answer closes the receiver of requests.
unfoldable pub close_after : MessagePoll × Connection → MessagePoll × Connection
close_after (no_message, c) = (no_message, c)
close_after (got_message m, c) = (got_message m, c)
close_after (no_more_messages, c) = (no_more_messages, record c { receiver_closed = true })
close_after (message_failed e, c) = (message_failed e, record c { receiver_closed = true })
close_after (message_panicked, c) = (message_panicked, c)

module _ (crates : Crates) (lossy : Bytes → Bytes) where
  unfoldable pub poll_message_inner : Connection → MessagePoll × Connection
  poll_message_inner c = after_read crates (poll_read crates lossy c)

  unfoldable pub poll_message : Connection → MessagePoll × Connection
  poll_message c = close_after (poll_message_inner c)

-- What the future answers.
pub data Outcome : Type 0 where
  waits : Outcome
  completes : Outcome
  fails : ClientError → Outcome
  panics : Outcome

module _ (crates : Crates) (lossy : Bytes → Bytes) where
  -- The loop of `poll`, less its log. Each message of the loop has come from the stream, so that the
  -- number of what is pending and to come and one more is enough fuel; without fuel the model panics.
  unfoldable pub poll_rounds : ℕ → Connection → Outcome × Connection
  poll_rounds zero c = (panics, c)
  poll_rounds (suc fuel) c =
      let (answer, c') = poll_message crates lossy c in
      elim answer [
        | no_message ↦ (waits, c')
        | no_more_messages ↦ (completes, c')
        | got_message m ↦ poll_rounds fuel c'
        | message_failed e ↦ (fails e, c')
        | message_panicked ↦ (panics, c')
      ]

  unfoldable pub poll : Connection → Outcome × Connection
  poll c = poll_rounds (suc (length c.pending_responses + length c.incoming)) c
