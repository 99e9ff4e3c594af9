-- ===== src/Examples/Session.antt =====
-- The theorems of `Client` at a session with one waiting request and one that arrives.
use rust_kingbase.Message.Backend.Body.{parameter_status, notification_response}
use rust_kingbase.Prelude.{
  ℕ, Bytes, Returns, ◌≡◌, refl, inl, true, false, some, List, [], ◌∷◌, ◌++◌,
}
use rust_kingbase.Prelude.Int.{pos}
use rust_kingbase.Wire.Text.{codes}
use rust_kingbase.Wire.Write.{write_at, sub_usize, from_usize}
use rust_kingbase.Wire.Standard.{standard}
use rust_kingbase.Message.Frontend.{write_body, copy_done, sync}
use rust_kingbase.Codec.{FrontendMessage, raw, normal, async}
use rust_kingbase.Client.Connection.Write.Progress.{waiting_on, all_sent, poll_write_sends}
use rust_kingbase.Client.DbError.{parse_db_error}
use rust_kingbase.Client.DbError.Total.{parse_db_error-Returns}
use rust_kingbase.Client.Connection.{
  Polled, Request, Incoming, Connection, message_of_copy, copy_finished, item, ended, single,
  copy_in, active, no_bytes, arrived, has_room, socket_ready,
}
use rust_kingbase.Client.Connection.Read.{poll_read}
use rust_kingbase.Client.Connection.Read.Router.{IsOrderly, is_notification, is_parameter}
use rust_kingbase.Client.Connection.Read.Order.{InOrder, poll_read-InOrder}
use rust_kingbase.Client.Connection.Write.{
  poll_receiver, poll_copy_in, poll_requests, poll_request_of, poll_request, write_single,
  write_copy, write_messages, write_request, write_polled, write_round, write_loop, poll_write,
  want_flush,
}
use rust_kingbase.Client.Connection.Write.Output.{copy_end}
use rust_kingbase.Client.Connection.Write.Loop.{WritesEnd, poll_write-Writes}
use rust_kingbase.Client.Connection.Poll.{poll}
use rust_kingbase.Client.Connection.Poll.Total.{IsLive}
use rust_kingbase.Client.Connection.Poll.Future.{OutcomeLive, poll-OutcomeLive}

-- A parameter, the end of the first answer, a notification, and then no bytes.
abbrev session_incoming : List Incoming
session_incoming =
    arrived (async (parameter_status (record { name = codes "TimeZone"; value = codes "UTC" })))
    ∷ arrived (normal (codes "Z") true)
    ∷ arrived (
        async (
          notification_response
            (record { process_id = pos 7; channel = codes "news"; message = codes "hello" })))
    ∷ no_bytes
    ∷ []

-- A copy that is finished after one message, and then the end of the requests.
abbrev session_requests : List (Polled Request)
session_requests =
    item (record {
      messages = copy_in (record {
        receiver = item (message_of_copy (raw (codes "d"))) ∷ item copy_finished ∷ [];
        done = false;
      });
      sender = 2;
    })
    ∷ ended
    ∷ []

abbrev session : Connection
session = record {
  incoming = session_incoming;
  requests = session_requests;
  senders = has_room ∷ [];
  sockets = socket_ready ∷ socket_ready ∷ socket_ready ∷ socket_ready ∷ [];
  written = [];
  delivered = [];
  terminated = false;
  receiver_closed = false;
  parameters = [];
  pending_request = some (single (raw (codes "Q")));
  pending_responses = [];
  responses = 1 ∷ [];
  state = active;
}

abbrev keep : Bytes → Bytes
keep s = s

session-IsOrderly : IsOrderly session
session-IsOrderly = record {
  pending = tt;
  coming = (is_parameter _, (tt, (is_notification _, (tt, tt))));
}

session-IsLive : IsLive session
session-IsLive = record { orderly = session-IsOrderly; open_or_closing = inl refl }

poll_read-InOrder_example : InOrder session (poll_read standard keep session)
poll_read-InOrder_example = poll_read-InOrder standard keep session session-IsOrderly

poll_write-Writes_example : WritesEnd standard session (poll_write standard session)
poll_write-Writes_example = poll_write-Writes standard session (inl refl)

poll-OutcomeLive_example : OutcomeLive (poll standard keep session)
poll-OutcomeLive_example = poll-OutcomeLive standard keep session session-IsLive

-- The pending request is written, and the whole copy behind it.
session_writes :
    (poll_write standard session).1.written
    ≡ raw (codes "Q") ∷ raw (codes "d") ∷ copy_end standard true ∷ []
unfolding poll_write write_loop write_round write_polled poll_request poll_request_of poll_requests
    write_request write_messages write_single write_copy poll_copy_in poll_receiver copy_done sync
    write_body from_usize sub_usize write_at
session_writes = refl

parse_db_error-Returns_example :
    Returns (
      parse_db_error standard keep (b'S' ∷ codes "FATAL" ++ 0 ∷ b'C' ∷ codes "28P01" ++ 0 ∷ 0 ∷ []))
parse_db_error-Returns_example = parse_db_error-Returns standard keep _

-- Two requests that wait.
abbrev two_requests : List (FrontendMessage × ℕ)
two_requests = (raw (codes "first"), 2) ∷ (raw (codes "second"), 3) ∷ []

poll_write_sends_example :
    poll_write standard (waiting_on two_requests [] session)
    ≡ (want_flush true, all_sent two_requests [] session)
poll_write_sends_example = poll_write_sends standard two_requests [] session
