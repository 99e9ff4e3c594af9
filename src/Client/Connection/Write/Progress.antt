-- ===== src/Client/Connection/Write/Progress.antt =====
-- `poll_write` puts the requests that wait into the stream while the socket is ready.
use rust_kingbase.Prelude.{
  length, ℕ, zero, suc, ◌+◌, ◌<◌, ◌≡◌, refl, ap₂, ◌∙◌, true, false, none, List, [], ◌∷◌, ◌++◌,
  append-nil, append_assoc, arith,
}
use rust_kingbase.Wire.Crates.{Crates}
use rust_kingbase.Codec.{FrontendMessage}
use rust_kingbase.Client.Connection.{
  Polled, Request, SocketPoll, Connection, item, single, active, socket_ready,
}
use rust_kingbase.Client.Connection.Write.{
  poll_requests, poll_request_of, poll_request, write_single, write_messages, write_request,
  write_polled, write_round, write_loop, poll_write, want_flush,
}

-- Requests of one message each, with their senders, as the channel gives them, and a socket that is
-- ready so many times.
abbrev pub queued : List (FrontendMessage × ℕ) → List (Polled Request)
queued [] = []
queued ((m, sender) ∷ rs) = item (record { messages = single m; sender = sender }) ∷ queued rs

abbrev pub ready_times : ℕ → List SocketPoll → List SocketPoll
ready_times zero more = more
ready_times (suc n) more = socket_ready ∷ ready_times n more

abbrev pub messages_of : List (FrontendMessage × ℕ) → List FrontendMessage
messages_of [] = []
messages_of ((m, sender) ∷ rs) = m ∷ messages_of rs

abbrev pub senders_of : List (FrontendMessage × ℕ) → List ℕ
senders_of [] = []
senders_of ((m, sender) ∷ rs) = sender ∷ senders_of rs

-- An active connection on which these requests wait, with a socket that is ready once for each and
-- once more; and the same connection when they are in the stream and wait for their answers.
abbrev pub waiting_on : List (FrontendMessage × ℕ) → List SocketPoll → Connection → Connection
waiting_on rs more c = record c {
  state = active;
  pending_request = none;
  terminated = false;
  requests = queued rs;
  sockets = ready_times (suc (length rs)) more;
}

abbrev pub all_sent : List (FrontendMessage × ℕ) → List SocketPoll → Connection → Connection
all_sent rs more c = record c {
  state = active;
  pending_request = none;
  terminated = false;
  requests = [];
  sockets = more;
  written = c.written ++ messages_of rs;
  responses = c.responses ++ senders_of rs;
}

length-ready_times :
    (n : ℕ) (more : List SocketPoll) → length (ready_times n more) ≡ n + length more
length-ready_times zero more = omega arith
length-ready_times (suc n) more = let ih = length-ready_times n more in omega arith

module _ (crates : Crates) where
  write_loop_sends :
      (fuel : ℕ) (rs : List (FrontendMessage × ℕ)) (more : List SocketPoll) (c : Connection)
      → length rs < fuel
      → write_loop crates fuel (waiting_on rs more c) ≡ (want_flush true, all_sent rs more c)
  unfolding write_loop write_round write_polled poll_request poll_request_of poll_requests
      write_request write_messages write_single
  write_loop_sends zero rs more c h = absurd (omega arith)
  write_loop_sends (suc fuel) [] more c h = rw (append-nil c.written, append-nil c.responses) refl
  write_loop_sends (suc fuel) ((m, sender) ∷ rs) more c h =
      let sent_one : Connection = record c {
        written = c.written ++ m ∷ [];
        responses = c.responses ++ sender ∷ [];
      } in
      write_loop_sends fuel rs more sent_one (omega arith)
      ∙ ap₂ (λ w r. (want_flush true, record (all_sent rs more c) { written = w; responses = r }))
          (append_assoc c.written (m ∷ []) (messages_of rs))
          (append_assoc c.responses (sender ∷ []) (senders_of rs))

  -- One `poll_write` of an active connection puts every waiting request of one message into the stream,
  -- in their order, when the socket stays ready: once for each of them and once more. Their senders then
  -- wait for answers behind those that waited already, and the stream is to be flushed.
  pub poll_write_sends :
      (rs : List (FrontendMessage × ℕ)) (more : List SocketPoll) (c : Connection)
      → poll_write crates (waiting_on rs more c) ≡ (want_flush true, all_sent rs more c)
  unfolding poll_write
  poll_write_sends rs more c =
      write_loop_sends _ rs more c (rw (length-ready_times (length rs) more) (omega arith))
