-- ===== src/Client/Connection/Poll/Future.antt =====
-- poll_message and the future of a connection end without a panic.
use rust_kingbase.Prelude.{
  Bytes, length, length-append, ℕ, zero, suc, ◌+◌, ◌≤◌, ◌<◌, ◌≡◌, refl, sym, ap, subst, ◌∙◌, ◌⊎◌,
  true, none, some, List, [], ◌∷◌, arith,
}
use rust_kingbase.Wire.Crates.{Crates}
use rust_kingbase.Client.Connection.{
  Incoming, Connection, active, closing, no_bytes, end_of_stream, broken, arrived,
}
use rust_kingbase.Client.Connection.Read.{
  poll_read, ReadEnd, nothing_read, read_message, read_failed, read_panicked,
}
use rust_kingbase.Client.Connection.Read.Router.{arrivals, to_route}
use rust_kingbase.Client.Connection.Read.Routing.{Reads, poll_read-Reads}
use rust_kingbase.Client.Connection.Read.Frame.{write_side, poll_read_keeps}
use rust_kingbase.Client.Connection.Write.{poll_write}
use rust_kingbase.Client.Connection.Write.Loop.{poll_write-Writes}
use rust_kingbase.Client.Connection.Poll.{
  after_read, close_after, poll_message_inner, poll_message, poll_rounds, poll, MessagePoll,
  Outcome, no_message, no_more_messages, got_message, message_failed, message_panicked, waits,
  completes, fails, panics,
}
use rust_kingbase.Client.Connection.Poll.Total.{InnerLive, PollLive, after_write-InnerLive, IsLive}

arrivals-length : (answers : List Incoming) → length (arrivals answers) ≤ length answers
arrivals-length [] = omega arith
arrivals-length (arrived m ∷ answers) = let ih = arrivals-length answers in omega arith
arrivals-length (no_bytes ∷ answers) = let ih = arrivals-length answers in omega arith
arrivals-length (end_of_stream ∷ answers) = let ih = arrivals-length answers in omega arith
arrivals-length (broken e ∷ answers) = let ih = arrivals-length answers in omega arith

-- What the future may answer.
abbrev pub OutcomeLive : Outcome × Connection → Type 0
OutcomeLive (waits, c) = IsLive c
OutcomeLive (completes, c) = (c.state ≡ closing) × (c.receiver_closed ≡ true)
OutcomeLive (fails e, c) = c.receiver_closed ≡ true
OutcomeLive (panics, c) = ⊥

close_after-PollLive :
    (n : ℕ) (r : MessagePoll × Connection) → InnerLive n r → PollLive n (close_after r)
unfolding close_after
close_after-PollLive n (no_message, c) h = h
close_after-PollLive n (got_message m, c) h = h
close_after-PollLive n (no_more_messages, c) h = (h, refl)
close_after-PollLive n (message_failed e, c) h = refl
close_after-PollLive n (message_panicked, c) h = h

module _ (crates : Crates) (lossy : Bytes → Bytes) where
  after_read-InnerLive :
      (c : Connection) (r : ReadEnd × Connection)
      → (c.state ≡ active) ⊎ (c.state ≡ closing)
      → write_side r.1 ≡ write_side c
      → Reads c r
      → InnerLive (length (to_route c)) (after_read crates r)
  unfolding after_read
  after_read-InnerLive c (nothing_read, c') s e (ms, middle, split, routes, waited, orderly) =
      let live : (c'.state ≡ active) ⊎ (c'.state ≡ closing) =
        subst (λ x. (x ≡ active) ⊎ (x ≡ closing)) (sym (ap (λ w. w.5) e)) s in
      after_write-InnerLive crates none _ c' (poll_write crates c')
        (record { orderly = orderly; open_or_closing = live }) (poll_write-Writes crates c' live)
  after_read-InnerLive c (read_message m, c') s e (ms, split, one, routes, orderly) =
      let live : (c'.state ≡ active) ⊎ (c'.state ≡ closing) =
        subst (λ x. (x ≡ active) ⊎ (x ≡ closing)) (sym (ap (λ w. w.5) e)) s in
      let split_length : length (to_route c) ≡ length ms + length (to_route c') =
        ap length split ∙ length-append ms (to_route c') in
      let shorter : length (to_route c') < length (to_route c) = omega arith in
      after_write-InnerLive crates (some m) _ c' (poll_write crates c')
        (record { orderly = orderly; open_or_closing = live }, shorter)
        (poll_write-Writes crates c' live)
  after_read-InnerLive c (read_failed x, c') s e h = tt
  after_read-InnerLive c (read_panicked, c') s e h = h

  -- From a live connection `poll_message` does not panic. While it is pending or gives a message the
  -- connection stays live, and a message has been taken from those to come; with `None` the connection
  -- is closing; and after `None` or an error the receiver of requests is closed.
  pub poll_message-PollLive :
      (c : Connection) → IsLive c → PollLive (length (to_route c)) (poll_message crates lossy c)
  unfolding poll_message poll_message_inner
  poll_message-PollLive c h = close_after-PollLive _ _ (
      after_read-InnerLive c (poll_read crates lossy c) h.open_or_closing
        (poll_read_keeps crates lossy c) (poll_read-Reads crates lossy c h.orderly))

  future_step :
      (fuel : ℕ) (n : ℕ) (r : MessagePoll × Connection)
      → ((c : Connection)
          → IsLive c
          → length (to_route c) < fuel
          → OutcomeLive (poll_rounds crates lossy fuel c))
      → n < suc fuel
      → PollLive n r
      → OutcomeLive (
          let (answer, c') = r in
          elim answer as (λ _. Outcome × Connection) [
            | no_message ↦ (waits, c')
            | no_more_messages ↦ (completes, c')
            | got_message m ↦ poll_rounds crates lossy fuel c'
            | message_failed e ↦ (fails e, c')
            | message_panicked ↦ (panics, c')
          ])
  future_step fuel n (no_message, c) ih l h = h
  future_step fuel n (got_message m, c) ih l (h, k) = ih c h (omega arith)
  future_step fuel n (no_more_messages, c) ih l h = h
  future_step fuel n (message_failed e, c) ih l h = h
  future_step fuel n (message_panicked, c) ih l h = h

  poll_rounds-OutcomeLive :
      (fuel : ℕ) (c : Connection)
      → IsLive c
      → length (to_route c) < fuel
      → OutcomeLive (poll_rounds crates lossy fuel c)
  unfolding poll_rounds
  poll_rounds-OutcomeLive zero c h l = absurd (omega arith)
  poll_rounds-OutcomeLive (suc fuel) c h l =
      future_step fuel _ (poll_message crates lossy c) (poll_rounds-OutcomeLive fuel) l
        (poll_message-PollLive c h)

  -- The future of a live connection ends each poll without a panic and within its rounds. When it
  -- waits the connection is live again; when it completes the connection is closing; and when it
  -- completes or fails the receiver of requests is closed.
  pub poll-OutcomeLive : (c : Connection) → IsLive c → OutcomeLive (poll crates lossy c)
  unfolding poll
  poll-OutcomeLive c h =
      let few = arrivals-length c.incoming in
      poll_rounds-OutcomeLive _ c h
        (rw (length-append c.pending_responses (arrivals c.incoming)) (omega arith))
