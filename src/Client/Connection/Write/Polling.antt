-- ===== src/Client/Connection/Write/Polling.antt =====
-- A round of `poll_write` moves the output into the stream.
use rust_kingbase.Client.Connection.Write.Sending.{KeptRound, terminate_lem, write_messages-Kept}
use rust_kingbase.Prelude.{
  if◌then◌else◌, length, ℕ, suc, ◌≡◌, refl, sym, ap, ◌∙◌, Bool, true, false, ◌&&◌, Option, none,
  some, List, [], ◌∷◌, ◌++◌, append-nil, append_assoc,
}
use rust_kingbase.Wire.Crates.{Crates}
use rust_kingbase.Codec.{FrontendMessage}
use rust_kingbase.Client.Connection.{
  is_active, is_closing, Polled, RequestMessages, Request, SocketPoll, Connection, not_yet, item,
  ended, active, closing, socket_ready, socket_busy, socket_failed,
}
use rust_kingbase.Client.Connection.Write.{
  poll_requests, poll_request_of, poll_request, send, is_empty, write_single, write_messages,
  write_terminate, write_request, write_polled, write_round, WriteRound, want_flush, write_failed,
  write_panicked, write_done, write_on,
}
use rust_kingbase.Client.Connection.Write.Output.{
  output_of, to_come, output, terminate_message, to_answer, read_side, Writes, sent, closed,
}

abbrev pub WritesRound : Crates → Connection → WriteRound → Type 0
WritesRound crates c (write_done (want_flush b) c') = Writes crates c c'
WritesRound crates c (write_done (write_failed e) c') = Writes crates c c'
WritesRound crates c (write_done write_panicked c') = ⊥
WritesRound crates c (write_on c') =
    Writes crates c c' × (suc (length c'.sockets) ≡ length c.sockets)

module _ (crates : Crates) where
  -- What a connection has in common with the one before the poll of the socket.
  record Polls (c c₁ : Connection) : Type 0 where
    was_active : c.state ≡ active
    is_active_still : c₁.state ≡ active
    same_output : output crates c₁ ≡ output crates c
    same_answers : to_answer c₁ ≡ to_answer c
    fewer : suc (length c₁.sockets) ≡ length c.sockets
    same_reads : read_side c₁ ≡ read_side c

  KeptRound-WritesRound :
      (c c₁ : Connection) (out : List FrontendMessage) (r : WriteRound)
      → c.state ≡ active
      → c₁.written ++ out ≡ output crates c
      → to_answer c₁ ≡ to_answer c
      → suc (length c₁.sockets) ≡ length c.sockets
      → read_side c₁ ≡ read_side c
      → KeptRound crates c₁ out r
      → WritesRound crates c r
  KeptRound-WritesRound c c₁ out (write_done (want_flush b) c') h o a n s k =
      sent h k.active_still (k.out_kept ∙ o) (k.answers_kept ∙ a) (k.reads_kept ∙ s)
  KeptRound-WritesRound c c₁ out (write_done (write_failed e) c') h o a n s k =
      sent h k.active_still (k.out_kept ∙ o) (k.answers_kept ∙ a) (k.reads_kept ∙ s)
  KeptRound-WritesRound c c₁ out (write_done write_panicked c') h o a n s k = k
  KeptRound-WritesRound c c₁ out (write_on c') h o a n s k = (
    sent h k.active_still (k.out_kept ∙ o) (k.answers_kept ∙ a) (k.reads_kept ∙ s),
    ap (λ l. suc (length l)) k.sockets_kept ∙ n,
  )

  write_terminate_lem :
      (c : Connection)
      → write_terminate crates c
        ≡ write_on (record (send (terminate_message crates) c) { state = closing })
  unfolding write_terminate write_messages write_single
  write_terminate_lem c = rw (write_terminate, terminate_lem crates) refl

  -- At the end of the requests, with nothing pending: `c` is the connection before the poll.
  write_ended-WritesRound :
      (c c₁ : Connection) (rs : List ℕ)
      → Polls c c₁
      → output crates c₁ ≡ c₁.written
      → to_answer c₁ ≡ rs
      → WritesRound crates c (
          if is_empty rs && is_active c₁.state
          then write_terminate crates c₁
          else write_done (want_flush true) c₁)
  write_ended-WritesRound c c₁ (r ∷ rs) k o a =
      sent k.was_active k.is_active_still k.same_output k.same_answers k.same_reads
  write_ended-WritesRound c c₁ [] k o a =
      rw (ap is_active k.is_active_still, write_terminate_lem c₁)
        (
          closed k.was_active (sym k.same_answers ∙ a) refl
              (ap (λ w. w ++ terminate_message crates ∷ []) (sym o ∙ k.same_output)) a k.same_reads,
          k.fewer,
        )

  write_requests-WritesRound :
      (c c₁ : Connection) (requests : List (Polled Request))
      → Polls c c₁
      → c₁.requests ≡ requests
      → c₁.pending_request ≡ none
      → c₁.terminated ≡ false
      → WritesRound crates c
          (let (request, c') = poll_requests requests c₁ in write_request crates request c')
  unfolding poll_requests write_request
  write_requests-WritesRound c c₁ [] k e p t =
      sent k.was_active k.is_active_still k.same_output k.same_answers k.same_reads
  write_requests-WritesRound c c₁ (not_yet ∷ polls) k e p t =
      sent k.was_active k.is_active_still
        (ap (λ l. c₁.written ++ l) (rw (p, t, e) refl) ∙ k.same_output)
        (ap (λ l. c₁.responses ++ l) (rw (t, e) refl) ∙ k.same_answers) k.same_reads
  write_requests-WritesRound c c₁ (item request ∷ polls) k e p t =
      KeptRound-WritesRound c _
        (output_of crates request.messages ++ to_come crates (record c₁ { requests = polls })) _
        k.was_active (ap (λ l. c₁.written ++ l) (rw (p, t, e) refl) ∙ k.same_output)
        (append_assoc c₁.responses (request.sender ∷ []) _
          ∙ ap (λ l. c₁.responses ++ l) (rw (t, e) refl)
          ∙ k.same_answers)
        k.fewer k.same_reads
        (write_messages-Kept crates request.messages
          (record c₁ { requests = polls; responses = c₁.responses ++ request.sender ∷ [] })
          k.is_active_still p)
  write_requests-WritesRound c c₁ (ended ∷ polls) k e p t =
      write_ended-WritesRound c (record c₁ { requests = polls; terminated = true }) c₁.responses
        (record {
          was_active = k.was_active;
          is_active_still = k.is_active_still;
          same_output = ap (λ l. c₁.written ++ l) (rw (p, t, e) refl) ∙ k.same_output;
          same_answers = ap (λ l. c₁.responses ++ l) (rw (t, e) refl) ∙ k.same_answers;
          fewer = k.fewer;
          same_reads = k.same_reads;
        })
        (rw p (append-nil c₁.written)) (append-nil c₁.responses)

  write_unpended-WritesRound :
      (c c₁ : Connection) (t : Bool)
      → Polls c c₁
      → c₁.pending_request ≡ none
      → c₁.terminated ≡ t
      → WritesRound crates c (
          let (request, c') = if t then (ended, c₁) else poll_requests c₁.requests c₁ in
          write_request crates request c')
  unfolding write_request
  write_unpended-WritesRound c c₁ true k e t =
      write_ended-WritesRound c c₁ c₁.responses k (rw (e, t) (append-nil c₁.written))
        (rw t (append-nil c₁.responses))
  write_unpended-WritesRound c c₁ false k e t =
      write_requests-WritesRound c c₁ c₁.requests k refl e t

  write_request-WritesRound :
      (c c₁ : Connection) (pending : Option RequestMessages)
      → Polls c c₁
      → c₁.pending_request ≡ pending
      → WritesRound crates c
          (let (request, c') = poll_request_of pending c₁ in write_request crates request c')
  unfolding poll_request_of write_request
  write_request-WritesRound c c₁ (some messages) k e =
      KeptRound-WritesRound c (record c₁ { pending_request = none })
        (output_of crates messages ++ to_come crates c₁) _ k.was_active
        (ap (λ l. c₁.written ++ l) (rw e refl) ∙ k.same_output) k.same_answers k.fewer k.same_reads
        (write_messages-Kept crates messages (record c₁ { pending_request = none })
          k.is_active_still refl)
  write_request-WritesRound c c₁ none k e = write_unpended-WritesRound c c₁ c₁.terminated k e refl

  write_polled-WritesRound :
      (polls : List SocketPoll) (c : Connection)
      → c.sockets ≡ polls
      → c.state ≡ active
      → WritesRound crates c (write_polled crates polls c)
  unfolding write_polled poll_request
  write_polled-WritesRound [] c e h = sent h h refl refl refl
  write_polled-WritesRound (socket_busy ∷ polls) c e h = sent h h refl refl refl
  write_polled-WritesRound (socket_failed x ∷ polls) c e h = sent h h refl refl refl
  write_polled-WritesRound (socket_ready ∷ polls) c e h =
      write_request-WritesRound c (record c { sockets = polls }) c.pending_request
        (record {
          was_active = h;
          is_active_still = h;
          same_output = refl;
          same_answers = refl;
          fewer = sym (ap length e);
          same_reads = refl;
        })
        refl

  pub write_round-WritesRound :
      (c : Connection) → c.state ≡ active → WritesRound crates c (write_round crates c)
  unfolding write_round
  write_round-WritesRound c h = rw (ap is_closing h) (write_polled-WritesRound c.sockets c refl h)

  pub write_round_closing :
      (c : Connection) → c.state ≡ closing → write_round crates c ≡ write_done (want_flush false) c
  unfolding write_round
  write_round_closing c h = rw (ap is_closing h) refl
