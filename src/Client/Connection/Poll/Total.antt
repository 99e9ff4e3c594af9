-- ===== src/Client/Connection/Poll/Total.antt =====
-- The polls of a connection end without a panic and keep its invariant.
use rust_kingbase.Prelude.{
  if◌then◌else◌, length, All, ℕ, ◌<◌, ◌≡◌, refl, sym, ap, subst, ◌⊎◌, inl, inr, Bool, true, false,
  Option, none, some, List, [], ◌∷◌, ◌++◌,
}
use rust_kingbase.Wire.Crates.{Crates}
use rust_kingbase.Client.DbError.{ClientError}
use rust_kingbase.Client.Connection.{
  is_closing, SocketPoll, Connection, active, closing, socket_ready, socket_busy, socket_failed,
}
use rust_kingbase.Client.Connection.Read.{AsyncMessage}
use rust_kingbase.Client.Connection.Read.Router.{
  arrivals, to_route, IsAnswer, IsPendable, IsOrderly,
}
use rust_kingbase.Client.Connection.Write.{
  settle, poll_flush, poll_shutdown, WriteEnd, want_flush, write_failed, write_panicked, settled,
  unsettled, settle_failed,
}
use rust_kingbase.Client.Connection.Write.Output.{read_side, Writes, sent, closed, idle}
use rust_kingbase.Client.Connection.Write.Loop.{WritesEnd}
use rust_kingbase.Client.Connection.Poll.{
  after_flush, flush_message, after_write, MessagePoll, no_message, no_more_messages, got_message,
  message_failed, message_panicked,
}

-- The invariant of a connection between two polls.
pub record IsLive (c : Connection) : Type 0 where
  pub orderly : IsOrderly c
  pub open_or_closing : (c.state ≡ active) ⊎ (c.state ≡ closing)

-- What a poll may answer, when `n` messages were to be routed before it.
abbrev pub InnerLive : ℕ → MessagePoll × Connection → Type 0
InnerLive n (no_message, c) = IsLive c
InnerLive n (got_message m, c) = IsLive c × (length (to_route c) < n)
InnerLive n (no_more_messages, c) = c.state ≡ closing
InnerLive n (message_failed e, c) = Unit
InnerLive n (message_panicked, c) = ⊥

abbrev pub PollLive : ℕ → MessagePoll × Connection → Type 0
PollLive n (no_message, c) = IsLive c
PollLive n (got_message m, c) = IsLive c × (length (to_route c) < n)
PollLive n (no_more_messages, c) = (c.state ≡ closing) × (c.receiver_closed ≡ true)
PollLive n (message_failed e, c) = c.receiver_closed ≡ true
PollLive n (message_panicked, c) = ⊥

-- The message that was read, on its way through the rest of the poll.
abbrev pub AfterRead : Option AsyncMessage → ℕ → Connection → Type 0
AfterRead none n c = IsLive c
AfterRead (some m) n c = IsLive c × (length (to_route c) < n)

-- A connection that has polled its socket only.
on_sockets-IsLive :
    (c : Connection) (polls : List SocketPoll) → IsLive c → IsLive (record c { sockets = polls })
on_sockets-IsLive c polls h = record {
  orderly = record { pending = h.orderly.pending; coming = h.orderly.coming };
  open_or_closing = h.open_or_closing;
}

on_sockets-AfterRead :
    (m : Option AsyncMessage) (n : ℕ) (c : Connection) (polls : List SocketPoll)
    → AfterRead m n c
    → AfterRead m n (record c { sockets = polls })
on_sockets-AfterRead none n c polls h = on_sockets-IsLive c polls h
on_sockets-AfterRead (some m) n c polls (h, l) = (on_sockets-IsLive c polls h, l)

closing-InnerLive :
    (polls : List SocketPoll) (n : ℕ) (c : Connection)
    → c.state ≡ closing
    → IsLive c
    → InnerLive n (
        let (answer, c') = settle polls c in
        elim answer as (λ _. MessagePoll × Connection) [
          | settled ↦ (no_more_messages, c')
          | unsettled ↦ (no_message, c')
          | settle_failed e ↦ (message_failed e, c')
        ])
unfolding settle
closing-InnerLive [] n c e h = h
closing-InnerLive (socket_ready ∷ polls) n c e h = e
closing-InnerLive (socket_busy ∷ polls) n c e h = on_sockets-IsLive c polls h
closing-InnerLive (socket_failed x ∷ polls) n c e h = tt

shutdown-InnerLive :
    (on : Bool) (n : ℕ) (c : Connection)
    → is_closing c.state ≡ on
    → IsLive c
    → InnerLive n (
        let (answer, c') = if on then settle c.sockets c else (unsettled, c) in
        elim answer as (λ _. MessagePoll × Connection) [
          | settled ↦ (no_more_messages, c')
          | unsettled ↦ (no_message, c')
          | settle_failed e ↦ (message_failed e, c')
        ])
shutdown-InnerLive false n c e h = h
shutdown-InnerLive true n c e h = elim h.open_or_closing [
  | inl still ↦ (let off = ap is_closing still in cc)
  | inr off ↦ closing-InnerLive c.sockets n c off h
]

after_flush-InnerLive :
    (m : Option AsyncMessage) (n : ℕ) (c : Connection)
    → AfterRead m n c
    → InnerLive n (after_flush m c)
unfolding after_flush poll_shutdown
after_flush-InnerLive (some m) n c h = h
after_flush-InnerLive none n c h = shutdown-InnerLive (is_closing c.state) n c refl h

settled-InnerLive :
    (polls : List SocketPoll) (m : Option AsyncMessage) (n : ℕ) (c : Connection)
    → AfterRead m n c
    → InnerLive n (
        let (error, c') =
          (let (answer, c') = settle polls c in
            elim answer as (λ _. Option ClientError × Connection) [
              | settled ↦ (none, c')
              | unsettled ↦ (none, c')
              | settle_failed e ↦ (some e, c')
            ]) in
        elim error as (λ _. MessagePoll × Connection) [
          | none ↦ after_flush m c'
          | some e ↦ (message_failed e, c')
        ])
unfolding settle
settled-InnerLive [] m n c h = after_flush-InnerLive m n c h
settled-InnerLive (socket_ready ∷ polls) m n c h =
    after_flush-InnerLive m n (record c { sockets = polls }) (on_sockets-AfterRead m n c polls h)
settled-InnerLive (socket_busy ∷ polls) m n c h =
    after_flush-InnerLive m n (record c { sockets = polls }) (on_sockets-AfterRead m n c polls h)
settled-InnerLive (socket_failed x ∷ polls) m n c h = tt

flush_message-InnerLive :
    (m : Option AsyncMessage) (n : ℕ) (c : Connection)
    → AfterRead m n c
    → InnerLive n (flush_message m c)
unfolding flush_message poll_flush
flush_message-InnerLive m n c h = settled-InnerLive c.sockets m n c h

-- The write side keeps the read side, and stays open or closes.
same_reads-IsLive :
    (c c' : Connection)
    → IsLive c
    → read_side c' ≡ read_side c
    → (c'.state ≡ active) ⊎ (c'.state ≡ closing)
    → IsLive c'
same_reads-IsLive c c' h e s = record {
  orderly = record {
    pending = subst IsPendable (sym (ap (λ r. r.0) e)) h.orderly.pending;
    coming = subst (All IsAnswer) (sym (ap (λ r. r.1) e)) h.orderly.coming;
  };
  open_or_closing = s;
}

same_reads-AfterRead :
    (m : Option AsyncMessage) (n : ℕ) (c c' : Connection)
    → AfterRead m n c
    → read_side c' ≡ read_side c
    → (c'.state ≡ active) ⊎ (c'.state ≡ closing)
    → AfterRead m n c'
same_reads-AfterRead none n c c' h e s = same_reads-IsLive c c' h e s
same_reads-AfterRead (some m) n c c' (h, l) e s = (
  same_reads-IsLive c c' h e s,
  subst (λ k. k < n) (sym (ap (λ r. length (r.0 ++ arrivals r.1)) e)) l,
)

module _ (crates : Crates) where
  Writes-AfterRead :
      (m : Option AsyncMessage) (n : ℕ) (c c' : Connection)
      → AfterRead m n c
      → Writes crates c c'
      → AfterRead m n c'
  Writes-AfterRead m n c c' h (sent a b o r s) = same_reads-AfterRead m n c c' h s (inl b)
  Writes-AfterRead m n c c' h (closed a r b w f s) = same_reads-AfterRead m n c c' h s (inr b)
  Writes-AfterRead m n c c' h (idle e f) = subst (AfterRead m n) (sym f) h

  pub after_write-InnerLive :
      (m : Option AsyncMessage) (n : ℕ) (c : Connection) (e : WriteEnd × Connection)
      → AfterRead m n c
      → WritesEnd crates c e
      → InnerLive n (after_write m e)
  unfolding after_write
  after_write-InnerLive m n c (want_flush true, c') h w =
      flush_message-InnerLive m n c' (Writes-AfterRead m n c c' h w)
  after_write-InnerLive m n c (want_flush false, c') h w =
      after_flush-InnerLive m n c' (Writes-AfterRead m n c c' h w)
  after_write-InnerLive m n c (write_failed e, c') h w = tt
  after_write-InnerLive m n c (write_panicked, c') h w = w
