-- ===== src/Client/Connection/Read/Rounds.antt =====
-- One round of `poll_read` on the router.
use rust_kingbase.Prelude.{
  Bytes, length, All, >>=-eq-ok, Returns, >>=-Returns, Result, ok, err, panic, ℕ, ◌≡◌, refl, subst,
  Bool, Option, some, List, [], ◌∷◌, ◌++◌, arith, ◌⊎◌, inl, inr,
}
use rust_kingbase.Wire.Crates.{Crates}
use rust_kingbase.Wire.Utf8.{from_utf8}
use rust_kingbase.Message.Backend.{parse}
use rust_kingbase.Message.Backend.Body.{
  Message, error_response, notice_response, notification_response, parameter_status,
}
use rust_kingbase.Message.Backend.Total.{parse-Returns}
use rust_kingbase.Message.Backend.Iterators.{get_str}
use rust_kingbase.Codec.{next, BackendMessage, normal, async}
use rust_kingbase.Client.DbError.{parse_db_error, db_error, ClientError, parse_failed}
use rust_kingbase.Client.DbError.Total.{parse_db_error-Returns, db_error-Returns}
use rust_kingbase.Client.Connection.{SenderPoll, Connection, has_room, hung_up, no_room}
use rust_kingbase.Client.Connection.Read.{
  or_parse_failed, read_async, unasked, respond, ReadRound, nothing_read, read_message, read_failed,
  read_panicked, read_done, read_on,
}
use rust_kingbase.Client.Connection.Read.Router.{
  to_route, router, IsAnswer, AllAsync, IsPendable, Route, IsAsync, IsOrderly, by_passed,
  handed_over, hung_up_on, is_notice, is_notification, is_parameter, Waited,
}

-- What a round does with the message `m` in front of a connection.
abbrev pub Takes : BackendMessage → Connection → ReadRound → Type 0
Takes m c (read_on c') =
    (to_route c ≡ to_route c')
    × Route (router c) (router c') m
    × IsOrderly c'
    × (length c'.pending_responses ≡ length c.pending_responses)
    × (length c'.incoming ≡ length c.incoming)
Takes m c (read_done nothing_read c') =
    (m ∷ to_route c ≡ to_route c') × Waited (router c) (router c') × IsOrderly c'
Takes m c (read_done (read_message r) c') =
    (to_route c ≡ to_route c') × Route (router c) (router c') m × IsOrderly c'
Takes m c (read_done (read_failed e) c') = (to_route c ≡ to_route c') × (router c ≡ router c')
Takes m c (read_done read_panicked c') = ⊥

pub get_str-Returns : (s : Bytes) → Returns (get_str s)
unfolding get_str from_utf8
get_str-Returns s = ground arith

pub AllAsync-IsPendable : (ms : List BackendMessage) → AllAsync ms → IsPendable ms
AllAsync-IsPendable [] h = tt
AllAsync-IsPendable (async m ∷ ms) h = h
AllAsync-IsPendable (normal messages complete ∷ ms) h = absurd h

ok_Takes :
    (m : BackendMessage) (c : Connection) (y x : ReadRound)
    → ok y ≡ ok x
    → Takes m c y
    → Takes m c x
ok_Takes m c y x e h = subst (Takes m c) (cc e) h

-- A batch that has to wait for its sender goes back.
put_back :
    (messages : Bytes) (complete : Bool) (c : Connection) (polls : List SenderPoll)
    → c.pending_responses ≡ []
    → All IsAnswer c.incoming
    → (polls ≡ c.senders) ⊎ (c.senders ≡ no_room ∷ polls)
    → Takes (normal messages complete) c (
        read_done nothing_read (record c {
          senders = polls;
          pending_responses = c.pending_responses ++ normal messages complete ∷ [];
        }))
put_back messages complete c polls ep coming waits =
    (rw ep refl, (refl, refl, waits), record { pending = rw ep (tt, refl); coming = coming })

module _ (crates : Crates) (lossy : Bytes → Bytes) where
  or_parse_failed-Takes :
      (m : BackendMessage) (c : Connection) (r : Result ReadRound)
      → Returns r
      → ((x : ReadRound) → r ≡ ok x → Takes m c x)
      → Takes m c (or_parse_failed c r)
  unfolding or_parse_failed
  or_parse_failed-Takes m c (ok x) h k = k x refl
  or_parse_failed-Takes m c (err e) h k = (refl, refl)
  or_parse_failed-Takes m c panic h k = absurd h

  pub read_async-Takes :
      {m : Message}
      → IsAsync m
      → (c : Connection) → AllAsync c.pending_responses
      → All IsAnswer c.incoming
      → Takes (async m) c (read_async crates lossy m c)
  unfolding read_async
  read_async-Takes (is_notice body) c pending coming =
      let orderly : IsOrderly c = record {
        pending = AllAsync-IsPendable c.pending_responses pending;
        coming = coming;
      } in
      or_parse_failed-Takes (async (notice_response body)) c _
        (>>=-Returns (parse_db_error crates lossy body) _ (parse_db_error-Returns crates lossy body)
          (λ e. tt))
        (λ x e.
          let (v, _, g) = >>=-eq-ok (parse_db_error crates lossy body) _ e in
          ok_Takes (async (notice_response body)) c _ x g (refl, by_passed refl refl refl, orderly))
  read_async-Takes (is_notification body) c pending coming =
      let orderly : IsOrderly c = record {
        pending = AllAsync-IsPendable c.pending_responses pending;
        coming = coming;
      } in
      or_parse_failed-Takes (async (notification_response body)) c _
        (>>=-Returns (get_str body.channel) _ (get_str-Returns body.channel) (λ channel.
          >>=-Returns (get_str body.message) _ (get_str-Returns body.message) (λ payload. tt)))
        (λ x e.
          let (v, _, g) = >>=-eq-ok (get_str body.channel) _ e in
          let (w, _, k) = >>=-eq-ok (get_str body.message) _ g in
          ok_Takes (async (notification_response body)) c _ x k
            (refl, by_passed refl refl refl, orderly))
  read_async-Takes (is_parameter body) c pending coming =
      or_parse_failed-Takes (async (parameter_status body)) c _
        (>>=-Returns (get_str body.name) _ (get_str-Returns body.name) (λ channel.
          >>=-Returns (get_str body.value) _ (get_str-Returns body.value) (λ payload. tt)))
        (λ x e.
          let (v, _, g) = >>=-eq-ok (get_str body.name) _ e in
          let (w, _, k) = >>=-eq-ok (get_str body.value) _ g in
          ok_Takes (async (parameter_status body)) c _ x k (
            refl,
            by_passed refl refl refl,
            record { pending = AllAsync-IsPendable c.pending_responses pending; coming = coming },
            refl,
            refl,
          ))

  failure-Takes :
      (m : BackendMessage) (c : Connection) (r : Result ClientError)
      → Returns r
      → Takes m c (elim r as (λ _. ReadRound) [
        | ok e ↦ read_done (read_failed e) c
        | err e ↦ read_done (read_failed (parse_failed e)) c
        | panic ↦ read_done read_panicked c
      ])
  failure-Takes m c (ok e) h = (refl, refl)
  failure-Takes m c (err e) h = (refl, refl)
  failure-Takes m c panic h = h

  unasked-Takes :
      (m : BackendMessage) (first : Option Message) (c : Connection)
      → Takes m c (unasked crates lossy first c)
  unfolding unasked
  unasked-Takes m (some (error_response body)) c =
      failure-Takes m c (db_error crates lossy body) (db_error-Returns crates lossy body)
  unasked-Takes m _ c = (refl, refl)

  pub respond-Takes :
      (messages : Bytes) (complete : Bool) (polls : List SenderPoll) (rs : List ℕ) (c : Connection)
      → c.senders ≡ polls
      → c.responses ≡ rs
      → c.pending_responses ≡ []
      → All IsAnswer c.incoming
      → Takes (normal messages complete) c (respond crates lossy messages complete polls rs c)
  unfolding respond next parse
  respond-Takes messages complete polls [] c es er ep coming =
      or_parse_failed-Takes (normal messages complete) c _
        (>>=-Returns (next crates messages) _ (parse-Returns crates messages) (λ e. tt))
        (λ x e.
          let (v, _, g) = >>=-eq-ok (next crates messages) _ e in
          ok_Takes (normal messages complete) c _ x g
            (unasked-Takes (normal messages complete) v.0 c))
  respond-Takes messages complete [] (r ∷ rs) c es er ep coming =
      put_back messages complete c c.senders ep coming (inl refl)
  respond-Takes messages complete (no_room ∷ polls) (r ∷ rs) c es er ep coming =
      put_back messages complete c polls ep coming (inr es)
  respond-Takes messages complete (has_room ∷ polls) (r ∷ rs) c es er ep coming = (
    refl,
    handed_over r rs er refl refl es,
    record { pending = rw ep tt; coming = coming },
    refl,
    refl,
  )
  respond-Takes messages complete (hung_up ∷ polls) (r ∷ rs) c es er ep coming = (
    refl,
    hung_up_on r rs er refl refl es,
    record { pending = rw ep tt; coming = coming },
    refl,
    refl,
  )
