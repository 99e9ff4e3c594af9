-- ===== src/Client/Connection/Read/Order.antt =====
-- The order of the requests in the router, and what the stream's decoder hands to it.
use rust_kingbase.Prelude.{
  Bytes, drop, ◌≡◌, refl, sym, ap, ◌∙◌, true, false, List, [], ◌∷◌, ◌++◌, ◌≤◌,
}
use rust_kingbase.Wire.Crates.{Crates}
use rust_kingbase.Codec.{BackendMessage, normal, async}
use rust_kingbase.Client.Connection.{Connection}
use rust_kingbase.Client.Connection.Read.{
  poll_read, ReadEnd, nothing_read, read_message, read_failed, read_panicked, length,
}
use rust_kingbase.Client.Connection.Read.Router.{
  ended_by, to_route, router, Router, Routes, IsOrderly, by_passed, handed_over, hung_up_on,
  none_routed, one_routed,
}
use rust_kingbase.Client.Connection.Read.Routing.{Reads, poll_read-Reads}

-- A run of the router takes as many requests from the front of the queue as the messages end, however
-- the batches are cut and whichever receivers have hung up.
Routes-queue :
    (after before : Router) (ms : List BackendMessage)
    → Routes after before ms
    → after.queue ≡ drop (ended_by ms) before.queue
Routes-queue after before [] (none_routed e) = ap (λ r. r.queue) (sym e)
Routes-queue after before (async m ∷ ms) (one_routed middle (by_passed q l b) routes) =
    Routes-queue after middle ms routes ∙ ap (drop (ended_by ms)) q
Routes-queue after before (normal messages true ∷ ms)
      (one_routed middle (handed_over r rs e q l b) routes) =
    Routes-queue after middle ms routes ∙ (rw (q, e) refl)
Routes-queue after before (normal messages true ∷ ms)
      (one_routed middle (hung_up_on r rs e q l b) routes) =
    Routes-queue after middle ms routes ∙ (rw (q, e) refl)
Routes-queue after before (normal messages false ∷ ms)
      (one_routed middle (handed_over r rs e q l b) routes) =
    Routes-queue after middle ms routes ∙ ap (drop (ended_by ms)) (q ∙ sym e)
Routes-queue after before (normal messages false ∷ ms)
      (one_routed middle (hung_up_on r rs e q l b) routes) =
    Routes-queue after middle ms routes ∙ ap (drop (ended_by ms)) (q ∙ sym e)

-- The messages that a poll may lose: with an error one at most, and otherwise none.
abbrev pub Lost : ReadEnd → List BackendMessage → Type 0
Lost (read_failed e) lost = length lost ≤ 1
Lost _ lost = lost ≡ []

-- What a poll has taken from the front of the messages, all but those still to be routed, with the
-- requests that it has taken from the front of the queue.
abbrev pub InOrder : Connection → ReadEnd × Connection → Type 0
InOrder c (end, c') =
    (ms : List BackendMessage) × (lost : List BackendMessage) × (to_route c
      ≡ ms ++ (lost ++ to_route c'))
    × Lost end lost
    × (c'.responses ≡ drop (ended_by ms) c.responses)

Reads-InOrder : (c : Connection) (r : ReadEnd × Connection) → Reads c r → InOrder c r
Reads-InOrder c (nothing_read, c') (ms, middle, split, routes, waited, orderly) =
    (ms, [], split, refl, waited.0 ∙ Routes-queue middle (router c) ms routes)
Reads-InOrder c (read_message m, c') (ms, split, one, routes, orderly) =
    (ms, [], split, refl, Routes-queue (router c') (router c) ms routes)
Reads-InOrder c (read_failed e, c') (ms, lost, split, few, routes) =
    (ms, lost, split, few, Routes-queue (router c') (router c) ms routes)
Reads-InOrder c (read_panicked, c') h = absurd h

-- Requests are answered in the order in which they wait: a poll of an orderly connection takes
-- messages from the front of those that are pending or to come, and leaves the others to be routed,
-- but for one that an error may lose; and it takes as many requests from the front of the queue as the
-- messages taken end, however the batches are cut and whichever receivers have hung up.
pub poll_read-InOrder :
    (crates : Crates) (lossy : Bytes → Bytes) (c : Connection)
    → IsOrderly c
    → InOrder c (poll_read crates lossy c)
poll_read-InOrder crates lossy c h =
    Reads-InOrder c (poll_read crates lossy c) (poll_read-Reads crates lossy c h)
