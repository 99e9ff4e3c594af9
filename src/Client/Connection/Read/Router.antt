-- ===== src/Client/Connection/Read/Router.antt =====
-- The abstract router behind `poll_read`: a queue of requests, a log of deliveries, and what the
-- senders of the responses will answer.
use rust_kingbase.Prelude.{
  if◌then◌else◌, Bytes, All, ℕ, suc, ◌≡◌, Bool, true, List, [], ◌∷◌, ◌++◌, ◌⊎◌,
}
use rust_kingbase.Message.Backend.Body.{
  NotificationResponseBody, ParameterStatusBody, Message, notice_response, notification_response,
  parameter_status,
}
use rust_kingbase.Codec.{BackendMessage, normal, async}
use rust_kingbase.Client.Connection.{
  Incoming, Connection, no_bytes, end_of_stream, broken, arrived, SenderPoll, has_room, hung_up,
  no_room,
}

pub record Router : Type 0 where
  pub queue : List ℕ
  pub log : List (ℕ × Bytes)
  pub senders : List SenderPoll

-- The queue behind a batch for the request in front of it.
abbrev pub queue_after : Bool → ℕ → List ℕ → List ℕ
queue_after complete r rs = if complete then rs else r ∷ rs

-- One message on the router: an asynchronous one passes by, and a batch goes to the request in front
-- where its sender answers that it has room, or is dropped where it answers that it has hung up.
pub data Route (before after : Router) : BackendMessage → Type 0 where
  by_passed :
      {m : Message}
      → after.queue ≡ before.queue
      → after.log ≡ before.log
      → after.senders ≡ before.senders
      → Route before after (async m)
  handed_over :
      {messages : Bytes} {complete : Bool} (r : ℕ) (rs : List ℕ)
      → before.queue ≡ r ∷ rs
      → after.queue ≡ queue_after complete r rs
      → after.log ≡ before.log ++ (r, messages) ∷ []
      → before.senders ≡ has_room ∷ after.senders
      → Route before after (normal messages complete)
  hung_up_on :
      {messages : Bytes} {complete : Bool} (r : ℕ) (rs : List ℕ)
      → before.queue ≡ r ∷ rs
      → after.queue ≡ queue_after complete r rs
      → after.log ≡ before.log
      → before.senders ≡ hung_up ∷ after.senders
      → Route before after (normal messages complete)

pub data Routes (after : Router) : Router → List BackendMessage → Type 0 where
  none_routed : {before : Router} → before ≡ after → Routes after before []
  one_routed :
      {before : Router} {m : BackendMessage} {ms : List BackendMessage} (middle : Router)
      → Route before middle m
      → Routes after middle ms
      → Routes after before (m ∷ ms)

-- How many requests the messages end.
abbrev pub ended_by : List BackendMessage → ℕ
ended_by [] = 0
ended_by (normal messages true ∷ ms) = suc (ended_by ms)
ended_by (_ ∷ ms) = ended_by ms

-- The messages among the answers of the stream, and all that are still to be routed, in order.
abbrev pub arrivals : List Incoming → List BackendMessage
arrivals [] = []
arrivals (arrived m ∷ answers) = m ∷ arrivals answers
arrivals (no_bytes ∷ answers) = arrivals answers
arrivals (end_of_stream ∷ answers) = arrivals answers
arrivals (broken e ∷ answers) = arrivals answers

abbrev pub to_route : Connection → List BackendMessage
to_route c = c.pending_responses ++ arrivals c.incoming

abbrev pub router : Connection → Router
router c = record { queue = c.responses; log = c.delivered; senders = c.senders }

-- The router stands still, but for a sender that has answered that it has no room.
abbrev pub Waited : Router → Router → Type 0
Waited before after =
    (after.queue ≡ before.queue)
    × (after.log ≡ before.log)
    × ((after.senders ≡ before.senders) ⊎ (before.senders ≡ no_room ∷ after.senders))

-- The messages that `decode` delivers by themselves.
pub data IsAsync : Message → Type 0 where
  is_notice : (body : Bytes) → IsAsync (notice_response body)
  is_notification : (body : NotificationResponseBody) → IsAsync (notification_response body)
  is_parameter : (body : ParameterStatusBody) → IsAsync (parameter_status body)

abbrev pub IsRoutable : BackendMessage → Type 0
IsRoutable (async m) = IsAsync m
IsRoutable (normal messages complete) = Unit

abbrev pub IsAnswer : Incoming → Type 0
IsAnswer (arrived m) = IsRoutable m
IsAnswer no_bytes = Unit
IsAnswer end_of_stream = Unit
IsAnswer (broken e) = Unit

-- What may stand behind a message among the pending responses: behind a batch nothing, and behind an
-- asynchronous message only such.
abbrev pub AllAsync : List BackendMessage → Type 0
AllAsync [] = Unit
AllAsync (async m ∷ ms) = IsAsync m × AllAsync ms
AllAsync (normal messages complete ∷ ms) = ⊥

abbrev pub MayFollow : BackendMessage → List BackendMessage → Type 0
MayFollow (async m) ms = AllAsync ms
MayFollow (normal messages complete) ms = ms ≡ []

abbrev pub IsPendable : List BackendMessage → Type 0
IsPendable [] = Unit
IsPendable (m ∷ ms) = IsRoutable m × MayFollow m ms

-- The invariant of the read side.
pub record IsOrderly (c : Connection) : Type 0 where
  pub pending : IsPendable c.pending_responses
  pub coming : All IsAnswer c.incoming
