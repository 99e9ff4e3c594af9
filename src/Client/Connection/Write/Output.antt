-- ===== src/Client/Connection/Write/Output.antt =====
-- What the requests of a connection put into the stream, as one sequence.
use rust_kingbase.Prelude.{
  if◌then◌else◌, Bytes, ℕ, ◌≡◌, Bool, true, false, Option, none, some, List, [], ◌∷◌, ◌++◌,
}
use rust_kingbase.Wire.Crates.{Crates}
use rust_kingbase.Message.Frontend.Layout.{cstr, framed}
use rust_kingbase.Codec.{FrontendMessage, BackendMessage, raw}
use rust_kingbase.Client.Connection.{
  CopyInMessage, Polled, RequestMessages, Request, Incoming, SenderPoll, Connection,
  message_of_copy, copy_finished, not_yet, item, ended, single, copy_in, active, closing,
}

module _ (crates : Crates) where
  -- `CopyDone` or `CopyFail`, with `Sync` behind it.
  abbrev pub copy_end : Bool → FrontendMessage
  copy_end true = raw (framed crates b'c' [] ++ framed crates b'S' [])
  copy_end false = raw (framed crates b'f' (cstr []) ++ framed crates b'S' [])

  -- A copy ends with the first `Done` or with the end of its channel.
  abbrev pub copy_output : List (Polled CopyInMessage) → List FrontendMessage
  copy_output [] = []
  copy_output (not_yet ∷ polls) = copy_output polls
  copy_output (item (message_of_copy m) ∷ polls) = m ∷ copy_output polls
  copy_output (item copy_finished ∷ polls) = copy_end true ∷ []
  copy_output (ended ∷ polls) = copy_end false ∷ []

  abbrev pub output_of : RequestMessages → List FrontendMessage
  output_of (single m) = m ∷ []
  output_of (copy_in r) = if r.done then [] else copy_output r.receiver

  abbrev pub requests_output : List (Polled Request) → List FrontendMessage
  requests_output [] = []
  requests_output (not_yet ∷ polls) = requests_output polls
  requests_output (item request ∷ polls) = output_of request.messages ++ requests_output polls
  requests_output (ended ∷ polls) = []

  abbrev pub pending_output : Option RequestMessages → List FrontendMessage
  pending_output none = []
  pending_output (some messages) = output_of messages

  abbrev pub to_come : Connection → List FrontendMessage
  to_come c = if c.terminated then [] else requests_output c.requests

  abbrev pub to_send : Connection → List FrontendMessage
  to_send c = pending_output c.pending_request ++ to_come c

  -- What is in the stream already, with what is still to be put into it.
  abbrev pub output : Connection → List FrontendMessage
  output c = c.written ++ to_send c

  abbrev pub terminate_message : FrontendMessage
  terminate_message = raw (framed crates b'X' [])

abbrev pub senders_of : List (Polled Request) → List ℕ
senders_of [] = []
senders_of (not_yet ∷ polls) = senders_of polls
senders_of (item request ∷ polls) = request.sender ∷ senders_of polls
senders_of (ended ∷ polls) = []

-- The requests that wait for their answers, with those that are still to be accepted.
abbrev pub to_answer : Connection → List ℕ
to_answer c = c.responses ++ (if c.terminated then [] else senders_of c.requests)

-- What the read side keeps of a connection.
abbrev pub read_side :
    Connection → List BackendMessage × List Incoming × List SenderPoll × List (ℕ × Bytes)
read_side c = (c.pending_responses, c.incoming, c.senders, c.delivered)

-- A poll of the write side: it moves messages from what is to come into the stream, keeps the requests
-- in order and leaves the read side alone; or, when nothing is left to send or to answer, it closes the
-- stream with `Terminate` behind all of it; or the stream was closed already.
pub data Writes (crates : Crates) (c c' : Connection) : Type 0 where
  sent :
      c.state ≡ active
      → c'.state ≡ active
      → output crates c' ≡ output crates c
      → to_answer c' ≡ to_answer c
      → read_side c' ≡ read_side c
      → Writes crates c c'
  closed :
      c.state ≡ active
      → to_answer c ≡ []
      → c'.state ≡ closing
      → c'.written ≡ output crates c ++ terminate_message crates ∷ []
      → to_answer c' ≡ []
      → read_side c' ≡ read_side c
      → Writes crates c c'
  idle : c.state ≡ closing → c' ≡ c → Writes crates c c'
