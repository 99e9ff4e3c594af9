-- ===== src/Client/Connection.antt =====
-- tokio-postgres/src/connection.rs, and the receiver of copy_in.rs: one poll of the connection. What a
-- poll of the stream, of a channel or of the socket will answer is a field of the state, the list of
-- the answers in order; where it has none left, the poll is pending. A sender of responses is the
-- number of its request. `Framed::start_send` encodes the message into its buffer, which cannot fail.
pub mod Read
pub mod Write
pub mod Poll
use rust_kingbase.Prelude.{
  if◌then◌else◌, Bytes, Error, ℕ, Bool, true, false, Option, none, some, List, [], ◌∷◌,
}
use rust_kingbase.Wire.Text.{same}
use rust_kingbase.Codec.{FrontendMessage, BackendMessage}

pub data CopyInMessage : Type 0 where
  message_of_copy : FrontendMessage → CopyInMessage
  copy_finished : CopyInMessage

-- What a poll of a channel answers.
pub data Polled {ℓ} (A : Type ℓ) : Type ℓ where
  not_yet : Polled A
  item : A → Polled A
  ended : Polled A

pub record CopyInReceiver : Type 0 where
  pub receiver : List (Polled CopyInMessage)
  pub done : Bool

pub data RequestMessages : Type 0 where
  single : FrontendMessage → RequestMessages
  copy_in : CopyInReceiver → RequestMessages

pub record Request : Type 0 where
  pub messages : RequestMessages
  pub sender : ℕ

pub data State : Type 0 where
  active terminating closing : State

-- What a poll of the stream answers.
pub data Incoming : Type 0 where
  no_bytes : Incoming
  end_of_stream : Incoming
  broken : Error → Incoming
  arrived : BackendMessage → Incoming

-- What `poll_ready` of a sender answers: there is room, the receiver has hung up, or neither yet.
pub data SenderPoll : Type 0 where
  has_room hung_up no_room : SenderPoll

-- What a poll of the socket answers.
pub data SocketPoll : Type 0 where
  socket_ready socket_busy : SocketPoll
  socket_failed : Error → SocketPoll

pub record Connection : Type 0 where
  -- The answers to come.
  pub incoming : List Incoming
  pub requests : List (Polled Request)
  pub senders : List SenderPoll
  pub sockets : List SocketPoll
  -- What was put into the stream and into the channels of the responses, and whether the receiver of
  -- requests has ended or was closed.
  pub written : List FrontendMessage
  pub delivered : List (ℕ × Bytes)
  pub terminated : Bool
  pub receiver_closed : Bool
  -- The fields of `Connection`.
  pub parameters : List (Bytes × Bytes)
  pub pending_request : Option RequestMessages
  pub pending_responses : List BackendMessage
  pub responses : List ℕ
  pub state : State

abbrev pub is_active : State → Bool
is_active active = true
is_active _ = false

abbrev pub is_closing : State → Bool
is_closing closing = true
is_closing _ = false

abbrev pub is_terminating : State → Bool
is_terminating terminating = true
is_terminating _ = false

-- `HashMap::insert` and `HashMap::get`
unfoldable pub insert_parameter : Bytes → Bytes → List (Bytes × Bytes) → List (Bytes × Bytes)
insert_parameter name value [] = (name, value) ∷ []
insert_parameter name value ((n, v) ∷ ps) =
    if same n name then (name, value) ∷ ps else (n, v) ∷ insert_parameter name value ps

unfoldable pub get_parameter : Bytes → List (Bytes × Bytes) → Option Bytes
get_parameter name [] = none
get_parameter name ((n, v) ∷ ps) = if same n name then some v else get_parameter name ps

-- `Connection::parameter`
unfoldable pub parameter : Connection → Bytes → Option Bytes
parameter c name = get_parameter name c.parameters
