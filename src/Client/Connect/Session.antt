-- ===== src/Client/Connect/Session.antt =====
-- connect_tls of tokio-postgres/src/connect_tls.rs, the channel binding of maybe_tls_stream.rs, and
-- read_info and connect_raw of connect_raw.rs.
use rust_kingbase.Prelude.{
  ◌==◌, if◌then◌else◌, Bytes, length, Result, message, ℕ, zero, suc, ◌+◌, Bool, false, Option, none,
  some, List, [], ◌∷◌, ◌++◌,
}
use rust_kingbase.Prelude.Int.{ℤ, pos}
use rust_kingbase.Wire.Crates.{Crates}
use rust_kingbase.Message.Backend.Body.{
  Message, backend_key_data, error_response, notice_response, parameter_status, ready_for_query,
}
use rust_kingbase.Message.Backend.Iterators.{get_str, parameters, fields}
use rust_kingbase.Message.Frontend.{ssl_request}
use rust_kingbase.Auth.Crypto.{CryptoCrates}
use rust_kingbase.Config.{
  SslMode, SslNegotiation, Config, ssl_disable, ssl_prefer, ssl_require, postgres_negotiation,
  direct_negotiation,
}
use rust_kingbase.Codec.{normal, async}
use rust_kingbase.Client.DbError.{
  io_failed, parse_failed, unexpected_message, encode_failed, tls_failed, connection_closed,
}
use rust_kingbase.Client.Connection.{
  insert_parameter, Polled, Request, Incoming, SenderPoll, SocketPoll, Connection, active, arrived,
}
use rust_kingbase.Client.Startup.{
  Talk, return, raise, ◌>>=◌, lift, try_next, Reply, Input, StartupStream, gives, aborts,
}
use rust_kingbase.Client.Connect.{raise_db, startup, authenticate}

-- The socket before it is framed, and the TLS crate: whether the crate can connect, how the request
-- for TLS is written, the byte that answers it, how the handshake ends, and the end point of the TLS
-- stream.
pub record Transport : Type 0 where
  pub can_connect : Bool
  pub request_sent : Result (Unit {0})
  pub reply : Result ℕ
  pub handshake : Result (Unit {0})
  pub end_point : Option Bytes

pub data MaybeTlsStream : Type 0 where
  raw_stream tls_stream : MaybeTlsStream

-- A reply as a part of the dialogue that leaves the stream alone.
abbrev pub settled {ℓ} : {A : Type ℓ} → Reply A → Talk A
settled r s = (r, s)

-- The handshake, for which a hostname is needed.
unfoldable pub handshake : Bool → Transport → Talk MaybeTlsStream
handshake has_hostname t =
    if has_hostname
    then (lift tls_failed t.handshake >>= λ _. return tls_stream)
    else raise (tls_failed (message "no hostname provided for TLS handshake"))

-- What follows the byte that answers the request for TLS.
unfoldable pub tls_answered : SslMode → Bool → Transport → ℕ → Talk MaybeTlsStream
unfolding handshake
tls_answered ssl_require has_hostname t answer =
    if answer == b'S'
    then handshake has_hostname t
    else raise (tls_failed (message "server does not support TLS"))
tls_answered ssl_prefer has_hostname t answer =
    if answer == b'S' then handshake has_hostname t else return raw_stream
tls_answered ssl_disable has_hostname t answer =
    if answer == b'S' then handshake has_hostname t else return raw_stream

module _ (crates : Crates) where
  unfoldable pub negotiate : SslMode → SslNegotiation → Bool → Transport → Talk MaybeTlsStream
  negotiate mode direct_negotiation has_hostname t = handshake has_hostname t
  negotiate mode postgres_negotiation has_hostname t = do
    buf ← lift encode_failed (ssl_request crates [])
    _ ← lift io_failed t.request_sent
    answer ← lift io_failed t.reply
    tls_answered mode has_hostname t answer

module _ (crates : Crates) where
  -- `connect_tls` with `SslMode::Prefer` and a TLS crate that can connect.
  unfoldable pub prefer_tls : SslNegotiation → Bool → Transport → Talk MaybeTlsStream
  prefer_tls direct_negotiation has_hostname t = raise (
      tls_failed (
        message
          "weak sslmode \"prefer\" may not be used with sslnegotiation=direct (use \"require\")"))
  prefer_tls postgres_negotiation has_hostname t =
      negotiate crates ssl_prefer postgres_negotiation has_hostname t

  unfoldable pub connect_tls : SslMode → SslNegotiation → Bool → Transport → Talk MaybeTlsStream
  unfolding prefer_tls
  connect_tls ssl_disable negotiation has_hostname t = return raw_stream
  connect_tls ssl_prefer negotiation has_hostname t =
      if t.can_connect then prefer_tls negotiation has_hostname t else return raw_stream
  connect_tls ssl_require negotiation has_hostname t =
      negotiate crates ssl_require negotiation has_hostname t

-- `channel_binding` of a `MaybeTlsStream`
unfoldable pub channel_end_point : Transport → MaybeTlsStream → Option Bytes
channel_end_point t raw_stream = none
channel_end_point t tls_stream = t.end_point

-- The variables of `read_info`.
pub record Info : Type 0 where
  pub process_id : ℤ
  pub secret_key : ℤ
  pub parameters : List (Bytes × Bytes)

abbrev pub no_info : Info
no_info = record { process_id = pos 0; secret_key = pos 0; parameters = [] }

-- `stream.delayed.push_back(BackendMessage::Async(msg))`
unfoldable pub delay : Message → Talk (Unit {0})
delay m s = (gives tt, record s { delayed = s.delayed ++ async m ∷ [] })

-- The bytes and the answers that are left, which each message makes fewer.
abbrev pub answers_room : List Incoming → ℕ
answers_room [] = 0
answers_room (arrived (normal messages complete) ∷ answers) =
    suc (length messages + answers_room answers)
answers_room (_ ∷ answers) = suc (answers_room answers)

abbrev pub room : Input → ℕ
room i = length i.buf + answers_room i.incoming

module _ (crates : Crates) (lossy : Bytes → Bytes) where
  -- One message of `read_info`, where `again` is the next round.
  unfoldable pub info_round : (Info → Talk Info) → Info → Option Message → Talk Info
  info_round again info (some (backend_key_data body)) =
      again (record info { process_id = body.process_id; secret_key = body.secret_key })
  info_round again info (some (parameter_status body)) = do
    name ← lift parse_failed (get_str body.name)
    value ← lift parse_failed (get_str body.value)
    again (record info { parameters = insert_parameter name value info.parameters })
  info_round again info (some (notice_response fields)) = do
    _ ← delay (notice_response fields)
    again info
  info_round again info (some (ready_for_query status)) = return info
  info_round again info (some (error_response fields)) = raise_db crates lossy fields
  info_round again info (some _) = raise unexpected_message
  info_round again info none = raise connection_closed

module _ (crates : Crates) (lossy : Bytes → Bytes) where
  -- The loop of `read_info`. A message makes the room smaller, so that the room and one more is enough
  -- fuel; without fuel the model panics.
  unfoldable pub info_rounds : ℕ → Info → Talk Info
  info_rounds zero info s = (aborts, s)
  info_rounds (suc fuel) info s =
      (try_next crates >>= info_round crates lossy (info_rounds fuel) info) s

module _ (crates : Crates) (lossy : Bytes → Bytes) where
  unfoldable pub read_info : Talk Info
  read_info s = info_rounds crates lossy (suc (room s.input)) no_info s

-- `Connection::new`, with what the receiver of requests and the senders of responses will answer.
unfoldable pub new_connection :
    List (Polled Request) → List SenderPoll → List (Bytes × Bytes) → StartupStream → Connection
new_connection requests senders parameters s = record {
  incoming = s.input.incoming;
  requests = requests;
  senders = senders;
  sockets = s.sockets;
  written = s.written;
  delivered = [];
  terminated = false;
  receiver_closed = false;
  parameters = parameters;
  pending_request = none;
  pending_responses = s.delayed;
  responses = [];
  state = active;
}

-- What the caller supplies to `connect_raw`, and what its parameters will answer.
pub record Attempt : Type 0 where
  pub config : Config
  pub has_hostname : Bool
  pub transport : Transport
  pub username : Result Bytes
  pub draws : List ℕ

unfoldable pub user_of : Attempt → Talk Bytes
user_of a s = elim a.config.user [
  | some user ↦ (gives user, s)
  | none ↦ lift io_failed a.username s
]

-- The end of `connect_raw`: what the client gets, and the connection.
unfoldable pub connected : List (Polled Request) → List SenderPoll → Info → Talk (Info × Connection)
unfolding new_connection
connected requests senders info s =
    (gives (info, new_connection requests senders info.parameters s), s)

module _ (crates : Crates) (crypto : CryptoCrates) (lossy : Bytes → Bytes) where
  -- `connect_raw`, on the stream that it makes.
  unfoldable pub connect_raw :
      List (Polled Request) → List SenderPoll → Attempt → Talk (Info × Connection)
  connect_raw requests senders a = do
    stream ←
        connect_tls crates a.config.ssl_mode a.config.ssl_negotiation a.has_hostname a.transport
    user ← user_of a
    _ ← startup crates a.config user
    _ ←
        authenticate crates crypto lossy a.draws (channel_end_point a.transport stream) a.config
          user
    info ← read_info crates lossy
    connected requests senders info

-- The stream before the first message.
abbrev pub new_stream : List Incoming → List SocketPoll → StartupStream
new_stream incoming sockets = record {
  input = record { buf = []; incoming = incoming };
  sockets = sockets;
  written = [];
  delayed = [];
}
