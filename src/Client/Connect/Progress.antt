-- ===== src/Client/Connect/Progress.antt =====
-- `connect_raw` of tokio-postgres/src/connect_raw.rs reaches its end with a server that asks for a
-- password.
use rust_kingbase.Prelude.{
  Bytes, length, Result, ok, ℕ, suc, ◌≡◌, refl, ap, ◌∙◌, Bool, true, false, Option, none, some,
  List, [], ◌∷◌, ◌++◌, arith,
}
use rust_kingbase.Wire.Crates.{Crates}
use rust_kingbase.Message.Backend.{parse}
use rust_kingbase.Message.Backend.Body.{
  BackendKeyDataBody, Message, authentication_cleartext_password, authentication_ok,
  backend_key_data, ready_for_query,
}
use rust_kingbase.Message.Backend.Frame.{parse_few}
use rust_kingbase.Message.Frontend.{startup_message, password_message}
use rust_kingbase.Auth.Crypto.{CryptoCrates}
use rust_kingbase.Config.{new_config, Config, ssl_disable}
use rust_kingbase.Codec.{next, raw, normal}
use rust_kingbase.Client.Connection.{
  Polled, Request, Incoming, SenderPoll, SocketPoll, Connection, arrived, socket_ready,
}
use rust_kingbase.Client.Startup.{
  from_batch, refill, next_input, return, followed, ◌>>=◌, flush_sent, send_raw, try_next, Reply,
  StartupStream, gives,
}
use rust_kingbase.Client.Connect.{
  startup_parameters, can_skip_channel_binding, startup, authenticate_password, last_answer,
  answer_request, await_ok, authenticate,
}
use rust_kingbase.Client.Connect.Session.{
  user_of, connect_tls, channel_end_point, no_info, room, info_round, info_rounds, read_info,
  new_connection, connected, connect_raw, new_stream, Transport, Info, Attempt, raw_stream,
}

-- A configuration with a user and a password and no TLS.
abbrev pub password_config : Bytes → Bytes → Config
password_config user password = record new_config {
  user = some user;
  password = some password;
  ssl_mode = ssl_disable;
}

abbrev pub password_attempt : Bytes → Bytes → Transport → Result Bytes → List ℕ → Attempt
password_attempt user password transport username draws = record {
  config = password_config user password;
  has_hostname = false;
  transport = transport;
  username = username;
  draws = draws;
}

-- The batches of the server: the request, the consent, and the key with the end of the start-up.
abbrev pub password_answers : Bytes → Bytes → Bytes → List Incoming
password_answers request consent last =
    arrived (normal request false)
    ∷ arrived (normal consent false)
    ∷ arrived (normal last true)
    ∷ []

-- A stream at the start of a batch, and one inside it.
abbrev pub at_batch : Bytes → Bool → List Incoming → StartupStream → StartupStream
at_batch bytes complete answers s = record s {
  input = record { buf = []; incoming = arrived (normal bytes complete) ∷ answers };
}

abbrev pub inside : Bytes → List Incoming → StartupStream → StartupStream
inside buf answers s = record s { input = record { buf = buf; incoming = answers } }

-- A message that is sent over a socket that is ready.
abbrev pub with_sent : Bytes → List SocketPoll → StartupStream → StartupStream
with_sent buf polls s = record s { sockets = polls; written = s.written ++ raw buf ∷ [] }

abbrev pub on_sockets : List SocketPoll → StartupStream → StartupStream
on_sockets polls s = record s { sockets = polls }

module _ (crates : Crates) where
  first_of_batch :
      (bytes left : Bytes) (complete : Bool) (answers : List Incoming) (m : Message)
      (s : StartupStream)
      → parse crates bytes ≡ ok (some m, left)
      → try_next crates (at_batch bytes complete answers s)
        ≡ (gives (some m), inside left answers s)
  unfolding try_next next_input refill from_batch next
  first_of_batch bytes left complete answers m s h =
      let e : parse crates [] ≡ ok (none, []) = parse_few crates [] (omega arith) in rw (e, h) refl

  next_of_batch :
      (bytes left : Bytes) (answers : List Incoming) (m : Message) (s : StartupStream)
      → parse crates bytes ≡ ok (some m, left)
      → try_next crates (inside bytes answers s) ≡ (gives (some m), inside left answers s)
  unfolding try_next next_input refill from_batch next
  next_of_batch bytes left answers m s h = rw h refl

  startup_sent :
      (config : Config) (user opening : Bytes) (polls : List SocketPoll) (s : StartupStream)
      → startup_message crates (startup_parameters config user) [] ≡ ok opening
      → startup crates config user (on_sockets (socket_ready ∷ polls) s)
        ≡ (gives tt, with_sent opening polls s)
  unfolding startup send_raw flush_sent
  startup_sent config user opening polls s h = rw h refl

  password_sent :
      (password answer : Bytes) (polls : List SocketPoll) (s : StartupStream)
      → password_message crates password [] ≡ ok answer
      → authenticate_password crates password (on_sockets (socket_ready ∷ polls) s)
        ≡ (gives tt, with_sent answer polls s)
  unfolding authenticate_password send_raw flush_sent
  password_sent password answer polls s h = rw h refl

  module _ (lossy : Bytes → Bytes) where
    rounds_read :
        (n : ℕ) (last rest : Bytes) (key : BackendKeyDataBody) (status : ℕ) (s : StartupStream)
        → parse crates last ≡ ok (some (backend_key_data key), rest)
        → parse crates rest ≡ ok (some (ready_for_query status), [])
        → info_rounds crates lossy (suc (suc n)) no_info (at_batch last true [] s) ≡ (
          gives (record {
            process_id = key.process_id;
            secret_key = key.secret_key;
            parameters = [];
          }),
          inside [] [] s,
        )
    unfolding info_rounds info_round
    rounds_read n last rest key status s h k =
        ap (followed (info_round crates lossy (info_rounds crates lossy (suc n)) no_info))
          (first_of_batch last rest true [] (backend_key_data key) s h)
        ∙ ap
            (followed (
              info_round crates lossy (info_rounds crates lossy n) (record {
                process_id = key.process_id;
                secret_key = key.secret_key;
                parameters = [];
              })))
            (next_of_batch rest [] [] (ready_for_query status) s k)

    info_read :
        (last rest : Bytes) (key : BackendKeyDataBody) (status : ℕ) (s : StartupStream)
        → parse crates last ≡ ok (some (backend_key_data key), rest)
        → parse crates rest ≡ ok (some (ready_for_query status), [])
        → read_info crates lossy (at_batch last true [] s) ≡ (
          gives (record {
            process_id = key.process_id;
            secret_key = key.secret_key;
            parameters = [];
          }),
          inside [] [] s,
        )
    unfolding read_info
    info_read last rest key status s h k =
        let enough : suc (room (record { buf = []; incoming = arrived (normal last true) ∷ [] }))
            ≡ suc (suc (length last)) =
          omega arith in
        ap (λ n. info_rounds crates lossy n no_info (at_batch last true [] s)) enough
        ∙ rounds_read (length last) last rest key status s h k

-- What `connect_raw` comes to: the key of the client, the connection, and the stream.
abbrev pub password_connected :
    Bytes
    → Bytes
    → BackendKeyDataBody
    → List (Polled Request)
    → List SenderPoll
    → List SocketPoll
    → Reply (Info × Connection) × StartupStream
password_connected opening answer key requests senders polls =
    let s : StartupStream = record {
      input = record { buf = []; incoming = [] };
      sockets = polls;
      written = raw opening ∷ raw answer ∷ [];
      delayed = [];
    } in
    (
      gives (
        record { process_id = key.process_id; secret_key = key.secret_key; parameters = [] },
        new_connection requests senders [] s,
      ),
      s,
    )

module _ (crates : Crates) (crypto : CryptoCrates) (lossy : Bytes → Bytes) where
  password_accepted :
      (draws : List ℕ) (end_point : Option Bytes) (user password answer : Bytes)
      (request consent : Bytes) (answers : List Incoming) (polls : List SocketPoll)
      (s : StartupStream)
      → password_message crates password [] ≡ ok answer
      → parse crates request ≡ ok (some authentication_cleartext_password, [])
      → parse crates consent ≡ ok (some authentication_ok, [])
      → authenticate crates crypto lossy draws end_point (password_config user password) user (
          at_batch request false
            (arrived (normal consent false) ∷ answers)
            (on_sockets (socket_ready ∷ polls) s))
        ≡ (gives tt, inside [] answers (with_sent answer polls s))
  unfolding authenticate answer_request can_skip_channel_binding await_ok last_answer
  password_accepted draws end_point user password answer request consent answers polls s h p q =
      let config = password_config user password in
      let rest = arrived (normal consent false) ∷ answers in
      ap
        (followed (λ m.
          answer_request crates crypto lossy draws end_point config user m
          >>= await_ok crates crypto lossy))
        (first_of_batch crates request [] false rest authentication_cleartext_password
          (on_sockets (socket_ready ∷ polls) s) p)
      ∙ ap (λ r. followed (await_ok crates crypto lossy) (followed (λ v. return true) r))
          (password_sent crates password answer polls (inside [] rest s) h)
      ∙ ap (followed (last_answer crates crypto lossy)) (
          first_of_batch crates consent [] false answers authentication_ok
            (with_sent answer polls s) q)

  -- Without TLS, with a socket that is ready, a user and a password that can be written, and a server
  -- that asks for the password, accepts it, and gives its key, `connect_raw` comes to its end: the client
  -- gets the key, and the connection starts with the start-up message and the password in its stream.
  pub connects_by_password :
      (user password opening answer request consent last rest : Bytes) (key : BackendKeyDataBody)
      (status : ℕ) (transport : Transport) (username : Result Bytes) (draws : List ℕ)
      (requests : List (Polled Request)) (senders : List SenderPoll) (polls : List SocketPoll)
      → startup_message crates (startup_parameters (password_config user password) user) []
        ≡ ok opening
      → password_message crates password [] ≡ ok answer
      → parse crates request ≡ ok (some authentication_cleartext_password, [])
      → parse crates consent ≡ ok (some authentication_ok, [])
      → parse crates last ≡ ok (some (backend_key_data key), rest)
      → parse crates rest ≡ ok (some (ready_for_query status), [])
      → connect_raw crates crypto lossy requests senders
          (password_attempt user password transport username draws)
          (new_stream (password_answers request consent last) (socket_ready ∷ socket_ready ∷ polls))
        ≡ password_connected opening answer key requests senders polls
  unfolding connect_raw connect_tls user_of connected
  connects_by_password user password opening answer request consent last rest key status transport
        username draws requests senders polls h₁ h₂ p₁ p₂ p₃ p₄ =
      let a = password_attempt user password transport username draws in
      let s = new_stream (password_answers request consent last) polls in
      let s₁ = with_sent opening (socket_ready ∷ polls) s in
      let s₂ = with_sent answer polls (with_sent opening polls s) in
      let answers = arrived (normal last true) ∷ [] in
      let read = λ (u : Unit {0}). read_info crates lossy >>= connected requests senders in
      let prove = λ (u : Unit {0}).
        authenticate crates crypto lossy draws (channel_end_point transport raw_stream) a.config
          user
        >>= read in
      ap (followed prove) (startup_sent crates a.config user opening (socket_ready ∷ polls) s h₁)
      ∙ ap (followed read) (
          password_accepted draws (channel_end_point transport raw_stream) user password answer
            request consent answers polls (with_sent opening polls s) h₂ p₁ p₂)
      ∙ ap (followed (connected requests senders))
          (info_read crates lossy last rest key status s₂ p₃ p₄)
