-- ===== src/Examples/Setup.antt =====
-- The theorems of `Client.Connect` at a server that asks for a SCRAM exchange bound to TLS.
use rust_kingbase.Auth.Parser
use rust_kingbase.Wire.Text
use rust_kingbase.Client.Connect
use rust_kingbase.Client.Connect.Session
use rust_kingbase.Message.Backend.Body
use rust_kingbase.Client.Startup
use rust_kingbase.Message.Backend.Iterators
use rust_kingbase.Message.Frontend
use rust_kingbase.Wire.Read
use rust_kingbase.Wire.Iterate
use rust_kingbase.Wire.Write
use rust_kingbase.Message.Backend
use rust_kingbase.Client.Connection
use rust_kingbase.Wire.Utf8
use rust_kingbase.Codec
use rust_kingbase.Prelude.{
  ◌⊎◌, Bytes, length, All, ok, ℕ, ◌+◌, ◌≡◌, refl, true, false, some, List, [], ◌∷◌, ◌++◌,
}
use rust_kingbase.Prelude.Int.{pos}
use rust_kingbase.Wire.Text.{
  codes, same, starts_with, is_digit, parse_digits, parse_unsigned, same_refl, same-eq,
  starts_with-append,
}
use rust_kingbase.Wire.Standard.{standard}
use rust_kingbase.Message.Backend.Body.{
  read_all, read_cstr, read_notification, read_counted, read_copy_response, read_key_data,
  read_parameter_status, take_all, read_salt, authentication, read_authentication, read_command_tag,
  read_status, parse_body, NotificationResponseBody, CountedBody, CopyResponseBody,
  BackendKeyDataBody, ParameterStatusBody, Message, authentication_cleartext_password,
  authentication_gss, authentication_kerberos_v5, authentication_md5_password, authentication_ok,
  authentication_scm_credential, authentication_sspi, authentication_gss_continue,
  authentication_sasl, authentication_sasl_continue, authentication_sasl_final, backend_key_data,
  bind_complete, close_complete, command_complete, copy_data, copy_done, copy_in_response,
  copy_out_response, data_row, empty_query_response, error_response, no_data, notice_response,
  notification_response, parameter_description, parameter_status, parse_complete, portal_suspended,
  ready_for_query, row_description,
}
use rust_kingbase.Auth.Scram
use rust_kingbase.Auth.Scram.{auth_message, without_proof, server_key, hi}
use rust_kingbase.Auth.Plain.{plain}
use rust_kingbase.Config.{
  direct_negotiation, new_config, Config, ssl_require, postgres_negotiation, binding_require,
}
use rust_kingbase.Codec.{
  is_async, total_len, round, scan, deliver, decode, next, encode, FrontendMessage, BackendMessage,
  Stop, Round, raw, copy_data, normal, async, async_first, stop_at, finished, go_on,
}
use rust_kingbase.Client.Connection.{
  is_active, is_closing, is_terminating, insert_parameter, get_parameter, parameter, CopyInMessage,
  Polled, CopyInReceiver, RequestMessages, Request, State, Incoming, SenderPoll, SocketPoll,
  Connection, message_of_copy, copy_finished, not_yet, item, ended, single, copy_in, active,
  terminating, closing, no_bytes, end_of_stream, broken, arrived, has_room, hung_up, no_room,
  socket_ready, socket_busy, socket_failed,
}
use rust_kingbase.Client.Connection.Read.Router.{IsAnswer, is_notice, is_parameter}
use rust_kingbase.Client.Startup.{
  from_batch, refill, next_input, Talk, return, raise, followed, ◌>>=◌, lift, required, flush_sent,
  send_raw, try_next, >>=-gives, Reply, Input, StartupStream, gives, raises, aborts, awaits,
}
use rust_kingbase.Client.Startup.Ends.{Ends}
use rust_kingbase.Client.Connect.{
  scram_sha_256, scram_sha_256_plus, named, startup_parameters, can_skip_channel_binding, offered,
  usable_end_point, choose, allow, raise_db, startup, authenticate_password, continue_body,
  final_body, exchange_by, authenticate_sasl, last_answer, answer_request, await_ok, authenticate,
  Mechanism,
}
use rust_kingbase.Client.Connect.Session.{
  settled, handshake, tls_answered, negotiate, prefer_tls, connect_tls, channel_end_point, no_info,
  delay, answers_room, room, info_round, info_rounds, read_info, new_connection, connected,
  connect_raw, new_stream, Transport, MaybeTlsStream, Info, Attempt, raw_stream, tls_stream,
}
use rust_kingbase.Client.Connect.Info.{Informed, read_info-Informed}
use rust_kingbase.Client.Connect.Established.{Handed, connect_raw-Hands}
use rust_kingbase.Client.Connect.Secure.{Shaken, connect_tls_required}
use rust_kingbase.Client.Connect.Required.{BoundLogin, connect_raw-IsBound}

abbrev unchanged : Bytes → Bytes
unchanged s = s

-- A message of the server with a body of less than 252 bytes.
abbrev server_message : ℕ → Bytes → Bytes
server_message tag body = tag ∷ 0 ∷ 0 ∷ 0 ∷ (length body + 4) ∷ body

abbrev auth_request : ℕ → Bytes → Incoming
auth_request kind body = arrived (normal (server_message b'R' (0 ∷ 0 ∷ 0 ∷ kind ∷ body)) false)

-- Key data, a notice and a parameter, and the end of the start-up.
abbrev last_answers : List Incoming
last_answers =
    arrived (normal (server_message b'K' (0 ∷ 0 ∷ 0 ∷ 7 ∷ 0 ∷ 0 ∷ 0 ∷ 9 ∷ [])) false)
    ∷ arrived (async (notice_response (codes "SNOTICE")))
    ∷ arrived (async (parameter_status (record { name = codes "TimeZone"; value = codes "UTC" })))
    ∷ arrived (normal (server_message b'Z' (b'I' ∷ [])) true)
    ∷ []

abbrev setup_info : Info
setup_info = record {
  process_id = pos 7;
  secret_key = pos 9;
  parameters = (codes "TimeZone", codes "UTC") ∷ [];
}

abbrev last_stream : StartupStream
last_stream = new_stream last_answers []

read_info-Informed_example :
    Ends (Informed standard last_stream no_info) (read_info standard unchanged last_stream)
read_info-Informed_example =
    read_info-Informed standard unchanged last_stream
      (tt, (is_notice _, (is_parameter _, (tt, tt))))

abbrev bound_config : Config
bound_config = record new_config {
  user = some (codes "me");
  password = some (codes "pw");
  ssl_mode = ssl_require;
  channel_binding = binding_require;
}

abbrev bound_attempt : Attempt
bound_attempt = record {
  config = bound_config;
  has_hostname = true;
  transport = record {
    can_connect = true;
    request_sent = ok tt;
    reply = ok b'S';
    handshake = ok tt;
    end_point = some (1 ∷ 2 ∷ []);
  };
  username = ok (codes "me");
  draws = 0x30 ∷ [];
}

-- The challenge of the server, and the signature that the client is to find in its last message.
abbrev bound_challenge : Bytes
bound_challenge = codes "r=0x,s=" ++ (plain.encode_base64 (1 ∷ []) ++ codes ",i=1")

abbrev bound_auth : Bytes
bound_auth =
    auth_message plain (codes "0") bound_challenge
      (without_proof plain (Scram.tls_server_end_point (1 ∷ 2 ∷ [])) (codes "0x"))

abbrev bound_signature : Bytes
bound_signature =
    codes "v="
    ++ plain.encode_base64
        (plain.hmac_sha256 (server_key plain (hi plain (codes "pw") (1 ∷ []) 1)) bound_auth)

abbrev bound_answers : List Incoming
bound_answers =
    auth_request 10 (codes "SCRAM-SHA-256-PLUS" ++ 0 ∷ 0 ∷ [])
    ∷ auth_request 11 bound_challenge
    ∷ auth_request 12 bound_signature
    ∷ auth_request 0 []
    ∷ last_answers

abbrev bound_stream : StartupStream
bound_stream =
    new_stream bound_answers (socket_ready ∷ socket_busy ∷ socket_ready ∷ socket_ready ∷ [])

bound_answers-IsAnswer : All IsAnswer bound_answers
bound_answers-IsAnswer = (tt, (tt, (tt, (tt, (tt, (is_notice _, (is_parameter _, (tt, tt))))))))

connect_raw-Hands_example :
    Ends
      (Handed standard plain unchanged bound_attempt bound_stream)
      (connect_raw standard plain unchanged [] [] bound_attempt bound_stream)
connect_raw-Hands_example =
    connect_raw-Hands standard plain unchanged [] [] bound_attempt bound_answers
      (socket_ready ∷ socket_busy ∷ socket_ready ∷ socket_ready ∷ [])
      (record { sent = tt; answered = tt; shaken = tt; known = tt }) bound_answers-IsAnswer

abbrev bound_run : Reply (Info × Connection) × StartupStream
bound_run = connect_raw standard plain unchanged [] [] bound_attempt bound_stream

bound_run_gives :
    connect_raw standard plain unchanged [] [] bound_attempt bound_stream
    ≡ (gives (setup_info, new_connection [] [] setup_info.parameters bound_run.1), bound_run.1)
unfolding Parser.verifier Parser.iteration_count Parser.base64 Parser.server_final_message
    Parser.eof Parser.salt Parser.final_of Parser.printable Parser.posit_number Parser.nonce
    Parser.take_while Parser.value Parser.server_error Parser.eat Parser.server_first_message
    Text.parse_digits Text.parse_unsigned Connect.authenticate_password Connect.answer_request
    Connect.authenticate Connect.startup_parameters Connect.raise_db Connect.startup
    Connect.authenticate_sasl Connect.final_body Connect.allow Connect.offered Connect.continue_body
    Connect.choose Connect.usable_end_point Connect.can_skip_channel_binding Connect.last_answer
    Connect.await_ok Connect.exchange_by Session.negotiate Session.read_info Session.connected
    Session.user_of Session.tls_answered Session.info_round Session.channel_end_point
    Session.handshake Session.prefer_tls Session.new_connection Session.connect_tls
    Session.connect_raw Session.info_rounds Session.delay Body.authentication Scram.finish
    Scram.prepared Scram.hi Scram.new Scram.replaced Scram.verified Scram.concluded Scram.message_of
    Scram.finish_of Scram.new_inner Scram.answer Scram.update_of Scram.challenged Scram.verify
    Scram.normalize Scram.scram_message Scram.update Scram.hi_rounds Startup.next_input
    Startup.send_raw Startup.try_next Startup.flush_sent Startup.refill Startup.from_batch
    Iterators.get_str Iterators.find_null Iterators.sasl_mechanisms_next Frontend.password_message
    Frontend.ssl_request Frontend.write_cstr Frontend.startup_message Frontend.write_pairs
    Frontend.sasl_initial_response Frontend.sasl_response Frontend.write_body Read.read_uint
    Read.read_exact Read.split_at Read.slice_from Read.slice_to Iterate.collect Write.from_usize
    Write.write_at Write.sub_usize Backend.parse Backend.parse_frame Connection.insert_parameter
    Utf8.from_utf8 Utf8.is_utf8 Codec.next Backend.finish Backend.parse_header Body.parse_body
    Body.read_key_data Body.read_cstr Body.read_authentication Body.read_status Read.read_int
bound_run_gives = refl

bound_handshake :
    connect_tls standard ssl_require postgres_negotiation true bound_attempt.transport bound_stream
    ≡ (gives tls_stream, bound_stream)
unfolding Session.connect_tls Session.negotiate Session.handshake Session.tls_answered
    Frontend.ssl_request Frontend.write_body Write.sub_usize Write.from_usize Write.write_at
bound_handshake = refl

connect_raw-IsBound_example :
    ((connect_tls standard ssl_require postgres_negotiation true bound_attempt.transport
        bound_stream).0
      ≡ gives tls_stream)
    × BoundLogin standard plain (0x30 ∷ []) (some (1 ∷ 2 ∷ [])) bound_config bound_stream.input
connect_raw-IsBound_example =
    connect_raw-IsBound standard plain unchanged [] [] bound_attempt bound_stream refl
      bound_run_gives

connect_tls_required_example :
    Shaken true bound_attempt.transport tls_stream
    × ((postgres_negotiation ≡ direct_negotiation) ⊎ (bound_attempt.transport.reply ≡ ok b'S'))
connect_tls_required_example =
    connect_tls_required standard postgres_negotiation true bound_attempt.transport bound_stream
      bound_handshake
