-- ===== src/Auth/Scram.antt =====
-- ScramSha256 of postgres-protocol/src/authentication/sasl.rs: the client of SCRAM-SHA-256, with the
-- random numbers of its nonce as an argument.
pub mod Order
pub mod Final
pub mod Total
pub mod Answered
use rust_kingbase.Prelude.{
  ◌==◌, if◌then◌else◌, Bytes, take, ◌>>=◌, ok_or, map_err, Result, invalid_input, message,
  scram_error, ok, err, panic, ℕ, zero, suc, ◌-◌, Option, none, some, List, [], ◌∷◌, ◌++◌, map,
}
use rust_kingbase.Wire.Text.{codes, same, starts_with}
use rust_kingbase.Wire.Utf8.{from_utf8}
use rust_kingbase.Auth.Crypto.{xor_bytes, CryptoCrates}
use rust_kingbase.Auth.Parser.{
  nonce, salt, iteration_count, server_first_message, server_final_message, ServerFirstMessage,
  ServerFinalMessage, final_error, final_verifier,
}

abbrev pub nonce_length : ℕ
nonce_length = 24

pub data ChannelBinding : Type 0 where
  unrequested unsupported : ChannelBinding
  tls_server_end_point : Bytes → ChannelBinding

abbrev pub gs2_header : ChannelBinding → Bytes
gs2_header unrequested = codes "y,,"
gs2_header unsupported = codes "n,,"
gs2_header (tls_server_end_point _) = codes "p=tls-server-end-point,,"

abbrev pub cbind_data : ChannelBinding → Bytes
cbind_data unrequested = []
cbind_data unsupported = []
cbind_data (tls_server_end_point buf) = buf

-- `State`: the fields of `Update` are the nonce, the password and the channel binding, and those of
-- `Finish` the salted password and the message that both sides sign.
pub data ScramState : Type 0 where
  updating : Bytes → Bytes → ChannelBinding → ScramState
  finishing : Bytes → Bytes → ScramState
  finished : ScramState

pub record ScramSha256 : Type 0 where
  pub text : Bytes
  pub state : ScramState

-- The character of a number that was drawn from 0x21 to 0x7d.
abbrev pub nonce_char : ℕ → ℕ
nonce_char v = if v == 0x2c then 0x7e else v

module _ (crypto : CryptoCrates) where
  open crypto use {hmac_sha256, sha256, encode_base64, decode_base64, saslprep}

  unfoldable pub prepared : Bytes → Option Bytes → Bytes
  prepared pass (some p) = p
  prepared pass none = pass

  unfoldable pub normalize : Bytes → Bytes
  unfolding prepared
  normalize pass = elim (from_utf8 pass) [
    | ok s ↦ prepared s (saslprep s)
    | err e ↦ pass
    | panic ↦ pass
  ]

  -- The loop of `hi`, with `prev` and `hi`.
  unfoldable pub hi_rounds : Bytes → ℕ → Bytes → Bytes → Bytes
  hi_rounds str zero prev acc = acc
  hi_rounds str (suc n) prev acc =
      let next = hmac_sha256 str prev in hi_rounds str n next (xor_bytes acc next)

  unfoldable pub hi : Bytes → Bytes → ℕ → Bytes
  hi str salt i =
      let prev = hmac_sha256 str (salt ++ 0 ∷ 0 ∷ 0 ∷ 1 ∷ []) in hi_rounds str (i - 1) prev prev

  unfoldable pub new_inner : Bytes → ChannelBinding → Bytes → ScramSha256
  new_inner password channel_binding nonce = record {
    text = gs2_header channel_binding ++ (codes "n=,r=" ++ nonce);
    state = updating nonce (normalize password) channel_binding;
  }

  -- `new`, with the numbers that `random_range` draws.
  unfoldable pub new : List ℕ → Bytes → ChannelBinding → ScramSha256
  new draws password channel_binding =
      new_inner password channel_binding (map nonce_char (take nonce_length draws))

-- `message`
unfoldable pub message_of : ScramState → Bytes → Result Bytes
message_of (updating n p b) text = ok text
message_of (finishing p a) text = ok text
message_of finished text = panic

unfoldable pub scram_message : ScramSha256 → Result Bytes
scram_message s = message_of s.state s.text

-- A result with the state that the operation leaves.
pub record Step : Type 0 where
  pub outcome : Result (Unit {0})
  pub left : ScramSha256

module _ (crypto : CryptoCrates) where
  open crypto use {hmac_sha256, sha256, encode_base64, decode_base64}

  abbrev pub client_key : Bytes → Bytes
  client_key salted = hmac_sha256 salted (codes "Client Key")

  abbrev pub server_key : Bytes → Bytes
  server_key salted = hmac_sha256 salted (codes "Server Key")

  -- `c={},r={}`
  abbrev pub without_proof : ChannelBinding → Bytes → Bytes
  without_proof channel_binding nonce =
      codes "c="
      ++ (encode_base64 (gs2_header channel_binding ++ cbind_data channel_binding)
          ++ (codes ",r=" ++ nonce))

  -- `n=,r={},{},{}`
  abbrev pub auth_message : Bytes → Bytes → Bytes → Bytes
  auth_message client_nonce server_message text =
      codes "n=,r=" ++ (client_nonce ++ (codes "," ++ (server_message ++ (codes "," ++ text))))

  -- `{},p={}`
  abbrev pub with_proof : Bytes → Bytes → Bytes
  with_proof text proof = text ++ (codes ",p=" ++ encode_base64 proof)

  -- The answer to a challenge that was parsed, with its salt decoded.
  unfoldable pub answer :
      Bytes → Bytes → ChannelBinding → Bytes → ServerFirstMessage → Bytes → ScramSha256
  answer client_nonce password channel_binding received parsed salt =
      let salted = hi crypto password salt parsed.iteration_count in
      let key = client_key salted in
      let text = without_proof channel_binding parsed.nonce in
      let auth = auth_message client_nonce received text in
      let proof = xor_bytes key (hmac_sha256 (sha256 key) auth) in
      record { text = with_proof text proof; state = finishing salted auth }

  unfoldable pub challenged : Bytes → Bytes → ChannelBinding → Bytes → Result ScramSha256
  challenged client_nonce password channel_binding received = do
    received ← map_err (λ e. invalid_input "Utf8Error") (from_utf8 received)
    parsed ← server_first_message received
    _ ←
        (if starts_with parsed.nonce client_nonce
          then ok (tt {0})
          else err (invalid_input "invalid nonce"))
    salt ← ok_or (decode_base64 parsed.salt) (invalid_input "DecodeError")
    ok (answer client_nonce password channel_binding received parsed salt)

  -- The state is `Done` unless the result replaces it.
  unfoldable pub replaced : Bytes → Result ScramSha256 → Step
  replaced text (ok s) = record { outcome = ok tt; left = s }
  replaced text (err e) = record {
    outcome = err e;
    left = record { text = text; state = finished };
  }
  replaced text panic = record { outcome = panic; left = record { text = text; state = finished } }

  unfoldable pub update_of : ScramState → Bytes → Bytes → Step
  update_of (updating n p b) text received = replaced text (challenged n p b received)
  update_of (finishing p a) text received = replaced text (err (message "invalid SCRAM state"))
  update_of finished text received = replaced text (err (message "invalid SCRAM state"))

  unfoldable pub update : ScramSha256 → Bytes → Step
  update s received = update_of s.state s.text received

  -- `verify_slice`
  unfoldable pub verify : Bytes → Bytes → Result (Unit {0})
  verify signature v =
      if same signature v then ok tt else err (invalid_input "SCRAM verification error")

  unfoldable pub verified : Bytes → Bytes → ServerFinalMessage → Result (Unit {0})
  verified salted auth (final_error e) = err (scram_error e)
  verified salted auth (final_verifier v) = do
    v ← ok_or (decode_base64 v) (invalid_input "DecodeError")
    verify (hmac_sha256 (server_key salted) auth) v

  unfoldable pub concluded : Bytes → Bytes → Bytes → Result (Unit {0})
  concluded salted auth received = do
    received ← map_err (λ e. invalid_input "Utf8Error") (from_utf8 received)
    parsed ← server_final_message received
    verified salted auth parsed

  unfoldable pub finish_of : ScramState → Bytes → Result (Unit {0})
  finish_of (finishing p a) received = concluded p a received
  finish_of (updating n p b) received = err (message "invalid SCRAM state")
  finish_of finished received = err (message "invalid SCRAM state")

  unfoldable pub finish : ScramSha256 → Bytes → Step
  finish s received = record {
    outcome = finish_of s.state received;
    left = record { text = s.text; state = finished };
  }
