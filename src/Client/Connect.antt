-- ===== src/Client/Connect.antt =====
-- tokio-postgres/src/connect_raw.rs and connect_tls.rs: how a connection is set up. The TLS crate and
-- `whoami` are parameters: whether it can connect, what its handshake answers, the end point that its
-- stream gives for the channel binding, and the name of the user. `draws` are the random numbers of
-- the nonce, and `lossy` is `String::from_utf8_lossy`.
pub mod Session
pub mod Input
pub mod Info
pub mod Mechanisms
pub mod Ready
pub mod Established
pub mod Binding
pub mod Quiet
pub mod Required
pub mod Secure
pub mod Progress
use rust_kingbase.Prelude.{
  if◌then◌else◌, Bytes, length, message, ℕ, suc, String, Bool, true, false, Option, none, some,
  List, [], ◌∷◌, ◌++◌,
}
use rust_kingbase.Wire.Crates.{Crates}
use rust_kingbase.Wire.Text.{codes, same}
use rust_kingbase.Wire.Iterate.{collect}
use rust_kingbase.Message.Backend.Body.{
  Message, authentication_cleartext_password, authentication_gss, authentication_kerberos_v5,
  authentication_md5_password, authentication_ok, authentication_scm_credential,
  authentication_sspi, authentication_sasl, authentication_sasl_continue, authentication_sasl_final,
  error_response,
}
use rust_kingbase.Message.Backend.Iterators.{sasl_mechanisms_next, fields}
use rust_kingbase.Message.Frontend.{
  startup_message, password_message, sasl_initial_response, sasl_response,
}
use rust_kingbase.Auth.Crypto.{CryptoCrates}
use rust_kingbase.Auth.Scram
use rust_kingbase.Auth.Scram.{new, update, finish, scram_message}
use rust_kingbase.Auth.Password.{md5_hash}
use rust_kingbase.Config.{ChannelBinding, Config, binding_disable, binding_prefer, binding_require}
use rust_kingbase.Client.DbError.{
  db_error, parse_failed, unexpected_message, encode_failed, authentication_failed, config_failed,
  connection_closed,
}
use rust_kingbase.Client.Startup.{Talk, return, raise, ◌>>=◌, lift, required, send_raw, try_next}

-- `sasl::SCRAM_SHA_256` and `sasl::SCRAM_SHA_256_PLUS`
abbrev pub scram_sha_256 : Bytes
scram_sha_256 = codes "SCRAM-SHA-256"

abbrev pub scram_sha_256_plus : Bytes
scram_sha_256_plus = codes "SCRAM-SHA-256-PLUS"

-- The parameters of the start-up message.
abbrev pub named : String → Option Bytes → List (Bytes × Bytes)
named name none = []
named name (some value) = (codes name, value) ∷ []

unfoldable pub startup_parameters : Config → Bytes → List (Bytes × Bytes)
startup_parameters config user =
    (codes "client_encoding", codes "UTF8")
    ∷ (codes "user", user)
    ∷ (named "database" config.dbname
        ++ (named "options" config.options ++ named "application_name" config.application_name))

-- `can_skip_channel_binding`
unfoldable pub can_skip_channel_binding : ChannelBinding → Talk (Unit {0})
can_skip_channel_binding binding_disable = return tt
can_skip_channel_binding binding_prefer = return tt
can_skip_channel_binding binding_require =
    raise (authentication_failed (message "server did not use channel binding"))

-- The flags `has_scram` and `has_scram_plus` after the loop over the mechanisms.
unfoldable pub offered : List Bytes → Bool × Bool → Bool × Bool
offered [] flags = flags
offered (mechanism ∷ rest) (has_scram, has_scram_plus) =
    if same mechanism scram_sha_256
    then offered rest (true, has_scram_plus)
    else if same mechanism scram_sha_256_plus
    then offered rest (has_scram, true)
    else offered rest (has_scram, has_scram_plus)

-- The channel binding of the stream, unless the configuration disables it.
unfoldable pub usable_end_point : ChannelBinding → Option Bytes → Option Bytes
usable_end_point binding_disable end_point = none
usable_end_point binding_prefer end_point = end_point
usable_end_point binding_require end_point = end_point

pub record Mechanism : Type 0 where
  pub binding : Scram.ChannelBinding
  pub name : Bytes

unfoldable pub choose : Bool × Bool → Option Bytes → Option Mechanism
choose (has_scram, true) (some end_point) =
    some (record { binding = Scram.tls_server_end_point end_point; name = scram_sha_256_plus })
choose (has_scram, true) none = some (record { binding = Scram.unsupported; name = scram_sha_256 })
choose (true, false) (some end_point) =
    some (record { binding = Scram.unrequested; name = scram_sha_256 })
choose (true, false) none = some (record { binding = Scram.unsupported; name = scram_sha_256 })
choose (false, false) end_point = none

-- A mechanism without channel binding is used only where it may be skipped.
unfoldable pub allow : ChannelBinding → Mechanism → Talk (Unit {0})
unfolding can_skip_channel_binding
allow binding chosen =
    if same chosen.name scram_sha_256_plus then return tt else can_skip_channel_binding binding

module _ (crates : Crates) (lossy : Bytes → Bytes) where
  -- `Error::db` as an error of the dialogue.
  unfoldable pub raise_db {ℓ} : {A : Type ℓ} → Bytes → Talk A
  raise_db fields = lift parse_failed (db_error crates lossy fields) >>= raise

module _ (crates : Crates) where
  unfoldable pub startup : Config → Bytes → Talk (Unit {0})
  startup config user = do
    buf ← lift encode_failed (startup_message crates (startup_parameters config user) [])
    send_raw buf

  unfoldable pub authenticate_password : Bytes → Talk (Unit {0})
  authenticate_password password = do
    buf ← lift encode_failed (password_message crates password [])
    send_raw buf

module _ (crates : Crates) (lossy : Bytes → Bytes) where
  -- The arms of the two `match` on a message of the SASL exchange.
  unfoldable pub continue_body : Option Message → Talk Bytes
  unfolding raise_db
  continue_body (some (authentication_sasl_continue body)) = return body
  continue_body (some (error_response fields)) = raise_db crates lossy fields
  continue_body (some _) = raise unexpected_message
  continue_body none = raise connection_closed

  unfoldable pub final_body : Option Message → Talk Bytes
  unfolding raise_db
  final_body (some (authentication_sasl_final body)) = return body
  final_body (some (error_response fields)) = raise_db crates lossy fields
  final_body (some _) = raise unexpected_message
  final_body none = raise connection_closed

module _ (crates : Crates) (crypto : CryptoCrates) (lossy : Bytes → Bytes) where
  -- The exchange by a mechanism that was chosen.
  unfoldable pub exchange_by : List ℕ → Bytes → Mechanism → Talk (Unit {0})
  exchange_by draws password chosen = do
    let scram = new crypto draws password chosen.binding
    first ← lift authentication_failed (scram_message scram)
    buf ← lift encode_failed (sasl_initial_response crates chosen.name first [])
    _ ← send_raw buf
    answered ← try_next crates
    challenge ← continue_body crates lossy answered
    let updated = update crypto scram challenge
    _ ← lift authentication_failed updated.outcome
    second ← lift authentication_failed (scram_message updated.left)
    buf ← lift encode_failed (sasl_response crates second [])
    _ ← send_raw buf
    answered ← try_next crates
    signature ← final_body crates lossy answered
    lift authentication_failed (finish crypto updated.left signature).outcome

module _ (crates : Crates) (crypto : CryptoCrates) (lossy : Bytes → Bytes) where
  unfoldable pub authenticate_sasl : List ℕ → Option Bytes → Config → Bytes → Talk (Unit {0})
  authenticate_sasl draws end_point config body = do
    password ← required (config_failed (message "password missing")) config.password
    mechanisms ← lift parse_failed (collect (sasl_mechanisms_next crates) (suc (length body)) body)
    chosen ← required (authentication_failed (message "unsupported SASL mechanism")) (
        choose (offered mechanisms (false, false))
          (usable_end_point config.channel_binding end_point))
    _ ← allow config.channel_binding chosen
    exchange_by crates crypto lossy draws password chosen

module _ (crates : Crates) (crypto : CryptoCrates) (lossy : Bytes → Bytes) where
  -- The second `match`, behind a password or a SASL exchange.
  unfoldable pub last_answer : Option Message → Talk (Unit {0})
  unfolding raise_db
  last_answer (some authentication_ok) = return tt
  last_answer (some (error_response fields)) = raise_db crates lossy fields
  last_answer (some _) = raise unexpected_message
  last_answer none = raise connection_closed

  -- What `authenticate` does with the request of the server, and whether the answer of the server to it
  -- is still to be read.
  unfoldable pub answer_request :
      List ℕ → Option Bytes → Config → Bytes → Option Message → Talk Bool
  unfolding raise_db
  answer_request draws end_point config user (some authentication_ok) = do
    _ ← can_skip_channel_binding config.channel_binding
    return false
  answer_request draws end_point config user (some authentication_cleartext_password) = do
    _ ← can_skip_channel_binding config.channel_binding
    password ← required (config_failed (message "password missing")) config.password
    _ ← authenticate_password crates password
    return true
  answer_request draws end_point config user (some (authentication_md5_password salt)) = do
    _ ← can_skip_channel_binding config.channel_binding
    password ← required (config_failed (message "password missing")) config.password
    _ ← authenticate_password crates (md5_hash crypto user password salt)
    return true
  answer_request draws end_point config user (some (authentication_sasl body)) = do
    _ ← authenticate_sasl crates crypto lossy draws end_point config body
    return true
  answer_request draws end_point config user (some authentication_kerberos_v5) =
      raise (authentication_failed (message "unsupported authentication method"))
  answer_request draws end_point config user (some authentication_scm_credential) =
      raise (authentication_failed (message "unsupported authentication method"))
  answer_request draws end_point config user (some authentication_gss) =
      raise (authentication_failed (message "unsupported authentication method"))
  answer_request draws end_point config user (some authentication_sspi) =
      raise (authentication_failed (message "unsupported authentication method"))
  answer_request draws end_point config user (some (error_response fields)) =
      raise_db crates lossy fields
  answer_request draws end_point config user (some _) = raise unexpected_message
  answer_request draws end_point config user none = raise connection_closed

  unfoldable pub await_ok : Bool → Talk (Unit {0})
  await_ok true = do answered ← try_next crates; last_answer answered
  await_ok false = return tt

module _ (crates : Crates) (crypto : CryptoCrates) (lossy : Bytes → Bytes) where
  unfoldable pub authenticate : List ℕ → Option Bytes → Config → Bytes → Talk (Unit {0})
  authenticate draws end_point config user = do
    request ← try_next crates
    more ← answer_request crates crypto lossy draws end_point config user request
    await_ok crates crypto lossy more
