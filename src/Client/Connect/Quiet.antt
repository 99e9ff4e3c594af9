-- ===== src/Client/Connect/Quiet.antt =====
-- The parts of `connect_raw` before the authentication take nothing off the messages of the stream.
use rust_kingbase.Prelude.{
  ◌==◌, if◌then◌else◌, Bytes, Error, Result, ℕ, ◌≡◌, ap, ◌∙◌, Bool, true, false, none, some, Option,
  [], sym,
}
use rust_kingbase.Wire.Crates.{Crates}
use rust_kingbase.Message.Frontend.{startup_message, ssl_request}
use rust_kingbase.Config.{
  SslMode, SslNegotiation, Config, ssl_disable, ssl_prefer, ssl_require, postgres_negotiation,
  direct_negotiation,
}
use rust_kingbase.Client.DbError.{ClientError, io_failed, encode_failed, tls_failed}
use rust_kingbase.Client.Startup.{
  Talk, return, raise, ◌>>=◌, lift, send_raw, >>=-gives, StartupStream, gives,
}
use rust_kingbase.Client.Connect.{startup_parameters, startup}
use rust_kingbase.Client.Connect.Binding.{lift_same, send_raw-input}
use rust_kingbase.Client.Connect.Session.{
  user_of, handshake, tls_answered, negotiate, prefer_tls, connect_tls, Transport, MaybeTlsStream,
  Attempt, raw_stream, tls_stream,
}

-- A part that leaves the messages to come, where it comes to a value.
abbrev Quiet : {A : Type 0} → Talk A → Type 0
Quiet {A} m = (s s' : StartupStream) (a : A) → m s ≡ (gives a, s') → s'.input ≡ s.input

then-Quiet :
    {A B : Type 0} (m : Talk A) (f : A → Talk B)
    → Quiet m
    → ((a : A) → Quiet (f a))
    → Quiet (m >>= f)
then-Quiet m f h k s s' b e =
    let (a, mid, e₁, e₂) = >>=-gives m f {s = s} e in k a mid s' b e₂ ∙ h s mid a e₁

if-Quiet : {A : Type 0} (b : Bool) (x y : Talk A) → Quiet x → Quiet y → Quiet (if b then x else y)
if-Quiet true x y h k = h
if-Quiet false x y h k = k

return-Quiet : {A : Type 0} (a : A) → Quiet (return a)
return-Quiet a s s' b e = ap (λ r. r.1.input) (sym e)

raise-Quiet : {A : Type 0} (x : ClientError) → Quiet (raise {A = A} x)
raise-Quiet x s s' b e = cc

lift-Quiet : {A : Type 0} (wrap : Error → ClientError) (r : Result A) → Quiet (lift wrap r)
lift-Quiet wrap r s s' a e = ap (λ x. x.input) (lift_same wrap r s e)

handshake-Quiet : (has_hostname : Bool) (t : Transport) → Quiet (handshake has_hostname t)
unfolding handshake
handshake-Quiet has_hostname t =
    if-Quiet has_hostname _ _
      (then-Quiet (lift tls_failed t.handshake) (λ u. return tls_stream) (lift-Quiet _ _)
        (λ u. return-Quiet tls_stream))
      (raise-Quiet _)

tls_answered-Quiet :
    (mode : SslMode) (has_hostname : Bool) (t : Transport) (answer : ℕ)
    → Quiet (tls_answered mode has_hostname t answer)
unfolding tls_answered
tls_answered-Quiet ssl_require has_hostname t answer =
    if-Quiet (answer == b'S') _ _ (handshake-Quiet has_hostname t) (raise-Quiet _)
tls_answered-Quiet ssl_prefer has_hostname t answer =
    if-Quiet (answer == b'S') _ _ (handshake-Quiet has_hostname t) (return-Quiet raw_stream)
tls_answered-Quiet ssl_disable has_hostname t answer =
    if-Quiet (answer == b'S') _ _ (handshake-Quiet has_hostname t) (return-Quiet raw_stream)

user_of_step :
    (a : Attempt) (o : Option Bytes) (s s' : StartupStream) (user : Bytes)
    → elim o [ some user ↦ (gives user, s) | none ↦ lift io_failed a.username s ] ≡ (gives user, s')
    → s'.input ≡ s.input
user_of_step a (some name) s s' user e = return-Quiet name s s' user e
user_of_step a none s s' user e = lift-Quiet io_failed a.username s s' user e

pub user_of-input :
    (a : Attempt) (s : StartupStream) {s' : StartupStream} {user : Bytes}
    → user_of a s ≡ (gives user, s')
    → s'.input ≡ s.input
unfolding user_of
user_of-input a s {s'} {user} e = user_of_step a a.config.user s s' user e

module _ (crates : Crates) where
  negotiate-Quiet :
      (mode : SslMode) (negotiation : SslNegotiation) (has_hostname : Bool) (t : Transport)
      → Quiet (negotiate crates mode negotiation has_hostname t)
  unfolding negotiate
  negotiate-Quiet mode direct_negotiation has_hostname t = handshake-Quiet has_hostname t
  negotiate-Quiet mode postgres_negotiation has_hostname t =
      then-Quiet (lift encode_failed (ssl_request crates [])) _ (lift-Quiet _ _) (λ buf.
        then-Quiet (lift io_failed t.request_sent) _ (lift-Quiet _ _) (λ u.
          then-Quiet (lift io_failed t.reply) _ (lift-Quiet _ _)
            (λ answer. tls_answered-Quiet mode has_hostname t answer)))

  prefer_tls-Quiet :
      (negotiation : SslNegotiation) (has_hostname : Bool) (t : Transport)
      → Quiet (prefer_tls crates negotiation has_hostname t)
  unfolding prefer_tls
  prefer_tls-Quiet direct_negotiation has_hostname t = raise-Quiet _
  prefer_tls-Quiet postgres_negotiation has_hostname t =
      negotiate-Quiet ssl_prefer postgres_negotiation has_hostname t

  connect_tls-Quiet :
      (mode : SslMode) (negotiation : SslNegotiation) (has_hostname : Bool) (t : Transport)
      → Quiet (connect_tls crates mode negotiation has_hostname t)
  unfolding connect_tls
  connect_tls-Quiet ssl_disable negotiation has_hostname t = return-Quiet raw_stream
  connect_tls-Quiet ssl_prefer negotiation has_hostname t =
      if-Quiet t.can_connect _ _ (prefer_tls-Quiet negotiation has_hostname t)
        (return-Quiet raw_stream)
  connect_tls-Quiet ssl_require negotiation has_hostname t =
      negotiate-Quiet ssl_require negotiation has_hostname t

  pub connect_tls-input :
      (mode : SslMode) (negotiation : SslNegotiation) (has_hostname : Bool) (t : Transport)
      (s : StartupStream) {s' : StartupStream} {stream : MaybeTlsStream}
      → connect_tls crates mode negotiation has_hostname t s ≡ (gives stream, s')
      → s'.input ≡ s.input
  connect_tls-input mode negotiation has_hostname t s e =
      connect_tls-Quiet mode negotiation has_hostname t s _ _ e

  pub startup-input :
      (config : Config) (user : Bytes) (s : StartupStream) {s' : StartupStream} {u : Unit {0}}
      → startup crates config user s ≡ (gives u, s')
      → s'.input ≡ s.input
  unfolding startup
  startup-input config user s e =
      then-Quiet (lift encode_failed (startup_message crates (startup_parameters config user) []))
        send_raw (lift-Quiet _ _) (λ buf t t' v k. send_raw-input buf t k) s _ _ e
