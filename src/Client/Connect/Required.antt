-- ===== src/Client/Connect/Required.antt =====
-- With channel binding required, `connect_raw` of tokio-postgres/src/connect_raw.rs gives a connection
-- only over TLS and behind a bound exchange.
use rust_kingbase.Prelude.{Bytes, ℕ, ◌≡◌, refl, ap, ◌∙◌, ◌≢◌, Bool, true, Option, none, some, List}
use rust_kingbase.Wire.Crates.{Crates}
use rust_kingbase.Message.Backend.Body.{
  Message, authentication_cleartext_password, authentication_md5_password, authentication_ok,
  authentication_sasl, error_response,
}
use rust_kingbase.Auth.Crypto.{CryptoCrates}
use rust_kingbase.Config.{Config, binding_require}
use rust_kingbase.Client.Connection.{Polled, Request, SenderPoll, Connection}
use rust_kingbase.Client.Startup.{Talk, return, ◌>>=◌, try_next, >>=-gives, StartupStream, gives}
use rust_kingbase.Client.Connect.{
  can_skip_channel_binding, startup, authenticate_sasl, answer_request, authenticate,
}
use rust_kingbase.Client.Connect.Session.{
  user_of, connect_tls, channel_end_point, connect_raw, Transport, MaybeTlsStream, Info, Attempt,
  raw_stream, tls_stream,
}
use rust_kingbase.Client.Connect.Quiet.{startup-input, user_of-input, connect_tls-input}
use rust_kingbase.Client.Startup.{next_input, Reply, Input, raises, aborts, awaits}
use rust_kingbase.Client.Connect.{last_answer, await_ok}
use rust_kingbase.Prelude.{sym, subst, false}
use rust_kingbase.Client.Connect.Binding.{
  try_next_gives, can_skip_raises, IsBound, raise_db-never, authenticate_sasl-IsBound,
}

-- The whole authentication over the messages to come: the request for SASL, the bound exchange, and the
-- server's word that it is done.
pub record BoundLogin (crates : Crates) (crypto : CryptoCrates) (draws : List ℕ)
    (end_point : Option Bytes) (config : Config) (before : Input) : Type 0 where
  pub body : Bytes
  pub first : Input
  pub last : Input
  pub after : Input
  pub asked : next_input crates before ≡ (gives (some (authentication_sasl body)), first)
  pub bound : IsBound crates crypto draws end_point config first last
  pub accepted : next_input crates last ≡ (gives (some authentication_ok), after)

module _ (crates : Crates) (crypto : CryptoCrates) (lossy : Bytes → Bytes) where
  abbrev replied : Reply Bool → Bool
  replied (gives b) = b
  replied (raises e) = true
  replied aborts = true
  replied awaits = true

  module _ (draws : List ℕ) (end_point : Option Bytes) (config : Config) (user : Bytes)
      (required_binding : config.channel_binding ≡ binding_require) where
    -- A request that goes on where the binding may be skipped does not go on here.
    skipped :
        {A : Type 0} (f : Unit {0} → Talk A) (s : StartupStream) {s' : StartupStream} {a : A}
        → (can_skip_channel_binding config.channel_binding >>= f) s ≢ (gives a, s')
    skipped f s h =
        let (u, mid, e, g) =
          >>=-gives (can_skip_channel_binding config.channel_binding) f {s = s} h in
        can_skip_raises config.channel_binding s required_binding e

    answer_request-IsBound :
        (m : Option Message) (s : StartupStream) {s' : StartupStream} {more : Bool}
        → answer_request crates crypto lossy draws end_point config user m s ≡ (gives more, s')
        → (body : Bytes) × (m ≡ some (authentication_sasl body))
          × (more ≡ true)
          × IsBound crates crypto draws end_point config s.input s'.input
    unfolding answer_request
    answer_request-IsBound (some (authentication_sasl body)) s {s'} {more} h =
        let (u, mid, e, g) =
          >>=-gives (authenticate_sasl crates crypto lossy draws end_point config body)
            (λ v. return true) {s = s} h in
        (
          body,
          refl,
          ap (λ r. replied r.0) (sym g),
          subst (λ x. IsBound crates crypto draws end_point config s.input x.input)
              (ap (λ r. r.1) g)
              (authenticate_sasl-IsBound crates crypto lossy draws end_point config body s
                required_binding e),
        )
    answer_request-IsBound (some authentication_ok) s h = absurd (skipped _ s h)
    answer_request-IsBound (some authentication_cleartext_password) s h = absurd (skipped _ s h)
    answer_request-IsBound (some (authentication_md5_password salt)) s h = absurd (skipped _ s h)
    answer_request-IsBound (some (error_response report)) s h =
        absurd (raise_db-never crates crypto lossy report s h)
    answer_request-IsBound (some _) s h = cc
    answer_request-IsBound none s h = cc

    last_answer_gives :
        (m : Option Message) (s : StartupStream) {s' : StartupStream} {u : Unit {0}}
        → last_answer crates crypto lossy m s ≡ (gives u, s')
        → m ≡ some authentication_ok
    unfolding last_answer
    last_answer_gives (some authentication_ok) s h = refl
    last_answer_gives (some (error_response report)) s h =
        absurd (raise_db-never crates crypto lossy report s h)
    last_answer_gives (some _) s h = cc
    last_answer_gives none s h = cc

    await_ok_gives :
        (more : Bool) (s : StartupStream) {s' : StartupStream} {u : Unit {0}}
        → more ≡ true
        → await_ok crates crypto lossy more s ≡ (gives u, s')
        → (after : Input) × (next_input crates s.input ≡ (gives (some authentication_ok), after))
    unfolding await_ok
    await_ok_gives true s e h =
        let (m, s₁, e₁, h₁) =
          >>=-gives (try_next crates) (last_answer crates crypto lossy) {s = s} h in
        (
          s₁.input,
          try_next_gives crates s e₁ ∙ ap (λ x. (gives x, s₁.input)) (last_answer_gives m s₁ h₁),
        )
    await_ok_gives false s e h = cc

    authenticate-BoundLogin :
        (s : StartupStream) {s' : StartupStream} {u : Unit {0}}
        → authenticate crates crypto lossy draws end_point config user s ≡ (gives u, s')
        → BoundLogin crates crypto draws end_point config s.input
    unfolding authenticate
    authenticate-BoundLogin s h =
        let (request, s₁, e₁, h₁) = >>=-gives (try_next crates) _ {s = s} h in
        let (more, s₂, e₂, h₂) =
          >>=-gives (answer_request crates crypto lossy draws end_point config user request)
            (await_ok crates crypto lossy) {s = s₁} h₁ in
        let (body, is_sasl, awaits_more, bound) = answer_request-IsBound request s₁ e₂ in
        let (after, accepted) = await_ok_gives more s₂ awaits_more h₂ in
        record {
          body = body;
          first = s₁.input;
          last = s₂.input;
          after = after;
          asked = try_next_gives crates s e₁ ∙ ap (λ x. (gives x, s₁.input)) is_sasl;
          bound = bound;
          accepted = accepted;
        }

  on_tls :
      (t : Transport) (stream : MaybeTlsStream) {place : Bytes}
      → channel_end_point t stream ≡ some place
      → (stream ≡ tls_stream) × (t.end_point ≡ some place)
  unfolding channel_end_point
  on_tls t raw_stream h = cc
  on_tls t tls_stream h = (refl, h)

  -- Where the configuration requires channel binding, `connect_raw` gives a connection only when the
  -- stream is encrypted, TLS offers an end point, a password is configured, and the first messages of
  -- the stream are a request for SASL, a challenge, a signature and the word that it is done, where the
  -- client by that password makes of the challenge a message that carries the end point as its channel
  -- binding, and accepts the signature.
  pub connect_raw-IsBound :
      (requests : List (Polled Request)) (senders : List SenderPoll) (a : Attempt)
      (s : StartupStream) {s' : StartupStream} {given : Info × Connection}
      → a.config.channel_binding ≡ binding_require
      → connect_raw crates crypto lossy requests senders a s ≡ (gives given, s')
      → ((connect_tls crates a.config.ssl_mode a.config.ssl_negotiation a.has_hostname a.transport
            s).0
          ≡ gives tls_stream)
        × BoundLogin crates crypto a.draws a.transport.end_point a.config s.input
  unfolding connect_raw
  connect_raw-IsBound requests senders a s required_binding h =
      let secure =
        connect_tls crates a.config.ssl_mode a.config.ssl_negotiation a.has_hostname a.transport in
      let (stream, s₁, e₁, h₁) = >>=-gives secure _ {s = s} h in
      let (user, s₂, e₂, h₂) = >>=-gives (user_of a) _ {s = s₁} h₁ in
      let (u, s₃, e₃, h₃) = >>=-gives (startup crates a.config user) _ {s = s₂} h₂ in
      let place = channel_end_point a.transport stream in
      let (v, s₄, e₄, h₄) =
        >>=-gives (authenticate crates crypto lossy a.draws place a.config user) _ {s = s₃} h₃ in
      let login = authenticate-BoundLogin a.draws place a.config user required_binding s₃ e₄ in
      let (tls, offered_place) = on_tls a.transport stream login.bound.offers in
      let kept : s₃.input ≡ s.input =
        startup-input crates a.config user s₂ e₃
        ∙ (user_of-input a s₁ e₂
            ∙ connect_tls-input crates a.config.ssl_mode a.config.ssl_negotiation a.has_hostname
                a.transport s e₁) in
      (
        ap (λ r. r.0) e₁ ∙ ap gives tls,
        record {
          body = login.body;
          first = login.first;
          last = login.last;
          after = login.after;
          asked = ap (next_input crates) (sym kept) ∙ login.asked;
          bound = record {
            place = login.bound.place;
            password = login.bound.password;
            offers = offered_place;
            keeps = login.bound.keeps;
            proved = login.bound.proved;
          };
          accepted = login.accepted;
        },
      )
