-- ===== src/Client/Connect/Established.antt =====
-- The whole of `connect_raw` in tokio-postgres/src/connect_raw.rs, and the connection that it makes.
use rust_kingbase.Prelude.{
  ◌==◌, Bytes, All, Returns, message, ℕ, ◌≡◌, refl, ap, ◌∙◌, inl, Bool, true, false, Option, none,
  some, List, [], ◌∷◌, ◌++◌,
}
use rust_kingbase.Wire.Crates.{Crates}
use rust_kingbase.Message.Backend.Body.{
  Message, authentication_cleartext_password, authentication_gss, authentication_kerberos_v5,
  authentication_md5_password, authentication_ok, authentication_scm_credential,
  authentication_sspi, authentication_sasl, error_response, notice_response, ready_for_query,
}
use rust_kingbase.Message.Frontend.Total.{ssl_request-Returns}
use rust_kingbase.Auth.Crypto.{CryptoCrates}
use rust_kingbase.Auth.Password.{md5_hash}
use rust_kingbase.Config.{
  SslMode, SslNegotiation, Config, ssl_disable, ssl_prefer, ssl_require, postgres_negotiation,
  direct_negotiation,
}
use rust_kingbase.Client.DbError.{io_failed, encode_failed, config_failed, tls_failed}
use rust_kingbase.Client.Connection.{Polled, Request, Incoming, SenderPoll, SocketPoll, Connection}
use rust_kingbase.Client.Connection.Read.Router.{IsAnswer, AllAsync, IsPendable, is_notice}
use rust_kingbase.Client.Connection.Read.Rounds.{AllAsync-IsPendable}
use rust_kingbase.Client.Connection.Poll.Total.{IsLive}
use rust_kingbase.Client.Startup.{return, ◌>>=◌, lift, required, Reply, StartupStream, gives}
use rust_kingbase.Client.Startup.Ends.{Ends, followed-Ends, bound-Ends}
use rust_kingbase.Client.Connect.{
  can_skip_channel_binding, authenticate_password, last_answer, answer_request, await_ok,
  authenticate, startup,
}
use rust_kingbase.Client.Connect.Session.{
  user_of, handshake, tls_answered, negotiate, prefer_tls, connect_tls, channel_end_point, no_info,
  read_info, new_connection, connected, connect_raw, new_stream, Transport, Info, Attempt,
  raw_stream, tls_stream, MaybeTlsStream,
}
use rust_kingbase.Client.Connect.Info.{notices, gathered, read_info-Informed, Yields, IsSetup}
use rust_kingbase.Client.Connect.Ready.{
  then-Talks, return-Talks, raise-Talks, lift-Talks, lifted-Talks, required-Talks, if-Talks,
  try_next-Talks, startup-Talks, authenticate_password-Talks, can_skip-Talks, raise_db-Talks,
  authenticate_sasl-Talks, IsReady, Talks,
}

-- What `connect_raw` relies on: the calls of the TLS crate, of the socket and of `whoami` return.
pub record AllReturn (a : Attempt) : Type 0 where
  pub sent : Returns a.transport.request_sent
  pub answered : Returns a.transport.reply
  pub shaken : Returns a.transport.handshake
  pub known : Returns a.username

handshake-Talks :
    (has_hostname : Bool) (t : Transport) → Returns t.handshake → Talks (handshake has_hostname t)
unfolding handshake
handshake-Talks has_hostname t h =
    if-Talks has_hostname _ _
      (lift-Talks tls_failed t.handshake _ h (λ u e. return-Talks tls_stream)) (raise-Talks _)

tls_answered-Talks :
    (mode : SslMode) (has_hostname : Bool) (t : Transport) (answer : ℕ)
    → Returns t.handshake
    → Talks (tls_answered mode has_hostname t answer)
unfolding tls_answered
tls_answered-Talks ssl_require has_hostname t answer h =
    if-Talks (answer == b'S') _ _ (handshake-Talks has_hostname t h) (raise-Talks _)
tls_answered-Talks ssl_prefer has_hostname t answer h =
    if-Talks (answer == b'S') _ _ (handshake-Talks has_hostname t h) (return-Talks raw_stream)
tls_answered-Talks ssl_disable has_hostname t answer h =
    if-Talks (answer == b'S') _ _ (handshake-Talks has_hostname t h) (return-Talks raw_stream)

user_of_step :
    (a : Attempt) (s : StartupStream) (o : Option Bytes)
    → IsReady s
    → Returns a.username
    → Ends
        (λ u s'. IsReady s')
        (elim o as (λ _. Reply Bytes × StartupStream) [
          | some user ↦ (gives user, s)
          | none ↦ lift io_failed a.username s
        ])
user_of_step a s (some user) ready h = ready
user_of_step a s none ready h = (lifted-Talks io_failed a.username h).replies s ready

user_of-Talks : (a : Attempt) → Returns a.username → Talks (user_of a)
unfolding user_of
user_of-Talks a h = record { replies = λ s ready. user_of_step a s a.config.user ready h }

module _ (crates : Crates) where
  negotiate-Talks :
      (mode : SslMode) (negotiation : SslNegotiation) (a : Attempt)
      → AllReturn a
      → Talks (negotiate crates mode negotiation a.has_hostname a.transport)
  unfolding negotiate
  negotiate-Talks mode direct_negotiation a h = handshake-Talks a.has_hostname a.transport h.shaken
  negotiate-Talks mode postgres_negotiation a h =
      lift-Talks encode_failed _ _ (ssl_request-Returns crates []) (λ buf e.
        lift-Talks io_failed a.transport.request_sent _ h.sent (λ u e'.
          lift-Talks io_failed a.transport.reply _ h.answered
            (λ answer e''. tls_answered-Talks mode a.has_hostname a.transport answer h.shaken)))

  prefer_tls-Talks :
      (negotiation : SslNegotiation) (a : Attempt)
      → AllReturn a
      → Talks (prefer_tls crates negotiation a.has_hostname a.transport)
  unfolding prefer_tls
  prefer_tls-Talks direct_negotiation a h = raise-Talks _
  prefer_tls-Talks postgres_negotiation a h = negotiate-Talks ssl_prefer postgres_negotiation a h

  connect_tls-Talks :
      (mode : SslMode) (negotiation : SslNegotiation) (a : Attempt)
      → AllReturn a
      → Talks (connect_tls crates mode negotiation a.has_hostname a.transport)
  unfolding connect_tls
  connect_tls-Talks ssl_disable negotiation a h = return-Talks raw_stream
  connect_tls-Talks ssl_prefer negotiation a h =
      if-Talks a.transport.can_connect _ _ (prefer_tls-Talks negotiation a h)
        (return-Talks raw_stream)
  connect_tls-Talks ssl_require negotiation a h = negotiate-Talks ssl_require negotiation a h

module _ (crates : Crates) (crypto : CryptoCrates) (lossy : Bytes → Bytes) where
  last_answer-Talks : (m : Option Message) → Talks (last_answer crates crypto lossy m)
  unfolding last_answer
  last_answer-Talks (some authentication_ok) = return-Talks tt
  last_answer-Talks (some (error_response report)) = raise_db-Talks crates lossy report
  last_answer-Talks (some _) = raise-Talks _
  last_answer-Talks none = raise-Talks _

  await_ok-Talks : (more : Bool) → Talks (await_ok crates crypto lossy more)
  unfolding await_ok
  await_ok-Talks true = then-Talks (try_next-Talks crates) last_answer-Talks
  await_ok-Talks false = return-Talks tt

  -- A password that is sent, where the channel binding may be skipped.
  password-Talks :
      (config : Config) (hashed : Bytes → Bytes)
      → Talks (
          can_skip_channel_binding config.channel_binding >>= λ u.
          required (config_failed (message "password missing")) config.password >>= λ password.
          authenticate_password crates (hashed password) >>= λ v. return true)
  password-Talks config hashed = then-Talks (can_skip-Talks config.channel_binding) (λ u.
      then-Talks (required-Talks _ config.password) (λ password.
        then-Talks (authenticate_password-Talks crates (hashed password)) (λ v. return-Talks true)))

  module _ (draws : List ℕ) (end_point : Option Bytes) (config : Config) (user : Bytes) where
    answer_request-Talks :
        (m : Option Message)
        → Talks (answer_request crates crypto lossy draws end_point config user m)
    unfolding answer_request
    answer_request-Talks (some authentication_ok) =
        then-Talks (can_skip-Talks config.channel_binding) (λ u. return-Talks false)
    answer_request-Talks (some authentication_cleartext_password) =
        password-Talks config (λ password. password)
    answer_request-Talks (some (authentication_md5_password salt)) =
        password-Talks config (λ password. md5_hash crypto user password salt)
    answer_request-Talks (some (authentication_sasl body)) =
        then-Talks (authenticate_sasl-Talks crates crypto lossy draws end_point config body)
          (λ u. return-Talks true)
    answer_request-Talks (some authentication_kerberos_v5) = raise-Talks _
    answer_request-Talks (some authentication_scm_credential) = raise-Talks _
    answer_request-Talks (some authentication_gss) = raise-Talks _
    answer_request-Talks (some authentication_sspi) = raise-Talks _
    answer_request-Talks (some (error_response report)) = raise_db-Talks crates lossy report
    answer_request-Talks (some _) = raise-Talks _
    answer_request-Talks none = raise-Talks _

    authenticate-Talks : Talks (authenticate crates crypto lossy draws end_point config user)
    unfolding authenticate
    authenticate-Talks =
        then-Talks (try_next-Talks crates)
          (λ request. then-Talks (answer_request-Talks request) await_ok-Talks)

notices-AllAsync : (ms : List Message) → AllAsync (notices ms)
notices-AllAsync [] = tt
notices-AllAsync (notice_response report ∷ ms) = (is_notice report, notices-AllAsync ms)
notices-AllAsync (_ ∷ ms) = notices-AllAsync ms

module _ (crates : Crates) (crypto : CryptoCrates) (lossy : Bytes → Bytes) where
  -- The stream at which the authentication has ended, from the one that `connect_raw` starts with.
  pub data LoggedIn (a : Attempt) (before after : StartupStream) : Type 0 where
    logged_in :
        (stream : MaybeTlsStream) (user : Bytes) (s₁ s₂ s₃ : StartupStream)
        → connect_tls crates a.config.ssl_mode a.config.ssl_negotiation a.has_hostname a.transport
            before
          ≡ (gives stream, s₁)
        → user_of a s₁ ≡ (gives user, s₂)
        → startup crates a.config user s₂ ≡ (gives tt, s₃)
        → authenticate crates crypto lossy a.draws
            (channel_end_point a.transport stream)
            a.config
            user
            s₃
          ≡ (gives tt, after)
        → LoggedIn a before after

  -- The connection that is handed over: it is live; behind the authentication, the messages of the
  -- stream up to the first `ReadyForQuery` are key data, parameters and notices; the pending responses
  -- are these notices; the client gets the last key data and the parameters among them; and what the
  -- stream has still to give is left for the connection.
  abbrev pub Handed : Attempt → StartupStream → Info × Connection → StartupStream → Type 0
  Handed a before (info, c) after =
      IsLive c
      × ((s : StartupStream) × LoggedIn a before s
          × ((ms : List Message) × (status : ℕ) × Yields crates after.input s.input
                (ms ++ ready_for_query status ∷ [])
              × All IsSetup ms
              × (c.pending_responses ≡ notices ms)
              × (info ≡ gathered no_info ms)
              × (c.parameters ≡ info.parameters)
              × (c.incoming ≡ after.input.incoming)))

  connected-Handed :
      (requests : List (Polled Request)) (senders : List SenderPoll) (a : Attempt)
      (before s : StartupStream)
      → IsReady s
      → LoggedIn a before s
      → Ends (Handed a before) ((read_info crates lossy >>= connected requests senders) s)
  unfolding connected new_connection
  connected-Handed requests senders a before s ready login =
      followed-Ends _ _ (connected requests senders) (read_info crates lossy s)
        (read_info-Informed crates lossy s ready.coming)
        (λ info after (ms, status, read, setup, said, same, coming).
          let kept : after.delayed ≡ notices ms =
            ap (λ x. x.delayed) same ∙ ap (λ d. d ++ notices ms) ready.none_delayed in
          let pendable : IsPendable after.delayed =
            rw kept (AllAsync-IsPendable (notices ms) (notices-AllAsync ms)) in
          (
            record {
              orderly = record { pending = pendable; coming = coming };
              open_or_closing = inl refl;
            },
            (s, login, (ms, status, read, setup, kept, said, refl, refl)),
          ))

  -- On a stream of decoded answers, where the calls outside return, `connect_raw` ends without a panic,
  -- and where it comes to a value it hands over a connection that is live: what `poll_read` and the
  -- future of the connection start from. Behind the authentication it has read key data, parameters
  -- and notices up to the first `ReadyForQuery`: the pending responses are these notices in order, and
  -- the parameters and the key of the client are theirs.
  pub connect_raw-Hands :
      (requests : List (Polled Request)) (senders : List SenderPoll) (a : Attempt)
      (incoming : List Incoming) (sockets : List SocketPoll)
      → AllReturn a
      → All IsAnswer incoming
      → Ends
          (Handed a (new_stream incoming sockets))
          (connect_raw crates crypto lossy requests senders a (new_stream incoming sockets))
  unfolding connect_raw
  connect_raw-Hands requests senders a incoming sockets h coming =
      let before = new_stream incoming sockets in
      let ready : IsReady before = record { coming = coming; none_delayed = refl } in
      bound-Ends _ (Handed a before) _ _
        ((connect_tls-Talks crates a.config.ssl_mode a.config.ssl_negotiation a h).replies _ ready)
        (λ stream s₁ e₁ r₁.
          bound-Ends _ (Handed a before) _ _ ((user_of-Talks a h.known).replies s₁ r₁)
            (λ user s₂ e₂ r₂.
              bound-Ends _ (Handed a before) _ _
                ((startup-Talks crates a.config user).replies s₂ r₂)
                (λ u s₃ e₃ r₃.
                  bound-Ends _ (Handed a before) _ _
                    ((authenticate-Talks crates crypto lossy a.draws
                        (channel_end_point a.transport stream) a.config user).replies
                      s₃ r₃)
                    (λ v s₄ e₄ r₄.
                      connected-Handed requests senders a before s₄ r₄
                        (logged_in stream user s₁ s₂ s₃ e₁ e₂ e₃ e₄)))))
