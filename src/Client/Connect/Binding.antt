-- ===== src/Client/Connect/Binding.antt =====
-- A configuration that requires channel binding, in tokio-postgres/src/connect_raw.rs.
use rust_kingbase.Client.Connection.{SocketPoll, socket_failed, socket_busy, socket_ready}
use rust_kingbase.Client.Connect.Info.{Yields, one_read, read_up}
use rust_kingbase.Auth.Scram.Answered.{update-final, final_message}
use rust_kingbase.Prelude.{
  Bool-cases, Bytes, length, Error, Result, message, ok, err, panic, ℕ, suc, ◌≡◌, refl, sym, subst,
  ◌∙◌, ◌≢◌, inl, inr, Bool, true, false, Option, none, some, List, [], ap, ap₂,
}
use rust_kingbase.Wire.Crates.{Crates}
use rust_kingbase.Wire.Text.{same}
use rust_kingbase.Wire.Iterate.{collect}
use rust_kingbase.Message.Backend.Iterators.{sasl_mechanisms_next}
use rust_kingbase.Message.Frontend.{sasl_initial_response, sasl_response}
use rust_kingbase.Auth.Crypto.{CryptoCrates}
use rust_kingbase.Auth.Scram
use rust_kingbase.Auth.Scram.{new, update, finish, scram_message, ScramSha256}
use rust_kingbase.Config.{ChannelBinding, Config, binding_disable, binding_prefer, binding_require}
use rust_kingbase.Client.DbError.{
  db_error, ClientError, parse_failed, encode_failed, authentication_failed, config_failed,
}
use rust_kingbase.Client.Startup.{
  ◌>>=◌, Talk, raise, lift, required, send_raw, try_next, >>=-gives, StartupStream, gives, Input,
  flush_sent, next_input,
}
use rust_kingbase.Client.Connect.{
  scram_sha_256, scram_sha_256_plus, can_skip_channel_binding, offered, usable_end_point, choose,
  allow, raise_db, continue_body, final_body, exchange_by, authenticate_sasl, Mechanism, Message,
  authentication_sasl_continue, authentication_sasl_final, ◌∷◌, error_response, Talk,
}

required_gives {ℓ} :
    {A : Type ℓ} (e : ClientError) (o : Option A) (s : StartupStream) {s' : StartupStream} {a : A}
    → required e o s ≡ (gives a, s')
    → o ≡ some a
required_gives e none s h = cc
required_gives e (some b) s h = cc

pub lift_gives {ℓ} :
    {A : Type ℓ} (wrap : Error → ClientError) (r : Result A) (s : StartupStream)
    {s' : StartupStream} {a : A}
    → lift wrap r s ≡ (gives a, s')
    → r ≡ ok a
lift_gives wrap (ok b) s h = cc
lift_gives wrap (err e) s h = cc
lift_gives wrap panic s h = cc

names_differ : same scram_sha_256 scram_sha_256_plus ≡ false
names_differ = refl

-- The mechanism with channel binding is chosen only with an end point to bind to.
choose-bound :
    (flags : Bool × Bool) (end_point : Option Bytes) {chosen : Mechanism}
    → choose flags end_point ≡ some chosen
    → same chosen.name scram_sha_256_plus ≡ true
    → (e : Bytes) × (end_point ≡ some e) × (chosen.binding ≡ Scram.tls_server_end_point e)
unfolding choose
choose-bound (has_scram, true) (some e) h t = (e, refl, cc)
choose-bound (has_scram, true) none h t = absurd (cc (names_differ))
choose-bound (true, false) (some e) h t = absurd (cc (names_differ))
choose-bound (true, false) none h t = absurd (cc (names_differ))
choose-bound (false, false) e h t = cc

-- Where channel binding is required, it is not skipped.
pub can_skip_raises :
    (b : ChannelBinding) (s : StartupStream) {s' : StartupStream} {u : Unit {0}}
    → b ≡ binding_require
    → can_skip_channel_binding b s ≢ (gives u, s')
unfolding can_skip_channel_binding
can_skip_raises binding_require s e h = cc
can_skip_raises binding_prefer s e h = cc
can_skip_raises binding_disable s e h = cc

allow-bound :
    (b : ChannelBinding) (chosen : Mechanism) (s : StartupStream) {s' : StartupStream}
    {u : Unit {0}}
    → b ≡ binding_require
    → allow b chosen s ≡ (gives u, s')
    → same chosen.name scram_sha_256_plus ≡ true
unfolding allow
allow-bound b chosen s e h = elim (Bool-cases (same chosen.name scram_sha_256_plus)) [
  | inl plus ↦ plus
  | inr other ↦ absurd (can_skip_raises b s e (sym (rw other) ∙ h))
]

usable-bound :
    (b : ChannelBinding) (end_point : Option Bytes)
    → b ≡ binding_require
    → usable_end_point b end_point ≡ end_point
unfolding usable_end_point
usable-bound b end_point e = rw e refl

-- A SCRAM exchange over the messages of a stream, from `before` to `after`: the challenge and the
-- signature are the next two messages, the client answers the challenge with a final message that
-- carries the channel binding, and it accepts the signature.
pub record Proved (crates : Crates) (crypto : CryptoCrates) (draws : List ℕ) (password : Bytes)
    (binding : Scram.ChannelBinding) (before after : Input) : Type 0 where
  pub challenge : Bytes
  pub signature : Bytes
  pub nonce : Bytes
  pub proof : Bytes
  pub read :
      Yields crates after before
        (authentication_sasl_continue challenge ∷ authentication_sasl_final signature ∷ [])
  pub updated : (update crypto (new crypto draws password binding) challenge).outcome ≡ ok tt
  pub answers :
      scram_message (update crypto (new crypto draws password binding) challenge).left
      ≡ ok (final_message crypto binding nonce proof)
  pub finished :
      (finish crypto
        (update crypto (new crypto draws password binding) challenge).left
        signature).outcome
      ≡ ok tt

-- The exchange that channel binding asks for: with the password of the configuration, bound to the end
-- point of the TLS stream.
pub record IsBound (crates : Crates) (crypto : CryptoCrates) (draws : List ℕ)
    (end_point : Option Bytes) (config : Config) (before after : Input) : Type 0 where
  pub place : Bytes
  pub password : Bytes
  pub offers : end_point ≡ some place
  pub keeps : config.password ≡ some password
  pub proved : Proved crates crypto draws password (Scram.tls_server_end_point place) before after

pub lift_same {ℓ} :
    {A : Type ℓ} (wrap : Error → ClientError) (r : Result A) (s : StartupStream)
    {s' : StartupStream} {a : A}
    → lift wrap r s ≡ (gives a, s')
    → s' ≡ s
lift_same wrap (ok b) s h = cc
lift_same wrap (err e) s h = cc
lift_same wrap panic s h = cc

pub required_same {ℓ} :
    {A : Type ℓ} (e : ClientError) (o : Option A) (s : StartupStream) {s' : StartupStream} {a : A}
    → required e o s ≡ (gives a, s')
    → s' ≡ s
required_same e none s h = cc
required_same e (some b) s h = cc

flush_sent-input :
    (polls : List SocketPoll) (s : StartupStream) {s' : StartupStream} {u : Unit {0}}
    → flush_sent polls s ≡ (gives u, s')
    → s'.input ≡ s.input
unfolding flush_sent
flush_sent-input [] s h = cc
flush_sent-input (socket_busy ∷ polls) s h = flush_sent-input polls s h
flush_sent-input (socket_ready ∷ polls) s h = ap (λ r. r.1.input) (sym h)
flush_sent-input (socket_failed e ∷ polls) s h = cc

-- Sending takes nothing off the messages to come.
pub send_raw-input :
    (buf : Bytes) (s : StartupStream) {s' : StartupStream} {u : Unit {0}}
    → send_raw buf s ≡ (gives u, s')
    → s'.input ≡ s.input
unfolding send_raw
send_raw-input buf s h = flush_sent-input s.sockets _ h

pub try_next_gives :
    (crates : Crates) (s : StartupStream) {s' : StartupStream} {m : Option Message}
    → try_next crates s ≡ (gives m, s')
    → next_input crates s.input ≡ (gives m, s'.input)
unfolding try_next
try_next_gives crates s h = ap₂ (λ x y. (x, y)) (ap (λ r. r.0) h) (ap (λ r. r.1.input) h)

can_skip_same :
    (b : ChannelBinding) (s : StartupStream) {s' : StartupStream} {u : Unit {0}}
    → can_skip_channel_binding b s ≡ (gives u, s')
    → s' ≡ s
unfolding can_skip_channel_binding
can_skip_same binding_require s h = cc
can_skip_same binding_prefer s h = cc
can_skip_same binding_disable s h = cc

allow_same :
    (b : ChannelBinding) (chosen : Mechanism) (s : StartupStream) {s' : StartupStream}
    {u : Unit {0}}
    → allow b chosen s ≡ (gives u, s')
    → s' ≡ s
unfolding allow
allow_same b chosen s {s'} {u} h = elim (Bool-cases (same chosen.name scram_sha_256_plus)) [
  | inl plus ↦
      let k : (gives (tt {0}), s) ≡ (gives u, s') = sym (rw plus) ∙ h in ap (λ r. r.1) (sym k)
  | inr other ↦ can_skip_same b s (sym (rw other) ∙ h)
]

module _ (crates : Crates) (crypto : CryptoCrates) (lossy : Bytes → Bytes) where
  pub raise_db-never {ℓ} :
      {A : Type ℓ} (report : Bytes) (s : StartupStream) {s' : StartupStream} {a : A}
      → raise_db crates lossy report s ≢ (gives a, s')
  unfolding raise_db
  raise_db-never report s h =
      let (e, mid, lifted, raised) =
        >>=-gives (lift parse_failed (db_error crates lossy report)) raise {s = s} h in
      cc

  continue_body_gives :
      (m : Option Message) (s : StartupStream) {s' : StartupStream} {c : Bytes}
      → continue_body crates lossy m s ≡ (gives c, s')
      → (m ≡ some (authentication_sasl_continue c)) × (s' ≡ s)
  unfolding continue_body
  continue_body_gives (some (authentication_sasl_continue body)) s h = (cc, cc)
  continue_body_gives (some (error_response report)) s h = absurd (raise_db-never report s h)
  continue_body_gives (some _) s h = cc
  continue_body_gives none s h = cc

  final_body_gives :
      (m : Option Message) (s : StartupStream) {s' : StartupStream} {c : Bytes}
      → final_body crates lossy m s ≡ (gives c, s')
      → (m ≡ some (authentication_sasl_final c)) × (s' ≡ s)
  unfolding final_body
  final_body_gives (some (authentication_sasl_final body)) s h = (cc, cc)
  final_body_gives (some (error_response report)) s h = absurd (raise_db-never report s h)
  final_body_gives (some _) s h = cc
  final_body_gives none s h = cc

  -- A text of the client that is written into a message and sent, with what follows.
  abbrev sends : {A : Type 0} → Result Bytes → (Bytes → Result Bytes) → Talk A → Talk A
  sends text write rest = lift authentication_failed text >>= λ t.
      lift encode_failed (write t) >>= λ buf. send_raw buf >>= λ u. rest

  -- The next message, of which an arm of a `match` takes the body, with what follows.
  abbrev reads : {A : Type 0} → (Option Message → Talk Bytes) → (Bytes → Talk A) → Talk A
  reads take_body rest = try_next crates >>= λ m. take_body m >>= rest

  sent_gives :
      {A : Type 0} (r : Result Bytes) (rest : Talk A) (s s' : StartupStream) (a : A)
      → (lift encode_failed r >>= λ buf. send_raw buf >>= λ u. rest) s ≡ (gives a, s')
      → (mid : StartupStream) × (mid.input ≡ s.input) × (rest mid ≡ (gives a, s'))
  sent_gives r rest s s' a h =
      let (buf, s₁, e₁, h₁) = >>=-gives (lift encode_failed r) _ {s = s} h in
      let (u, s₂, e₂, h₂) = >>=-gives (send_raw buf) (λ u. rest) {s = s₁} h₁ in
      (s₂, send_raw-input buf s₁ e₂ ∙ ap (λ x. x.input) (lift_same encode_failed r s e₁), h₂)

  sends_gives :
      {A : Type 0} (text : Result Bytes) (write : Bytes → Result Bytes) (rest : Talk A)
      (s s' : StartupStream) (a : A)
      → sends text write rest s ≡ (gives a, s')
      → (mid : StartupStream) × (mid.input ≡ s.input) × (rest mid ≡ (gives a, s'))
  sends_gives text write rest s s' a h =
      let (t, s₁, e₁, h₁) = >>=-gives (lift authentication_failed text) _ {s = s} h in
      let (mid, kept, h₂) = sent_gives (write t) rest s₁ s' a h₁ in
      (mid, kept ∙ ap (λ x. x.input) (lift_same authentication_failed text s e₁), h₂)

  reads_gives :
      {A : Type 0} (take_body : Option Message → Talk Bytes) (make : Bytes → Message)
      (rest : Bytes → Talk A) (s s' : StartupStream) (a : A)
      → ((m : Option Message) (t t' : StartupStream) (c : Bytes)
          → take_body m t ≡ (gives c, t')
          → (m ≡ some (make c)) × (t' ≡ t))
      → reads take_body rest s ≡ (gives a, s')
      → (c : Bytes) × (mid : StartupStream) × (next_input crates s.input
          ≡ (gives (some (make c)), mid.input))
        × (rest c mid ≡ (gives a, s'))
  reads_gives take_body make rest s s' a takes h =
      let (m, s₁, e₁, h₁) = >>=-gives (try_next crates) _ {s = s} h in
      let (c, s₂, e₂, h₂) = >>=-gives (take_body m) rest {s = s₁} h₁ in
      let (is_made, kept) = takes m s₁ s₂ c e₂ in
      (
        c,
        s₂,
        try_next_gives crates s e₁
            ∙ ap₂ (λ x y. (gives x, y)) is_made (ap (λ x. x.input) (sym kept)),
        h₂,
      )

  -- The second half of the exchange, behind an `update` that succeeded.
  second_half :
      (updated : ScramSha256) (s s' : StartupStream) (u : Unit {0})
      → sends
          (scram_message updated)
          (λ second. sasl_response crates second [])
          (reads
            (final_body crates lossy)
            (λ signature. lift authentication_failed (finish crypto updated signature).outcome))
          s
        ≡ (gives u, s')
      → (signature : Bytes) × (next_input crates s.input
          ≡ (gives (some (authentication_sasl_final signature)), s'.input))
        × ((finish crypto updated signature).outcome ≡ ok u)
  second_half updated s s' u h =
      let (s₁, kept, h₁) = sends_gives (scram_message updated) _ _ s s' u h in
      let (signature, s₂, e, h₂) =
        reads_gives (final_body crates lossy) authentication_sasl_final _ s₁ s' u
          (λ m t t' c k. final_body_gives m t k) h₁ in
      let outcome = (finish crypto updated signature).outcome in
      (
        signature,
        ap (next_input crates) (sym kept)
            ∙ (e
                ∙ ap (λ x. (gives (some (authentication_sasl_final signature)), x.input))
                    (sym (lift_same authentication_failed outcome s₂ h₂))),
        lift_gives authentication_failed outcome s₂ h₂,
      )

  exchange_by-Proved :
      (draws : List ℕ) (password : Bytes) (chosen : Mechanism) (s s' : StartupStream) (u : Unit {0})
      → exchange_by crates crypto lossy draws password chosen s ≡ (gives u, s')
      → Proved crates crypto draws password chosen.binding s.input s'.input
  unfolding exchange_by
  exchange_by-Proved draws password chosen s s' u h =
      let scram = new crypto draws password chosen.binding in
      let (s₁, kept, h₁) =
        sends_gives (scram_message scram)
          (λ first. sasl_initial_response crates chosen.name first []) _ s s' u h in
      let (challenge, s₂, e₂, h₂) =
        reads_gives (continue_body crates lossy) authentication_sasl_continue _ s₁ s' u
          (λ m t t' c k. continue_body_gives m t k) h₁ in
      let outcome = (update crypto scram challenge).outcome in
      let (done, s₃, e₃, h₃) = >>=-gives (lift authentication_failed outcome) _ {s = s₂} h₂ in
      let (signature, e₄, finished) = second_half (update crypto scram challenge).left s₃ s' u h₃ in
      let updated = lift_gives authentication_failed outcome s₂ e₃ in
      let (nonce, proof, answers) =
        update-final crypto draws password chosen.binding challenge updated in
      record {
        challenge = challenge;
        signature = signature;
        nonce = nonce;
        proof = proof;
        read = one_read s₂.input (ap (next_input crates) (sym kept) ∙ e₂) (
            one_read s'.input
              (ap (λ x. next_input crates x.input)
                  (sym (lift_same authentication_failed outcome s₂ e₃))
                ∙ e₄)
              (read_up refl));
        updated = updated;
        answers = answers;
        finished = finished;
      }

  pub authenticate_sasl-IsBound :
      (draws : List ℕ) (end_point : Option Bytes) (config : Config) (body : Bytes)
      (s : StartupStream) {s' : StartupStream} {u : Unit {0}}
      → config.channel_binding ≡ binding_require
      → authenticate_sasl crates crypto lossy draws end_point config body s ≡ (gives u, s')
      → IsBound crates crypto draws end_point config s.input s'.input
  unfolding authenticate_sasl
  authenticate_sasl-IsBound draws end_point config body s {s'} e h =
      let missing = config_failed (message "password missing") in
      let (password, s₁, e₁, h₁) = >>=-gives (required missing config.password) _ {s = s} h in
      let (mechanisms, s₂, e₂, h₂) =
        >>=-gives
          (lift parse_failed (collect (sasl_mechanisms_next crates) (suc (length body)) body)) _
          {s = s₁} h₁ in
      let unsupported = authentication_failed (message "unsupported SASL mechanism") in
      let choice =
        choose (offered mechanisms (false, false))
          (usable_end_point config.channel_binding end_point) in
      let (chosen, s₃, e₃, h₃) = >>=-gives (required unsupported choice) _ {s = s₂} h₂ in
      let (allowed, s₄, e₄, h₄) = >>=-gives (allow config.channel_binding chosen) _ {s = s₃} h₃ in
      let plus = allow-bound config.channel_binding chosen s₃ e e₄ in
      let (place, offers, binds) =
        choose-bound _ _ (required_gives unsupported choice s₂ e₃) plus in
      let kept : s₄ ≡ s =
        allow_same config.channel_binding chosen s₃ e₄
        ∙ (required_same unsupported choice s₂ e₃
            ∙ (lift_same _ _ s₁ e₂ ∙ required_same missing config.password s e₁)) in
      record {
        place = place;
        password = password;
        offers = sym (usable-bound config.channel_binding end_point e) ∙ offers;
        keeps = required_gives missing config.password s e₁;
        proved =
            subst
              (λ x.
                Proved crates crypto draws password (Scram.tls_server_end_point place) x.input
                  s'.input)
              kept
              (subst (λ b. Proved crates crypto draws password b s₄.input s'.input) binds
                (exchange_by-Proved draws password chosen s₄ s' _ h₄));
      }
