-- ===== src/Client/Connect/Secure.antt =====
-- connect_tls of tokio-postgres/src/connect_tls.rs with `SslMode::Require`.
use rust_kingbase.Prelude.{
  ◌==◌, ==_iff, Bool-cases, ok, ℕ, ◌≡◌, refl, sym, ap, ◌∙◌, ◌⊎◌, inl, inr, Bool, true, false, [],
}
use rust_kingbase.Wire.Crates.{Crates}
use rust_kingbase.Message.Frontend.{ssl_request}
use rust_kingbase.Config.{SslNegotiation, ssl_require, postgres_negotiation, direct_negotiation}
use rust_kingbase.Client.DbError.{io_failed, encode_failed, tls_failed}
use rust_kingbase.Client.Startup.{return, lift, >>=-gives, StartupStream, gives}
use rust_kingbase.Client.Connect.Session.{
  handshake, tls_answered, negotiate, connect_tls, Transport, MaybeTlsStream, tls_stream,
}
use rust_kingbase.Client.Connect.Binding.{lift_gives}

-- A stream that comes of a handshake.
pub record Shaken (has_hostname : Bool) (t : Transport) (stream : MaybeTlsStream) : Type 0 where
  pub encrypted : stream ≡ tls_stream
  pub hostname : has_hostname ≡ true
  pub handshaken : t.handshake ≡ ok tt

handshake-Shaken :
    (has_hostname : Bool) (t : Transport) (s : StartupStream) {s' : StartupStream}
    {stream : MaybeTlsStream}
    → handshake has_hostname t s ≡ (gives stream, s')
    → Shaken has_hostname t stream
unfolding handshake
handshake-Shaken true t s h =
    let (u, mid, e, g) =
      >>=-gives (lift tls_failed t.handshake) (λ v. return tls_stream) {s = s} h in
    record { encrypted = cc; hostname = refl; handshaken = lift_gives tls_failed t.handshake s e }
handshake-Shaken false t s h = cc

answered-Shaken :
    (has_hostname : Bool) (t : Transport) (answer : ℕ) (s : StartupStream) {s' : StartupStream}
    {stream : MaybeTlsStream}
    → tls_answered ssl_require has_hostname t answer s ≡ (gives stream, s')
    → Shaken has_hostname t stream × (answer ≡ b'S')
unfolding tls_answered
answered-Shaken has_hostname t answer s h = elim (Bool-cases (answer == b'S')) [
  | inl yes_tls ↦
      (handshake-Shaken has_hostname t s (sym (rw yes_tls) ∙ h), (==_iff answer b'S').0 yes_tls)
  | inr no_tls ↦ cc
]

module _ (crates : Crates) where
  -- With `SslMode::Require`, `connect_tls` gives a stream only behind a handshake that succeeded, for
  -- which a hostname was given: the stream is encrypted. Where the negotiation is that of Postgres, the
  -- server has answered 'S' to the request.
  pub connect_tls_required :
      (negotiation : SslNegotiation) (has_hostname : Bool) (t : Transport) (s : StartupStream)
      {s' : StartupStream} {stream : MaybeTlsStream}
      → connect_tls crates ssl_require negotiation has_hostname t s ≡ (gives stream, s')
      → Shaken has_hostname t stream × ((negotiation ≡ direct_negotiation) ⊎ (t.reply ≡ ok b'S'))
  unfolding connect_tls negotiate
  connect_tls_required direct_negotiation has_hostname t s h =
      (handshake-Shaken has_hostname t s h, inl refl)
  connect_tls_required postgres_negotiation has_hostname t s h =
      let (buf, s₁, e₁, h₁) = >>=-gives (lift encode_failed (ssl_request crates [])) _ {s = s} h in
      let (u, s₂, e₂, h₂) = >>=-gives (lift io_failed t.request_sent) _ {s = s₁} h₁ in
      let (answer, s₃, e₃, h₃) = >>=-gives (lift io_failed t.reply) _ {s = s₂} h₂ in
      let (shaken, is_yes) = answered-Shaken has_hostname t answer s₃ h₃ in
      (shaken, inr (lift_gives io_failed t.reply s₂ e₃ ∙ ap ok is_yes))
