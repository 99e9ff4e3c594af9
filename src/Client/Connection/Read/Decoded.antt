-- ===== src/Client/Connection/Read/Decoded.antt =====
-- The decoder of tokio-postgres/src/codec.rs gives what `poll_read` of connection.rs relies on.
use rust_kingbase.Prelude.{
  Bytes, >>=-eq-ok, ok, ℕ, ◌≡◌, refl, sym, ap, subst, ◌∙◌, ◌⊎◌, inl, inr, true, some, [], arith,
}
use rust_kingbase.Wire.Crates.{Crates}
use rust_kingbase.Wire.Read.{read_i32}
use rust_kingbase.Message.Backend.Body.{
  read_cstr, read_notification, read_parameter_status, parse_body, Message, notice_response,
  notification_response, parameter_status,
}
use rust_kingbase.Codec.{is_async, decode, BackendMessage, normal, async}
use rust_kingbase.Codec.Decode.{Decodes, decode-Decodes}
use rust_kingbase.Client.Connection.Read.Router.{
  IsRoutable, IsAsync, is_notice, is_notification, is_parameter,
}

async_tag : (tag : ℕ) → is_async tag ≡ true → (tag ≡ b'N') ⊎ ((tag ≡ b'A') ⊎ (tag ≡ b'S'))
async_tag tag h = ground arith

module _ (crates : Crates) where
  notification_read :
      (body : Bytes) {m : Message} {rest : Bytes}
      → read_notification crates body ≡ ok (m, rest)
      → IsAsync m
  unfolding read_notification
  notification_read body {m = m} h =
      let ((id, buf₁), e₁, h₁) = >>=-eq-ok (read_i32 crates body) _ h in
      let ((channel, buf₂), e₂, h₂) = >>=-eq-ok (read_cstr crates buf₁) _ h₁ in
      let ((text, buf₃), e₃, h₃) = >>=-eq-ok (read_cstr crates buf₂) _ h₂ in
      let found =
        notification_response (record { process_id = id; channel = channel; message = text }) in
      let same_message : found ≡ m = cc in subst IsAsync same_message (is_notification _)

  parameter_read :
      (body : Bytes) {m : Message} {rest : Bytes}
      → read_parameter_status crates body ≡ ok (m, rest)
      → IsAsync m
  unfolding read_parameter_status
  parameter_read body {m = m} h =
      let ((name, buf₁), e₁, h₁) = >>=-eq-ok (read_cstr crates body) _ h in
      let ((value, buf₂), e₂, h₂) = >>=-eq-ok (read_cstr crates buf₁) _ h₁ in
      let found = parameter_status (record { name = name; value = value }) in
      let same_message : found ≡ m = cc in subst IsAsync same_message (is_parameter _)

  notice_read :
      (body : Bytes) {m : Message} {rest : Bytes}
      → parse_body crates b'N' body ≡ ok (m, rest)
      → IsAsync m
  unfolding parse_body
  notice_read body {m = m} h =
      let same_message : notice_response body ≡ m = cc in
      subst IsAsync same_message (is_notice body)

  notification_body : (body : Bytes) → parse_body crates b'A' body ≡ read_notification crates body
  unfolding parse_body
  notification_body body = refl

  parameter_body : (body : Bytes) → parse_body crates b'S' body ≡ read_parameter_status crates body
  unfolding parse_body
  parameter_body body = refl

  body-IsAsync :
      (tag : ℕ) (body : Bytes) {m : Message}
      → (tag ≡ b'N') ⊎ ((tag ≡ b'A') ⊎ (tag ≡ b'S'))
      → parse_body crates tag body ≡ ok (m, [])
      → IsAsync m
  body-IsAsync tag body (inl e) h =
      notice_read body (ap (λ t. parse_body crates t body) (sym e) ∙ h)
  body-IsAsync tag body (inr (inl e)) h =
      notification_read body
        (sym (notification_body body) ∙ (ap (λ t. parse_body crates t body) (sym e) ∙ h))
  body-IsAsync tag body (inr (inr e)) h =
      parameter_read body
        (sym (parameter_body body) ∙ (ap (λ t. parse_body crates t body) (sym e) ∙ h))

  delivered-IsRoutable :
      (src : Bytes) (m : BackendMessage) (rest : Bytes)
      → Decodes crates src (ok (some m, rest))
      → IsRoutable m
  delivered-IsRoutable src (async m) rest (tag, body, frame, f, split, is_one, read) =
      body-IsAsync tag body (async_tag tag is_one) read
  delivered-IsRoutable src (normal messages complete) rest d = tt

  -- What `decode` delivers by itself, on any bytes, is a notice, a notification or a parameter status:
  -- `poll_read` never meets a message that its `unreachable!()` stands for.
  pub decode-IsRoutable :
      (src rest : Bytes) {m : BackendMessage} → decode crates src ≡ ok (some m, rest) → IsRoutable m
  decode-IsRoutable src rest {m = m} h =
      delivered-IsRoutable src m rest (subst (Decodes crates src) h (decode-Decodes crates src))
