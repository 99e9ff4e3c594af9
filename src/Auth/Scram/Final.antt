-- ===== src/Auth/Scram/Final.antt =====
-- When `finish` succeeds, and the order of the calls.
use rust_kingbase.Prelude.{
  Bool-cases, Bytes, ok_or, >>=-eq-ok, map_err, Error, Result, invalid_input, ok, err, panic, ℕ,
  ◌≡◌, refl, sym, ap, ap₂, subst, ◌∙◌, inl, inr, Bool, true, Option, none, some, [], ◌∷◌, ◌++◌,
  append-nil, arith,
}
use rust_kingbase.Wire.Text.{same, same-eq}
use rust_kingbase.Wire.Utf8.{from_utf8, from_utf8-eq-ok}
use rust_kingbase.Auth.Crypto.{is_base64, CryptoCrates}
use rust_kingbase.Auth.Parser.{
  eat, take_while, base64, eof, server_error, verifier, final_of, server_final_message,
  ServerFinalMessage, final_error, final_verifier,
}
use rust_kingbase.Auth.Parser.RoundTrip.{write_verifier}
use rust_kingbase.Auth.Scram.{
  server_key, verify, verified, concluded, finish_of, finish, ScramState, ScramSha256, updating,
  finishing, finished,
}

take_while-split : (f : ℕ → Bool) (s : Bytes) → (take_while f s).0 ++ (take_while f s).1 ≡ s
unfolding take_while
take_while-split f [] = refl
take_while-split f (c ∷ s) = elim (Bool-cases (f c)) [
  | inl on ↦ rw on (ap (◌∷◌ c) (take_while-split f s))
  | inr off ↦ rw off refl
]

eat-eq-ok : (target : ℕ) (s : Bytes) {t : Bytes} → eat target s ≡ ok t → s ≡ target ∷ t
unfolding eat
eat-eq-ok target [] h = cc
eat-eq-ok target (c ∷ s) h = ground arith

eof-eq-ok : (s : Bytes) {u : Unit {0}} → eof s ≡ ok u → s ≡ []
unfolding eof
eof-eq-ok [] h = refl
eof-eq-ok (c ∷ s) h = cc

verifier-eq-ok : (s v t : Bytes) → verifier s ≡ ok (v, t) → s ≡ write_verifier (v ++ t)
unfolding verifier base64
verifier-eq-ok s v t h =
    let (s₁, e₁, h₁) = >>=-eq-ok (eat b'v' s) _ h in
    let (s₂, e₂, h₂) = >>=-eq-ok (eat b'=' s₁) _ h₁ in
    let split : v ++ t ≡ s₂ =
      (let same_pair : base64 s₂ ≡ (v, t) = cc in
        subst (λ p. p.0 ++ p.1 ≡ s₂) same_pair (take_while-split is_base64 s₂)) in
    eat-eq-ok b'v' s e₁ ∙ ap (λ x. b'v' ∷ x) (eat-eq-ok b'=' s₁ e₂ ∙ ap (λ x. b'=' ∷ x) (sym split))

server_error-none : (s : Bytes) {t : Bytes} → server_error s ≡ ok (none, t) → t ≡ s
unfolding server_error eat
server_error-none [] h = cc
server_error-none (c ∷ []) h = ground arith
server_error-none (c ∷ d ∷ s) h = ground arith

final_of-verifier :
    (error : Option Bytes) (s v t : Bytes)
    → final_of error s ≡ ok (final_verifier v, t)
    → (error ≡ none) × (s ≡ write_verifier (v ++ t))
unfolding final_of
final_of-verifier (some e) s v t h = cc
final_of-verifier none s v t h =
    let ((w, u), e, k) = >>=-eq-ok (verifier s) _ h in
    let same_pair : (w, u) ≡ (v, t) = ap₂ (λ x y. (x, y)) (cc) (cc) in
    (refl, verifier-eq-ok s v t (e ∙ ap ok same_pair))

server_final_message-eq-ok :
    (s v : Bytes) → server_final_message s ≡ ok (final_verifier v) → s ≡ write_verifier v
unfolding server_final_message
server_final_message-eq-ok s v h =
    let ((error, s₁), e₁, h₁) = >>=-eq-ok (server_error s) _ h in
    let ((m, s₂), e₂, h₂) = >>=-eq-ok (final_of error s₁) _ h₁ in
    let (u, e₃, h₃) = >>=-eq-ok (eof s₂) _ h₂ in
    let same_message : m ≡ final_verifier v = cc in
    let (no_error, whole) =
      final_of-verifier error s₁ v s₂ (e₂ ∙ ap (λ x. ok (x, s₂)) same_message) in
    let same_text : s₁ ≡ s = server_error-none s (e₁ ∙ ap (λ x. ok (x, s₁)) no_error) in
    sym same_text ∙ whole ∙ ap write_verifier (ap (λ x. v ++ x) (eof-eq-ok s₂ e₃) ∙ append-nil v)

ok_or-eq-ok : (o : Option Bytes) (e : Error) {w : Bytes} → ok_or o e ≡ ok w → o ≡ some w
ok_or-eq-ok none e h = cc
ok_or-eq-ok (some a) e h = cc

map_err-eq-ok : (f : Error → Error) (r : Result Bytes) {t : Bytes} → map_err f r ≡ ok t → r ≡ ok t
map_err-eq-ok f (ok a) h = h
map_err-eq-ok f (err e) h = cc
map_err-eq-ok f panic h = cc

module _ (crypto : CryptoCrates) where
  open crypto use {hmac_sha256, decode_base64}

  verify-eq-ok : (signature v : Bytes) → verify crypto signature v ≡ ok tt → v ≡ signature
  unfolding verify
  verify-eq-ok signature v h =
      let alike : same signature v ≡ true = ground arith in sym (same-eq signature v alike)

  verified-eq-ok :
      (salted auth : Bytes) (m : ServerFinalMessage)
      → verified crypto salted auth m ≡ ok tt
      → (v : Bytes) × (m ≡ final_verifier v)
        × (decode_base64 v ≡ some (hmac_sha256 (server_key crypto salted) auth))
  unfolding verified
  verified-eq-ok salted auth (final_error e) h = cc
  verified-eq-ok salted auth (final_verifier v) h =
      let (w, e, k) = >>=-eq-ok (ok_or (decode_base64 v) (invalid_input "DecodeError")) _ h in
      (v, refl, ok_or-eq-ok (decode_base64 v) _ e ∙ ap some (verify-eq-ok _ w k))

  concluded-eq-ok :
      (salted auth received : Bytes)
      → concluded crypto salted auth received ≡ ok tt
      → (v : Bytes) × (received ≡ write_verifier v)
        × (decode_base64 v ≡ some (hmac_sha256 (server_key crypto salted) auth))
  unfolding concluded
  concluded-eq-ok salted auth received h =
      let (r, e₁, h₁) =
        >>=-eq-ok (map_err (λ e. invalid_input "Utf8Error") (from_utf8 received)) _ h in
      let (m, e₂, h₂) = >>=-eq-ok (server_final_message r) _ h₁ in
      let (v, is_verifier, decoded) = verified-eq-ok salted auth m h₂ in
      let (same_text, _) = from_utf8-eq-ok received (map_err-eq-ok _ (from_utf8 received) e₁) in
      (v, sym same_text ∙ server_final_message-eq-ok r v (e₂ ∙ ap ok is_verifier), decoded)

  -- That `received` is the verifier that a client in this state asks for.
  abbrev pub Verifies : ScramState → Bytes → Type 0
  Verifies state received =
      (salted : Bytes) × (auth : Bytes) × (v : Bytes) × (state ≡ finishing salted auth)
      × (received ≡ write_verifier v)
      × (decode_base64 v ≡ some (hmac_sha256 (server_key crypto salted) auth))

  finish_of-Verifies :
      (state : ScramState) (received : Bytes)
      → finish_of crypto state received ≡ ok tt
      → Verifies state received
  unfolding finish_of
  finish_of-Verifies (updating n p b) received h = cc
  finish_of-Verifies finished received h = cc
  finish_of-Verifies (finishing salted auth) received h =
      let (v, whole, decoded) = concluded-eq-ok salted auth received h in
      (salted, auth, v, refl, whole, decoded)

  -- `finish` succeeds only in the state after an `update` that succeeded, and only for a message that is a
  -- verifier which decodes to the signature of the whole exchange under the server key of the client's
  -- own salted password.
  pub finish-Verifies :
      (s : ScramSha256) (received : Bytes)
      → (finish crypto s received).outcome ≡ ok tt
      → Verifies s.state received
  unfolding finish
  finish-Verifies s received h = finish_of-Verifies s.state received h
