-- ===== src/Auth/Scram/Answered.antt =====
-- What the client of postgres-protocol/src/authentication/sasl.rs sends after an `update` that succeeded.
use rust_kingbase.Prelude.{
  subst, if◌then◌else◌, Bytes, ok_or, >>=-eq-ok, map_err, Result, invalid_input, ok, err, panic, ℕ,
  ◌≡◌, refl, ap, List, ◌++◌,
}
use rust_kingbase.Wire.Text.{codes, starts_with}
use rust_kingbase.Wire.Utf8.{from_utf8}
use rust_kingbase.Auth.Crypto.{xor_bytes, CryptoCrates}
use rust_kingbase.Auth.Parser.{ServerFirstMessage, server_first_message, salt}
use rust_kingbase.Auth.Scram.{
  hi, client_key, auth_message, without_proof, new, new_inner, message_of, scram_message, answer,
  challenged, replaced, update_of, update, ChannelBinding, ScramSha256,
}
use rust_kingbase.Auth.Server.{client_final_bare, cbind_data-binding_of}

module _ (crypto : CryptoCrates) where
  open crypto use {encode_base64}

  -- A final message of the client: the channel binding, a nonce and a proof, as RFC 5802 lays it out.
  abbrev pub final_message : ChannelBinding → Bytes → Bytes → Bytes
  final_message b n proof = client_final_bare crypto b n ++ (codes ",p=" ++ encode_base64 proof)

  answer-final :
      (n p : Bytes) (b : ChannelBinding) (received : Bytes) (parsed : ServerFirstMessage)
      (salt : Bytes)
      → (proof : Bytes) × (scram_message (answer crypto n p b received parsed salt)
          ≡ ok (final_message b parsed.nonce proof))
  unfolding answer scram_message message_of
  answer-final n p b received parsed salt =
      let salted = hi crypto p salt parsed.iteration_count in
      let key = client_key crypto salted in
      let auth = auth_message crypto n received (without_proof crypto b parsed.nonce) in
      let proof = xor_bytes key (crypto.hmac_sha256 (crypto.sha256 key) auth) in
      (
        proof,
        ap
            (λ d. ok (
              (codes "c=" ++ (encode_base64 d ++ (codes ",r=" ++ parsed.nonce)))
              ++ (codes ",p=" ++ encode_base64 proof)))
            (cbind_data-binding_of b),
      )

  challenged-final :
      (n p : Bytes) (b : ChannelBinding) (received : Bytes) {s : ScramSha256}
      → challenged crypto n p b received ≡ ok s
      → (n' : Bytes) × (proof : Bytes) × (scram_message s ≡ ok (final_message b n' proof))
  unfolding challenged
  challenged-final n p b received {s} h =
      let (text, e₁, h₁) =
        >>=-eq-ok (map_err (λ e. invalid_input "Utf8Error") (from_utf8 received)) _ h in
      let (parsed, e₂, h₂) = >>=-eq-ok (server_first_message text) _ h₁ in
      let (u, e₃, h₃) =
        >>=-eq-ok
          (if starts_with parsed.nonce n then ok (tt {0}) else err (invalid_input "invalid nonce"))
          _ h₂ in
      let (salt, e₄, h₄) =
        >>=-eq-ok (ok_or (crypto.decode_base64 parsed.salt) (invalid_input "DecodeError")) _ h₃ in
      let (proof, final) = answer-final n p b text parsed salt in
      let same_answer : answer crypto n p b text parsed salt ≡ s = cc in
      (
        parsed.nonce,
        proof,
        subst (λ x. scram_message x ≡ ok (final_message b parsed.nonce proof)) same_answer final,
      )

  replaced-final :
      (b : ChannelBinding) (text : Bytes) (r : Result ScramSha256)
      → ((s : ScramSha256)
          → r ≡ ok s
          → (n : Bytes) × (proof : Bytes) × (scram_message s ≡ ok (final_message b n proof)))
      → {u : Unit {0}} → (replaced crypto text r).outcome ≡ ok u
      → (n : Bytes) × (proof : Bytes) × (scram_message (replaced crypto text r).left
          ≡ ok (final_message b n proof))
  unfolding replaced
  replaced-final b text (ok s) k h = k s refl
  replaced-final b text (err e) k h = cc
  replaced-final b text panic k h = cc

  -- After an `update` that succeeded the message is a final message with the channel binding.
  pub update-final :
      (draws : List ℕ) (password : Bytes) (b : ChannelBinding) (received : Bytes) {u : Unit {0}}
      → (update crypto (new crypto draws password b) received).outcome ≡ ok u
      → (n : Bytes) × (proof : Bytes) × (scram_message
            (update crypto (new crypto draws password b) received).left
          ≡ ok (final_message b n proof))
  unfolding new new_inner update update_of
  update-final draws password b received h =
      replaced-final b _ (challenged crypto _ _ b received)
        (λ s e. challenged-final _ _ b received e) h
