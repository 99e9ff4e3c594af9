-- ===== src/Auth/Exchange.antt =====
-- A whole exchange of SCRAM-SHA-256 with a server that keeps its word.
use rust_kingbase.Auth.Server.{
  accepts_proof, salted_password, client_final_bare, signed, client_first_bare, server_key_of,
  header_of, stored_key,
}
use rust_kingbase.Prelude.{Bytes, ok, ℕ, ◌≡◌, true, ◌++◌}
use rust_kingbase.Wire.Text.{codes}
use rust_kingbase.Auth.Crypto.{CryptoCrates}
use rust_kingbase.Auth.Parser.{nonce, salt}
use rust_kingbase.Auth.Parser.RoundTrip.{write_server_first, write_verifier}
use rust_kingbase.Auth.Scram.{normalize, new_inner, scram_message, update, finish, ChannelBinding}
use rust_kingbase.Auth.Password.{stored_keys}

module _ (crypto : CryptoCrates) where
  open crypto use {
    hmac_sha256, sha256, encode_base64, decode-encode, encode_is_base64, length-hmac, hmac-IsByte,
  }

  -- What comes of an exchange with the server of the RFC, which holds `stored` and `server`.
  abbrev pub Succeeds : Bytes → Bytes → Bytes → Bytes → Bytes → ℕ → ChannelBinding → Type 0
  Succeeds nonce more password salt digits i binding =
      let salted = salted_password crypto (normalize crypto password) salt i in
      let challenge = write_server_first (nonce ++ more) (encode_base64 salt) digits in
      let final = client_final_bare crypto binding (nonce ++ more) in
      let auth = signed crypto (client_first_bare nonce) challenge final in
      let start = new_inner crypto password binding nonce in
      let answered = update crypto start challenge in
      let signature = hmac_sha256 (server_key_of crypto salted) auth in
      (proof : Bytes) × (scram_message start ≡ ok (header_of binding ++ client_first_bare nonce))
      × (answered.outcome ≡ ok tt)
      × (scram_message answered.left ≡ ok (final ++ (codes ",p=" ++ encode_base64 proof)))
      × (accepts_proof crypto (stored_key crypto salted) auth proof ≡ true)
      × ((finish crypto answered.left (write_verifier (encode_base64 signature))).outcome ≡ ok tt)
      × (stored_keys crypto password salt i
          ≡ (stored_key crypto salted, server_key_of crypto salted))
