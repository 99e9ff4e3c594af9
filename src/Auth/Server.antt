-- ===== src/Auth/Server.antt =====
-- The server of SCRAM-SHA-256 as RFC 5802 and RFC 5929 describe it, apart from the client's code.
use rust_kingbase.Prelude.{
  Bytes, ℕ, zero, suc, ◌-◌, ◌≡◌, refl, ap, Bool, [], ◌∷◌, ◌++◌, ◌+◌, arith, ◌∙◌,
}
use rust_kingbase.Wire.Text.{codes, same}
use rust_kingbase.Auth.Crypto.{xor_bytes, CryptoCrates}
use rust_kingbase.Auth.Scram.{
  gs2_header, cbind_data, hi_rounds, hi, ChannelBinding, unrequested, unsupported,
  tls_server_end_point,
}

-- The header in front of the client's first message.
unfoldable pub header_of : ChannelBinding → Bytes
header_of unrequested = codes "y,,"
header_of unsupported = codes "n,,"
header_of (tls_server_end_point place) = codes "p=tls-server-end-point,,"

-- The channel binding that the client is to send back: the header, and the end point if there is one.
unfoldable pub binding_of : ChannelBinding → Bytes
binding_of unrequested = codes "y,,"
binding_of unsupported = codes "n,,"
binding_of (tls_server_end_point place) = codes "p=tls-server-end-point,," ++ place

-- The client's header and its channel binding are those of the RFC.
pub gs2_header-header_of : (b : ChannelBinding) → gs2_header b ≡ header_of b
unfolding header_of
gs2_header-header_of unrequested = refl
gs2_header-header_of unsupported = refl
gs2_header-header_of (tls_server_end_point place) = refl

pub cbind_data-binding_of : (b : ChannelBinding) → gs2_header b ++ cbind_data b ≡ binding_of b
unfolding binding_of
cbind_data-binding_of unrequested = refl
cbind_data-binding_of unsupported = refl
cbind_data-binding_of (tls_server_end_point place) = refl

abbrev pub client_first_bare : Bytes → Bytes
client_first_bare nonce = codes "n=,r=" ++ nonce

module _ (crypto : CryptoCrates) where
  open crypto use {hmac_sha256, sha256, encode_base64}

  abbrev pub client_final_bare : ChannelBinding → Bytes → Bytes
  client_final_bare binding nonce =
      codes "c=" ++ (encode_base64 (binding_of binding) ++ (codes ",r=" ++ nonce))

  -- What both sides sign: the three messages, without the proof, with commas between them.
  abbrev pub signed : Bytes → Bytes → Bytes → Bytes
  signed first challenge final = first ++ (codes "," ++ (challenge ++ (codes "," ++ final)))

  -- The numbers `U1`, `U2`, .. of `Hi`, from 0, and the exclusive or of the first of them.
  abbrev pub u : Bytes → Bytes → ℕ → Bytes
  u str salt zero = hmac_sha256 str (salt ++ 0 ∷ 0 ∷ 0 ∷ 1 ∷ [])
  u str salt (suc n) = hmac_sha256 str (u str salt n)

  abbrev pub xor_up_to : Bytes → Bytes → ℕ → Bytes
  xor_up_to str salt zero = u str salt zero
  xor_up_to str salt (suc n) = xor_bytes (xor_up_to str salt n) (u str salt (suc n))

  -- `Hi(str, salt, i)`, for an `i` above 0.
  unfoldable pub salted_password : Bytes → Bytes → ℕ → Bytes
  salted_password str salt i = xor_up_to str salt (i - 1)

  abbrev pub stored_key : Bytes → Bytes
  stored_key salted = sha256 (hmac_sha256 salted (codes "Client Key"))

  abbrev pub server_key_of : Bytes → Bytes
  server_key_of salted = hmac_sha256 salted (codes "Server Key")

  -- The server's test of a proof, with the key that it has stored.
  abbrev pub accepts_proof : Bytes → Bytes → Bytes → Bool
  accepts_proof stored auth proof = same (sha256 (xor_bytes proof (hmac_sha256 stored auth))) stored

  hi_rounds-xor :
      (str salt : Bytes) (k n : ℕ)
      → hi_rounds crypto str n (u str salt k) (xor_up_to str salt k) ≡ xor_up_to str salt (n + k)
  unfolding hi_rounds
  hi_rounds-xor str salt k zero = ap (xor_up_to str salt) (let e : k ≡ 0 + k = omega arith in e)
  hi_rounds-xor str salt k (suc n) =
      let e : n + suc k ≡ suc n + k = omega arith in
      hi_rounds-xor str salt (suc k) n ∙ ap (xor_up_to str salt) e

  -- The loop of `hi` is the function `Hi` of the RFC.
  pub hi-salted : (str salt : Bytes) (i : ℕ) → hi crypto str salt i ≡ salted_password str salt i
  unfolding hi salted_password
  hi-salted str salt i =
      let e : i - 1 + 0 ≡ i - 1 = omega arith in
      hi_rounds-xor str salt 0 (i - 1) ∙ ap (xor_up_to str salt) e
