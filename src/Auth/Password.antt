-- ===== src/Auth/Password.antt =====
-- postgres-protocol/src/password/mod.rs, the `md5_hash` of postgres-protocol/src/authentication/mod.rs,
-- and postgres-protocol/src/hex.rs.
pub mod Responses
use rust_kingbase.Prelude.{
  none, some, Option, ok, err, panic, Bytes, ℕ, zero, suc, ◌/◌, ◌%◌, [], ◌∷◌, ◌++◌, Option, ok,
  some, err,
}
use rust_kingbase.Wire.Text.{codes}
use rust_kingbase.Auth.Crypto.{CryptoCrates}
use rust_kingbase.Auth.Scram.{hi}
use rust_kingbase.Wire.Utf8.{from_utf8}

abbrev pub hex_chars : Bytes
hex_chars = codes "0123456789abcdef"

abbrev pub char_at : ℕ → Bytes → ℕ
char_at n [] = 0
char_at zero (c ∷ s) = c
char_at (suc n) (c ∷ s) = char_at n s

-- `HEX_CHARS[(half_byte & 0x0F) as usize]`, which is never out of range.
abbrev pub lower_nibble_to_hex : ℕ → ℕ
lower_nibble_to_hex half_byte = char_at (half_byte % 16) hex_chars

abbrev pub encode_byte : ℕ → Bytes
encode_byte byte = lower_nibble_to_hex (byte / 16) ∷ lower_nibble_to_hex byte ∷ []

-- `LowerHexWrapper`
unfoldable pub lower_hex : Bytes → Bytes
lower_hex [] = []
lower_hex (b ∷ s) = encode_byte b ++ lower_hex s

abbrev pub scram_default_iterations : ℕ
scram_default_iterations = 4096

module _ (crypto : CryptoCrates) where
  open crypto use {hmac_sha256, sha256, md5_digest, encode_base64, saslprep}

  -- `md5_hash`, the answer to a request for an MD5 password.
  unfoldable pub md5_hash : Bytes → Bytes → Bytes → Bytes
  md5_hash username password salt =
      codes "md5" ++ lower_hex (md5_digest (lower_hex (md5_digest (password ++ username)) ++ salt))

  -- `md5`
  unfoldable pub md5 : Bytes → Bytes → Bytes
  md5 password username = codes "md5" ++ lower_hex (md5_digest (password ++ username))

  -- The password that `scram_sha_256_salt` prepares: its arms of `saslprep` and of `from_utf8`.
  unfoldable pub saslprep_or : Bytes → Option Bytes → Bytes
  saslprep_or password (some p) = p
  saslprep_or password none = password

  unfoldable pub prepared_password : Bytes → Bytes
  prepared_password password = elim (from_utf8 password) [
    | ok password_str ↦ saslprep_or password (saslprep password_str)
    | err e ↦ password
    | panic ↦ password
  ]

  -- The keys that the server is to store.
  unfoldable pub stored_keys : Bytes → Bytes → ℕ → Bytes × Bytes
  stored_keys password salt iterations =
      let salted = hi crypto (prepared_password password) salt iterations in
      let client_key = hmac_sha256 salted (codes "Client Key") in
      let server_key = hmac_sha256 salted (codes "Server Key") in (sha256 client_key, server_key)

  unfoldable pub scram_sha_256_salt : Bytes → Bytes → Bytes
  scram_sha_256_salt password salt =
      let (stored, server) = stored_keys password salt scram_default_iterations in
      codes "SCRAM-SHA-256$4096:"
      ++ (encode_base64 salt
          ++ (codes "$" ++ (encode_base64 stored ++ (codes ":" ++ encode_base64 server))))
