-- ===== src/Auth/Plain.antt =====
-- Crates for the examples: a code of two letters for a byte in place of base64, and 32 copies of a count
-- in place of a digest.
use rust_kingbase.Prelude.{
  le→leb, Bytes, IsByte, length, All, ℕ, zero, suc, ◌+◌, ◌-◌, ◌*◌, ◌/◌, ◌%◌, ◌<◌, ◌≡◌, refl, ap,
  true, Option, none, some, [], ◌∷◌, ◌++◌, arith,
}
use rust_kingbase.Auth.Crypto.{is_base64, CryptoCrates}

abbrev pub letters : ℕ → Bytes
letters b = (97 + b / 16 % 16) ∷ (97 + b % 16) ∷ []

abbrev pub encode_plain : Bytes → Bytes
encode_plain [] = []
encode_plain (b ∷ s) = letters b ++ encode_plain s

abbrev pub decode_plain : Bytes → Option Bytes
decode_plain [] = some []
decode_plain (c ∷ []) = none
decode_plain (c ∷ d ∷ s) = elim (decode_plain s) [
  | some t ↦ some (((c - 97) * 16 + (d - 97)) ∷ t)
  | none ↦ none
]

abbrev pub repeated : ℕ → ℕ → Bytes
repeated zero b = []
repeated (suc n) b = b ∷ repeated n b

pub length-repeated : (n b : ℕ) → length (repeated n b) ≡ n
length-repeated zero b = refl
length-repeated (suc n) b = ap suc (length-repeated n b)

pub repeated-IsByte : (n b : ℕ) → b < 256 → All IsByte (repeated n b)
repeated-IsByte zero b h = tt
repeated-IsByte (suc n) b h = (h, repeated-IsByte n b h)

pub decode_plain-encode_plain : (s : Bytes) → All IsByte s → decode_plain (encode_plain s) ≡ some s
decode_plain-encode_plain [] h = refl
decode_plain-encode_plain (b ∷ s) (h, hs) =
    rw (decode_plain-encode_plain s hs) (ap some (ap (λ x. x ∷ s) (omega arith)))

letter-base64 : (n : ℕ) → n < 16 → is_base64 (97 + n) ≡ true
letter-base64 n h = rw (le→leb 97 (97 + n) (omega arith), le→leb (97 + n) 122 (omega arith)) refl

pub encode_plain-base64 : (s : Bytes) → All (λ c. is_base64 c ≡ true) (encode_plain s)
encode_plain-base64 [] = tt
encode_plain-base64 (b ∷ s) = (
  letter-base64 (b / 16 % 16) (omega arith),
  (letter-base64 (b % 16) (omega arith), encode_plain-base64 s),
)

abbrev pub plain : CryptoCrates
plain = record {
  hmac_sha256 = λ key s. repeated 32 ((length key + length s) % 256);
  sha256 = λ s. s;
  md5_digest = λ s. s;
  encode_base64 = encode_plain;
  decode_base64 = decode_plain;
  saslprep = λ s. some s;
  decode-encode = decode_plain-encode_plain;
  encode_is_base64 = encode_plain-base64;
  length-hmac = λ key s. length-repeated 32 ((length key + length s) % 256);
  hmac-IsByte = λ key s. repeated-IsByte 32 ((length key + length s) % 256) (omega arith);
}
