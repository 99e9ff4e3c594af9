-- ===== src/Auth/Crypto.antt =====
-- The third-party crates of the authentication code, as parameters with their documented laws, and the
-- bytes that the code combines itself.
use rust_kingbase.Prelude.{
  leb, ◌==◌, Bytes, IsByte, length, All, ℕ, zero, suc, ◌+◌, ◌*◌, ◌/◌, ◌%◌, ◌^◌, ◌<◌, ◌≡◌, refl, ap₂,
  Bool, true, ◌&&◌, ◌||◌, Option, some, [], ◌∷◌, arith,
}
use rust_kingbase.Wire.Text.{is_digit}

-- The base64 alphabet, with the padding.
abbrev pub is_base64 : ℕ → Bool
is_base64 c =
    (leb b'a' c && leb c b'z')
    || ((leb b'A' c && leb c b'Z') || (is_digit c || (c == b'/' || (c == b'+' || c == b'='))))

-- `hmac` (the key, and the concatenation of the updates), `sha2`, `md5`, `base64` with its standard
-- alphabet, and `stringprep`, where `none` is an error.
pub record CryptoCrates : Type 0 where
  pub hmac_sha256 : Bytes → Bytes → Bytes
  pub sha256 : Bytes → Bytes
  pub md5_digest : Bytes → Bytes
  pub encode_base64 : Bytes → Bytes
  pub decode_base64 : Bytes → Option Bytes
  pub saslprep : Bytes → Option Bytes
  pub decode-encode : (s : Bytes) → All IsByte s → decode_base64 (encode_base64 s) ≡ some s
  pub encode_is_base64 : (s : Bytes) → All (λ c. is_base64 c ≡ true) (encode_base64 s)
  pub length-hmac : (key s : Bytes) → length (hmac_sha256 key s) ≡ 32
  pub hmac-IsByte : (key s : Bytes) → All IsByte (hmac_sha256 key s)

-- The exclusive or of two numbers of so many bits.
abbrev pub xor_bits : ℕ → ℕ → ℕ → ℕ
xor_bits zero a b = 0
xor_bits (suc n) a b = xor_bits n (a / 2) (b / 2) * 2 + (a % 2 + b % 2) % 2

-- `for (a, b) in a.iter_mut().zip(b) { *a ^= b }`
abbrev pub xor_bytes : Bytes → Bytes → Bytes
xor_bytes [] t = []
xor_bytes (a ∷ s) [] = a ∷ s
xor_bytes (a ∷ s) (b ∷ t) = xor_bits 8 a b ∷ xor_bytes s t

xor_bits-twice : (n a b : ℕ) → a < 2 ^ n → xor_bits n (xor_bits n a b) b ≡ a
xor_bits-twice zero a b h = omega arith
xor_bits-twice (suc n) a b h =
    let r = xor_bits n (a / 2) (b / 2) in
    let d = (a % 2 + b % 2) % 2 in
    let halved : (r * 2 + d) / 2 ≡ r = omega arith in
    let low : ((r * 2 + d) % 2 + b % 2) % 2 ≡ a % 2 = omega arith in
    let ih : xor_bits n r (b / 2) ≡ a / 2 = xor_bits-twice n (a / 2) (b / 2) (omega arith) in
    rw (halved, low, ih) (omega arith)

pub xor_bytes-twice :
    (s t : Bytes) → All IsByte s → length s ≡ length t → xor_bytes (xor_bytes s t) t ≡ s
xor_bytes-twice [] t h l = refl
xor_bytes-twice (a ∷ s) [] h l = refl
xor_bytes-twice (a ∷ s) (b ∷ t) (h, hs) l =
    ap₂ (λ x y. x ∷ y) (xor_bits-twice 8 a b h) (xor_bytes-twice s t hs (omega arith))
