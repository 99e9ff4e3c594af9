-- ===== src/Auth/Password/Responses.antt =====
-- What a server can do with the stored passwords.
use rust_kingbase.Prelude.{
  dec_lt, leb, ◌==◌, if◌then◌else◌, ==_iff, Bytes, IsByte, drop, All, ℕ, zero, suc, ◌+◌, ◌-◌, ◌*◌,
  ◌/◌, ◌%◌, ◌<◌, ◌≡◌, refl, ap₂, Bool, true, ◌&&◌, ◌||◌, [], ◌∷◌, ◌++◌, arith,
}
use rust_kingbase.Wire.Text.{codes, is_digit}
use rust_kingbase.Auth.Crypto.{CryptoCrates}
use rust_kingbase.Auth.Password.{hex_chars, char_at, lower_nibble_to_hex, lower_hex, md5_hash, md5}

-- The server's side of an MD5 answer: it has stored `md5` of the password, and drops its prefix.
abbrev pub md5_of_stored : CryptoCrates → Bytes → Bytes → Bytes
md5_of_stored crypto stored salt =
    codes "md5" ++ lower_hex (crypto.md5_digest (drop 3 stored ++ salt))

-- The answer to a request for an MD5 password is the one that the server computes from what `md5` makes
-- of the same password and user, for every salt.
pub md5_answers :
    (crypto : CryptoCrates) (username password salt : Bytes)
    → md5_hash crypto username password salt
      ≡ md5_of_stored crypto (md5 crypto password username) salt
unfolding md5_hash md5
md5_answers crypto username password salt = refl

abbrev pub is_lower_hex : ℕ → Bool
is_lower_hex c = is_digit c || (leb b'a' c && leb c b'f')

-- The digit of a hexadecimal character.
abbrev pub unhex : ℕ → ℕ
unhex c = if is_digit c then c - b'0' else c - b'a' + 10

abbrev pub from_hex : Bytes → Bytes
from_hex [] = []
from_hex (c ∷ []) = []
from_hex (c ∷ d ∷ s) = (unhex c * 16 + unhex d) ∷ from_hex s

abbrev unhexes_below : ℕ → Bool
unhexes_below zero = true
unhexes_below (suc n) = (unhex (char_at n hex_chars) == n) && unhexes_below n

unhexes_below-all :
    (bound n : ℕ) → n < bound → unhexes_below bound ≡ true → unhex (char_at n hex_chars) ≡ n
unhexes_below-all zero n h e = absurd (omega arith)
unhexes_below-all (suc bound) n h e =
    let here : (unhex (char_at bound hex_chars) == bound) ≡ true = ground arith in
    let below : unhexes_below bound ≡ true = ground arith in
    elim (dec_lt n bound) [
      | yes lower ↦ unhexes_below-all bound n lower below
      | no last ↦
          (let same_number : n ≡ bound = omega arith in
            rw same_number ((==_iff (unhex (char_at bound hex_chars)) bound).0 here))
    ]

low_nibble : (n : ℕ) → unhex (lower_nibble_to_hex n) ≡ n % 16
low_nibble n = unhexes_below-all 16 (n % 16) (omega arith) refl

byte-unhex :
    (b : ℕ)
    → b < 256
    → unhex (lower_nibble_to_hex (b / 16)) * 16 + unhex (lower_nibble_to_hex b) ≡ b
byte-unhex b h = rw (low_nibble (b / 16), low_nibble b) (omega arith)

-- Every byte is written as two digits from which it is read back.
pub lower_hex-from_hex : (s : Bytes) → All IsByte s → from_hex (lower_hex s) ≡ s
unfolding lower_hex
lower_hex-from_hex [] h = refl
lower_hex-from_hex (b ∷ s) (h, hs) = ap₂ (λ x y. x ∷ y) (byte-unhex b h) (lower_hex-from_hex s hs)
