-- ===== src/Auth/Parser.antt =====
-- The parser of the server's messages in postgres-protocol/src/authentication/sasl.rs. Its state is the
-- text that is left. Its tests are of ASCII characters, so that bytes do for the characters. An error
-- is its kind and the constant part of its text, less the place and the characters in it.
pub mod RoundTrip
use rust_kingbase.Prelude.{
  leb, ◌==◌, if◌then◌else◌, Bytes, ◌>>=◌, ok_or, Result, unexpected_eof, invalid_input, ok, err, ℕ,
  ◌-◌, ◌^◌, Bool, ◌&&◌, ◌||◌, Option, none, some, [], ◌∷◌,
}
use rust_kingbase.Wire.Text.{is_digit, parse_unsigned}
use rust_kingbase.Auth.Crypto.{is_base64}

-- `eat`
unfoldable pub eat : ℕ → Bytes → Result Bytes
eat target [] = err unexpected_eof
eat target (c ∷ s) = if c == target then ok s else err (invalid_input "unexpected character")

-- `take_while`: what was taken, and what is left.
unfoldable pub take_while : (ℕ → Bool) → Bytes → Bytes × Bytes
take_while f [] = ([], [])
take_while f (c ∷ s) =
    let (taken, left) = take_while f s in if f c then (c ∷ taken, left) else ([], c ∷ s)

abbrev pub is_printable : ℕ → Bool
is_printable c = (leb 0x21 c && leb c 0x2b) || (leb 0x2d c && leb c 0x7e)

unfoldable pub printable : Bytes → Bytes × Bytes
printable s = take_while is_printable s

unfoldable pub nonce : Bytes → Result (Bytes × Bytes)
nonce s = do s ← eat b'r' s; s ← eat b'=' s; ok (printable s)

unfoldable pub base64 : Bytes → Bytes × Bytes
base64 s = take_while is_base64 s

unfoldable pub salt : Bytes → Result (Bytes × Bytes)
salt s = do s ← eat b's' s; s ← eat b'=' s; ok (base64 s)

unfoldable pub posit_number : Bytes → Result (ℕ × Bytes)
posit_number s = do
  (n, s) ← ok (take_while is_digit s)
  n ← ok_or (parse_unsigned (2 ^ 32 - 1) n) (invalid_input "ParseIntError")
  ok (n, s)

unfoldable pub iteration_count : Bytes → Result (ℕ × Bytes)
iteration_count s = do s ← eat b'i' s; s ← eat b'=' s; posit_number s

unfoldable pub eof : Bytes → Result (Unit {0})
eof [] = ok tt
eof (c ∷ s) = err (invalid_input "unexpected trailing data")

pub record ServerFirstMessage : Type 0 where
  pub nonce : Bytes
  pub salt : Bytes
  pub iteration_count : ℕ

unfoldable pub server_first_message : Bytes → Result ServerFirstMessage
server_first_message s = do
  (n, s) ← nonce s
  s ← eat b',' s
  (t, s) ← salt s
  s ← eat b',' s
  (i, s) ← iteration_count s
  _ ← eof s
  ok (record { nonce = n; salt = t; iteration_count = i })

-- `value`: the test is as the source has it.
unfoldable pub value : Bytes → Bytes × Bytes
value s = take_while (λ c. c == 0 || (c == b'=' || c == b',')) s

pub data ServerFinalMessage : Type 0 where
  final_error : Bytes → ServerFinalMessage
  final_verifier : Bytes → ServerFinalMessage

-- `server_error`, at the first byte of the text.
unfoldable pub server_error : Bytes → Result (Option Bytes × Bytes)
server_error [] = ok (none, [])
server_error (c ∷ s) =
    let whole = do s ← eat b'e' (c ∷ s); s ← eat b'=' s; (v, s) ← ok (value s); ok (some v, s)
    in if c == b'e' then whole else ok (none, c ∷ s)

unfoldable pub verifier : Bytes → Result (Bytes × Bytes)
verifier s = do s ← eat b'v' s; s ← eat b'=' s; ok (base64 s)

unfoldable pub final_of : Option Bytes → Bytes → Result (ServerFinalMessage × Bytes)
final_of (some error) s = ok (final_error error, s)
final_of none s = do (v, s) ← verifier s; ok (final_verifier v, s)

unfoldable pub server_final_message : Bytes → Result ServerFinalMessage
server_final_message s = do (error, s) ← server_error s; (m, s) ← final_of error s; _ ← eof s; ok m
