-- ===== src/Auth/Parser/RoundTrip.antt =====
-- The server's messages are parsed back to what they were written from.
use rust_kingbase.Prelude.{
  Bytes, All, ok, ℕ, ◌-◌, ◌^◌, ◌≡◌, refl, Bool, true, false, some, [], ◌∷◌, ◌++◌,
}
use rust_kingbase.Wire.Text.{codes, is_digit, parse_unsigned}
use rust_kingbase.Auth.Crypto.{is_base64}
use rust_kingbase.Auth.Parser.{
  eat, take_while, is_printable, printable, base64, posit_number, eof, nonce, salt, iteration_count,
  server_first_message, server_error, verifier, final_of, server_final_message, final_verifier,
}

-- The messages of the server, as it writes them.
abbrev pub write_server_first : Bytes → Bytes → Bytes → Bytes
write_server_first nonce salt digits =
    codes "r=" ++ (nonce ++ (codes ",s=" ++ (salt ++ (codes ",i=" ++ digits))))

abbrev pub write_verifier : Bytes → Bytes
write_verifier v = codes "v=" ++ v

take_while-stop :
    (f : ℕ → Bool) (s : Bytes) (d : ℕ) (rest : Bytes)
    → All (λ c. f c ≡ true) s
    → f d ≡ false
    → take_while f (s ++ d ∷ rest) ≡ (s, d ∷ rest)
unfolding take_while
take_while-stop f [] d rest h e = rw e refl
take_while-stop f (c ∷ s) d rest (h, hs) e = rw (h, take_while-stop f s d rest hs e) refl

take_while-All : (f : ℕ → Bool) (s : Bytes) → All (λ c. f c ≡ true) s → take_while f s ≡ (s, [])
unfolding take_while
take_while-All f [] h = refl
take_while-All f (c ∷ s) (h, hs) = rw (h, take_while-All f s hs) refl

-- A first message with a printable nonce, a salt in base64 and a count that fits 32 bits is parsed to
-- those three.
pub server_first_message-write :
    (n s digits : Bytes) (i : ℕ)
    → All (λ c. is_printable c ≡ true) n
    → All (λ c. is_base64 c ≡ true) s
    → All (λ c. is_digit c ≡ true) digits
    → parse_unsigned (2 ^ 32 - 1) digits ≡ some i
    → server_first_message (write_server_first n s digits)
      ≡ ok (record { nonce = n; salt = s; iteration_count = i })
unfolding server_first_message nonce salt iteration_count posit_number printable base64 eat eof
server_first_message-write n s digits i hn hs hd hi =
    rw (take_while-stop is_printable n b',' (codes "s=" ++ (s ++ (codes ",i=" ++ digits))) hn refl)
      (rw (take_while-stop is_base64 s b',' (codes "i=" ++ digits) hs refl)
        (rw (take_while-All is_digit digits hd) (rw hi refl)))

-- A verifier in base64 is parsed to itself.
pub server_final_message-write :
    (v : Bytes)
    → All (λ c. is_base64 c ≡ true) v
    → server_final_message (write_verifier v) ≡ ok (final_verifier v)
unfolding server_final_message server_error final_of verifier base64 eat eof
server_final_message-write v h = rw (take_while-All is_base64 v h) refl
