-- ===== src/Examples/Login.antt =====
-- The theorems of `Auth` with the stand-in crates of `Auth.Plain`.
use rust_kingbase.Prelude.{
  Bytes, invalid_input, ok, err, ℕ, ◌≡◌, refl, ◌⊎◌, Bool, true, ◌&&◌, [], ◌∷◌,
}
use rust_kingbase.Wire.Text.{codes}
use rust_kingbase.Wire.Utf8.{is_utf8, from_utf8}
use rust_kingbase.Auth.Parser.{
  eat, take_while, base64, eof, value, server_error, verifier, final_of, server_final_message,
}
use rust_kingbase.Auth.Parser.RoundTrip.{write_verifier}
use rust_kingbase.Auth.Scram.{
  server_key, update, verify, verified, concluded, finish_of, finish, ScramSha256, finishing,
}
use rust_kingbase.Auth.Scram.Order.{bad_state, calls_in_order}
use rust_kingbase.Auth.Scram.Final.{Verifies, finish-Verifies}
use rust_kingbase.Auth.Plain.{encode_plain, plain}

abbrev login_nonce : Bytes
login_nonce = codes "rOprNGfwEbeRWgbNEkqO"

abbrev login_more : Bytes
login_more = codes "%hvYDpWUa2RaTCAfuxFIlj)hNlF$k0"

abbrev login_salt : Bytes
login_salt = 91 ∷ 109 ∷ 153 ∷ 104 ∷ []

-- A list on which a Boolean test holds throughout.
abbrev holds : (ℕ → Bool) → Bytes → Bool
holds f [] = true
holds f (c ∷ s) = f c && holds f s

-- A client that has answered, and the verifier that it asks for.
abbrev answered : ScramSha256
answered = record { text = codes "c=biws"; state = finishing (codes "key") (codes "n=,r=") }

abbrev server_says : Bytes
server_says =
    write_verifier
      (encode_plain (plain.hmac_sha256 (server_key plain (codes "key")) (codes "n=,r=")))

finish-Verifies_example : Verifies plain answered.state server_says
unfolding finish finish_of concluded server_final_message server_error final_of verifier base64 eat
    eof take_while verified verify from_utf8 is_utf8
finish-Verifies_example = finish-Verifies plain answered server_says refl

calls_in_order_example :
    ((update plain (finish plain answered server_says).left server_says).outcome ≡ bad_state)
    × ((finish plain (finish plain answered server_says).left server_says).outcome ≡ bad_state)
    × ((update plain (update plain answered server_says).left server_says).outcome ≡ bad_state)
    × (((finish plain (update plain answered server_says).left server_says).outcome ≡ bad_state)
        ⊎ ((update plain answered server_says).outcome ≡ ok tt))
calls_in_order_example = calls_in_order plain answered server_says server_says

-- The error that a server reports is refused as trailing data.
server_error_refused :
    server_final_message (codes "e=other-error") ≡ err (invalid_input "unexpected trailing data")
unfolding server_final_message server_error final_of value eat eof take_while
server_error_refused = refl
