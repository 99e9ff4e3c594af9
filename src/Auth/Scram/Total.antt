-- ===== src/Auth/Scram/Total.antt =====
-- ScramSha256 and the parser of postgres-protocol/src/authentication/sasl.rs return on any message.
use rust_kingbase.Prelude.{
  ◌==◌, Bool-cases, Bytes, ◌>>=◌, Returns, map_err, if-Returned, ok_or-Returned, >>=-Returned,
  Result, Returned, invalid_input, ok, err, panic, returned, refused, ℕ, ◌-◌, ◌^◌, ◌≡◌, refl, inl,
  inr, Option, none, some, List, [], ◌∷◌,
}
use rust_kingbase.Wire.Text.{same, starts_with, is_digit, parse_unsigned}
use rust_kingbase.Wire.Utf8.{is_utf8, from_utf8}
use rust_kingbase.Auth.Crypto.{CryptoCrates}
use rust_kingbase.Auth.Parser.{
  eat, take_while, posit_number, eof, nonce, salt, iteration_count, server_first_message,
  server_error, verifier, final_of, server_final_message, ServerFinalMessage, final_error,
  final_verifier,
}
use rust_kingbase.Auth.Scram.{
  new_inner, new, message_of, scram_message, challenged, replaced, update_of, update, verify,
  verified, concluded, finish_of, finish, ChannelBinding, ScramState, ScramSha256, updating,
  finishing, finished,
}
use rust_kingbase.Auth.Scram.Order.{challenged-finishing}

eat-Returned : (target : ℕ) (s : Bytes) → Returned (eat target s)
unfolding eat
eat-Returned target [] = refused _
eat-Returned target (c ∷ s) = if-Returned (c == target) (returned _) (refused _)

eof-Returned : (s : Bytes) → Returned (eof s)
unfolding eof
eof-Returned [] = returned tt
eof-Returned (c ∷ s) = refused _

tagged-Returned :
    {A : Type 0} (tag : ℕ) (s : Bytes) {f : Bytes → Result A}
    → ((t : Bytes) → Returned (f t))
    → Returned (eat tag s >>= λ t. eat b'=' t >>= f)
tagged-Returned tag s k =
    >>=-Returned (eat-Returned tag s) (λ t. >>=-Returned (eat-Returned b'=' t) k)

nonce-Returned : (s : Bytes) → Returned (nonce s)
unfolding nonce
nonce-Returned s = tagged-Returned b'r' s (λ t. returned _)

salt-Returned : (s : Bytes) → Returned (salt s)
unfolding salt
salt-Returned s = tagged-Returned b's' s (λ t. returned _)

posit_number-Returned : (s : Bytes) → Returned (posit_number s)
unfolding posit_number
posit_number-Returned s =
    let (n, t) = take_while is_digit s in
    >>=-Returned (ok_or-Returned (parse_unsigned (2 ^ 32 - 1) n) _) (λ k. returned _)

iteration_count-Returned : (s : Bytes) → Returned (iteration_count s)
unfolding iteration_count
iteration_count-Returned s = tagged-Returned b'i' s posit_number-Returned

server_first_message-Returned : (s : Bytes) → Returned (server_first_message s)
unfolding server_first_message
server_first_message-Returned s = >>=-Returned (nonce-Returned s) (λ (n, t).
    >>=-Returned (eat-Returned b',' t) (λ u. >>=-Returned (salt-Returned u) (λ (v, w).
      >>=-Returned (eat-Returned b',' w) (λ x.
        >>=-Returned (iteration_count-Returned x)
          (λ (i, y). >>=-Returned (eof-Returned y) (λ z. returned _))))))

verifier-Returned : (s : Bytes) → Returned (verifier s)
unfolding verifier
verifier-Returned s = tagged-Returned b'v' s (λ t. returned _)

server_error-Returned : (s : Bytes) → Returned (server_error s)
unfolding server_error
server_error-Returned [] = returned _
server_error-Returned (c ∷ s) =
    if-Returned (c == b'e') (tagged-Returned b'e' (c ∷ s) (λ t. returned _)) (returned _)

final_of-Returned : (e : Option Bytes) (s : Bytes) → Returned (final_of e s)
unfolding final_of
final_of-Returned (some e) s = returned _
final_of-Returned none s = >>=-Returned (verifier-Returned s) (λ r. returned _)

server_final_message-Returned : (s : Bytes) → Returned (server_final_message s)
unfolding server_final_message
server_final_message-Returned s = >>=-Returned (server_error-Returned s) (λ (e, t).
    >>=-Returned (final_of-Returned e t)
      (λ (m, u). >>=-Returned (eof-Returned u) (λ z. returned _)))

text-Returned : (s : Bytes) → Returned (map_err (λ e. invalid_input "Utf8Error") (from_utf8 s))
unfolding from_utf8
text-Returned s = elim (Bool-cases (is_utf8 s)) [
  | inl valid ↦ rw valid (returned s)
  | inr broken ↦ rw broken (refused _)
]

module _ (crypto : CryptoCrates) where
  challenged-Returned :
      (n p : Bytes) (b : ChannelBinding) (received : Bytes)
      → Returned (challenged crypto n p b received)
  unfolding challenged
  challenged-Returned n p b received = >>=-Returned (text-Returned received) (λ s.
      >>=-Returned (server_first_message-Returned s) (λ m.
        >>=-Returned (if-Returned (starts_with m.nonce n) (returned tt) (refused _))
          (λ u. >>=-Returned (ok_or-Returned (crypto.decode_base64 m.salt) _) (λ t. returned _))))

  replaced-Returned :
      (text : Bytes) {r : Result ScramSha256}
      → Returned r
      → Returned (replaced crypto text r).outcome
  unfolding replaced
  replaced-Returned text (returned s) = returned tt
  replaced-Returned text (refused e) = refused e

  update_of-Returned :
      (state : ScramState) (text received : Bytes)
      → Returned (update_of crypto state text received).outcome
  unfolding update_of
  update_of-Returned (updating n p b) text received =
      replaced-Returned text (challenged-Returned n p b received)
  update_of-Returned (finishing p a) text received = replaced-Returned text (refused _)
  update_of-Returned finished text received = replaced-Returned text (refused _)

  pub update-Returned :
      (s : ScramSha256) (received : Bytes) → Returned (update crypto s received).outcome
  unfolding update
  update-Returned s received = update_of-Returned s.state s.text received

  verified-Returned :
      (salted auth : Bytes) (m : ServerFinalMessage) → Returned (verified crypto salted auth m)
  unfolding verified verify
  verified-Returned salted auth (final_error e) = refused _
  verified-Returned salted auth (final_verifier v) =
      >>=-Returned (ok_or-Returned (crypto.decode_base64 v) _)
        (λ w. if-Returned (same _ w) (returned tt) (refused _))

  finish_of-Returned :
      (state : ScramState) (received : Bytes) → Returned (finish_of crypto state received)
  unfolding finish_of concluded
  finish_of-Returned (updating n p b) received = refused _
  finish_of-Returned (finishing p a) received =
      >>=-Returned (text-Returned received)
        (λ s. >>=-Returned (server_final_message-Returned s) (verified-Returned p a))
  finish_of-Returned finished received = refused _

  pub finish-Returned :
      (s : ScramSha256) (received : Bytes) → Returned (finish crypto s received).outcome
  unfolding finish
  finish-Returned s received = finish_of-Returned s.state received

  finishing_message :
      (text : Bytes) (r : Result ScramSha256)
      → ((s : ScramSha256)
          → r ≡ ok s
          → (salted : Bytes) × (auth : Bytes) × (s.state ≡ finishing salted auth))
      → (replaced crypto text r).outcome ≡ ok tt
      → Returned (scram_message (replaced crypto text r).left)
  unfolding replaced scram_message message_of
  finishing_message text (ok s) k h = let (salted, auth, e) = k s refl in rw e (returned s.text)
  finishing_message text (err e) k h = cc
  finishing_message text panic k h = cc

  -- After an `update` that succeeded there is a message to send.
  pub message-after_update :
      (n p : Bytes) (b : ChannelBinding) (text received : Bytes)
      → (update crypto (record { text = text; state = updating n p b }) received).outcome ≡ ok tt
      → Returned (
          scram_message
            (update crypto (record { text = text; state = updating n p b }) received).left)
  unfolding update update_of
  message-after_update n p b text received h =
      finishing_message text (challenged crypto n p b received)
        (λ s e. challenged-finishing crypto n p b received e) h

  -- There is a first message to send, and a second one after an `update` that succeeded.
  pub first_message-Returns :
      (draws : List ℕ) (password : Bytes) (b : ChannelBinding)
      → Returns (scram_message (new crypto draws password b))
  unfolding scram_message message_of new new_inner
  first_message-Returns draws password b = tt

  pub second_message-Returned :
      (draws : List ℕ) (password : Bytes) (b : ChannelBinding) (received : Bytes) {u : Unit {0}}
      → (update crypto (new crypto draws password b) received).outcome ≡ ok u
      → Returned (scram_message (update crypto (new crypto draws password b) received).left)
  unfolding new new_inner
  second_message-Returned draws password b received h = message-after_update _ _ b _ received h
