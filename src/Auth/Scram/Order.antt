-- ===== src/Auth/Scram/Order.antt =====
-- The nonce of the client, and the order of the calls.
use rust_kingbase.Prelude.{
  if◌then◌else◌, Bytes, length, take, All, length-take, length-map, ok_or, >>=-eq-ok, map_err,
  Result, invalid_input, message, ok, err, panic, ℕ, zero, suc, ◌≤◌, ◌<◌, min, ◌≡◌, refl, ap, ◌∙◌,
  ◌⊎◌, inl, inr, true, List, [], ◌∷◌, ◌++◌, map, arith,
}
use rust_kingbase.Wire.Text.{codes, starts_with}
use rust_kingbase.Wire.Utf8.{from_utf8}
use rust_kingbase.Auth.Crypto.{CryptoCrates}
use rust_kingbase.Auth.Parser.{is_printable, server_first_message}
use rust_kingbase.Auth.Scram.{
  nonce_length, gs2_header, nonce_char, normalize, new_inner, new, message_of, scram_message,
  answer, challenged, replaced, update_of, update, finish_of, finish, ChannelBinding, ScramState,
  ScramSha256, Step, updating, finishing, finished,
}

-- What `random_range(0x21u8..0x7e)` draws.
abbrev pub IsDrawn : ℕ → Type 0
IsDrawn v = (0x21 ≤ v) × (v < 0x7e)

nonce_char-printable : (v : ℕ) → IsDrawn v → is_printable (nonce_char v) ≡ true
nonce_char-printable v (h, k) = ground arith

map-printable :
    (vs : List ℕ) → All IsDrawn vs → All (λ c. is_printable c ≡ true) (map nonce_char vs)
map-printable [] h = tt
map-printable (v ∷ vs) (h, hs) = (nonce_char-printable v h, map-printable vs hs)

All-take : (P : ℕ → Type 0) (n : ℕ) (xs : List ℕ) → All P xs → All P (take n xs)
All-take P zero xs h = tt
All-take P (suc n) [] h = tt
All-take P (suc n) (x ∷ xs) (h, hs) = (h, All-take P n xs hs)

-- Any numbers that `random_range` draws give a first message that is the header of the channel binding
-- and a nonce of printable characters with no comma among them, and the client is then in its first
-- state, with that nonce.
pub new-printable :
    (crypto : CryptoCrates) (draws : List ℕ) (password : Bytes) (binding : ChannelBinding)
    → All IsDrawn draws
    → (let s = new crypto draws password binding in
        (n : Bytes) × (All (λ c. is_printable c ≡ true) n)
        × (length n ≡ min nonce_length (length draws))
        × (scram_message s ≡ ok (gs2_header binding ++ (codes "n=,r=" ++ n)))
        × (s.state ≡ updating n (normalize crypto password) binding))
unfolding new new_inner scram_message message_of
new-printable crypto draws password binding h = (
  map nonce_char (take nonce_length draws),
  map-printable (take nonce_length draws) (All-take IsDrawn nonce_length draws h),
  length-map (take nonce_length draws) nonce_char ∙ length-take nonce_length draws,
  refl,
  refl,
)

abbrev pub bad_state : Result (Unit {0})
bad_state = err (message "invalid SCRAM state")

module _ (crypto : CryptoCrates) where
  pub challenged-finishing :
      (n p : Bytes) (b : ChannelBinding) (received : Bytes) {s : ScramSha256}
      → challenged crypto n p b received ≡ ok s
      → (salted : Bytes) × (auth : Bytes) × (s.state ≡ finishing salted auth)
  unfolding challenged answer
  challenged-finishing n p b received {s} h =
      let (r, e₁, h₁) =
        >>=-eq-ok (map_err (λ e. invalid_input "Utf8Error") (from_utf8 received)) _ h in
      let (m, e₂, h₂) = >>=-eq-ok (server_first_message r) _ h₁ in
      let (u, e₃, h₃) =
        >>=-eq-ok
          (if starts_with m.nonce n then ok (tt {0}) else err (invalid_input "invalid nonce")) _
          h₂ in
      let (t, e₄, h₄) =
        >>=-eq-ok (ok_or (crypto.decode_base64 m.salt) (invalid_input "DecodeError")) _ h₃ in
      let same_state : s ≡ answer crypto n p b r m t = cc in (_, _, ap (λ x. x.state) same_state)

  -- What may follow a step.
  abbrev After : Step → Bytes → Type 0
  After step second =
      ((update crypto step.left second).outcome ≡ bad_state)
      × (((finish crypto step.left second).outcome ≡ bad_state) ⊎ (step.outcome ≡ ok tt))

  replaced-After :
      (text : Bytes) (r : Result ScramSha256) (second : Bytes)
      → ((s : ScramSha256)
          → r ≡ ok s
          → (salted : Bytes) × (auth : Bytes) × (s.state ≡ finishing salted auth))
      → After (replaced crypto text r) second
  unfolding replaced update update_of finish finish_of
  replaced-After text (ok s) second h = let (salted, auth, e) = h s refl in (rw e refl, inr refl)
  replaced-After text (err e) second h = (refl, inl refl)
  replaced-After text panic second h = (refl, inl refl)

  update_of-After :
      (state : ScramState) (text first second : Bytes)
      → After (update_of crypto state text first) second
  unfolding update_of
  update_of-After (updating n p b) text first second =
      replaced-After text _ second (λ s h. challenged-finishing n p b first h)
  update_of-After (finishing p a) text first second =
      replaced-After text (err (message "invalid SCRAM state")) second (λ s h. cc)
  update_of-After finished text first second =
      replaced-After text (err (message "invalid SCRAM state")) second (λ s h. cc)

  -- After a `finish`, and after an `update`, another `update` is an error of the state; after a `finish`
  -- so is another `finish`; and a `finish` after an `update` is one, unless the `update` succeeded.
  pub calls_in_order :
      (s : ScramSha256) (first second : Bytes)
      → ((update crypto (finish crypto s first).left second).outcome ≡ bad_state)
        × ((finish crypto (finish crypto s first).left second).outcome ≡ bad_state)
        × ((update crypto (update crypto s first).left second).outcome ≡ bad_state)
        × (((finish crypto (update crypto s first).left second).outcome ≡ bad_state)
            ⊎ ((update crypto s first).outcome ≡ ok tt))
  unfolding update finish update_of finish_of replaced
  calls_in_order s first second =
      let (again, then_finish) = update_of-After s.state s.text first second in
      (refl, refl, again, then_finish)
