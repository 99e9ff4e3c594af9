-- ===== src/Message/Frontend/Total.antt =====
-- The writers of the start-up messages in postgres-protocol/src/message/frontend.rs do not panic.
use rust_kingbase.Prelude.{
  dec_lt, Bool-cases, Bytes, length, ◌>>=◌, Returns, Error, Result, ok, err, panic, ℕ, ◌+◌, ◌^◌,
  ◌≡◌, refl, ap, inl, inr, List, [], ◌∷◌, ◌++◌, append-nil, append_assoc, arith,
}
use rust_kingbase.Prelude.Int.{wrap, ℤ, pos}
use rust_kingbase.Wire.Crates.{contains, Crates}
use rust_kingbase.Wire.Write.{
  put_slice, put_u8, put_i32, i32_from_usize, from_usize_fits, from_usize_large,
}
use rust_kingbase.Message.Frontend.{
  zeros4, write_cstr, io_error, write_body, ssl_request, write_pairs, password_message,
  sasl_initial_response, sasl_response, startup_message,
}
use rust_kingbase.Message.Frontend.Layout.{
  Puts, cstr, write_cstr-Puts, then-Puts, write_body-Puts, write_body-too_large,
}
use rust_kingbase.Message.Frontend.Refusals.{embedded_null, write_cstr_null}

-- A writer of a body appends the same bytes to every buffer, or refuses every buffer.
pub data Writer (f : Bytes → Result Bytes) : Type 0 where
  puts : (body : Bytes) → Puts f body → Writer f
  refuses : ((buf : Bytes) → (e : Error) × (f buf ≡ err e)) → Writer f

pub then-Writer : (f g : Bytes → Result Bytes) → Writer f → Writer g → Writer (λ b. f b >>= g)
then-Writer f g (puts x p) (puts y q) = puts (x ++ y) (then-Puts f g x y p q)
then-Writer f g (puts x p) (refuses q) = refuses (λ b. let (e, h) = q (b ++ x) in (e, rw (p b) h))
then-Writer f g (refuses p) w = refuses (λ b. let (e, h) = p b in (e, rw h))

pub write_cstr-Writer : (s : Bytes) → Writer (write_cstr s)
write_cstr-Writer s = elim (Bool-cases (contains 0 s)) [
  | inl null ↦ refuses (λ b. (embedded_null, write_cstr_null s b null))
  | inr clean ↦ puts (cstr s) (write_cstr-Puts s clean)
]

write_pairs-Writer : (ps : List (Bytes × Bytes)) → Writer (write_pairs ps)
unfolding write_pairs
write_pairs-Writer [] = puts [] (λ b. rw (append-nil b))
write_pairs-Writer ((key, value) ∷ ps) = then-Writer (write_cstr key) _ (write_cstr-Writer key) (
    then-Writer (write_cstr value) (write_pairs ps) (write_cstr-Writer value)
      (write_pairs-Writer ps))

i32_from_usize-Returns : (n : ℕ) → Returns (i32_from_usize n)
i32_from_usize-Returns n = elim (dec_lt n (2 ^ 31)) [
  | yes small ↦ rw (from_usize_fits 2147483647 n (omega arith)) tt
  | no large ↦ rw (from_usize_large 2147483647 n (omega arith)) tt
]

module _ (crates : Crates) where
  open crates use {write_be}

  write_body_refused :
      (into : Error → Error) (f : Bytes → Result Bytes) (buf : Bytes) (e : Error)
      → f (buf ++ zeros4) ≡ err e
      → Returns (write_body crates into f buf)
  unfolding write_body
  write_body_refused into f buf e h = rw h tt

  pub write_body-Returns :
      (into : Error → Error) (f : Bytes → Result Bytes) (buf : Bytes)
      → Writer f
      → Returns (write_body crates into f buf)
  write_body-Returns into f buf (puts body p) = elim (dec_lt (length body + 4) (2 ^ 31)) [
    | yes short ↦ rw (write_body-Puts crates into f body buf p short) tt
    | no long ↦ rw (write_body-too_large crates into f body buf p (omega arith)) tt
  ]
  write_body-Returns into f buf (refuses p) =
      let (e, h) = p (buf ++ zeros4) in write_body_refused into f buf e h

  pub startup_message-Returns :
      (ps : List (Bytes × Bytes)) (buf : Bytes) → Returns (startup_message crates ps buf)
  unfolding startup_message
  startup_message-Returns ps buf = write_body-Returns io_error _ buf (
      then-Writer (λ b. ok (put_i32 crates (pos 0x0003_0000) b)) _
        (puts (write_be 4 (wrap (2 ^ 31) (pos 0x0003_0000))) (λ b. refl))
        (then-Writer (write_pairs ps) (λ b. ok (put_u8 0 b)) (write_pairs-Writer ps)
          (puts (0 ∷ []) (λ b. refl))))

  pub password_message-Returns :
      (password buf : Bytes) → Returns (password_message crates password buf)
  unfolding password_message
  password_message-Returns password buf =
      write_body-Returns io_error _ _ (write_cstr-Writer password)

  pub sasl_response-Returns : (payload buf : Bytes) → Returns (sasl_response crates payload buf)
  unfolding sasl_response
  sasl_response-Returns payload buf = write_body-Returns io_error _ _ (puts payload (λ b. refl))

  counted-Writer :
      (payload : Bytes) (r : Result ℤ)
      → Returns r
      → Writer (λ b. r >>= λ len. ok (put_slice payload (put_i32 crates len b)))
  counted-Writer payload (ok len) h =
      puts (write_be 4 (wrap (2 ^ 31) len) ++ payload)
        (λ b. ap ok (append_assoc b (write_be 4 (wrap (2 ^ 31) len)) payload))
  counted-Writer payload (err e) h = refuses (λ b. (e, refl))
  counted-Writer payload panic h = absurd h

  pub sasl_initial_response-Returns :
      (mechanism payload buf : Bytes) → Returns (sasl_initial_response crates mechanism payload buf)
  unfolding sasl_initial_response
  sasl_initial_response-Returns mechanism payload buf = write_body-Returns io_error _ _ (
      then-Writer (write_cstr mechanism) _ (write_cstr-Writer mechanism) (
        counted-Writer payload (i32_from_usize (length payload))
          (i32_from_usize-Returns (length payload))))

  pub ssl_request-Returns : (buf : Bytes) → Returns (ssl_request crates buf)
  unfolding ssl_request
  ssl_request-Returns buf =
      rw
        (write_body-Puts crates io_error (λ b. ok (put_i32 crates (pos 80877103) b))
          (write_be 4 (wrap (2 ^ 31) (pos 80877103))) buf (λ b. refl)
          (rw (crates.length-write_be 4 (wrap (2 ^ 31) (pos 80877103))) (omega arith)))
        tt
