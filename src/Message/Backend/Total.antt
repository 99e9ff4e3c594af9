-- ===== src/Message/Backend/Total.antt =====
-- `Message::parse` returns on every buffer: no slice is out of range and no `unwrap` fails.

use rust_kingbase.Prelude.{
  leb, if◌then◌else◌, Bytes, length, Returns, >>=-Returns, ◌>>=◌, refl, Option, Result,
  unexpected_eof, ok, err, ℕ, ◌+◌, ◌^◌, Bool, true, false, none, some, [], ◌∷◌, ◌≡◌, arith,
}
use rust_kingbase.Prelude.Int.{ℤ, pos, negsuc}
use rust_kingbase.Wire.Crates.{Crates, memchr-lt}
use rust_kingbase.Wire.Read.{
  read_exact, read_u8, read_uint, read_int, read_u16, read_i32, slice_to, slice_to_within,
  slice_from_within,
}
use rust_kingbase.Message.Backend.{if_drained, finish, parse, Option, slice_from}
use rust_kingbase.Message.Backend.Body.{
  read_status, read_cstr, read_notification, read_counted, read_copy_response, read_key_data,
  read_parameter_status, authentication, read_authentication, read_command_tag, parse_body,
  CountedBody, CopyResponseBody, Message,
}
use rust_kingbase.Message.Backend.Frame.{
  cut, parse_invalid, parse_cut_off, parse_few, parse-IsFrame, few, cut_off, invalid, whole,
}

if-Returns {ℓ} :
    {A : Type ℓ} (b : Bool) (x y : Result A) → Returns x → Returns y → Returns (if b then x else y)
if-Returns true x y p q = p
if-Returns false x y p q = q

read_exact-Returns : (n : ℕ) (buf : Bytes) → Returns (read_exact n buf)
unfolding read_exact
read_exact-Returns n buf = if-Returns (leb n (length buf)) _ _ tt tt

read_u8-Returns : (buf : Bytes) → Returns (read_u8 buf)
read_u8-Returns [] = tt
read_u8-Returns (b ∷ buf) = tt

module _ (crates : Crates) where
  read_uint-Returns : (w : ℕ) (buf : Bytes) → Returns (read_uint crates w buf)
  unfolding read_uint
  read_uint-Returns w buf = >>=-Returns (read_exact w buf) _ (read_exact-Returns w buf) (λ a. tt)

  read_int-Returns : (w half : ℕ) (buf : Bytes) → Returns (read_int crates w half buf)
  unfolding read_int
  read_int-Returns w half buf =
      >>=-Returns (read_uint crates w buf) _ (read_uint-Returns w buf) (λ a. tt)

  -- What `read_cstr` makes of the place of the null byte.
  cstr_at-Returns :
      (buf : Bytes) (r : Option ℕ)
      → crates.memchr 0 buf ≡ r
      → Returns (elim r as (λ x. Result (Bytes × Bytes)) [
        | none ↦ err unexpected_eof
        | some end ↦
            slice_to end buf >>= λ cstr. slice_from (end + 1) buf >>= λ rest. ok (cstr, rest)
      ])
  cstr_at-Returns buf none e = tt
  cstr_at-Returns buf (some n) e =
      let h = memchr-lt crates 0 buf e in
      rw (slice_to_within n buf (omega arith), slice_from_within (n + 1) buf (omega arith)) tt

  read_cstr-Returns : (buf : Bytes) → Returns (read_cstr crates buf)
  unfolding read_cstr
  read_cstr-Returns buf = cstr_at-Returns buf (crates.memchr 0 buf) refl

  authentication-Returns : (n : ℤ) (buf : Bytes) → Returns (authentication n buf)
  unfolding authentication
  authentication-Returns (negsuc n) buf = tt
  authentication-Returns (pos n) buf =
      search (if-Returns, >>=-Returns, read_exact-Returns, tt) depth 15

module _ (crates : Crates) where
  notification-Returns : (buf : Bytes) → Returns (read_notification crates buf)
  unfolding read_notification
  notification-Returns buf =
      >>=-Returns (read_i32 crates buf) _ (read_int-Returns crates 4 (2 ^ 31) buf) (λ a.
        >>=-Returns (read_cstr crates a.1) _ (read_cstr-Returns crates a.1)
          (λ b. >>=-Returns (read_cstr crates b.1) _ (read_cstr-Returns crates b.1) (λ c. tt)))

  parameter_status-Returns : (buf : Bytes) → Returns (read_parameter_status crates buf)
  unfolding read_parameter_status
  parameter_status-Returns buf =
      >>=-Returns (read_cstr crates buf) _ (read_cstr-Returns crates buf)
        (λ b. >>=-Returns (read_cstr crates b.1) _ (read_cstr-Returns crates b.1) (λ c. tt))

  key_data-Returns : (buf : Bytes) → Returns (read_key_data crates buf)
  unfolding read_key_data
  key_data-Returns buf =
      >>=-Returns (read_i32 crates buf) _ (read_int-Returns crates 4 (2 ^ 31) buf) (λ a.
        >>=-Returns (read_i32 crates a.1) _ (read_int-Returns crates 4 (2 ^ 31) a.1) (λ c. tt))

  counted-Returns :
      (make : CountedBody → Message) (buf : Bytes) → Returns (read_counted crates make buf)
  unfolding read_counted
  counted-Returns make buf =
      >>=-Returns (read_u16 crates buf) _ (read_uint-Returns crates 2 buf) (λ a. tt)

  copy_response-Returns :
      (make : CopyResponseBody → Message) (buf : Bytes)
      → Returns (read_copy_response crates make buf)
  unfolding read_copy_response
  copy_response-Returns make buf =
      >>=-Returns (read_u8 buf) _ (read_u8-Returns buf)
        (λ a. >>=-Returns (read_u16 crates a.1) _ (read_uint-Returns crates 2 a.1) (λ c. tt))

  read_authentication-Returns : (buf : Bytes) → Returns (read_authentication crates buf)
  unfolding read_authentication
  read_authentication-Returns buf =
      >>=-Returns (read_i32 crates buf) _ (read_int-Returns crates 4 (2 ^ 31) buf)
        (λ a. authentication-Returns crates a.0 a.1)

  command_tag-Returns : (buf : Bytes) → Returns (read_command_tag crates buf)
  unfolding read_command_tag
  command_tag-Returns buf =
      >>=-Returns (read_cstr crates buf) _ (read_cstr-Returns crates buf) (λ a. tt)

  status-Returns : (buf : Bytes) → Returns (read_status crates buf)
  unfolding read_status
  status-Returns buf = >>=-Returns (read_u8 buf) _ (read_u8-Returns buf) (λ a. tt)

module _ (crates : Crates) where
  pub parse_body-Returns : (tag : ℕ) (buf : Bytes) → Returns (parse_body crates tag buf)
  unfolding parse_body
  parse_body-Returns tag buf =
      search
        (
          if-Returns, notification-Returns, parameter_status-Returns, key_data-Returns,
          counted-Returns, copy_response-Returns, read_authentication-Returns, command_tag-Returns,
          status-Returns, tt,
        )
        depth 30

  if_drained-Returns : (m : Message) (rest xs : Bytes) → Returns (if_drained m rest xs)
  if_drained-Returns m rest [] = tt
  if_drained-Returns m rest (x ∷ xs) = tt

  finish-Returns : (tag : ℕ) (body rest : Bytes) → Returns (finish crates tag body rest)
  unfolding finish
  finish-Returns tag body rest =
      >>=-Returns (parse_body crates tag body) _ (parse_body-Returns tag body)
        (λ a. if_drained-Returns a.0 rest a.1)

module _ (crates : Crates) where
  -- `Message::parse` never panics: on any buffer it returns a message, nothing, or an error.
  pub parse-Returns : (buf : Bytes) → Returns (parse crates buf)
  parse-Returns buf = elim (cut crates buf) [
    | few short ↦ rw (parse_few crates buf short) tt
    | cut_off tag size rest e four short ↦ rw (e, parse_cut_off crates tag size rest four short) tt
    | invalid tag size rest e four small ↦ rw (e, parse_invalid crates tag size rest four small) tt
    | whole tag body frame rest f e ↦
        rw (e, parse-IsFrame crates tag body frame rest f) (finish-Returns crates tag body rest)
  ]
