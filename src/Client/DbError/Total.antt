-- ===== src/Client/DbError/Total.antt =====
-- DbError::parse ends on any fields: a field has two bytes at least.
use rust_kingbase.Wire.Read.{slice_from, slice_to, slice_to_within, slice_from_within}
use rust_kingbase.Prelude.{
  ◌==◌, if◌then◌else◌, Bool-cases, Bytes, length, length-drop, ◌>>=◌, Returns, >>=-Returns, Result,
  invalid_input, ok, err, panic, ℕ, zero, suc, ◌+◌, ◌<◌, String, ◌≡◌, refl, inl, inr, Option, none,
  some, [], ◌∷◌, arith,
}
use rust_kingbase.Wire.Crates.{Crates}
use rust_kingbase.Message.Backend.Iterators.{find_null, error_fields_next, ErrorField}
use rust_kingbase.Message.Backend.Iterators.Places.{find_null-Found, Found}
use rust_kingbase.Client.DbError.{
  no_fields, u32_of, note, position_of, db_error_of, parse_fields, parse_db_error, db_error,
  DbError, Fields, ClientError, parse_failed, db_failed,
}

module _ (crates : Crates) where
  open crates use {memchr}

  -- The value of a field of type `t` in front of `tail`, with the place of the null byte behind it.
  abbrev value_at : ℕ → Bytes → Result ℕ → Result (Option ErrorField × Bytes)
  value_at t tail place = do
    end ← place
    value ← slice_to end tail
    left ← slice_from (end + 1) tail
    ok (some (record { type_ = t; value = value }), left)

  -- The slices around the null byte are in range.
  value_at-Returns :
      (t : ℕ) (tail : Bytes) (place : Result ℕ) → Found tail place → Returns (value_at t tail place)
  value_at-Returns t tail (ok n) h =
      rw (slice_to_within n tail (omega arith), slice_from_within (n + 1) tail (omega arith)) tt
  value_at-Returns t tail (err e) h = tt
  value_at-Returns t tail panic h = h

  error_fields_next-Returns : (buf : Bytes) → Returns (error_fields_next crates buf)
  unfolding error_fields_next
  error_fields_next-Returns [] = tt
  error_fields_next-Returns (t ∷ rest) = elim (Bool-cases (t == 0)) [
    | inl end ↦ rw end (ground arith)
    | inr more ↦
        rw more (value_at-Returns t rest (find_null crates rest 0) (find_null-Found crates rest))
  ]

  -- `error_fields_next` behind the type byte, with the place of the null byte.
  abbrev field_at : ℕ → Bytes → Result ℕ → Result (Option ErrorField × Bytes)
  field_at t tail place =
      if t == 0
      then (if length tail == 0
          then ok (none, tail)
          else err (invalid_input "invalid message length: error fields is not drained"))
      else value_at t tail place

  rest_shorter :
      (t : ℕ) (tail rest : Bytes) (f : ErrorField) (r : Result ℕ)
      → field_at t tail r ≡ ok (some f, rest)
      → length rest < suc (length tail)
  unfolding slice_to slice_from
  rest_shorter t tail rest f panic h = ground arith
  rest_shorter t tail rest f (err e) h = ground arith
  rest_shorter t tail rest f (ok end) h = ground (arith, length-drop (end + 1) tail)

  -- A field is taken off the buffer.
  error_fields_next_shorter :
      (buf rest : Bytes) (f : ErrorField)
      → error_fields_next crates buf ≡ ok (some f, rest)
      → length rest < length buf
  unfolding error_fields_next
  error_fields_next_shorter [] rest f h = cc
  error_fields_next_shorter (t ∷ tail) rest f h =
      rest_shorter t tail rest f (find_null crates tail 0) h

u32_of-Returns : (why : String) (v : Bytes) → Returns (u32_of why v)
u32_of-Returns why v = ground arith

note-Returns : (p : Fields) (t : ℕ) (v : Bytes) → Returns (note p t v)
unfolding note
note-Returns p t v = ground arith

db_error_of-Returns : (p : Fields) → Returns (db_error_of p)
unfolding db_error_of position_of
db_error_of-Returns p = ground arith

module _ (crates : Crates) (lossy : Bytes → Bytes) where
  fields_step :
      (fuel : ℕ) (p : Fields) (buf : Bytes) (r : Result (Option ErrorField × Bytes))
      → ((p : Fields) (rest : Bytes)
          → length rest < fuel
          → Returns (parse_fields crates lossy fuel p rest))
      → length buf < suc fuel
      → error_fields_next crates buf ≡ r
      → Returns r
      → Returns (parse_fields crates lossy (suc fuel) p buf)
  unfolding parse_fields
  fields_step fuel p buf (ok (none, rest)) ih h e t = rw e tt
  fields_step fuel p buf (ok (some f, rest)) ih h e t = rw e (
      >>=-Returns (note p f.type_ (lossy f.value)) _ (note-Returns p f.type_ (lossy f.value))
        (λ p'. ih p' rest (omega (arith, error_fields_next_shorter crates buf rest f e))))
  fields_step fuel p buf (err x) ih h e t = rw e tt
  fields_step fuel p buf panic ih h e t = absurd t

  parse_fields-Returns :
      (fuel : ℕ) (p : Fields) (buf : Bytes)
      → length buf < fuel
      → Returns (parse_fields crates lossy fuel p buf)
  parse_fields-Returns zero p buf h = absurd (omega arith)
  parse_fields-Returns (suc fuel) p buf h =
      fields_step fuel p buf (error_fields_next crates buf) (parse_fields-Returns fuel) h refl
        (error_fields_next-Returns crates buf)

  -- `DbError::parse` ends without a panic on any fields, with an error of the server or an `io::Error`.
  pub parse_db_error-Returns : (buf : Bytes) → Returns (parse_db_error crates lossy buf)
  unfolding parse_db_error
  parse_db_error-Returns buf =
      >>=-Returns (parse_fields crates lossy (suc (length buf)) no_fields buf) _
        (parse_fields-Returns (suc (length buf)) no_fields buf (omega arith)) db_error_of-Returns

  pub db_error-Returns : (buf : Bytes) → Returns (db_error crates lossy buf)
  unfolding db_error
  db_error-Returns buf = answered (parse_db_error crates lossy buf) (parse_db_error-Returns buf)
    where
      answered :
          (r : Result DbError)
          → Returns r
          → Returns (elim r as (λ _. Result ClientError) [
            | ok e ↦ ok (db_failed e)
            | err e ↦ ok (parse_failed e)
            | panic ↦ panic
          ])
      answered (ok e) h = tt
      answered (err e) h = tt
      answered panic h = h
