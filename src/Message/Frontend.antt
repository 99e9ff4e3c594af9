-- ===== src/Message/Frontend.antt =====
-- postgres-protocol/src/message/frontend.rs: the messages that the client sends. Each function takes
-- the buffer and returns it with the message appended.
pub mod Layout
pub mod Counted
pub mod Messages
pub mod Queries
pub mod Bind
pub mod Refusals
pub mod Total
use rust_kingbase.Prelude.{
  ltb, leb, ◌==◌, if◌then◌else◌, ltb→lt, lt→ltb, le→ltb, ==_iff, Bool-cases, Option-cases, le→leb,
  lt→leb, leb→le, Bytes, IsByte, length, take, drop, All, length-append, take-append-drop,
  length-take, length-drop, take-append, drop-append, take-append_le, drop-append_le, take-length,
  drop-length, drop-add, length-map, All-append, ◌>>=◌, unwrap, ok_or, >>=-eq-ok, Returns,
  >>=-Returns, map_err, expect_ok, Error, Result, unexpected_eof, invalid_input, invalid_data,
  message, utf8_error, conversion, serialization, ok, err, panic, ℕ, zero, suc, ◌+◌, ◌-◌, ◌*◌, ◌/◌,
  ◌%◌, ◌^◌, ◌≤◌, ◌<◌, min, String, ◌≡◌, refl, sym, ap, ap₂, subst, ◌∙◌, ◌≢◌, ◌↔◌, ◌⊎◌, inl, inr,
  Bool, true, false, not, ◌&&◌, ◌||◌, Option, none, some, List, [], ◌∷◌, ◌++◌, map, append-nil,
  append_assoc, arith,
}
use rust_kingbase.Prelude.Int.{
  is_negative, IsSigned, wrap, signed, signed_low, signed_high, signed-wrap, wrap-lt, wrap-signed,
  signed-IsSigned, ℤ, pos, negsuc,
}
use rust_kingbase.Wire.Crates.{contains, Crates}
use rust_kingbase.Wire.Write.{
  put_slice, put_u8, put_i8, put_u16, put_u32, put_u64, put_i16, put_i32, put_i64, put_f32, put_f64,
  write_at, sub_usize, from_usize, u16_from_usize, i32_from_usize, write_i32_at, write_u16_at,
  nullable_size, write_nullable, write_at-append, sub_usize_add, from_usize_fits, from_usize_large,
  Appends, size_field, nullable_size-append, write_i32_at-append, write_nullable-Appends, IsNull,
  yes_null, no_null,
}

-- `&[0; 4]` and `&[0; 2]`
abbrev pub zeros4 : Bytes
zeros4 = 0 ∷ 0 ∷ 0 ∷ 0 ∷ []

abbrev pub zeros2 : Bytes
zeros2 = 0 ∷ 0 ∷ []

unfoldable pub write_cstr : Bytes → Bytes → Result Bytes
write_cstr s buf =
    if contains 0 s
    then err (invalid_input "string contains embedded null")
    else ok (put_u8 0 (put_slice s buf))

-- The loop of `write_counted`.
unfoldable pub write_items {ℓ} :
    {T : Type ℓ} → (T → Bytes → Result Bytes) → List T → ℕ → Bytes → Result (ℕ × Bytes)
write_items serializer [] count buf = ok (count, buf)
write_items serializer (item ∷ items) count buf = do
  buf' ← serializer item buf
  write_items serializer items (count + 1) buf'

-- A message that is sent as it is, or the data of a `COPY` with the length of its message.
pub record CopyData : Type 0 where
  pub buf : Bytes
  pub len : ℤ

-- `CopyData::new`: `usize::checked_add`, then `i32::try_from`.
unfoldable pub new_copy_data : Bytes → Result CopyData
new_copy_data buf =
    if ltb (length buf + 4) (2 ^ 64) && leb (length buf + 4) 2147483647
    then ok (record { buf = buf; len = pos (length buf + 4) })
    else err (invalid_input "message length overflow")

-- `E::from` where `E` is `io::Error` itself.
abbrev pub io_error : Error → Error
io_error e = e

module _ (crates : Crates) where
  -- `into` is `E::from` for the errors of the body, where `E: From<io::Error>`.
  unfoldable pub write_body : (Error → Error) → (Bytes → Result Bytes) → Bytes → Result Bytes
  write_body into f buf = do
    let base = length buf
    buf' ← f (buf ++ zeros4)
    n ← sub_usize (length buf') base
    size ← map_err into (i32_from_usize n)
    write_i32_at crates base size buf'

  unfoldable pub write_counted {ℓ} :
      {T : Type ℓ} → List T → (T → Bytes → Result Bytes) → Bytes → Result Bytes
  write_counted items serializer buf = do
    let base = length buf
    (count, buf') ← write_items serializer items 0 (buf ++ zeros2)
    n ← u16_from_usize count
    write_u16_at crates base n buf'

module _ (crates : Crates) where
  -- `|f, buf| { buf.put_i16(f); Ok(()) }`
  unfoldable pub put_format : ℤ → Bytes → Result Bytes
  put_format f buf = ok (put_i16 crates f buf)

module _ (crates : Crates) where
  -- The closure that writes the body of `bind`.
  unfoldable pub bind_body {ℓ} :
      {T : Type ℓ}
      → Bytes
      → Bytes
      → List ℤ
      → List T
      → (T → Bytes → Result (Bytes × IsNull))
      → List ℤ
      → Bytes
      → Result Bytes
  bind_body portal statement formats values serializer result_formats buf₀ = do
    buf₁ ← map_err serialization (write_cstr portal buf₀)
    buf₂ ← map_err serialization (write_cstr statement buf₁)
    buf₃ ← map_err serialization (write_counted crates formats (put_format crates) buf₂)
    buf₄ ←
        map_err conversion
          (write_counted crates values (λ v. write_nullable crates (serializer v)) buf₃)
    map_err serialization (write_counted crates result_formats (put_format crates) buf₄)

module _ (crates : Crates) where
  unfoldable pub cancel_request : ℤ → ℤ → Bytes → Result Bytes
  cancel_request process_id secret_key buf = expect_ok (
      write_body crates io_error
        (λ b.
          ok (
            put_i32 crates secret_key
              (put_i32 crates process_id (put_i32 crates (pos 80877102) b))))
        buf)

  -- `CopyData::write`
  unfoldable pub write_copy_data : CopyData → Bytes → Bytes
  write_copy_data d out = put_slice d.buf (put_i32 crates d.len (put_u8 b'd' out))

  unfoldable pub ssl_request : Bytes → Result Bytes
  ssl_request buf =
      expect_ok (write_body crates io_error (λ b. ok (put_i32 crates (pos 80877103) b)) buf)

-- The loop over the parameters of a start-up message.
unfoldable pub write_pairs : List (Bytes × Bytes) → Bytes → Result Bytes
write_pairs [] buf = ok buf
write_pairs ((key, value) ∷ parameters) buf = do
  buf₁ ← write_cstr key buf
  buf₂ ← write_cstr value buf₁
  write_pairs parameters buf₂

module _ (crates : Crates) where
  unfoldable pub bind {ℓ} :
      {T : Type ℓ}
      → Bytes
      → Bytes
      → List ℤ
      → List T
      → (T → Bytes → Result (Bytes × IsNull))
      → List ℤ
      → Bytes
      → Result Bytes
  bind portal statement formats values serializer result_formats buf =
      write_body crates serialization
        (bind_body crates portal statement formats values serializer result_formats)
        (put_u8 b'B' buf)

  unfoldable pub close : ℕ → Bytes → Bytes → Result Bytes
  close variant name buf =
      write_body crates io_error (λ b. write_cstr name (put_u8 variant b)) (put_u8 b'C' buf)

  unfoldable pub copy_done : Bytes → Result Bytes
  copy_done buf = expect_ok (write_body crates io_error ok (put_u8 b'c' buf))

  unfoldable pub copy_fail : Bytes → Bytes → Result Bytes
  copy_fail why buf = write_body crates io_error (write_cstr why) (put_u8 b'f' buf)

  unfoldable pub describe : ℕ → Bytes → Bytes → Result Bytes
  describe variant name buf =
      write_body crates io_error (λ b. write_cstr name (put_u8 variant b)) (put_u8 b'D' buf)

  unfoldable pub execute : Bytes → ℤ → Bytes → Result Bytes
  execute portal max_rows buf =
      write_body crates io_error (λ b. do b' ← write_cstr portal b; ok (put_i32 crates max_rows b'))
        (put_u8 b'E' buf)

  unfoldable pub parse : Bytes → Bytes → List ℕ → Bytes → Result Bytes
  parse name query param_types buf =
      write_body crates io_error
        (λ b. do
          b₁ ← write_cstr name b
          b₂ ← write_cstr query b₁
          write_counted crates param_types (λ t b₃. ok (put_u32 crates t b₃)) b₂)
        (put_u8 b'P' buf)

  unfoldable pub password_message : Bytes → Bytes → Result Bytes
  password_message password buf = write_body crates io_error (write_cstr password) (put_u8 b'p' buf)

  unfoldable pub query : Bytes → Bytes → Result Bytes
  query text buf = write_body crates io_error (write_cstr text) (put_u8 b'Q' buf)

  unfoldable pub sasl_initial_response : Bytes → Bytes → Bytes → Result Bytes
  sasl_initial_response mechanism payload buf =
      write_body crates io_error
        (λ b. do
          b₁ ← write_cstr mechanism b
          len ← i32_from_usize (length payload)
          ok (put_slice payload (put_i32 crates len b₁)))
        (put_u8 b'p' buf)

  unfoldable pub sasl_response : Bytes → Bytes → Result Bytes
  sasl_response payload buf =
      write_body crates io_error (λ b. ok (put_slice payload b)) (put_u8 b'p' buf)

  unfoldable pub startup_message : List (Bytes × Bytes) → Bytes → Result Bytes
  startup_message parameters buf =
      write_body crates io_error
        (λ b. do b' ← write_pairs parameters (put_i32 crates (pos 0x0003_0000) b); ok (put_u8 0 b'))
        buf

  unfoldable pub flush : Bytes → Result Bytes
  flush buf = expect_ok (write_body crates io_error ok (put_u8 b'H' buf))

  unfoldable pub sync : Bytes → Result Bytes
  sync buf = expect_ok (write_body crates io_error ok (put_u8 b'S' buf))

  unfoldable pub terminate : Bytes → Result Bytes
  terminate buf = expect_ok (write_body crates io_error ok (put_u8 b'X' buf))
