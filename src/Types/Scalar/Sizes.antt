-- ===== src/Types/Scalar/Sizes.antt =====
-- Which buffers the readers of fixed-size values accept.
use rust_kingbase.Prelude.{
  dec_lt, ltb, if◌then◌else◌, lt→ltb, le→ltb, le→leb, lt→leb, Bytes, length, drop, length-drop,
  take-length, drop-length, ◌>>=◌, Result, unexpected_eof, message, ok, err, panic, ℕ, ◌^◌, ◌<◌,
  String, ◌≡◌, refl, ◌∙◌, [], ◌∷◌, arith,
}
use rust_kingbase.Prelude.Int.{signed, ℤ}
use rust_kingbase.Wire.Crates.{Crates}
use rust_kingbase.Wire.Read.{read_exact, read_uint, read_int}
use rust_kingbase.Types.Scalar.{
  drained, int2_from_sql, int4_from_sql, oid_from_sql, int8_from_sql, lsn_from_sql, float4_from_sql,
  float8_from_sql, timestamp_from_sql, date_from_sql, time_from_sql,
}

-- What a reader of `n` bytes that refuses a longer buffer answers: `v` is the value of the buffer.
abbrev pub by_length {ℓ} : {A : Type ℓ} → ℕ → String → A → Bytes → Result A
by_length n why v buf =
    if ltb (length buf) n
    then err unexpected_eof
    else if ltb n (length buf)
    then err (message why)
    else ok v

drained_long {ℓ} :
    {A : Type ℓ} (why : String) (v : A) (buf : Bytes)
    → 0 < length buf
    → drained why v buf ≡ err (message why)
drained_long why v [] h = absurd (omega arith)
drained_long why v (b ∷ buf) h = refl

module _ {ℓ} (crates : Crates) {A : Type ℓ} (n : ℕ) (why : String) (f : ℕ → A) where
  open crates use {read_be}

  -- `let v = buf.read_uN()?; if !buf.is_empty() { return Err(why.into()) } Ok(f(v))`
  read_drained :
      (buf : Bytes)
      → (read_uint crates n buf >>= λ (u, rest). drained why (f u) rest)
        ≡ by_length n why (f (read_be buf)) buf
  unfolding read_uint read_exact
  read_drained buf = elim (dec_lt (length buf) n) [
    | yes short ↦ rw (lt→ltb _ _ short, lt→leb _ _ short)
    | no enough ↦ elim (dec_lt n (length buf)) [
      | yes long ↦
          rw
            (
              le→ltb (length buf) n (omega arith),
              le→leb n (length buf) (omega arith),
              lt→ltb _ _ long,
            )
            (drained_long why _ (drop n buf) (omega (arith, length-drop n buf)))
      | no rest ↦
          let exact : length buf ≡ n = omega arith in
          rw (
            le→ltb (length buf) n (omega arith),
            le→ltb n (length buf) (omega arith),
            le→leb n (length buf) (omega arith),
            ← exact,
            take-length buf,
            drop-length buf,
          )
    ]
  ]

as_signed : ℕ → ℕ × Bytes → Result (ℤ × Bytes)
as_signed half (u, rest) = ok (signed half u, rest)

bind_assoc_int {ℓ} :
    {A : Type ℓ} (half : ℕ) (m : Result (ℕ × Bytes)) (k : ℤ → Bytes → Result A)
    → (m >>= (λ (u, rest). as_signed half (u, rest)) >>= λ (v, rest). k v rest)
      ≡ (m >>= λ (u, rest). k (signed half u) rest)
unfolding as_signed
bind_assoc_int half (ok a) k = refl
bind_assoc_int half (err e) k = refl
bind_assoc_int half panic k = refl

module _ (crates : Crates) where
  open crates use {read_be}

  signed-drained :
      (n : ℕ) (why : String) (half : ℕ) (buf : Bytes)
      → (read_int crates n half buf >>= λ (v, rest). drained why v rest)
        ≡ by_length n why (signed half (read_be buf)) buf
  unfolding read_int as_signed
  signed-drained n why half buf =
      bind_assoc_int half (read_uint crates n buf) (drained why)
      ∙ read_drained crates n why (signed half) buf

module _ (crates : Crates) where
  open crates use {read_be}

  -- On any buffer the readers of `INT8`, `INT4`, `INT2`, `OID`, `PG_LSN` and the floats answer by its
  -- length: an end of file where it is short, the error of a buffer that is not used up where it is
  -- long, and otherwise the big-endian number of the whole buffer, signed where the type is.
  pub number_from_sql_by_length :
      (buf : Bytes)
      → (int8_from_sql crates buf
          ≡ by_length 8 "invalid buffer size" (signed (2 ^ 63) (read_be buf)) buf)
        × (int4_from_sql crates buf
            ≡ by_length 4 "invalid buffer size" (signed (2 ^ 31) (read_be buf)) buf)
        × (int2_from_sql crates buf
            ≡ by_length 2 "invalid buffer size" (signed (2 ^ 15) (read_be buf)) buf)
        × (oid_from_sql crates buf ≡ by_length 4 "invalid buffer size" (read_be buf) buf)
        × (lsn_from_sql crates buf ≡ by_length 8 "invalid buffer size" (read_be buf) buf)
        × (float4_from_sql crates buf ≡ by_length 4 "invalid buffer size" (read_be buf) buf)
        × (float8_from_sql crates buf ≡ by_length 8 "invalid buffer size" (read_be buf) buf)
  unfolding int8_from_sql int4_from_sql int2_from_sql oid_from_sql lsn_from_sql float4_from_sql
      float8_from_sql
  number_from_sql_by_length buf = (
    signed-drained crates 8 "invalid buffer size" (2 ^ 63) buf,
    signed-drained crates 4 "invalid buffer size" (2 ^ 31) buf,
    signed-drained crates 2 "invalid buffer size" (2 ^ 15) buf,
    read_drained crates 4 "invalid buffer size" (λ u. u) buf,
    read_drained crates 8 "invalid buffer size" (λ u. u) buf,
    read_drained crates 4 "invalid buffer size" (λ u. u) buf,
    read_drained crates 8 "invalid buffer size" (λ u. u) buf,
  )

  -- On any buffer the readers of `TIMESTAMP`, `DATE` and `TIME` answer by its length in the same way,
  -- each with its own error for a buffer that is not used up.
  pub time_from_sql-by_length :
      (buf : Bytes)
      → (timestamp_from_sql crates buf
          ≡ by_length 8 "invalid message length: timestamp not drained"
              (signed (2 ^ 63) (read_be buf))
              buf)
        × (date_from_sql crates buf
            ≡ by_length 4 "invalid message length: date not drained"
                (signed (2 ^ 31) (read_be buf))
                buf)
        × (time_from_sql crates buf
            ≡ by_length 8 "invalid message length: time not drained"
                (signed (2 ^ 63) (read_be buf))
                buf)
  unfolding timestamp_from_sql date_from_sql time_from_sql
  time_from_sql-by_length buf = (
    signed-drained crates 8 "invalid message length: timestamp not drained" (2 ^ 63) buf,
    signed-drained crates 4 "invalid message length: date not drained" (2 ^ 31) buf,
    signed-drained crates 8 "invalid message length: time not drained" (2 ^ 63) buf,
  )
