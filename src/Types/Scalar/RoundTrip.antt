-- ===== src/Types/Scalar/RoundTrip.antt =====
-- What the writers of fixed-size values append is read back by their readers, and only that.
use rust_kingbase.Prelude.{
  if◌then◌else◌, Bytes, length, drop, drop-append, message, ok, err, ℕ, ◌+◌, ◌^◌, ◌<◌, ◌≡◌, refl,
  ap, ◌≢◌, Bool, true, false, [], ◌∷◌, ◌++◌, append-nil, append_assoc, arith,
}
use rust_kingbase.Prelude.Int.{IsSigned, wrap, signed-wrap, ℤ}
use rust_kingbase.Wire.Crates.{Crates}
use rust_kingbase.Wire.Read.{read_uint, read_int, read_uint-write_be, read_int-write_be}
use rust_kingbase.Wire.Utf8.{is_utf8, from_utf8_valid}
use rust_kingbase.Types.Scalar.{
  bool_to_sql, bool_from_sql, bytea_to_sql, bytea_from_sql, text_to_sql, text_from_sql, char_to_sql,
  char_from_sql, macaddr_to_sql, macaddr_from_sql, uuid_to_sql, uuid_from_sql, ltree_to_sql,
  ltree_from_sql, lquery_to_sql, lquery_from_sql, ltxtquery_to_sql, ltxtquery_from_sql, int2_to_sql,
  int2_from_sql, int4_to_sql, int4_from_sql, oid_to_sql, oid_from_sql, int8_to_sql, int8_from_sql,
  lsn_to_sql, lsn_from_sql, float4_to_sql, float4_from_sql, float8_to_sql, float8_from_sql,
  timestamp_to_sql, timestamp_from_sql, date_to_sql, date_from_sql, time_to_sql, time_from_sql,
}

-- The bytes that a writer added behind `buf`.
abbrev pub appended : Bytes → Bytes → Bytes
appended buf out = drop (length buf) out

module _ (crates : Crates) where
  open crates use {write_be}

  read_int_whole :
      (w half : ℕ) (v : ℤ) (buf : Bytes)
      → half + half ≡ 256 ^ w
      → 0 < half
      → IsSigned half v
      → read_int crates w half (appended buf (buf ++ write_be w (wrap half v))) ≡ ok (v, [])
  read_int_whole w half v buf e p h =
      rw (drop-append buf (write_be w (wrap half v)), ← append-nil (write_be w (wrap half v)))
        (read_int-write_be crates w half v [] e p h)

  read_uint_whole :
      (w n : ℕ) (buf : Bytes)
      → n < 256 ^ w
      → read_uint crates w (appended buf (buf ++ write_be w n)) ≡ ok (n, [])
  read_uint_whole w n buf h =
      rw (drop-append buf (write_be w n), ← append-nil (write_be w n))
        (read_uint-write_be crates w n [] h)

  -- Every `i64` that `int8_to_sql`, `timestamp_to_sql` or `time_to_sql` appends to any buffer is read
  -- back by the reader of that type.
  pub i64_round_trip :
      (v : ℤ) (buf : Bytes)
      → IsSigned (2 ^ 63) v
      → (int8_from_sql crates (appended buf (int8_to_sql crates v buf)) ≡ ok v)
        × (timestamp_from_sql crates (appended buf (timestamp_to_sql crates v buf)) ≡ ok v)
        × (time_from_sql crates (appended buf (time_to_sql crates v buf)) ≡ ok v)
  unfolding int8_to_sql int8_from_sql timestamp_to_sql timestamp_from_sql time_to_sql time_from_sql
  i64_round_trip v buf h =
      let r = read_int_whole 8 (2 ^ 63) v buf refl (omega arith) h in (rw r, rw r, rw r)

  -- Every `i32`, `i16` and `i8` that `int4_to_sql` or `date_to_sql`, `int2_to_sql` and `char_to_sql`
  -- append to any buffer is read back by the reader of that type.
  pub small_int_round_trip :
      (v w c : ℤ) (buf : Bytes)
      → IsSigned (2 ^ 31) v
      → IsSigned (2 ^ 15) w
      → IsSigned (2 ^ 7) c
      → (int4_from_sql crates (appended buf (int4_to_sql crates v buf)) ≡ ok v)
        × (date_from_sql crates (appended buf (date_to_sql crates v buf)) ≡ ok v)
        × (int2_from_sql crates (appended buf (int2_to_sql crates w buf)) ≡ ok w)
        × (char_from_sql (appended buf (char_to_sql c buf)) ≡ ok c)
  unfolding int4_to_sql int4_from_sql date_to_sql date_from_sql int2_to_sql int2_from_sql
      char_to_sql char_from_sql
  small_int_round_trip v w c buf hv hw hc =
      let r = read_int_whole 4 (2 ^ 31) v buf refl (omega arith) hv in
      let s = read_int_whole 2 (2 ^ 15) w buf refl (omega arith) hw in
      (
        rw r,
        rw r,
        rw s,
        rw (drop-append buf (wrap (2 ^ 7) c ∷ [])) (ap ok (signed-wrap (2 ^ 7) c hc)),
      )

  -- Every `u32` and `u64`, and the bit pattern of every `f32` and `f64`, that a writer appends to any
  -- buffer is read back by the reader of that type.
  pub unsigned_round_trip :
      (m n : ℕ) (buf : Bytes)
      → m < 2 ^ 32
      → n < 2 ^ 64
      → (oid_from_sql crates (appended buf (oid_to_sql crates m buf)) ≡ ok m)
        × (float4_from_sql crates (appended buf (float4_to_sql crates m buf)) ≡ ok m)
        × (lsn_from_sql crates (appended buf (lsn_to_sql crates n buf)) ≡ ok n)
        × (float8_from_sql crates (appended buf (float8_to_sql crates n buf)) ≡ ok n)
  unfolding oid_to_sql oid_from_sql float4_to_sql float4_from_sql lsn_to_sql lsn_from_sql
      float8_to_sql float8_from_sql
  unsigned_round_trip m n buf hm hn =
      let r = read_uint_whole 4 m buf hm in
      let s = read_uint_whole 8 n buf hn in (rw r, rw r, rw s, rw s)

-- Every Boolean, every valid UTF-8 text and every byte string that a writer appends to any buffer is
-- read back by its reader, with the version byte of the ltree types taken off again.
pub bytes_round_trip :
    (b : Bool) (s raw buf : Bytes)
    → is_utf8 s ≡ true
    → (bool_from_sql (appended buf (bool_to_sql b buf)) ≡ ok b)
      × (bytea_from_sql (appended buf (bytea_to_sql raw buf)) ≡ raw)
      × (text_from_sql (appended buf (text_to_sql s buf)) ≡ ok s)
      × (ltree_from_sql (appended buf (ltree_to_sql s buf)) ≡ ok s)
      × (lquery_from_sql (appended buf (lquery_to_sql s buf)) ≡ ok s)
      × (ltxtquery_from_sql (appended buf (ltxtquery_to_sql s buf)) ≡ ok s)
unfolding bool_to_sql bool_from_sql bytea_to_sql bytea_from_sql text_to_sql text_from_sql
    ltree_to_sql ltree_from_sql lquery_to_sql lquery_from_sql ltxtquery_to_sql ltxtquery_from_sql
bytes_round_trip b s raw buf h =
    let v = from_utf8_valid s h in
    let tagged : drop (length buf) ((buf ++ 1 ∷ []) ++ s) ≡ 1 ∷ s =
      rw append_assoc (drop-append buf (1 ∷ s)) in
    (
      rw drop-append (flag b),
      drop-append buf raw,
      rw drop-append v,
      rw tagged v,
      rw tagged v,
      rw tagged v,
    )
  where
    flag : (b : Bool) → bool_from_sql ((if b then 1 else 0) ∷ []) ≡ ok b
    flag true = refl
    flag false = refl

-- `macaddr_from_sql` and `uuid_from_sql` read back six and sixteen bytes, and refuse every buffer of
-- another length.
pub fixed_arrays :
    (v w buf : Bytes) (n : ℕ)
    → length v ≡ 6
    → length w ≡ 16
    → length buf ≡ n
    → n ≢ 6
    → n ≢ 16
    → (macaddr_from_sql (appended buf (macaddr_to_sql v buf)) ≡ ok v)
      × (uuid_from_sql (appended buf (uuid_to_sql w buf)) ≡ ok w)
      × (macaddr_from_sql buf ≡ err (message "invalid message length: macaddr length mismatch"))
      × (uuid_from_sql buf ≡ err (message "invalid message length: uuid size mismatch"))
unfolding macaddr_to_sql macaddr_from_sql uuid_to_sql uuid_from_sql
fixed_arrays v w buf n hv hw hb n6 n16 =
    (rw (drop-append buf v, hv), rw (drop-append buf w, hw), ground arith, ground arith)
