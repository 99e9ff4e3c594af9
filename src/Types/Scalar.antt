-- ===== src/Types/Scalar.antt =====
-- The values of fixed size, and the plain byte strings, of postgres-protocol/src/types/mod.rs.
-- A float is its bit pattern, and a `[u8; n]` is a list of n bytes.
pub mod RoundTrip
pub mod Sizes
use rust_kingbase.Prelude.{
  ltb, leb, ◌==◌, if◌then◌else◌, ltb→lt, lt→ltb, le→ltb, ==_iff, Bool-cases, Option-cases, Bytes,
  IsByte, length, take, drop, All, length-append, take-append-drop, length-take, length-drop,
  take-append, drop-append, take-append_le, drop-append_le, take-length, drop-length, drop-add,
  length-map, All-append, ◌>>=◌, unwrap, ok_or, >>=-eq-ok, Returns, >>=-Returns, Error, Result,
  unexpected_eof, invalid_input, invalid_data, message, utf8_error, ok, err, panic, ℕ, zero, suc,
  ◌+◌, ◌-◌, ◌*◌, ◌/◌, ◌%◌, ◌^◌, ◌≤◌, ◌<◌, min, String, ◌≡◌, refl, sym, ap, ap₂, subst, ◌∙◌, ◌≢◌,
  ◌↔◌, ◌⊎◌, inl, inr, Bool, true, false, not, ◌&&◌, ◌||◌, Option, none, some, List, [], ◌∷◌, ◌++◌,
  map, append-nil, append_assoc, arith,
}
use rust_kingbase.Prelude.Int.{
  is_negative, IsSigned, wrap, signed, signed_low, signed_high, signed-wrap, wrap-lt, wrap-signed,
  signed-IsSigned, ℤ, pos, negsuc,
}
use rust_kingbase.Wire.Crates.{contains, Crates}
use rust_kingbase.Wire.Read.{
  read_exact, split_at_checked, split_at, read_u8, read_i8, read_uint, read_int, read_u16, read_u32,
  read_u64, read_i16, read_i32, read_i64, read_f32, read_f64, leb-append, read_exact-append,
  read_exact-append_of, split_at_checked-append, split_at-append, read_uint-write_be,
  read_int-write_be,
}
use rust_kingbase.Wire.Write.{
  put_slice, put_u8, put_i8, put_u16, put_u32, put_u64, put_i16, put_i32, put_i64, put_f32, put_f64,
  write_at, sub_usize, from_usize, u16_from_usize, i32_from_usize, write_i32_at, write_u16_at,
  nullable_size, write_nullable, write_at-append, sub_usize_add, from_usize_fits, from_usize_large,
  Appends, size_field, nullable_size-append, write_i32_at-append, write_nullable-Appends, IsNull,
  yes_null, no_null,
}
use rust_kingbase.Wire.Utf8.{
  lead, utf8_from, is_utf8, from_utf8, from_utf8_valid, from_utf8-eq-ok, Lead, ill_formed, follow,
}

-- `if !buf.is_empty() { return Err(why.into()) } Ok(v)`
abbrev pub drained {ℓ} : {A : Type ℓ} → String → A → Bytes → Result A
drained why v [] = ok v
drained why v (b ∷ buf) = err (message why)

unfoldable pub bool_to_sql : Bool → Bytes → Bytes
bool_to_sql v buf = put_u8 (if v then 1 else 0) buf

unfoldable pub bool_from_sql : Bytes → Result Bool
bool_from_sql (b ∷ []) = ok (not (b == 0))
bool_from_sql _ = err (message "invalid buffer size")

unfoldable pub bytea_to_sql : Bytes → Bytes → Bytes
bytea_to_sql v buf = put_slice v buf

unfoldable pub bytea_from_sql : Bytes → Bytes
bytea_from_sql buf = buf

unfoldable pub text_to_sql : Bytes → Bytes → Bytes
text_to_sql v buf = put_slice v buf

unfoldable pub text_from_sql : Bytes → Result Bytes
text_from_sql buf = from_utf8 buf

unfoldable pub char_to_sql : ℤ → Bytes → Bytes
char_to_sql v buf = put_i8 v buf

unfoldable pub char_from_sql : Bytes → Result ℤ
char_from_sql buf = do (v, rest) ← read_i8 buf; drained "invalid buffer size" v rest

-- `let mut out = [0; n]; out.copy_from_slice(buf)` behind the test of the length.
unfoldable pub array_of : ℕ → String → Bytes → Result Bytes
array_of n why buf = if length buf == n then ok buf else err (message why)

unfoldable pub macaddr_to_sql : Bytes → Bytes → Bytes
macaddr_to_sql v buf = put_slice v buf

unfoldable pub macaddr_from_sql : Bytes → Result Bytes
unfolding array_of
macaddr_from_sql = array_of 6 "invalid message length: macaddr length mismatch"

unfoldable pub uuid_to_sql : Bytes → Bytes → Bytes
uuid_to_sql v buf = put_slice v buf

unfoldable pub uuid_from_sql : Bytes → Result Bytes
unfolding array_of
uuid_from_sql = array_of 16 "invalid message length: uuid size mismatch"

-- `match buf { [1u8, rest @ ..] => Ok(str::from_utf8(rest)?), _ => Err(why.into()) }`
unfoldable pub versioned : String → Bytes → Result Bytes
versioned why [] = err (message why)
versioned why (b ∷ rest) = if b == 1 then from_utf8 rest else err (message why)

unfoldable pub ltree_to_sql : Bytes → Bytes → Bytes
ltree_to_sql v buf = put_slice v (put_u8 1 buf)

unfoldable pub ltree_from_sql : Bytes → Result Bytes
unfolding versioned
ltree_from_sql = versioned "ltree version 1 only supported"

unfoldable pub lquery_to_sql : Bytes → Bytes → Bytes
lquery_to_sql v buf = put_slice v (put_u8 1 buf)

unfoldable pub lquery_from_sql : Bytes → Result Bytes
unfolding versioned
lquery_from_sql = versioned "lquery version 1 only supported"

unfoldable pub ltxtquery_to_sql : Bytes → Bytes → Bytes
ltxtquery_to_sql v buf = put_slice v (put_u8 1 buf)

unfoldable pub ltxtquery_from_sql : Bytes → Result Bytes
unfolding versioned
ltxtquery_from_sql = versioned "ltxtquery version 1 only supported"

module _ (crates : Crates) where
  unfoldable pub int2_to_sql : ℤ → Bytes → Bytes
  int2_to_sql v buf = put_i16 crates v buf

  unfoldable pub int2_from_sql : Bytes → Result ℤ
  int2_from_sql buf = do (v, rest) ← read_i16 crates buf; drained "invalid buffer size" v rest

  unfoldable pub int4_to_sql : ℤ → Bytes → Bytes
  int4_to_sql v buf = put_i32 crates v buf

  unfoldable pub int4_from_sql : Bytes → Result ℤ
  int4_from_sql buf = do (v, rest) ← read_i32 crates buf; drained "invalid buffer size" v rest

  unfoldable pub oid_to_sql : ℕ → Bytes → Bytes
  oid_to_sql v buf = put_u32 crates v buf

  unfoldable pub oid_from_sql : Bytes → Result ℕ
  oid_from_sql buf = do (v, rest) ← read_u32 crates buf; drained "invalid buffer size" v rest

  unfoldable pub int8_to_sql : ℤ → Bytes → Bytes
  int8_to_sql v buf = put_i64 crates v buf

  unfoldable pub int8_from_sql : Bytes → Result ℤ
  int8_from_sql buf = do (v, rest) ← read_i64 crates buf; drained "invalid buffer size" v rest

  unfoldable pub lsn_to_sql : ℕ → Bytes → Bytes
  lsn_to_sql v buf = put_u64 crates v buf

  unfoldable pub lsn_from_sql : Bytes → Result ℕ
  lsn_from_sql buf = do (v, rest) ← read_u64 crates buf; drained "invalid buffer size" v rest

  unfoldable pub float4_to_sql : ℕ → Bytes → Bytes
  float4_to_sql v buf = put_f32 crates v buf

  unfoldable pub float4_from_sql : Bytes → Result ℕ
  float4_from_sql buf = do (v, rest) ← read_f32 crates buf; drained "invalid buffer size" v rest

  unfoldable pub float8_to_sql : ℕ → Bytes → Bytes
  float8_to_sql v buf = put_f64 crates v buf

  unfoldable pub float8_from_sql : Bytes → Result ℕ
  float8_from_sql buf = do (v, rest) ← read_f64 crates buf; drained "invalid buffer size" v rest

  unfoldable pub timestamp_to_sql : ℤ → Bytes → Bytes
  timestamp_to_sql v buf = put_i64 crates v buf

  unfoldable pub timestamp_from_sql : Bytes → Result ℤ
  timestamp_from_sql buf = do
    (v, rest) ← read_i64 crates buf
    drained "invalid message length: timestamp not drained" v rest

  unfoldable pub date_to_sql : ℤ → Bytes → Bytes
  date_to_sql v buf = put_i32 crates v buf

  unfoldable pub date_from_sql : Bytes → Result ℤ
  date_from_sql buf = do
    (v, rest) ← read_i32 crates buf
    drained "invalid message length: date not drained" v rest

  unfoldable pub time_to_sql : ℤ → Bytes → Bytes
  time_to_sql v buf = put_i64 crates v buf

  unfoldable pub time_from_sql : Bytes → Result ℤ
  time_from_sql buf = do
    (v, rest) ← read_i64 crates buf
    drained "invalid message length: time not drained" v rest
