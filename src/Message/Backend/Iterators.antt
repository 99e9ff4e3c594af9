-- ===== src/Message/Backend/Iterators.antt =====
-- The iterators over the bodies of server messages, in postgres-protocol/src/message/backend.rs.
pub mod Ranges
pub mod Fields
pub mod Places
use rust_kingbase.Prelude.{
  ltb, leb, ◌==◌, if◌then◌else◌, Bytes, length, take, drop, ◌>>=◌, Result, unexpected_eof,
  invalid_input, invalid_data, message, ok, err, ℕ, zero, suc, ◌+◌, ◌-◌, not, Option, none, some,
  [], ◌∷◌, panic,
}
use rust_kingbase.Prelude.Int.{ℤ, pos, negsuc}
use rust_kingbase.Wire.Crates.{Crates}
use rust_kingbase.Wire.Read.{slice_to, slice_from, read_u8, read_u16, read_u32, read_i16, read_i32}
use rust_kingbase.Wire.Utf8.{from_utf8}
use rust_kingbase.Wire.Iterate.{next_counted, Remaining}
use rust_kingbase.Message.Backend.Body.{CountedBody, CopyResponseBody}

-- `get_str`. The `io::Error` that wraps a `Utf8Error` is `utf8_error`.
unfoldable pub get_str : Bytes → Result Bytes
get_str buf = from_utf8 buf

module _ (crates : Crates) where
  open crates use {memchr}

  unfoldable pub find_null : Bytes → ℕ → Result ℕ
  find_null buf start = slice_from start buf >>= λ from. elim (memchr 0 from) [
    | none ↦ err unexpected_eof
    | some place ↦ ok (place + start)
  ]

module _ (crates : Crates) where
  -- `SaslMechanisms::next`, over what is left of the list.
  unfoldable pub sasl_mechanisms_next : Bytes → Result (Option Bytes × Bytes)
  sasl_mechanisms_next buf = find_null crates buf 0 >>= λ value_end.
      if value_end == 0
      then (if length buf == 1
          then ok (none, buf)
          else err
              (invalid_data "invalid message length: expected to be at end of iterator for sasl"))
      else do
        text ← slice_to value_end buf
        value ← get_str text
        rest ← slice_from (value_end + 1) buf
        ok (some value, rest)

  unfoldable pub column_formats : CopyResponseBody → Remaining
  column_formats body = record { buf = body.storage; remaining = body.len }

  unfoldable pub column_formats_next : Remaining → Result (Option ℕ × Remaining)
  column_formats_next =
      next_counted (invalid_input "invalid message length: wrong column formats") (read_u16 crates)

  unfoldable pub parameters : CountedBody → Remaining
  parameters body = record { buf = body.storage; remaining = body.len }

  unfoldable pub parameters_next : Remaining → Result (Option ℕ × Remaining)
  parameters_next =
      next_counted (invalid_input "invalid message length: parameters is not drained")
        (read_u32 crates)

-- `DataRowRanges`: `len` is the length of the whole row.
pub record DataRowRanges : Type 0 where
  pub buf : Bytes
  pub len : ℕ
  pub remaining : ℕ

unfoldable pub ranges : CountedBody → DataRowRanges
ranges body = record { buf = body.storage; len = length body.storage; remaining = body.len }

-- A difference of two `usize`: an overflow is a panic, as in a build with overflow checks.
unfoldable pub checked_minus : ℕ → ℕ → Result ℕ
checked_minus m n = if leb n m then ok (m - n) else panic

-- The range of a value of `size` bytes in front of `buf`, in a row of `len` bytes.
unfoldable pub range_of : ℤ → Bytes → ℕ → ℕ → Result (Option (Option (ℕ × ℕ)) × DataRowRanges)
range_of (negsuc n) buf len remaining =
    ok (some none, record { buf = buf; len = len; remaining = remaining })
range_of (pos size) buf len remaining = if ltb (length buf) size then err unexpected_eof else do
  base ← checked_minus len (length buf)
  rest ← slice_from size buf
  ok (some (some (base, base + size)), record { buf = rest; len = len; remaining = remaining })

module _ (crates : Crates) where
  range_from : ℕ → ℕ → Bytes → Result (Option (Option (ℕ × ℕ)) × DataRowRanges)
  range_from zero len [] = ok (none, record { buf = []; len = len; remaining = 0 })
  range_from zero len (b ∷ buf) =
      err (invalid_input "invalid message length: datarowrange is not empty")
  range_from (suc remaining) len buf =
      read_i32 crates buf >>= λ (size, buf'). range_of size buf' len remaining

module _ (crates : Crates) where
  unfoldable pub ranges_next : DataRowRanges → Result (Option (Option (ℕ × ℕ)) × DataRowRanges)
  unfolding range_from
  ranges_next it = range_from crates it.remaining it.len it.buf

-- `ErrorField`
pub record ErrorField : Type 0 where
  pub type_ : ℕ
  pub value : Bytes

module _ (crates : Crates) where
  -- `ErrorFields::next`, over what is left of the list.
  unfoldable pub error_fields_next : Bytes → Result (Option ErrorField × Bytes)
  error_fields_next buf = read_u8 buf >>= λ (type_, rest).
      if type_ == 0
      then (if length rest == 0
          then ok (none, rest)
          else err (invalid_input "invalid message length: error fields is not drained"))
      else do
        value_end ← find_null crates rest 0
        value ← slice_to value_end rest
        left ← slice_from (value_end + 1) rest
        ok (some (record { type_ = type_; value = value }), left)

-- `Field` of a row description.
pub record Field : Type 0 where
  pub name : Bytes
  pub table_oid : ℕ
  pub column_id : ℤ
  pub type_oid : ℕ
  pub type_size : ℤ
  pub type_modifier : ℤ
  pub format : ℤ

module _ (crates : Crates) where
  unfoldable pub read_field : Bytes → Result (Field × Bytes)
  read_field buf = do
    name_end ← find_null crates buf 0
    text ← slice_to name_end buf
    name ← get_str text
    left ← slice_from (name_end + 1) buf
    (table_oid, buf₁) ← read_u32 crates left
    (column_id, buf₂) ← read_i16 crates buf₁
    (type_oid, buf₃) ← read_u32 crates buf₂
    (type_size, buf₄) ← read_i16 crates buf₃
    (type_modifier, buf₅) ← read_i32 crates buf₄
    (format, buf₆) ← read_i16 crates buf₅
    ok (
      record {
        name = name;
        table_oid = table_oid;
        column_id = column_id;
        type_oid = type_oid;
        type_size = type_size;
        type_modifier = type_modifier;
        format = format;
      },
      buf₆,
    )

module _ (crates : Crates) where
  unfoldable pub fields : CountedBody → Remaining
  fields body = record { buf = body.storage; remaining = body.len }

  unfoldable pub fields_next : Remaining → Result (Option Field × Remaining)
  fields_next =
      next_counted (invalid_input "invalid message length: field is not drained")
        (read_field crates)
