-- ===== src/Types/Hstore.antt =====
-- HSTORE of postgres-protocol/src/types/mod.rs.
pub mod RoundTrip
use rust_kingbase.Prelude.{
  Bytes, length, ◌>>=◌, Result, message, ok, err, ℕ, ◌+◌, Option, none, some, List, [], ◌∷◌,
}
use rust_kingbase.Prelude.Int.{ℤ, pos, negsuc}
use rust_kingbase.Wire.Crates.{Crates}
use rust_kingbase.Wire.Read.{split_at, read_i32}
use rust_kingbase.Wire.Write.{put_slice, put_i32, i32_from_usize, write_i32_at}
use rust_kingbase.Wire.Utf8.{from_utf8}
use rust_kingbase.Wire.Iterate.{next_counted, Remaining}

module _ (crates : Crates) where
  unfoldable pub write_pascal_string : Bytes → Bytes → Result Bytes
  write_pascal_string s buf = do
    size ← i32_from_usize (length s)
    ok (put_slice s (put_i32 crates size buf))

  unfoldable pub write_value : Option Bytes → Bytes → Result Bytes
  write_value none buf = ok (put_i32 crates (negsuc 0) buf)
  write_value (some v) buf = write_pascal_string v buf

  -- The loop of `hstore_to_sql`: the count, and the buffer.
  unfoldable pub put_entries : List (Bytes × Option Bytes) → ℕ → Bytes → Result (ℕ × Bytes)
  put_entries [] count buf = ok (count, buf)
  put_entries ((key, value) ∷ values) count buf = do
    buf₁ ← write_pascal_string key buf
    buf₂ ← write_value value buf₁
    put_entries values (count + 1) buf₂

module _ (crates : Crates) where
  unfoldable pub hstore_to_sql : List (Bytes × Option Bytes) → Bytes → Result Bytes
  hstore_to_sql values buf = do
    let base = length buf
    (entries, buf₁) ← put_entries crates values 0 (put_i32 crates (pos 0) buf)
    count ← i32_from_usize entries
    write_i32_at crates base count buf₁

-- `HstoreEntries` with a count that is not negative.
unfoldable pub entries_of : ℤ → Bytes → Result Remaining
entries_of (negsuc n) buf = err (message "invalid entry count")
entries_of (pos n) buf = ok (record { buf = buf; remaining = n })

-- A key of length `len`, and a value. `split_at` panics where the buffer is too short.
unfoldable pub key_of : ℤ → Bytes → Result (Bytes × Bytes)
key_of (negsuc n) buf = err (message "invalid key length")
key_of (pos len) buf = do (key, rest) ← split_at len buf; text ← from_utf8 key; ok (text, rest)

unfoldable pub value_of : ℤ → Bytes → Result (Option Bytes × Bytes)
value_of (negsuc n) buf = ok (none, buf)
value_of (pos len) buf = do
  (value, rest) ← split_at len buf
  text ← from_utf8 value
  ok (some text, rest)

module _ (crates : Crates) where
  unfoldable pub hstore_from_sql : Bytes → Result Remaining
  hstore_from_sql buf = do (count, rest) ← read_i32 crates buf; entries_of count rest

  unfoldable pub read_entry : Bytes → Result ((Bytes × Option Bytes) × Bytes)
  read_entry buf = do
    (key_len, buf₁) ← read_i32 crates buf
    (key, buf₂) ← key_of key_len buf₁
    (value_len, buf₃) ← read_i32 crates buf₂
    (value, buf₄) ← value_of value_len buf₃
    ok ((key, value), buf₄)

module _ (crates : Crates) where
  -- `HstoreEntries::next`
  unfoldable pub entries_next : Remaining → Result (Option (Bytes × Option Bytes) × Remaining)
  entries_next = next_counted (message "invalid buffer size") (read_entry crates)
