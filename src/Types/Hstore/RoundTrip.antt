-- ===== src/Types/Hstore/RoundTrip.antt =====
-- Entries written and read back, and a length that goes past the end of the buffer.
use rust_kingbase.Prelude.{
  Result, Bytes, length, All, concat_map, ◌>>=◌, message, ok, ℕ, suc, ◌+◌, ◌^◌, ◌<◌, ◌≡◌, refl, sym,
  ap, ap₂, ◌∙◌, true, Option, none, some, List, [], ◌∷◌, ◌++◌, append-nil, append_assoc, arith,
}
use rust_kingbase.Prelude.Int.{IsSigned, wrap, ℤ, pos, negsuc}
use rust_kingbase.Wire.Crates.{Crates}
use rust_kingbase.Wire.Read.{read_i32, split_at-append, read_int-write_be}
use rust_kingbase.Wire.Write.{put_i32, from_usize_fits, write_i32_at-append}
use rust_kingbase.Wire.Utf8.{is_utf8, from_utf8_valid}
use rust_kingbase.Wire.Iterate.{collect, collect-next_counted}
use rust_kingbase.Types.Hstore.{
  write_pascal_string, write_value, put_entries, hstore_to_sql, entries_of, key_of, value_of,
  hstore_from_sql, read_entry, entries_next,
}

-- A text is UTF-8 and short enough for its length field.
abbrev pub IsText : Bytes → Type 0
IsText s = (is_utf8 s ≡ true) × (length s < 2 ^ 31)

abbrev pub IsValue : Option Bytes → Type 0
IsValue none = Unit
IsValue (some v) = IsText v

abbrev pub IsEntry : Bytes × Option Bytes → Type 0
IsEntry (key, value) = IsText key × IsValue value

module _ (crates : Crates) where
  open crates use {write_be}

  abbrev pub i32_be : ℤ → Bytes
  i32_be v = write_be 4 (wrap (2 ^ 31) v)

  abbrev pub pascal : Bytes → Bytes
  pascal s = i32_be (pos (length s)) ++ s

  abbrev pub value_bytes : Option Bytes → Bytes
  value_bytes none = i32_be (negsuc 0)
  value_bytes (some v) = pascal v

  abbrev pub entry_bytes : Bytes × Option Bytes → Bytes
  entry_bytes (key, value) = pascal key ++ value_bytes value

-- The entry of a key and the value behind it.
abbrev with_key : Bytes → Option Bytes × Bytes → Result ((Bytes × Option Bytes) × Bytes)
with_key key p = ok ((key, p.0), p.1)

module _ (crates : Crates) where
  open crates use {write_be}

  pascal_written :
      (s buf : Bytes)
      → length s < 2 ^ 31
      → write_pascal_string crates s buf ≡ ok (buf ++ pascal crates s)
  unfolding write_pascal_string
  pascal_written s buf h =
      rw (from_usize_fits 2147483647 (length s) (omega arith)) (ap ok (append_assoc buf _ s))

  value_written :
      (v : Option Bytes) (buf : Bytes)
      → IsValue v
      → write_value crates v buf ≡ ok (buf ++ value_bytes crates v)
  unfolding write_value
  value_written none buf h = refl
  value_written (some v) buf (u, h) = pascal_written v buf h

  entries_written :
      (xs : List (Bytes × Option Bytes)) (count : ℕ) (buf : Bytes)
      → All IsEntry xs
      → put_entries crates xs count buf
        ≡ ok (count + length xs, buf ++ concat_map (entry_bytes crates) xs)
  unfolding put_entries
  entries_written [] count buf h = ap₂ (λ n b. ok (n, b)) (omega arith) (sym (append-nil buf))
  entries_written ((key, value) ∷ xs) count buf (((u, short), v), hs) =
      rw (pascal_written key buf short, value_written value (buf ++ pascal crates key) v)
        (entries_written xs (count + 1) _ hs
          ∙ ap₂ (λ n b. ok (n, b)) (omega arith) (simp append_assoc))

  read_i32_be :
      (v : ℤ) (rest : Bytes)
      → IsSigned (2 ^ 31) v
      → read_i32 crates (i32_be crates v ++ rest) ≡ ok (v, rest)
  read_i32_be v rest h = read_int-write_be crates 4 (2 ^ 31) v rest refl (omega arith) h

  key_read : (s rest : Bytes) → IsText s → key_of (pos (length s)) (s ++ rest) ≡ ok (s, rest)
  unfolding key_of
  key_read s rest (u, h) = rw (split_at-append s rest, from_utf8_valid s u)

  value_read :
      (key : Bytes) (v : Option Bytes) (rest : Bytes)
      → IsValue v
      → (read_i32 crates (value_bytes crates v ++ rest) >>= λ (len, b).
          value_of len b >>= with_key key)
        ≡ ok ((key, v), rest)
  unfolding value_of
  value_read key none rest h = rw (read_i32_be (negsuc 0) rest (omega arith))
  value_read key (some v) rest (u, h) =
      rw (append_assoc (i32_be crates (pos (length v))) v rest) (
        rw
          (read_i32_be (pos (length v)) (v ++ rest) h, split_at-append v rest, from_utf8_valid v u))

module _ (crates : Crates) where
  open crates use {write_be}

  entry_read :
      (x : Bytes × Option Bytes)
      → IsEntry x
      → (rest : Bytes) → read_entry crates (entry_bytes crates x ++ rest) ≡ ok (x, rest)
  unfolding read_entry
  entry_read (key, value) ((u, short), v) rest =
      rw
        (
          append_assoc (pascal crates key) (value_bytes crates value) rest,
          append_assoc (i32_be crates (pos (length key))) key (value_bytes crates value ++ rest),
        )
        (rw
          (
            read_i32_be crates (pos (length key)) (key ++ (value_bytes crates value ++ rest)) short,
            key_read crates key (value_bytes crates value ++ rest) (u, short),
          )
          (value_read crates key value rest v))

  entries_readable :
      (xs : List (Bytes × Option Bytes))
      → All IsEntry xs
      → All
          (λ x. (rest : Bytes) → read_entry crates (entry_bytes crates x ++ rest) ≡ ok (x, rest))
          xs
  entries_readable [] h = tt
  entries_readable (x ∷ xs) (h, hs) = (entry_read x h, entries_readable xs hs)

  -- Less than 2^31 entries of UTF-8 texts, each shorter than 2^31 bytes, are written and read back:
  -- `hstore_to_sql` appends bytes from which `hstore_from_sql` makes an iterator that returns every
  -- key with its value, or with NULL, in order, and then ends.
  pub hstore_round_trip :
      (xs : List (Bytes × Option Bytes)) (buf : Bytes)
      → length xs < 2 ^ 31
      → All IsEntry xs
      → (out : Bytes) × (hstore_to_sql crates xs buf ≡ ok (buf ++ out))
        × ((hstore_from_sql crates out >>= collect (entries_next crates) (suc (length xs))) ≡ ok xs)
  unfolding hstore_to_sql hstore_from_sql entries_of entries_next
  hstore_round_trip xs buf few h =
      let none_before : 0 + length xs ≡ length xs = omega arith in
      let body : Bytes = concat_map (entry_bytes crates) xs in
      (
        i32_be crates (pos (length xs)) ++ body,
        rw
            (
              entries_written crates xs 0 (put_i32 crates (pos 0) buf) h,
              none_before,
              from_usize_fits 2147483647 (length xs) (omega arith),
            )
            (write_i32_at-append crates buf body (pos 0) (pos (length xs))
              ∙ ap ok (append_assoc buf _ body)),
        rw (read_i32_be crates (pos (length xs)) body few) (
            collect-next_counted (message "invalid buffer size") (read_entry crates)
              (entry_bytes crates) xs (entries_readable xs h)),
      )
