-- ===== src/Kingbase/Values.antt =====
-- The values of the wrappers in tokio-postgres/src/kingbase/types.rs.
use rust_kingbase.Prelude.{
  ◌==◌, if◌then◌else◌, Bytes, length, drop, drop-append, message, ok, err, ◌^◌, ◌≤◌, ◌<◌, ◌≡◌, Bool,
  true, false, arith,
}
use rust_kingbase.Prelude.Int.{IsSigned, wrap, signed, signed-wrap, wrap-lt, ℤ, pos, negsuc}
use rust_kingbase.Wire.Crates.{Crates}
use rust_kingbase.Kingbase.{new_year, year_from_sql, year_to_sql}

-- The years of Kingbase.
abbrev pub IsYear : ℤ → Type 0
IsYear (pos n) = (1901 ≤ n) × (n ≤ 2155)
IsYear (negsuc n) = ⊥

new_year-IsYear : (v : ℤ) {y : ℤ} → new_year v ≡ ok y → IsYear y
unfolding new_year
new_year-IsYear (pos n) h = ground arith
new_year-IsYear (negsuc n) h = cc

new_year_of : (v : ℤ) → IsYear v → new_year v ≡ ok v
unfolding new_year
new_year_of (pos n) h = ground arith
new_year_of (negsuc n) h = absurd h

IsYear-IsSigned : (v : ℤ) → IsYear v → IsSigned (2 ^ 31) v
IsYear-IsSigned (pos n) h = omega arith
IsYear-IsSigned (negsuc n) h = absurd h

module _ (crates : Crates) where
  open crates use {read_be, write_be, length-write_be, read_be-write_be}

  year_read_back :
      (v : ℤ) (raw : Bytes)
      → raw ≡ write_be 4 (wrap (2 ^ 31) v)
      → IsYear v
      → year_from_sql crates raw ≡ ok v
  unfolding year_from_sql
  year_read_back v raw e h =
      let four : length raw ≡ 4 = rw e (length-write_be 4 (wrap (2 ^ 31) v)) in
      let low : wrap (2 ^ 31) v < 256 ^ 4 = wrap-lt (2 ^ 31) v (omega arith) in
      rw
        (
          four,
          e,
          read_be-write_be 4 (wrap (2 ^ 31) v) low,
          signed-wrap (2 ^ 31) v (IsYear-IsSigned v h),
        )
        (new_year_of v h)

  length-guard :
      (four : Bool) (v : ℤ) {y : ℤ}
      → (if four then new_year v else err (message "invalid buffer size")) ≡ ok y
      → IsYear y
  length-guard true v h = new_year-IsYear v h
  length-guard false v h = cc

  in_range : (raw : Bytes) {y : ℤ} → year_from_sql crates raw ≡ ok y → IsYear y
  unfolding year_from_sql
  in_range raw h = length-guard (length raw == 4) (signed (2 ^ 31) (read_be raw)) h

  -- Every year from 1901 to 2155 is made by `Year::new`, and what `to_sql` appends for it to any buffer
  -- is read back by `from_sql`.
  pub year_round_trip :
      (v : ℤ) (out : Bytes)
      → IsYear v
      → (new_year v ≡ ok v)
        × (year_from_sql crates (drop (length out) (year_to_sql crates v out)) ≡ ok v)
  unfolding year_to_sql
  year_round_trip v out h = (new_year_of v h, year_read_back v _ (drop-append out _) h)

  -- Whatever bytes `from_sql` reads as a `Year`, it is a year from 1901 to 2155, which `Year::new` makes
  -- and which is read back where `to_sql` has appended it to any buffer.
  pub year_from_sql-IsYear :
      (raw out : Bytes) {y : ℤ}
      → year_from_sql crates raw ≡ ok y
      → IsYear y
        × (new_year y ≡ ok y)
        × (year_from_sql crates (drop (length out) (year_to_sql crates y out)) ≡ ok y)
  year_from_sql-IsYear raw out {y = y} h =
      let within = in_range raw h in
      let (made, read_back) = year_round_trip y out within in (within, made, read_back)
