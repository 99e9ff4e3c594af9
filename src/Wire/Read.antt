-- ===== src/Wire/Read.antt =====
-- Readers on a slice: `std::io::Read` for `&[u8]`, `byteorder::ReadBytesExt`, and `split_at`.
use rust_kingbase.Prelude.{
  take-length, drop-length, le→leb, subst, ℕ, ◌+◌, ◌^◌, ◌≤◌, ◌<◌, ◌≡◌, ap, true, append_assoc, [],
  ◌∷◌, ◌++◌, Option, none, some, Bytes, length, take, drop, take-append, drop-append, length-append,
  if◌then◌else◌, leb, Result, ok, err, panic, unexpected_eof, ◌>>=◌, arith,
}
use rust_kingbase.Prelude.Int.{ℤ, signed, wrap, IsSigned, signed-wrap, wrap-lt}
use rust_kingbase.Wire.Crates.{Crates}

-- `read_exact` for a `&[u8]`.
unfoldable pub read_exact : ℕ → Bytes → Result (Bytes × Bytes)
read_exact n buf = if leb n (length buf) then ok (take n buf, drop n buf) else err unexpected_eof

-- `slice::split_at_checked` and `slice::split_at`.
unfoldable pub split_at_checked : ℕ → Bytes → Option (Bytes × Bytes)
split_at_checked n buf = if leb n (length buf) then some (take n buf, drop n buf) else none

unfoldable pub split_at : ℕ → Bytes → Result (Bytes × Bytes)
split_at n buf = if leb n (length buf) then ok (take n buf, drop n buf) else panic

-- `&buf[..n]` and `&buf[n..]`
unfoldable pub slice_to : ℕ → Bytes → Result Bytes
slice_to n buf = if leb n (length buf) then ok (take n buf) else panic

unfoldable pub slice_from : ℕ → Bytes → Result Bytes
slice_from n buf = if leb n (length buf) then ok (drop n buf) else panic

abbrev pub read_u8 : Bytes → Result (ℕ × Bytes)
read_u8 [] = err unexpected_eof
read_u8 (b ∷ buf) = ok (b, buf)

abbrev pub read_i8 : Bytes → Result (ℤ × Bytes)
read_i8 buf = do (b, buf') ← read_u8 buf; ok (signed (2 ^ 7) b, buf')

module _ (crates : Crates) where
  open crates use {read_be, write_be, read_be-write_be, length-write_be}

  unfoldable pub read_uint : ℕ → Bytes → Result (ℕ × Bytes)
  read_uint w buf = do (bs, buf') ← read_exact w buf; ok (read_be bs, buf')

  unfoldable pub read_int : ℕ → ℕ → Bytes → Result (ℤ × Bytes)
  read_int w half buf = do (u, buf') ← read_uint w buf; ok (signed half u, buf')

module _ (crates : Crates) where
  open crates use {read_be, write_be, read_be-write_be, length-write_be}

  abbrev pub read_u16 : Bytes → Result (ℕ × Bytes)
  read_u16 = read_uint crates 2

  abbrev pub read_u32 : Bytes → Result (ℕ × Bytes)
  read_u32 = read_uint crates 4

  abbrev pub read_u64 : Bytes → Result (ℕ × Bytes)
  read_u64 = read_uint crates 8

  abbrev pub read_i16 : Bytes → Result (ℤ × Bytes)
  read_i16 = read_int crates 2 (2 ^ 15)

  abbrev pub read_i32 : Bytes → Result (ℤ × Bytes)
  read_i32 = read_int crates 4 (2 ^ 31)

  abbrev pub read_i64 : Bytes → Result (ℤ × Bytes)
  read_i64 = read_int crates 8 (2 ^ 63)

  -- A float is its bit pattern: `f32::from_bits` and `f64::from_bits` lose nothing.
  abbrev pub read_f32 : Bytes → Result (ℕ × Bytes)
  read_f32 = read_uint crates 4

  abbrev pub read_f64 : Bytes → Result (ℕ × Bytes)
  read_f64 = read_uint crates 8

pub leb-append : (xs ys : Bytes) → leb (length xs) (length (xs ++ ys)) ≡ true
leb-append xs ys = ground (arith, length-append xs ys)

pub read_exact-append : (xs ys : Bytes) → read_exact (length xs) (xs ++ ys) ≡ ok (xs, ys)
unfolding read_exact
read_exact-append xs ys = rw (leb-append xs ys, take-append xs ys, drop-append xs ys)

pub read_exact-append_of :
    (n : ℕ) (xs ys : Bytes) → length xs ≡ n → read_exact n (xs ++ ys) ≡ ok (xs, ys)
read_exact-append_of n xs ys e = rw (← e) (read_exact-append xs ys)

pub read_exact-length : (xs : Bytes) → read_exact (length xs) xs ≡ ok (xs, [])
unfolding read_exact
read_exact-length xs =
    rw (le→leb (length xs) (length xs) (omega arith), take-length xs, drop-length xs)

pub split_at_checked-append :
    (xs ys : Bytes) → split_at_checked (length xs) (xs ++ ys) ≡ some (xs, ys)
unfolding split_at_checked
split_at_checked-append xs ys = rw (leb-append xs ys, take-append xs ys, drop-append xs ys)

pub split_at-append : (xs ys : Bytes) → split_at (length xs) (xs ++ ys) ≡ ok (xs, ys)
unfolding split_at
split_at-append xs ys = rw (leb-append xs ys, take-append xs ys, drop-append xs ys)

pub slice_to-append : (xs ys : Bytes) → slice_to (length xs) (xs ++ ys) ≡ ok xs
unfolding slice_to
slice_to-append xs ys = rw (leb-append xs ys, take-append xs ys)

pub slice_from-append : (xs ys : Bytes) → slice_from (length xs) (xs ++ ys) ≡ ok ys
unfolding slice_from
slice_from-append xs ys = rw (leb-append xs ys, drop-append xs ys)

-- The slice behind one byte more.
pub slice_from-behind :
    (xs : Bytes) (b : ℕ) (ys : Bytes) → slice_from (length xs + 1) (xs ++ b ∷ ys) ≡ ok ys
slice_from-behind xs b ys =
    let n : length xs + 1 ≡ length (xs ++ b ∷ []) = omega (arith, length-append xs (b ∷ [])) in
    rw (n, ← append_assoc xs (b ∷ []) ys) (slice_from-append (xs ++ b ∷ []) ys)

pub slice_to_within : (n : ℕ) (buf : Bytes) → n ≤ length buf → slice_to n buf ≡ ok (take n buf)
unfolding slice_to
slice_to_within n buf h = rw (le→leb n (length buf) h)

pub slice_from_within : (n : ℕ) (buf : Bytes) → n ≤ length buf → slice_from n buf ≡ ok (drop n buf)
unfolding slice_from
slice_from_within n buf h = rw (le→leb n (length buf) h)

-- A reader of a number reads back what `write_be` wrote, and leaves what follows it.
module _ (crates : Crates) where
  open crates use {read_be, write_be, read_be-write_be, length-write_be}

  pub read_uint-write_be :
      (w n : ℕ) (rest : Bytes)
      → n < 256 ^ w
      → read_uint crates w (write_be w n ++ rest) ≡ ok (n, rest)
  unfolding read_uint
  read_uint-write_be w n rest h =
      rw (read_exact-append_of w (write_be w n) rest (length-write_be w n), read_be-write_be w n h)

  pub read_int-write_be :
      (w half : ℕ) (v : ℤ) (rest : Bytes)
      → half + half ≡ 256 ^ w
      → 0 < half
      → IsSigned half v
      → read_int crates w half (write_be w (wrap half v) ++ rest) ≡ ok (v, rest)
  unfolding read_int
  read_int-write_be w half v rest e p h =
      rw
        (read_uint-write_be w (wrap half v) rest
          (subst (λ m. wrap half v < m) e (wrap-lt half v p)))
        (ap (λ u. ok (u, rest)) (signed-wrap half v h))
