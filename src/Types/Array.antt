-- ===== src/Types/Array.antt =====
-- Arrays, in postgres-protocol/src/types/mod.rs: a header, the dimensions, and the elements with their
-- lengths.
pub mod RoundTrip
pub mod Read
pub mod Whole
use rust_kingbase.Prelude.{
  ltb, ◌==◌, if◌then◌else◌, Bytes, length, ◌>>=◌, ok_or, Error, Result, message, ok, err, ℕ, zero,
  suc, ◌+◌, ◌*◌, ◌^◌, Bool, true, false, not, ◌||◌, Option, none, some, List, [], ◌∷◌,
}
use rust_kingbase.Prelude.Int.{ℤ, pos, negsuc}
use rust_kingbase.Wire.Crates.{Crates}
use rust_kingbase.Wire.Read.{split_at_checked, split_at, read_u32, read_i32}
use rust_kingbase.Wire.Write.{
  put_u32, put_i32, i32_from_usize, write_i32_at, write_noting, IsNull, yes_null, no_null,
}
use rust_kingbase.Wire.Iterate.{next_counted, Remaining}

pub record ArrayDimension : Type 0 where
  pub len : ℤ
  pub lower_bound : ℤ

-- `elements` is not negative: see `count_elements`.
pub record Array : Type 0 where
  pub dimensions : ℕ
  pub has_nulls : Bool
  pub element_type : ℕ
  pub elements : ℕ
  pub buf : Bytes

-- `has_nulls = true` where the serializer answers `IsNull::Yes`
abbrev pub is_yes : IsNull → Bool
is_yes yes_null = true
is_yes no_null = false

module _ (crates : Crates) where
  -- The loop over the dimensions: the count, and the buffer.
  unfoldable pub put_dimensions : List ArrayDimension → ℕ → Bytes → ℕ × Bytes
  put_dimensions [] count buf = (count, buf)
  put_dimensions (d ∷ ds) count buf =
      put_dimensions ds (count + 1) (put_i32 crates d.lower_bound (put_i32 crates d.len buf))

  -- The loop over the elements, with the flag that its serializer sets.
  unfoldable pub put_elements {ℓ} :
      {T : Type ℓ}
      → (T → Bytes → Result (Bytes × IsNull))
      → List T
      → Bool
      → Bytes
      → Result (Bool × Bytes)
  put_elements serializer [] has_nulls buf = ok (has_nulls, buf)
  put_elements serializer (x ∷ xs) has_nulls buf = do
    (buf', null) ← write_noting crates (serializer x) buf
    put_elements serializer xs (has_nulls || is_yes null) buf'

module _ (crates : Crates) where
  unfoldable pub array_to_sql {ℓ} :
      {T : Type ℓ}
      → List ArrayDimension
      → ℕ
      → List T
      → (T → Bytes → Result (Bytes × IsNull))
      → Bytes
      → Result Bytes
  array_to_sql dimensions element_type elements serializer buf = do
    let dimensions_idx = length buf
    let buf₁ = put_i32 crates (pos 0) buf
    let flags_idx = length buf₁
    let buf₂ = put_u32 crates element_type (put_i32 crates (pos 0) buf₁)
    let (count, buf₃) = put_dimensions crates dimensions 0 buf₂
    num_dimensions ← i32_from_usize count
    buf₄ ← write_i32_at crates dimensions_idx num_dimensions buf₃
    (has_nulls, buf₅) ← put_elements crates serializer elements false buf₄
    write_i32_at crates flags_idx (pos (if has_nulls then 1 else 0)) buf₅

-- `elements.checked_mul(len)` on `i32`, for numbers that are not negative.
unfoldable pub checked_mul : ℕ → ℕ → Result ℕ
checked_mul elements len =
    if ltb (elements * len) (2 ^ 31)
    then ok (elements * len)
    else err (message "too many array elements")

-- The length of a dimension, which is refused below 0.
unfoldable pub dimension_size : ℤ → Result ℕ
dimension_size (negsuc n) = err (message "invalid dimension size")
dimension_size (pos n) = ok n

module _ (crates : Crates) where
  -- The loop of `array_from_sql` over the dimensions.
  unfoldable pub count_elements : ℕ → ℕ → Bytes → Result ℕ
  count_elements zero elements r = ok elements
  count_elements (suc n) elements r = do
    (len, r₁) ← read_i32 crates r
    size ← dimension_size len
    (_, r₂) ← read_i32 crates r₁
    elements' ← checked_mul elements size
    count_elements n elements' r₂

-- `dimensions` as a count, which is refused below 0.
unfoldable pub dimension_count : ℤ → Result ℕ
dimension_count (negsuc n) = err (message "invalid dimension count")
dimension_count (pos n) = ok n

-- `flag != 0`
abbrev pub is_set : ℤ → Bool
is_set (pos n) = not (n == 0)
is_set (negsuc n) = true

module _ (crates : Crates) where
  unfoldable pub array_from_sql : Bytes → Result Array
  array_from_sql buf = do
    (count, buf₁) ← read_i32 crates buf
    dimensions ← dimension_count count
    (flag, buf₂) ← read_i32 crates buf₁
    (element_type, buf₃) ← read_u32 crates buf₂
    elements ← count_elements crates dimensions 1 buf₃
    ok (record {
      dimensions = dimensions;
      has_nulls = is_set flag;
      element_type = element_type;
      elements = if dimensions == 0 then 0 else elements;
      buf = buf₃;
    })

  -- `Array::dimensions`: `&self.buf[..n * 8]`
  unfoldable pub dimensions : Array → Result Bytes
  dimensions a = do (front, _) ← split_at (a.dimensions * 8) a.buf; ok front

  -- `Array::values`: `&self.buf[n * 8..]`
  unfoldable pub values : Array → Result Remaining
  values a = do
    (_, back) ← split_at (a.dimensions * 8) a.buf
    ok (record { buf = back; remaining = a.elements })

  -- `ArrayDimensions::next`
  unfoldable pub dimensions_next : Bytes → Result (Option ArrayDimension × Bytes)
  dimensions_next buf =
      if length buf == 0
      then ok (none, buf)
      else (read_i32 crates buf >>= λ (len, buf₁). read_i32 crates buf₁ >>= λ (lower_bound, buf₂).
          ok (some (record { len = len; lower_bound = lower_bound }), buf₂))

-- The bytes of a value of length `len`, which is NULL below 0.
unfoldable pub sized_value : Error → ℤ → Bytes → Result (Option Bytes × Bytes)
sized_value why (negsuc n) buf = ok (none, buf)
sized_value why (pos n) buf = do
  (value, buf') ← ok_or (split_at_checked n buf) why
  ok (some value, buf')

module _ (crates : Crates) where
  unfoldable pub read_value : Bytes → Result (Option Bytes × Bytes)
  read_value buf = do
    (len, buf') ← read_i32 crates buf
    sized_value (message "invalid value length") len buf'

module _ (crates : Crates) where
  -- `ArrayValues::next`
  unfoldable pub values_next : Remaining → Result (Option (Option Bytes) × Remaining)
  values_next =
      next_counted (message "invalid message length: arrayvalue not drained") (read_value crates)
