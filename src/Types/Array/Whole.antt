-- ===== src/Types/Array/Whole.antt =====
-- The whole round trip of an array: `array_to_sql`, `array_from_sql` and the iterators of `Array`.
use rust_kingbase.Prelude.{
  ◌==◌, if◌then◌else◌, Bytes, length, length-map, concat_map, ◌>>=◌, Result, ok, ℕ, suc, ◌*◌, ◌^◌,
  ◌<◌, ◌≡◌, refl, Bool, true, false, List, ◌++◌, map, arith,
}
use rust_kingbase.Prelude.Int.{IsSigned, ℤ, pos}
use rust_kingbase.Wire.Crates.{Crates}
use rust_kingbase.Wire.Read.{split_at, split_at-append, read_uint-write_be}
use rust_kingbase.Wire.Write.{IsNull}
use rust_kingbase.Wire.Iterate.{collect}
use rust_kingbase.Types.Array.{
  array_to_sql, dimension_count, is_set, array_from_sql, dimensions, values, dimensions_next,
  values_next, Array,
}
use rust_kingbase.Types.Array.RoundTrip.{element_bytes, any_null, array_bytes, array_to_sql-bytes}
use rust_kingbase.Types.Array.Read.{
  dimension, element_count, IsShape, shape_bytes, read_i32-i32_be, count_elements-shape,
  shape_length, collect-dimensions, CleanElements, read_as, clean-Elements, collect-values,
}

flag_set : (b : Bool) → is_set (pos (if b then 1 else 0)) ≡ b
flag_set true = refl
flag_set false = refl

flag-IsSigned : (b : Bool) → IsSigned (2 ^ 31) (pos (if b then 1 else 0))
flag-IsSigned true = omega arith
flag-IsSigned false = omega arith

length-shape : (shape : List (ℕ × ℤ)) → length (map dimension shape) ≡ length shape
length-shape shape = length-map shape dimension

-- How many elements an array of this shape has: none where it has no dimension.
abbrev pub cells_of : List (ℕ × ℤ) → ℕ
cells_of shape = if length shape == 0 then 0 else element_count 1 shape

module _ {ℓ} (crates : Crates) {T : Type ℓ} (serializer : T → Bytes → Result (Bytes × IsNull))
    (encode : T → Bytes) (null : T → IsNull) where
  open crates use {write_be}

  -- The array that is read.
  abbrev pub whole_array : List (ℕ × ℤ) → ℕ → List T → Array
  whole_array shape oid xs = record {
    dimensions = length shape;
    has_nulls = any_null crates encode null xs;
    element_type = oid;
    elements = cells_of shape;
    buf = shape_bytes crates shape ++ concat_map (element_bytes crates encode null) xs;
  }

module _ {ℓ} (crates : Crates) {T : Type ℓ} (serializer : T → Bytes → Result (Bytes × IsNull))
    (encode : T → Bytes) (null : T → IsNull) where
  open crates use {write_be}

  array_from_sql-bytes :
      (shape : List (ℕ × ℤ)) (oid : ℕ) (xs : List T)
      → length shape < 2 ^ 31
      → IsShape 1 shape
      → oid < 2 ^ 32
      → array_from_sql crates (array_bytes crates encode null (map dimension shape) oid xs)
        ≡ ok (whole_array crates serializer encode null shape oid xs)
  unfolding array_from_sql dimension_count
  array_from_sql-bytes shape oid xs few s o =
      let elems : Bytes = concat_map (element_bytes crates encode null) xs in
      let b : Bool = any_null crates encode null xs in
      rw (length-shape shape) (
        rw (
          read_i32-i32_be crates (pos (length shape)) _ few,
          read_i32-i32_be crates (pos (if b then 1 else 0)) _ (flag-IsSigned b),
          read_uint-write_be crates 4 oid (shape_bytes crates shape ++ elems) o,
          count_elements-shape crates shape 1 elems s,
          flag_set b,
        ))

  -- An array is written and read back: where no dimension has a negative length, the products of the
  -- lengths fit an `i32` and make the count of the elements, and each serializer appends the encoding of
  -- its element, which is empty for NULL, then `array_to_sql` appends bytes that `array_from_sql` takes
  -- apart into the type, the flag for NULLs, the dimensions and the elements that were written.
  pub array_round_trip :
      (shape : List (ℕ × ℤ)) (oid : ℕ) (xs : List T) (buf : Bytes)
      → length shape < 2 ^ 31
      → IsShape 1 shape
      → oid < 2 ^ 32
      → CleanElements crates serializer encode null xs
      → cells_of shape ≡ length xs
      → (out : Bytes) × (a : Array) × (array_to_sql crates
            (map dimension shape)
            oid
            xs
            serializer
            buf
          ≡ ok (buf ++ out))
        × (array_from_sql crates out ≡ ok a)
        × (a.element_type ≡ oid)
        × (a.has_nulls ≡ any_null crates encode null xs)
        × ((dimensions crates a >>= collect (dimensions_next crates) (suc (length shape)))
            ≡ ok (map dimension shape))
        × ((values crates a >>= collect (values_next crates) (suc (length xs)))
            ≡ ok (map (read_as crates serializer encode null) xs))
  unfolding dimensions values
  array_round_trip shape oid xs buf few s o clean count = (
    array_bytes crates encode null (map dimension shape) oid xs,
    whole_array crates serializer encode null shape oid xs,
    array_to_sql-bytes crates serializer encode null (map dimension shape) oid xs buf
        (rw (length-shape shape) few) (clean-Elements crates serializer encode null xs clean),
    array_from_sql-bytes shape oid xs few s o,
    refl,
    refl,
    rw split (collect-dimensions crates shape 1 s),
    rw (split, count) (collect-values crates serializer encode null xs clean),
  )
    where
      elems : Bytes
      elems = concat_map (element_bytes crates encode null) xs

      split :
          split_at (length shape * 8) (shape_bytes crates shape ++ elems)
          ≡ ok (shape_bytes crates shape, elems)
      split = rw (← shape_length crates shape) (split_at-append (shape_bytes crates shape) elems)
