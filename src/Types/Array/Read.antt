-- ===== src/Types/Array/Read.antt =====
-- `array_from_sql` and the iterators of `Array` on an array as `array_to_sql` writes it.

use rust_kingbase.Prelude.{
  ◌==◌, lt→ltb, Bytes, length, All, length-append, concat_map, Result, ok, ℕ, suc, ◌*◌, ◌^◌, ◌<◌,
  ◌≡◌, refl, ◌∙◌, false, Option, none, some, List, [], ◌∷◌, ◌++◌, map, append-nil, append_assoc,
  arith,
}
use rust_kingbase.Prelude.Int.{IsSigned, wrap, ℤ, pos, negsuc}
use rust_kingbase.Wire.Crates.{Crates}
use rust_kingbase.Wire.Read.{read_i32, split_at_checked-append, read_int-write_be}
use rust_kingbase.Wire.Write.{Appends, size_field, IsNull, yes_null, no_null}
use rust_kingbase.Wire.Iterate.{collect, collect_done, collect_more, next_counted}
use rust_kingbase.Types.Array.{
  checked_mul, dimension_size, count_elements, dimensions_next, sized_value, read_value,
  values_next, ArrayDimension,
}
use rust_kingbase.Types.Array.RoundTrip.{i32_be, dimension_bytes, element_bytes, Elements}

-- A dimension whose length is not negative.
abbrev pub dimension : ℕ × ℤ → ArrayDimension
dimension (n, lower) = record { len = pos n; lower_bound = lower }

-- The product of the lengths, from `acc` on.
abbrev pub element_count : ℕ → List (ℕ × ℤ) → ℕ
element_count acc [] = acc
element_count acc ((n, lower) ∷ shape) = element_count (acc * n) shape

-- All is in the range of an `i32`, and so is every product on the way.
abbrev pub IsShape : ℕ → List (ℕ × ℤ) → Type 0
IsShape acc [] = Unit
IsShape acc ((n, lower) ∷ shape) =
    (n < 2 ^ 31) × IsSigned (2 ^ 31) lower × (acc * n < 2 ^ 31) × IsShape (acc * n) shape

not_empty : (xs ys : Bytes) → length xs ≡ 4 → (length (xs ++ ys) == 0) ≡ false
not_empty xs ys e = ground (arith, length-append xs ys)

module _ (crates : Crates) where
  abbrev pub shape_bytes : List (ℕ × ℤ) → Bytes
  shape_bytes shape = concat_map (dimension_bytes crates) (map dimension shape)

module _ (crates : Crates) where
  open crates use {write_be, length-write_be}

  pub read_i32-i32_be :
      (v : ℤ) (rest : Bytes)
      → IsSigned (2 ^ 31) v
      → read_i32 crates (i32_be crates v ++ rest) ≡ ok (v, rest)
  read_i32-i32_be v rest h = read_int-write_be crates 4 (2 ^ 31) v rest refl (omega arith) h

  count_step :
      (m acc n : ℕ) (lower : ℤ) (rest : Bytes)
      → n < 2 ^ 31
      → IsSigned (2 ^ 31) lower
      → acc * n < 2 ^ 31
      → count_elements crates (suc m) acc (dimension_bytes crates (dimension (n, lower)) ++ rest)
        ≡ count_elements crates m (acc * n) rest
  unfolding count_elements dimension_size checked_mul
  count_step m acc n lower rest hn hl hp =
      rw (append_assoc (i32_be crates (pos n)) (i32_be crates lower) rest) (
        rw (
          read_i32-i32_be (pos n) (i32_be crates lower ++ rest) hn,
          read_i32-i32_be lower rest hl,
          lt→ltb (acc * n) (2 ^ 31) hp,
        ))

  pub count_elements-shape :
      (shape : List (ℕ × ℤ)) (acc : ℕ) (rest : Bytes)
      → IsShape acc shape
      → count_elements crates (length shape) acc (shape_bytes crates shape ++ rest)
        ≡ ok (element_count acc shape)
  count_elements-shape [] acc rest h = unfold count_elements in refl
  count_elements-shape ((n, lower) ∷ shape) acc rest (hn, hl, hp, hs) =
      rw
        (append_assoc (dimension_bytes crates (dimension (n, lower))) (shape_bytes crates shape)
          rest)
        (count_step (length shape) acc n lower (shape_bytes crates shape ++ rest) hn hl hp
          ∙ count_elements-shape shape (acc * n) rest hs)

  pub shape_length : (shape : List (ℕ × ℤ)) → length (shape_bytes crates shape) ≡ length shape * 8
  shape_length [] = refl
  shape_length ((n, lower) ∷ shape) = omega (
    arith,
    length-append (dimension_bytes crates (dimension (n, lower))) (shape_bytes crates shape),
    length-append (i32_be crates (pos n)) (i32_be crates lower),
    length-write_be 4 (wrap (2 ^ 31) (pos n)),
    length-write_be 4 (wrap (2 ^ 31) lower),
    shape_length shape,
  )

  dimensions_step :
      (n : ℕ) (lower : ℤ) (rest : Bytes)
      → n < 2 ^ 31
      → IsSigned (2 ^ 31) lower
      → dimensions_next crates (dimension_bytes crates (dimension (n, lower)) ++ rest)
        ≡ ok (some (dimension (n, lower)), rest)
  unfolding dimensions_next
  dimensions_step n lower rest hn hl =
      rw (append_assoc (i32_be crates (pos n)) (i32_be crates lower) rest) (
        rw (
          not_empty (i32_be crates (pos n)) (i32_be crates lower ++ rest) (length-write_be 4 _),
          read_i32-i32_be (pos n) (i32_be crates lower ++ rest) hn,
          read_i32-i32_be lower rest hl,
        ))

  pub collect-dimensions :
      (shape : List (ℕ × ℤ)) (acc : ℕ)
      → IsShape acc shape
      → collect (dimensions_next crates) (suc (length shape)) (shape_bytes crates shape)
        ≡ ok (map dimension shape)
  collect-dimensions [] acc h =
      collect_done (dimensions_next crates) 0 [] [] (unfold dimensions_next in refl)
  collect-dimensions ((n, lower) ∷ shape) acc (hn, hl, hp, hs) =
      collect_more (dimensions_next crates) _ _ _ (dimension (n, lower)) (map dimension shape)
        (dimensions_step n lower (shape_bytes crates shape) hn hl)
        (collect-dimensions shape (acc * n) hs)

-- What a value is read back as.
abbrev pub read_back : IsNull → Bytes → Option Bytes
read_back yes_null s = none
read_back no_null s = some s

-- A NULL has no bytes.
abbrev pub IsClean : IsNull → Bytes → Type 0
IsClean yes_null s = s ≡ []
IsClean no_null s = length s < 2 ^ 31

module _ (crates : Crates) where
  read_value-append :
      (k : IsNull) (s rest : Bytes)
      → IsClean k s
      → read_value crates ((i32_be crates (size_field k s) ++ s) ++ rest) ≡ ok (read_back k s, rest)
  unfolding read_value sized_value
  read_value-append yes_null s rest h =
      rw (h, append-nil (i32_be crates (negsuc 0)))
        (rw (read_i32-i32_be crates (negsuc 0) rest (omega arith)))
  read_value-append no_null s rest h =
      rw (append_assoc (i32_be crates (pos (length s))) s rest)
        (rw (read_i32-i32_be crates (pos (length s)) (s ++ rest) h, split_at_checked-append s rest))

module _ {ℓ} (crates : Crates) {T : Type ℓ} (serializer : T → Bytes → Result (Bytes × IsNull))
    (encode : T → Bytes) (null : T → IsNull) where
  -- The serializer appends the encoding of the element, which is short, and empty for NULL.
  abbrev pub CleanElements : List T → Type 0
  CleanElements =
      All (λ x. Appends (serializer x) (encode x) (null x) × IsClean (null x) (encode x))

  abbrev pub read_as : T → Option Bytes
  read_as x = read_back (null x) (encode x)

  clean_short : (k : IsNull) (s : Bytes) → IsClean k s → length s < 2 ^ 31
  clean_short yes_null s h = rw h (omega arith)
  clean_short no_null s h = h

  pub clean-Elements : (xs : List T) → CleanElements xs → Elements crates serializer encode null xs
  clean-Elements [] h = tt
  clean-Elements (x ∷ xs) ((a, c), hs) =
      ((a, clean_short (null x) (encode x) c), clean-Elements xs hs)

  pub collect-values :
      (xs : List T)
      → CleanElements xs
      → collect
          (values_next crates)
          (suc (length xs))
          (record { buf = concat_map (element_bytes crates encode null) xs; remaining = length xs })
        ≡ ok (map read_as xs)
  unfolding values_next next_counted
  collect-values [] h = collect_done _ 0 _ _ refl
  collect-values (x ∷ xs) ((a, c), hs) =
      collect_more _ _ _ _ (read_as x) (map read_as xs)
        (rw (
          read_value-append crates (null x) (encode x)
            (concat_map (element_bytes crates encode null) xs) c))
        (collect-values xs hs)
