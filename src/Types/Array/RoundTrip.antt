-- ===== src/Types/Array/RoundTrip.antt =====
-- An array that `array_to_sql` wrote is read back: its header, its dimensions and its elements.
use rust_kingbase.Prelude.{
  if◌then◌else◌, Bytes, length, All, length-append, concat_map, Result, ok, ℕ, ◌+◌, ◌^◌, ◌<◌, ◌≡◌,
  refl, sym, ap, ap₂, ◌∙◌, Bool, true, false, ◌||◌, List, [], ◌∷◌, ◌++◌, append-nil, append_assoc,
  arith,
}
use rust_kingbase.Prelude.Int.{wrap, ℤ, pos}
use rust_kingbase.Wire.Crates.{Crates}
use rust_kingbase.Wire.Write.{
  put_i32, from_usize_fits, Appends, size_field, write_noting-Appends, write_at_here, IsNull,
}
use rust_kingbase.Types.Array.{is_yes, put_dimensions, put_elements, array_to_sql, ArrayDimension}
use native.Mathlib.Nat.{add-zero, zero-add}

module _ (crates : Crates) where
  open crates use {write_be, length-write_be}

  abbrev pub i32_be : ℤ → Bytes
  i32_be v = write_be 4 (wrap (2 ^ 31) v)

  abbrev pub dimension_bytes : ArrayDimension → Bytes
  dimension_bytes d = i32_be d.len ++ i32_be d.lower_bound

  put_dimensions-concat_map :
      (ds : List ArrayDimension) (count : ℕ) (buf : Bytes)
      → put_dimensions crates ds count buf
        ≡ (count + length ds, buf ++ concat_map dimension_bytes ds)
  unfolding put_dimensions
  put_dimensions-concat_map [] count buf = rw (add-zero, append-nil)
  put_dimensions-concat_map (d ∷ ds) count buf =
      put_dimensions-concat_map ds (count + 1) _
      ∙ ap₂ (λ n b. (n, b)) (omega arith) (simp append_assoc)

-- What an element is on the wire, and whether it is NULL.
module _ {ℓ} (crates : Crates) {T : Type ℓ} (encode : T → Bytes) (null : T → IsNull) where
  abbrev pub element_bytes : T → Bytes
  element_bytes x = i32_be crates (size_field (null x) (encode x)) ++ encode x

  abbrev pub any_null : List T → Bool
  any_null [] = false
  any_null (x ∷ xs) = is_yes (null x) || any_null xs

module _ {ℓ} (crates : Crates) {T : Type ℓ} (serializer : T → Bytes → Result (Bytes × IsNull))
    (encode : T → Bytes) (null : T → IsNull) where
  -- Each element is appended by the serializer, and is short enough for its length field.
  abbrev pub Elements : List T → Type 0
  Elements = All (λ x. Appends (serializer x) (encode x) (null x) × (length (encode x) < 2 ^ 31))

  or_assoc : (a b c : Bool) → ((a || b) || c) ≡ (a || (b || c))
  or_assoc true b c = refl
  or_assoc false b c = refl

  or_false : (a : Bool) → (a || false) ≡ a
  or_false true = refl
  or_false false = refl

  put_elements-concat_map :
      (xs : List T) (flag : Bool) (buf : Bytes)
      → Elements xs
      → put_elements crates serializer xs flag buf
        ≡ ok (
          flag || any_null crates encode null xs,
          buf ++ concat_map (element_bytes crates encode null) xs,
        )
  unfolding put_elements
  put_elements-concat_map [] flag buf h = rw (append-nil, or_false flag)
  put_elements-concat_map (x ∷ xs) flag buf ((a, s), hs) =
      rw
        (
          write_noting-Appends crates (serializer x) (encode x) (null x) buf a s,
          put_elements-concat_map xs (flag || is_yes (null x))
              (put_i32 crates (size_field (null x) (encode x)) buf ++ encode x) hs,
        )
        (rw (or_assoc flag (is_yes (null x)) (any_null crates encode null xs)) (
          ap (λ b. ok (flag || (is_yes (null x) || any_null crates encode null xs), b))
            (simp append_assoc)))

module _ {ℓ} (crates : Crates) {T : Type ℓ} (encode : T → Bytes) (null : T → IsNull) where
  open crates use {write_be}

  -- The array on the wire.
  abbrev pub array_bytes : List ArrayDimension → ℕ → List T → Bytes
  array_bytes ds oid xs =
      i32_be crates (pos (length ds))
      ++ (i32_be crates (pos (if any_null crates encode null xs then 1 else 0))
          ++ (write_be 4 oid
              ++ (concat_map (dimension_bytes crates) ds
                  ++ concat_map (element_bytes crates encode null) xs)))

module _ {ℓ} (crates : Crates) {T : Type ℓ} (serializer : T → Bytes → Result (Bytes × IsNull))
    (encode : T → Bytes) (null : T → IsNull) where
  open crates use {write_be, length-write_be}

  -- `array_to_sql` appends the count of the dimensions, whether an element is NULL, the type, the
  -- dimensions and the elements, each with its length or -1, where there are less than 2^31 dimensions
  -- and every serializer appends the encoding of its element.
  pub array_to_sql-bytes :
      (ds : List ArrayDimension) (oid : ℕ) (xs : List T) (buf : Bytes)
      → length ds < 2 ^ 31
      → Elements crates serializer encode null xs
      → array_to_sql crates ds oid xs serializer buf
        ≡ ok (buf ++ array_bytes crates encode null ds oid xs)
  unfolding array_to_sql
  array_to_sql-bytes ds oid xs buf few h =
      rw
        (
          put_dimensions-concat_map crates ds 0 _,
          zero-add,
          from_usize_fits 2147483647 (length ds) (omega arith),
          write_at_here (length buf) _ buf (i32_be crates (pos 0)) _
              (i32_be crates (pos (length ds))) refl (all_zero)
              (length-write_be 4 _ ∙ sym (length-write_be 4 _)),
          put_elements-concat_map crates serializer encode null xs false
              (buf ++ (i32_be crates (pos (length ds)) ++ tail)) h,
          write_at_here (length (buf ++ i32_be crates (pos 0))) _
              (buf ++ i32_be crates (pos (length ds))) (i32_be crates (pos 0)) _
              (i32_be crates flag) same_length all_counted
              (length-write_be 4 _ ∙ sym (length-write_be 4 _)),
        )
        (ap ok (append_assoc buf _ _))
    where
      flag : ℤ
      flag = pos (if any_null crates encode null xs then 1 else 0)

      dims : Bytes
      dims = concat_map (dimension_bytes crates) ds

      elems : Bytes
      elems = concat_map (element_bytes crates encode null) xs

      tail : Bytes
      tail = i32_be crates (pos 0) ++ (write_be 4 oid ++ dims)

      all_zero :
          (((buf ++ i32_be crates (pos 0)) ++ i32_be crates (pos 0)) ++ write_be 4 oid) ++ dims
          ≡ buf ++ (i32_be crates (pos 0) ++ tail)
      all_zero = simp append_assoc

      same_length :
          length (buf ++ i32_be crates (pos 0)) ≡ length (buf ++ i32_be crates (pos (length ds)))
      same_length = rw (
        length-append buf (i32_be crates (pos 0)),
        length-append buf (i32_be crates (pos (length ds))),
        length-write_be 4 (wrap (2 ^ 31) (pos 0)),
        length-write_be 4 (wrap (2 ^ 31) (pos (length ds))),
      )

      all_counted :
          (buf ++ (i32_be crates (pos (length ds)) ++ tail)) ++ elems
          ≡ (buf ++ i32_be crates (pos (length ds)))
            ++ (i32_be crates (pos 0) ++ (write_be 4 oid ++ (dims ++ elems)))
      all_counted = simp append_assoc
