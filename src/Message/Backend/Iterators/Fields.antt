-- ===== src/Message/Backend/Iterators/Fields.antt =====
-- The iterators over row descriptions, parameter and column lists, error fields and SASL mechanisms
-- return what the server listed.

use rust_kingbase.Prelude.{
  ◌==◌, Bytes, length, All, concat_map, ok, ℕ, suc, ◌^◌, ◌<◌, ◌≡◌, refl, ap, true, false, some,
  List, [], ◌∷◌, ◌++◌, append_assoc, arith,
}
use rust_kingbase.Prelude.Int.{IsSigned, wrap, ℤ}
use rust_kingbase.Wire.Crates.{contains, Crates}
use rust_kingbase.Wire.Read.{
  read_uint, read_u16, read_u32, read_i16, read_uint-write_be, read_int-write_be, slice_from-append,
  slice_to-append, slice_from-behind,
}
use rust_kingbase.Wire.Utf8.{is_utf8, from_utf8_valid}
use rust_kingbase.Wire.Iterate.{collect, collect_done, collect_more, collect-next_counted}
use rust_kingbase.Message.Backend.Iterators.{
  get_str, find_null, sasl_mechanisms_next, column_formats, column_formats_next, parameters,
  parameters_next, error_fields_next, read_field, fields, fields_next, ErrorField, Field,
}

-- The null-terminated form of a text.
abbrev pub null_ended : Bytes → Bytes
null_ended s = s ++ 0 ∷ []

module _ (crates : Crates) where
  open crates use {write_be, memchr_found}

  find_null-append :
      (s rest : Bytes) → contains 0 s ≡ false → find_null crates (s ++ 0 ∷ rest) 0 ≡ ok (length s)
  unfolding find_null
  find_null-append s rest h =
      rw (slice_from-append [] (s ++ 0 ∷ rest))
        (rw (memchr_found 0 s rest h, find_null) (ap ok (omega arith)))

  -- A field as the protocol lays it out.
  abbrev pub field_bytes : Field → Bytes
  field_bytes f =
      f.name
      ++ 0
        ∷ (write_be 4 f.table_oid
            ++ (write_be 2 (wrap (2 ^ 15) f.column_id)
                ++ (write_be 4 f.type_oid
                    ++ (write_be 2 (wrap (2 ^ 15) f.type_size)
                        ++ (write_be 4 (wrap (2 ^ 31) f.type_modifier)
                            ++ write_be 2 (wrap (2 ^ 15) f.format))))))

-- The numbers are in range, and the name is UTF-8 with no null byte.
pub record IsField (f : Field) : Type 0 where
  pub no_null : contains 0 f.name ≡ false
  pub utf8 : is_utf8 f.name ≡ true
  pub table : f.table_oid < 2 ^ 32
  pub column : IsSigned (2 ^ 15) f.column_id
  pub type : f.type_oid < 2 ^ 32
  pub size : IsSigned (2 ^ 15) f.type_size
  pub modifier : IsSigned (2 ^ 31) f.type_modifier
  pub format : IsSigned (2 ^ 15) f.format

module _ (crates : Crates) where
  open crates use {write_be}

  i16_lem :
      (v : ℤ) (rest : Bytes)
      → IsSigned (2 ^ 15) v
      → read_i16 crates (write_be 2 (wrap (2 ^ 15) v) ++ rest) ≡ ok (v, rest)
  i16_lem v rest h = read_int-write_be crates 2 (2 ^ 15) v rest refl (omega arith) h

  read_field-append :
      (f : Field) (rest : Bytes)
      → IsField f
      → read_field crates (field_bytes crates f ++ rest) ≡ ok (f, rest)
  unfolding read_field get_str
  read_field-append f rest h =
      let t₆ : Bytes = write_be 2 (wrap (2 ^ 15) f.format) ++ rest in
      let t₅ : Bytes = write_be 4 (wrap (2 ^ 31) f.type_modifier) ++ t₆ in
      let t₄ : Bytes = write_be 2 (wrap (2 ^ 15) f.type_size) ++ t₅ in
      let t₃ : Bytes = write_be 4 f.type_oid ++ t₄ in
      let t₂ : Bytes = write_be 2 (wrap (2 ^ 15) f.column_id) ++ t₃ in
      let t₁ : Bytes = write_be 4 f.table_oid ++ t₂ in
      simp append_assoc (
        rw (
          find_null-append crates f.name t₁ h.no_null,
          slice_to-append f.name (0 ∷ t₁),
          from_utf8_valid f.name h.utf8,
          slice_from-behind f.name 0 t₁,
          read_uint-write_be crates 4 f.table_oid t₂ h.table,
          i16_lem f.column_id t₃ h.column,
          read_uint-write_be crates 4 f.type_oid t₄ h.type,
          i16_lem f.type_size t₅ h.size,
          read_int-write_be crates 4 (2 ^ 31) f.type_modifier t₆ refl (omega arith) h.modifier,
          i16_lem f.format rest h.format,
        ))

module _ (crates : Crates) where
  open crates use {write_be}

  fields-read :
      (fs : List Field)
      → All IsField fs
      → All
          (λ f. (rest : Bytes) → read_field crates (field_bytes crates f ++ rest) ≡ ok (f, rest))
          fs
  fields-read [] h = tt
  fields-read (f ∷ fs) (h, hs) = (λ rest. read_field-append crates f rest h, fields-read fs hs)

  numbers-read :
      (w : ℕ) (ns : List ℕ)
      → All (λ n. n < 256 ^ w) ns
      → All (λ n. (rest : Bytes) → read_uint crates w (write_be w n ++ rest) ≡ ok (n, rest)) ns
  numbers-read w [] h = tt
  numbers-read w (n ∷ ns) (h, hs) =
      (λ rest. read_uint-write_be crates w n rest h, numbers-read w ns hs)

  -- The iterators of a row description, a parameter description and the column formats of a copy
  -- return every listed item in order and then end, where the fields, the oids and the formats are in
  -- range and the body is laid out as the protocol says.
  pub descriptions_read :
      (fs : List Field) (oids formats : List ℕ) (format : ℕ)
      → All IsField fs
      → All (λ n. n < 2 ^ 32) oids
      → All (λ n. n < 2 ^ 16) formats
      → (collect (fields_next crates) (suc (length fs)) (
            fields crates
              (record { storage = concat_map (field_bytes crates) fs; len = length fs }))
          ≡ ok fs)
        × (collect (parameters_next crates) (suc (length oids)) (
              parameters crates
                (record { storage = concat_map (write_be 4) oids; len = length oids }))
            ≡ ok oids)
        × (collect (column_formats_next crates) (suc (length formats)) (
              column_formats crates (record {
                format = format;
                len = length formats;
                storage = concat_map (write_be 2) formats;
              }))
            ≡ ok formats)
  unfolding fields fields_next parameters parameters_next column_formats column_formats_next
  descriptions_read fs oids formats format hf ho hc = (
    collect-next_counted _ (read_field crates) (field_bytes crates) fs (fields-read fs hf),
    collect-next_counted _ (read_u32 crates) (write_be 4) oids (numbers-read 4 oids ho),
    collect-next_counted _ (read_u16 crates) (write_be 2) formats (numbers-read 2 formats hc),
  )

-- A type byte that is not 0 and a value with no null byte.
abbrev pub IsErrorField : ErrorField → Type 0
IsErrorField f = ((f.type_ == 0) ≡ false) × (contains 0 f.value ≡ false)

abbrev pub error_field_bytes : ErrorField → Bytes
error_field_bytes f = f.type_ ∷ null_ended f.value

-- A SASL mechanism: not empty, UTF-8, no null byte.
abbrev pub IsMechanism : Bytes → Type 0
IsMechanism s = ((length s == 0) ≡ false) × (contains 0 s ≡ false) × (is_utf8 s ≡ true)

module _ (crates : Crates) where
  error_fields_step :
      (f : ErrorField) (rest : Bytes)
      → IsErrorField f
      → error_fields_next crates (error_field_bytes f ++ rest) ≡ ok (some f, rest)
  unfolding error_fields_next
  error_fields_step f rest (t, h) = rw (append_assoc f.value (0 ∷ []) rest) (
      rw (t, find_null-append crates f.value rest h)
        (rw (slice_to-append f.value (0 ∷ rest), slice_from-behind f.value 0 rest)))

  sasl_step :
      (s rest : Bytes)
      → IsMechanism s
      → sasl_mechanisms_next crates (null_ended s ++ rest) ≡ ok (some s, rest)
  unfolding sasl_mechanisms_next get_str
  sasl_step s rest (n, h, u) = rw (append_assoc s (0 ∷ []) rest) (
      rw (find_null-append crates s rest h, n)
        (rw (slice_to-append s (0 ∷ rest), from_utf8_valid s u, slice_from-behind s 0 rest)))

  -- The iterator over the fields of an error or a notice returns every field in order, and ends at the
  -- null byte that ends the list.
  pub error_fields_read :
      (fs : List ErrorField)
      → All IsErrorField fs
      → collect
          (error_fields_next crates)
          (suc (length fs))
          (concat_map error_field_bytes fs ++ 0 ∷ [])
        ≡ ok fs
  error_fields_read [] h =
      collect_done (error_fields_next crates) 0 _ [] (unfold error_fields_next in refl)
  error_fields_read (f ∷ fs) (h, hs) =
      rw (append_assoc (error_field_bytes f) (concat_map error_field_bytes fs) (0 ∷ [])) (
        collect_more (error_fields_next crates) _ _ _ f fs
          (error_fields_step f (concat_map error_field_bytes fs ++ 0 ∷ []) h)
          (error_fields_read fs hs))

  -- The iterator over the SASL mechanisms returns every mechanism in order, and ends at the empty one.
  pub sasl_mechanisms_read :
      (ms : List Bytes)
      → All IsMechanism ms
      → collect (sasl_mechanisms_next crates) (suc (length ms)) (concat_map null_ended ms ++ 0 ∷ [])
        ≡ ok ms
  sasl_mechanisms_read [] h =
      collect_done (sasl_mechanisms_next crates) 0 _ (0 ∷ [])
        (unfold sasl_mechanisms_next in rw (find_null-append crates [] [] refl))
  sasl_mechanisms_read (s ∷ ms) (h, hs) =
      rw (append_assoc (null_ended s) (concat_map null_ended ms) (0 ∷ [])) (
        collect_more (sasl_mechanisms_next crates) _ _ _ s ms
          (sasl_step s (concat_map null_ended ms ++ 0 ∷ []) h) (sasl_mechanisms_read ms hs))
