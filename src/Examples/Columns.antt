-- ===== src/Examples/Columns.antt =====
-- Bodies for the iterators of message/backend.rs.
use rust_kingbase.Prelude.{
  Bytes, concat_map, ok, ℕ, ◌≡◌, refl, true, Option, none, some, List, [], ◌∷◌, ◌++◌, map, arith,
}
use rust_kingbase.Prelude.Int.{pos, negsuc}
use rust_kingbase.Wire.Standard.{standard}
use rust_kingbase.Wire.Iterate.{collect}
use rust_kingbase.Wire.Utf8.{is_utf8}
use rust_kingbase.Message.Backend.Body.{CountedBody}
use rust_kingbase.Message.Backend.Iterators.{
  ranges, ranges_next, error_fields_next, ErrorField, Field,
}
use rust_kingbase.Message.Backend.Iterators.Ranges.{
  data_row_cells, cell, value_field, StaysIn, ranges_next-StaysIn, ranges-IsInside,
}
use rust_kingbase.Message.Backend.Iterators.Fields.{error_field_bytes, error_fields_read, IsField}

abbrev row : List (Option Bytes)
row = some (b'a' ∷ b'b' ∷ []) ∷ none ∷ some [] ∷ []

data_row_cells_example :
    let storage = concat_map (value_field standard) row in
    (rs : List (Option (ℕ × ℕ))) × (collect
        (ranges_next standard)
        4
        (ranges (record { storage = storage; len = 3 }))
      ≡ ok rs)
    × (map (cell storage) rs ≡ row)
data_row_cells_example = data_row_cells standard row (omega arith, (tt, (omega arith, tt)))

-- A row that ends inside a value.
abbrev torn_row : CountedBody
torn_row = record { storage = 0 ∷ 0 ∷ 0 ∷ 9 ∷ b'a' ∷ []; len = 1 }

ranges_next-StaysIn_example : StaysIn (ranges torn_row).len (ranges_next standard (ranges torn_row))
ranges_next-StaysIn_example =
    ranges_next-StaysIn standard (ranges torn_row) (ranges-IsInside torn_row)

abbrev id_field : Field
id_field = record {
  name = b'i' ∷ b'd' ∷ [];
  table_oid = 16384;
  column_id = pos 1;
  type_oid = 23;
  type_size = pos 4;
  type_modifier = negsuc 0;
  format = pos 0;
}

id_field-IsField : IsField id_field
unfolding is_utf8
id_field-IsField = record {
  no_null = refl;
  utf8 = refl;
  table = omega arith;
  column = omega arith;
  type = omega arith;
  size = omega arith;
  modifier = omega arith;
  format = omega arith;
}

abbrev severity : ErrorField
severity = record { type_ = b'S'; value = b'F' ∷ [] }

error_fields_read_example :
    collect (error_fields_next standard) 2 (concat_map error_field_bytes (severity ∷ []) ++ 0 ∷ [])
    ≡ ok (severity ∷ [])
error_fields_read_example = error_fields_read standard (severity ∷ []) ((refl, refl), tt)

abbrev mechanism : Bytes
mechanism = b'S' ∷ b'C' ∷ []

mechanism_utf8 : is_utf8 mechanism ≡ true
unfolding is_utf8
mechanism_utf8 = refl
