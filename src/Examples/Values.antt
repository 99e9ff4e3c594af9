-- ===== src/Examples/Values.antt =====
-- Values of the types of types/mod.rs.
use rust_kingbase.Prelude.{
  Bytes, ◌>>=◌, Result, ok, ℕ, ◌≡◌, refl, true, Option, none, some, List, [], ◌∷◌, ◌++◌, map, arith,
}
use rust_kingbase.Prelude.Int.{ℤ, pos}
use rust_kingbase.Wire.Standard.{standard}
use rust_kingbase.Wire.Write.{IsNull, yes_null, no_null}
use rust_kingbase.Wire.Iterate.{collect}
use rust_kingbase.Wire.Utf8.{is_utf8}
use rust_kingbase.Types.Array.{
  array_to_sql, array_from_sql, dimensions, values, dimensions_next, values_next, Array,
}
use rust_kingbase.Types.Array.Read.{dimension}
use rust_kingbase.Types.Array.Whole.{array_round_trip}

-- An element is its bytes, and NULL where it has none.
abbrev cell_bytes : Option ℕ → Bytes
cell_bytes none = []
cell_bytes (some b) = b ∷ []

abbrev cell_null : Option ℕ → IsNull
cell_null none = yes_null
cell_null (some b) = no_null

abbrev write_cell : Option ℕ → Bytes → Result (Bytes × IsNull)
write_cell x buf = ok (buf ++ cell_bytes x, cell_null x)

abbrev cells : List (Option ℕ)
cells = some 5 ∷ none ∷ []

-- One dimension of two elements, from 1 on.
abbrev pair_shape : List (ℕ × ℤ)
pair_shape = (2, pos 1) ∷ []

array_round_trip_example :
    (out : Bytes) × (a : Array) × (array_to_sql standard
        (map dimension pair_shape)
        23
        cells
        write_cell
        (9 ∷ [])
      ≡ ok (9 ∷ out))
    × (array_from_sql standard out ≡ ok a)
    × (a.element_type ≡ 23)
    × (a.has_nulls ≡ true)
    × ((dimensions standard a >>= collect (dimensions_next standard) 2)
        ≡ ok (map dimension pair_shape))
    × ((values standard a >>= collect (values_next standard) 3) ≡ ok (some (5 ∷ []) ∷ none ∷ []))
array_round_trip_example =
    array_round_trip standard write_cell cell_bytes cell_null pair_shape 23 cells (9 ∷ [])
      (omega arith) (omega arith, omega arith, omega arith, tt) (omega arith)
      ((λ b. refl, omega arith), ((λ b. refl, refl), tt)) refl

-- An `e` with an acute accent.
abbrev accent : Bytes
accent = 0xc3 ∷ 0xa9 ∷ []

accent_utf8 : is_utf8 accent ≡ true
unfolding is_utf8
accent_utf8 = refl

abbrev mac : Bytes
mac = 1 ∷ 2 ∷ 3 ∷ 4 ∷ 5 ∷ 6 ∷ []

abbrev id : Bytes
id = mac ++ (mac ++ 1 ∷ 2 ∷ 3 ∷ 4 ∷ [])

-- Four bytes: enough for some types, too few or too many for others.
abbrev four_bytes : Bytes
four_bytes = 0xff ∷ 0xff ∷ 0xff ∷ 0xfe ∷ []
