-- ===== src/Examples/Spans.antt =====
-- Ranges, for types/mod.rs.
use rust_kingbase.Prelude.{Bytes, drop, Result, ok, ◌≡◌, refl, some, [], ◌∷◌, ◌++◌, arith}
use rust_kingbase.Wire.Standard.{standard}
use rust_kingbase.Wire.Write.{IsNull, no_null}
use rust_kingbase.Types.Range.{
  empty_range_to_sql, range_to_sql, range_from_sql, RangeBound, inclusive, unbounded, empty_range,
  nonempty,
}
use rust_kingbase.Types.Range.RoundTrip.{range_round_trip}

-- A lower bound of one byte, and no upper one: what its serializer appends is cut off.
abbrev put_lower : Bytes → Result (Bytes × RangeBound IsNull)
put_lower buf = ok (buf ++ 5 ∷ [], inclusive no_null)

abbrev put_upper : Bytes → Result (Bytes × RangeBound IsNull)
put_upper buf = ok (buf ++ 6 ∷ [], unbounded)

range_round_trip_example :
    (out : Bytes) × (range_to_sql standard put_lower put_upper (9 ∷ []) ≡ ok (9 ∷ out))
    × (range_from_sql standard out ≡ ok (nonempty (inclusive (some (5 ∷ []))) unbounded))
    × (range_from_sql standard (drop 1 (empty_range_to_sql (9 ∷ []))) ≡ ok empty_range)
range_round_trip_example =
    range_round_trip standard put_lower put_upper (inclusive (some (5 ∷ []))) unbounded (9 ∷ [])
      (λ b. refl) (6 ∷ [], λ b. refl) (omega arith) tt
