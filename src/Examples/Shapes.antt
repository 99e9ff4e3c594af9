-- ===== src/Examples/Shapes.antt =====
-- Points, paths, addresses, bit strings and entries, for types/mod.rs.
use rust_kingbase.Wire.Read.{split_at, read_int, read_uint, read_exact}
use rust_kingbase.Prelude.{
  Bytes, drop, All, ◌>>=◌, ok, panic, ◌≡◌, refl, Option, none, some, List, [], ◌∷◌, arith,
}
use rust_kingbase.Wire.Standard.{standard}
use rust_kingbase.Wire.Iterate.{collect, next_counted}
use rust_kingbase.Wire.Utf8.{is_utf8}
use rust_kingbase.Types.Geometry.{Point}
use rust_kingbase.Types.Geometry.RoundTrip.{IsPoint}
use rust_kingbase.Types.Inet.{inet_to_sql, inet_from_sql, IpAddr, v4}
use rust_kingbase.Types.Inet.RoundTrip.{inet_round_trip}
use rust_kingbase.Types.Hstore.{hstore_to_sql, hstore_from_sql, entries_next, read_entry, key_of}
use rust_kingbase.Types.Hstore.RoundTrip.{IsEntry, hstore_round_trip}

-- The bit patterns of 1.0 and 2.0.
abbrev one_two : Point
one_two = record { x = 0x3ff0000000000000; y = 0x4000000000000000 }

abbrev two_one : Point
two_one = record { x = 0x4000000000000000; y = 0x3ff0000000000000 }

one_two-IsPoint : IsPoint one_two
one_two-IsPoint = (omega arith, omega arith)

two_one-IsPoint : IsPoint two_one
two_one-IsPoint = (omega arith, omega arith)

abbrev local_host : IpAddr
local_host = v4 (127 ∷ 0 ∷ 0 ∷ 1 ∷ [])

inet_round_trip_example :
    inet_from_sql (drop 1 (inet_to_sql local_host 8 (9 ∷ [])))
    ≡ ok (record { addr = local_host; netmask = 8 })
inet_round_trip_example = inet_round_trip local_host 8 (9 ∷ []) refl

-- One key with a value, one with NULL.
abbrev entries : List (Bytes × Option Bytes)
entries = (b'a' ∷ [], some (b'b' ∷ [])) ∷ (b'c' ∷ [], none) ∷ []

entries_valid : All IsEntry entries
unfolding is_utf8
entries_valid = (((refl, omega arith), (refl, omega arith)), (((refl, omega arith), tt), tt))

hstore_round_trip_example :
    (out : Bytes) × (hstore_to_sql standard entries (7 ∷ []) ≡ ok (7 ∷ out))
    × ((hstore_from_sql standard out >>= collect (entries_next standard) 3) ≡ ok entries)
hstore_round_trip_example = hstore_round_trip standard entries (7 ∷ []) (omega arith) entries_valid

-- A key length past the end of the buffer.
hstore_long_key_panics :
    entries_next standard (record { buf = 0 ∷ 0 ∷ 0 ∷ 9 ∷ b'a' ∷ []; remaining = 1 }) ≡ panic
unfolding entries_next next_counted read_entry key_of split_at read_int read_uint read_exact
hstore_long_key_panics = refl
