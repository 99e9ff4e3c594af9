-- ===== src/Types/Range/Bounds.antt =====
-- What write_bound writes for a bound, and how the tag of a range holds the kinds of its bounds.
use rust_kingbase.Prelude.{
  ◌==◌, Bytes, length, take, take-append, Result, ok, ℕ, ◌+◌, ◌^◌, ◌<◌, ◌≡◌, refl, sym, ap, ◌∙◌,
  Bool, true, false, Option, none, some, [], ◌++◌, append-nil, append_assoc,
}
use rust_kingbase.Prelude.Int.{wrap, pos}
use rust_kingbase.Wire.Crates.{Crates}
use rust_kingbase.Wire.Write.{
  put_i32, size_field, nullable_size-append, write_i32_at-append, IsNull, yes_null, no_null,
}
use rust_kingbase.Types.Range.{
  upper_unbounded, lower_unbounded, upper_inclusive, lower_inclusive, range_empty, has_bit,
  bound_bits, close_bound, write_bound, RangeBound, inclusive, exclusive, unbounded,
}

abbrev pub nullness : Option Bytes → IsNull
nullness none = yes_null
nullness (some v) = no_null

abbrev pub bytes_of : Option Bytes → Bytes
bytes_of none = []
bytes_of (some v) = v

abbrev pub is_unbounded : RangeBound (Option Bytes) → Bool
is_unbounded unbounded = true
is_unbounded _ = false

abbrev pub is_inclusive : RangeBound (Option Bytes) → Bool
is_inclusive (inclusive v) = true
is_inclusive _ = false

abbrev pub kind : RangeBound (Option Bytes) → RangeBound (Unit {0})
kind (inclusive v) = inclusive tt
kind (exclusive v) = exclusive tt
kind unbounded = unbounded

-- The serializer appends the value of the bound and answers its kind; with no bound it may append
-- anything.
abbrev pub Bounds :
    (Bytes → Result (Bytes × RangeBound IsNull)) → RangeBound (Option Bytes) → Type 0
Bounds f (inclusive v) = (buf : Bytes) → f buf ≡ ok (buf ++ bytes_of v, inclusive (nullness v))
Bounds f (exclusive v) = (buf : Bytes) → f buf ≡ ok (buf ++ bytes_of v, exclusive (nullness v))
Bounds f unbounded = (extra : Bytes) × ((buf : Bytes) → f buf ≡ ok (buf ++ extra, unbounded))

-- The value of the bound is short enough for its length field.
abbrev pub IsShort : RangeBound (Option Bytes) → Type 0
IsShort (inclusive v) = length (bytes_of v) < 2 ^ 31
IsShort (exclusive v) = length (bytes_of v) < 2 ^ 31
IsShort unbounded = Unit

abbrev pub tag_of : RangeBound (Option Bytes) → RangeBound (Option Bytes) → ℕ
tag_of l u =
    bound_bits lower_inclusive lower_unbounded (kind l)
    + bound_bits upper_inclusive upper_unbounded (kind u)

-- The tag holds the kind of both bounds, and is not that of the empty range.
pub lower_bits :
    (l u : RangeBound (Option Bytes))
    → (has_bit (tag_of l u) lower_unbounded ≡ is_unbounded l)
      × (has_bit (tag_of l u) lower_inclusive ≡ is_inclusive l)
lower_bits (inclusive v) (inclusive w) = (refl, refl)
lower_bits (inclusive v) (exclusive w) = (refl, refl)
lower_bits (inclusive v) unbounded = (refl, refl)
lower_bits (exclusive v) (inclusive w) = (refl, refl)
lower_bits (exclusive v) (exclusive w) = (refl, refl)
lower_bits (exclusive v) unbounded = (refl, refl)
lower_bits unbounded (inclusive w) = (refl, refl)
lower_bits unbounded (exclusive w) = (refl, refl)
lower_bits unbounded unbounded = (refl, refl)

pub upper_bits :
    (l u : RangeBound (Option Bytes))
    → (has_bit (tag_of l u) upper_unbounded ≡ is_unbounded u)
      × (has_bit (tag_of l u) upper_inclusive ≡ is_inclusive u)
      × ((tag_of l u == range_empty) ≡ false)
upper_bits (inclusive v) (inclusive w) = (refl, refl, refl)
upper_bits (inclusive v) (exclusive w) = (refl, refl, refl)
upper_bits (inclusive v) unbounded = (refl, refl, refl)
upper_bits (exclusive v) (inclusive w) = (refl, refl, refl)
upper_bits (exclusive v) (exclusive w) = (refl, refl, refl)
upper_bits (exclusive v) unbounded = (refl, refl, refl)
upper_bits unbounded (inclusive w) = (refl, refl, refl)
upper_bits unbounded (exclusive w) = (refl, refl, refl)
upper_bits unbounded unbounded = (refl, refl, refl)

module _ (crates : Crates) where
  open crates use {write_be, length-write_be}

  abbrev pub value_field : Option Bytes → Bytes
  value_field v = write_be 4 (wrap (2 ^ 31) (size_field (nullness v) (bytes_of v))) ++ bytes_of v

  -- What stands in the message for a bound.
  abbrev pub bound_field : RangeBound (Option Bytes) → Bytes
  bound_field (inclusive v) = value_field v
  bound_field (exclusive v) = value_field v
  bound_field unbounded = []

module _ (crates : Crates) where
  open crates use {write_be, length-write_be}

  pub bound_written :
      (f : Bytes → Result (Bytes × RangeBound IsNull)) (b : RangeBound (Option Bytes)) (buf : Bytes)
      → Bounds f b
      → IsShort b
      → write_bound crates f buf ≡ ok (kind b, buf ++ bound_field crates b)
  unfolding write_bound close_bound
  bound_written f (inclusive v) buf h short =
      rw
        (
          h (put_i32 crates (pos 0) buf),
          nullable_size-append (nullness v) buf (write_be 4 (wrap (2 ^ 31) (pos 0))) (bytes_of v)
              (length-write_be 4 _) short,
          write_i32_at-append crates buf (bytes_of v) (pos 0)
              (size_field (nullness v) (bytes_of v)),
        )
        (ap (λ b. ok (inclusive tt, b)) (append_assoc buf _ (bytes_of v)))
  bound_written f (exclusive v) buf h short =
      rw
        (
          h (put_i32 crates (pos 0) buf),
          nullable_size-append (nullness v) buf (write_be 4 (wrap (2 ^ 31) (pos 0))) (bytes_of v)
              (length-write_be 4 _) short,
          write_i32_at-append crates buf (bytes_of v) (pos 0)
              (size_field (nullness v) (bytes_of v)),
        )
        (ap (λ b. ok (exclusive tt, b)) (append_assoc buf _ (bytes_of v)))
  bound_written f unbounded buf (extra, h) short = rw (h (put_i32 crates (pos 0) buf)) (
      ap (λ b. ok (unbounded, b))
        (ap (take (length buf)) (append_assoc buf _ extra)
          ∙ take-append buf _
          ∙ sym (append-nil buf)))
