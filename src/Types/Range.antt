-- ===== src/Types/Range.antt =====
-- Range values of postgres-protocol/src/types/mod.rs.
pub mod Bounds
pub mod RoundTrip
use rust_kingbase.Prelude.{
  ◌==◌, if◌then◌else◌, Bytes, length, take, ◌>>=◌, Result, message, ok, ℕ, ◌+◌, ◌/◌, ◌%◌, Bool,
  Option, [], ◌∷◌,
}
use rust_kingbase.Prelude.Int.{pos}
use rust_kingbase.Wire.Crates.{Crates}
use rust_kingbase.Wire.Read.{read_u8, read_i32}
use rust_kingbase.Wire.Write.{put_u8, put_i32, write_at, write_i32_at, nullable_size, IsNull}
use rust_kingbase.Types.Scalar.{drained}
use rust_kingbase.Types.Array.{sized_value}

pub data RangeBound {ℓ} (T : Type ℓ) : Type ℓ where
  inclusive exclusive : T → RangeBound T
  unbounded : RangeBound T

pub data Range : Type 0 where
  empty_range : Range
  nonempty : RangeBound (Option Bytes) → RangeBound (Option Bytes) → Range

abbrev pub upper_unbounded : ℕ
upper_unbounded = 16

abbrev pub lower_unbounded : ℕ
lower_unbounded = 8

abbrev pub upper_inclusive : ℕ
upper_inclusive = 4

abbrev pub lower_inclusive : ℕ
lower_inclusive = 2

abbrev pub range_empty : ℕ
range_empty = 1

-- `tag & bit != 0`, for a power of two.
abbrev pub has_bit : ℕ → ℕ → Bool
has_bit tag bit = (tag / bit) % 2 == 1

-- The bits that one `match` of `range_to_sql` sets. They are 0 before, so that `|=` is a sum.
abbrev pub bound_bits : ℕ → ℕ → RangeBound (Unit {0}) → ℕ
bound_bits at_inclusive at_unbounded (inclusive v) = at_inclusive
bound_bits at_inclusive at_unbounded (exclusive v) = 0
bound_bits at_inclusive at_unbounded unbounded = at_unbounded

unfoldable pub empty_range_to_sql : Bytes → Bytes
empty_range_to_sql buf = put_u8 range_empty buf

module _ (crates : Crates) where
  -- The end of `write_bound`: the length field of a bound is written, and the bytes of no bound are cut
  -- off.
  unfoldable pub close_bound :
      ℕ → Bytes → RangeBound IsNull → Result (RangeBound (Unit {0}) × Bytes)
  close_bound base buf (inclusive null) = do
    size ← nullable_size null (length buf) base
    buf' ← write_i32_at crates base size buf
    ok (inclusive tt, buf')
  close_bound base buf (exclusive null) = do
    size ← nullable_size null (length buf) base
    buf' ← write_i32_at crates base size buf
    ok (exclusive tt, buf')
  close_bound base buf unbounded = ok (unbounded, take base buf)

module _ (crates : Crates) where
  unfoldable pub write_bound :
      (Bytes → Result (Bytes × RangeBound IsNull)) → Bytes → Result (RangeBound (Unit {0}) × Bytes)
  write_bound bound buf = do
    (buf', b) ← bound (put_i32 crates (pos 0) buf)
    close_bound crates (length buf) buf' b

  -- The value of a bound, which is NULL below 0, and the bound by the bit for `inclusive`.
  unfoldable pub read_bound : ℕ → ℕ → ℕ → Bytes → Result (RangeBound (Option Bytes) × Bytes)
  read_bound tag no_bound closed buf =
      if has_bit tag no_bound
      then ok (unbounded, buf)
      else (read_i32 crates buf >>= λ (len, buf₁).
          sized_value (message "invalid message size") len buf₁ >>= λ (value, buf₂).
          ok (if has_bit tag closed then inclusive value else exclusive value, buf₂))

module _ (crates : Crates) where
  unfoldable pub range_to_sql :
      (Bytes → Result (Bytes × RangeBound IsNull))
      → (Bytes → Result (Bytes × RangeBound IsNull))
      → Bytes
      → Result Bytes
  range_to_sql lower upper buf = do
    let tag_idx = length buf
    (l, buf₁) ← write_bound crates lower (put_u8 0 buf)
    (u, buf₂) ← write_bound crates upper buf₁
    let tag =
        bound_bits lower_inclusive lower_unbounded l + bound_bits upper_inclusive upper_unbounded u
    write_at tag_idx (tag ∷ []) buf₂

  -- `range_from_sql` behind the tag of a range that is not empty.
  unfoldable pub read_bounds : ℕ → Bytes → Result Range
  read_bounds tag buf = do
    (l, buf₁) ← read_bound crates tag lower_unbounded lower_inclusive buf
    (u, buf₂) ← read_bound crates tag upper_unbounded upper_inclusive buf₁
    drained "invalid message size" (nonempty l u) buf₂

module _ (crates : Crates) where
  unfoldable pub range_from_sql : Bytes → Result Range
  range_from_sql buf = read_u8 buf >>= λ (tag, rest).
      if tag == range_empty
      then drained "invalid message size" empty_range rest
      else read_bounds crates tag rest
