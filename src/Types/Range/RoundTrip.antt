-- ===== src/Types/Range/RoundTrip.antt =====
-- range_to_sql and range_from_sql: ranges read back.
use rust_kingbase.Prelude.{
  Bytes, length, drop, drop-append, ◌>>=◌, Result, message, ok, ℕ, ◌^◌, ◌<◌, ◌≡◌, refl, sym, ap,
  ◌∙◌, Option, none, some, [], ◌∷◌, ◌++◌, append-nil, append_assoc, arith,
}
use rust_kingbase.Prelude.Int.{wrap, pos, negsuc}
use rust_kingbase.Wire.Crates.{Crates}
use rust_kingbase.Wire.Read.{read_i32, split_at_checked-append, read_int-write_be}
use rust_kingbase.Wire.Write.{put_u8, write_at_here, IsNull}
use rust_kingbase.Types.Array.{sized_value}
use rust_kingbase.Types.Range.{
  upper_unbounded, lower_unbounded, upper_inclusive, lower_inclusive, range_empty, has_bit,
  empty_range_to_sql, read_bound, range_to_sql, read_bounds, range_from_sql, RangeBound, inclusive,
  exclusive, unbounded, empty_range, nonempty,
}
use rust_kingbase.Types.Range.Bounds.{
  bytes_of, is_unbounded, is_inclusive, Bounds, IsShort, tag_of, lower_bits, upper_bits,
  value_field, bound_field, bound_written,
}

module _ (crates : Crates) {R : Type 0} where
  open crates use {write_be}

  value_read :
      (v : Option Bytes) (rest : Bytes) (k : Option Bytes × Bytes → Result R)
      → length (bytes_of v) < 2 ^ 31
      → (read_i32 crates (value_field crates v ++ rest) >>= λ p.
          sized_value (message "invalid message size") p.0 p.1 >>= k)
        ≡ k (v, rest)
  unfolding sized_value
  value_read none rest k h =
      rw
        (
          append_assoc (write_be 4 (wrap (2 ^ 31) (negsuc 0))) [] rest,
          read_int-write_be crates 4 (2 ^ 31) (negsuc 0) rest refl (omega arith) (omega arith),
        )
        refl
  value_read (some v) rest k h =
      rw
        (
          append_assoc (write_be 4 (wrap (2 ^ 31) (pos (length v)))) v rest,
          read_int-write_be crates 4 (2 ^ 31) (pos (length v)) (v ++ rest) refl (omega arith) h,
          split_at_checked-append v rest,
        )
        refl

module _ (crates : Crates) where
  bound_read :
      (tag no_bound closed : ℕ) (b : RangeBound (Option Bytes)) (rest : Bytes)
      → has_bit tag no_bound ≡ is_unbounded b
      → has_bit tag closed ≡ is_inclusive b
      → IsShort b
      → read_bound crates tag no_bound closed (bound_field crates b ++ rest) ≡ ok (b, rest)
  unfolding read_bound
  bound_read tag no_bound closed (inclusive v) rest n c h =
      rw (n, c) (value_read crates v rest (λ p. ok (inclusive p.0, p.1)) h)
  bound_read tag no_bound closed (exclusive v) rest n c h =
      rw (n, c) (value_read crates v rest (λ p. ok (exclusive p.0, p.1)) h)
  bound_read tag no_bound closed unbounded rest n c h = rw n refl

  -- A range whose bounds are short enough for their length fields is written and read back: where the
  -- serializers append the values of the bounds, which may be NULL, and answer their kinds,
  -- `range_to_sql` appends bytes from which `range_from_sql` makes the same bounds. What a serializer
  -- appended for no bound is not kept. The empty range is read back as well.
  pub range_round_trip :
      (f g : Bytes → Result (Bytes × RangeBound IsNull)) (l u : RangeBound (Option Bytes))
      (buf : Bytes)
      → Bounds f l
      → Bounds g u
      → IsShort l
      → IsShort u
      → (out : Bytes) × (range_to_sql crates f g buf ≡ ok (buf ++ out))
        × (range_from_sql crates out ≡ ok (nonempty l u))
        × (range_from_sql crates (drop (length buf) (empty_range_to_sql buf)) ≡ ok empty_range)
  unfolding range_to_sql range_from_sql read_bounds empty_range_to_sql
  range_round_trip f g l u buf hf hg hl hu =
      let fields : Bytes = bound_field crates l ++ bound_field crates u in
      let (no_lower, closed_lower) = lower_bits l u in
      let (no_upper, closed_upper, filled) = upper_bits l u in
      let upper_alone : read_bound crates (tag_of l u) upper_unbounded upper_inclusive
            (bound_field crates u)
          ≡ ok (u, []) =
        ap (read_bound crates (tag_of l u) upper_unbounded upper_inclusive)
          (sym (append-nil (bound_field crates u)))
        ∙ bound_read (tag_of l u) upper_unbounded upper_inclusive u [] no_upper closed_upper hu in
      (
        tag_of l u ∷ fields,
        rw
            (
              bound_written crates f l (put_u8 0 buf) hf hl,
              bound_written crates g u (put_u8 0 buf ++ bound_field crates l) hg hu,
            )
            (write_at_here (length buf) _ buf (0 ∷ []) fields (tag_of l u ∷ []) refl
              (simp append_assoc) refl),
        rw
            (
              filled,
              bound_read (tag_of l u) lower_unbounded lower_inclusive l (bound_field crates u)
                  no_lower closed_lower hl,
            )
            (rw upper_alone refl),
        rw (drop-append buf (range_empty ∷ [])) refl,
      )
