-- ===== src/Types/Bits/RoundTrip.antt =====
-- Bit strings read back.
use rust_kingbase.Prelude.{
  ◌==◌, if◌then◌else◌, Bytes, length, message, ok, err, ℕ, ◌^◌, ◌<◌, ◌≡◌, refl, sym, ap, ◌∙◌, [],
  ◌∷◌, ◌++◌, append-nil, append_assoc, arith,
}
use rust_kingbase.Prelude.Int.{wrap, pos}
use rust_kingbase.Wire.Crates.{Crates}
use rust_kingbase.Wire.Read.{read_int-write_be}
use rust_kingbase.Wire.Write.{put_i32, from_usize_fits}
use rust_kingbase.Types.Bits.{div_ceil8, put_bytes, varbit_of, varbit_to_sql, varbit_from_sql}

put_bytes-append : (v buf : Bytes) → put_bytes v buf ≡ buf ++ v
unfolding put_bytes
put_bytes-append [] buf = sym (append-nil buf)
put_bytes-append (b ∷ v) buf = put_bytes-append v (buf ++ b ∷ []) ∙ append_assoc buf (b ∷ []) v

module _ (crates : Crates) where
  open crates use {write_be}

  -- A bit string of less than 2^31 bits is written, and read back where the bytes are as many as its
  -- bits need; with more or fewer bytes, which `varbit_to_sql` writes as well, the reader refuses it.
  pub varbit_round_trip :
      (len : ℕ) (v buf : Bytes)
      → len < 2 ^ 31
      → (out : Bytes) × (varbit_to_sql crates len v buf ≡ ok (buf ++ out))
        × (varbit_from_sql crates out ≡ (
            if length v == div_ceil8 len
            then ok (record { len = len; bytes = v })
            else err (message "invalid message length: varbit mismatch")))
  unfolding varbit_to_sql varbit_from_sql varbit_of
  varbit_round_trip len v buf h = (
    write_be 4 (wrap (2 ^ 31) (pos len)) ++ v,
    rw
        (
          from_usize_fits 2147483647 len (omega arith),
          put_bytes-append v (put_i32 crates (pos len) buf),
        )
        (ap ok (append_assoc buf _ v)),
    rw (read_int-write_be crates 4 (2 ^ 31) (pos len) v refl (omega arith) h),
  )
