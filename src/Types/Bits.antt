-- ===== src/Types/Bits.antt =====
-- VARBIT and BIT of postgres-protocol/src/types/mod.rs.
pub mod RoundTrip
use rust_kingbase.Prelude.{
  ◌==◌, if◌then◌else◌, Bytes, length, ◌>>=◌, Result, message, ok, err, ℕ, ◌+◌, ◌/◌, ◌<◌, [], ◌∷◌,
}
use rust_kingbase.Prelude.Int.{ℤ, pos, negsuc}
use rust_kingbase.Wire.Crates.{Crates}
use rust_kingbase.Wire.Read.{read_i32}
use rust_kingbase.Wire.Write.{put_u8, put_i32, i32_from_usize}

pub record Varbit : Type 0 where
  pub len : ℕ
  pub bytes : Bytes

-- `div_ceil(8)`
abbrev pub div_ceil8 : ℕ → ℕ
div_ceil8 n = (n + 7) / 8

-- The loop of `varbit_to_sql`.
unfoldable pub put_bytes : Bytes → Bytes → Bytes
put_bytes [] buf = buf
put_bytes (b ∷ v) buf = put_bytes v (put_u8 b buf)

-- The tests of `varbit_from_sql` on the length.
unfoldable pub varbit_of : ℤ → Bytes → Result Varbit
varbit_of (negsuc n) buf = err (message "invalid varbit length: varbit < 0")
varbit_of (pos len) buf =
    if length buf == div_ceil8 len
    then ok (record { len = len; bytes = buf })
    else err (message "invalid message length: varbit mismatch")

module _ (crates : Crates) where
  unfoldable pub varbit_to_sql : ℕ → Bytes → Bytes → Result Bytes
  varbit_to_sql len v buf = do n ← i32_from_usize len; ok (put_bytes v (put_i32 crates n buf))

  unfoldable pub varbit_from_sql : Bytes → Result Varbit
  varbit_from_sql buf = do (len, rest) ← read_i32 crates buf; varbit_of len rest
