-- ===== src/Wire/Standard.antt =====
-- Functions that meet the laws of `Crates`: big-endian numbers digit by digit, and a linear search.
use native.Mathlib.Nat.{pow-suc}
use rust_kingbase.Prelude.{
  ℕ, zero, suc, ◌+◌, ◌*◌, ◌/◌, ◌%◌, ◌^◌, ◌≤◌, ◌<◌, ◌≡◌, refl, ap, false, [], ◌∷◌, ◌++◌, Option,
  none, some, Bytes, IsByte, All, length, length-append, ◌==◌, if◌then◌else◌, arith,
}
use rust_kingbase.Wire.Crates.{Crates, contains}
use mathlib.Core.Option

abbrev pub be_bytes : ℕ → ℕ → Bytes
be_bytes zero n = []
be_bytes (suc w) n = be_bytes w (n / 256) ++ n % 256 ∷ []

-- The number of the bytes `bs` behind the number `acc`.
abbrev pub be_value : ℕ → Bytes → ℕ
be_value acc [] = acc
be_value acc (b ∷ bs) = be_value (acc * 256 + b) bs

abbrev position : ℕ → Bytes → Option ℕ
position b [] = none
position b (c ∷ s) = if c == b then some 0 else Option.map suc (position b s)

pub length-be_bytes : (w n : ℕ) → length (be_bytes w n) ≡ w
length-be_bytes zero n = refl
length-be_bytes (suc w) n =
    omega (arith, length-append (be_bytes w (n / 256)) (n % 256 ∷ []), length-be_bytes w (n / 256))

be_value-append :
    (acc : ℕ) (xs : Bytes) (b : ℕ) → be_value acc (xs ++ b ∷ []) ≡ be_value acc xs * 256 + b
be_value-append acc [] b = refl
be_value-append acc (x ∷ xs) b = be_value-append (acc * 256 + x) xs b

pub be_value-be_bytes : (w n : ℕ) → n < 256 ^ w → be_value 0 (be_bytes w n) ≡ n
be_value-be_bytes zero n h = omega arith
be_value-be_bytes (suc w) n h = omega (
  arith,
  be_value-append 0 (be_bytes w (n / 256)) (n % 256),
  be_value-be_bytes w (n / 256) (omega (arith, pow-suc 256 w)),
)

pow_grow : (acc b m : ℕ) → b < 256 → (acc * 256 + b + 1) * m ≤ (acc + 1) * (256 * m)
pow_grow acc b m h = grind arith

be_value-lt_acc :
    (acc : ℕ) (bs : Bytes) → All IsByte bs → be_value acc bs < (acc + 1) * 256 ^ length bs
be_value-lt_acc acc [] h = omega arith
be_value-lt_acc acc (b ∷ bs) (p, h) = omega (
  arith,
  be_value-lt_acc (acc * 256 + b) bs h,
  ap (λ (t : ℕ). (acc + 1) * t) (pow-suc 256 (length bs)),
  pow_grow acc b (256 ^ length bs) p,
)

pub be_value-lt : (bs : Bytes) → All IsByte bs → be_value 0 bs < 256 ^ length bs
be_value-lt bs h = omega (arith, be_value-lt_acc 0 bs h)

pub position_found :
    (b : ℕ) (s rest : Bytes) → contains b s ≡ false → position b (s ++ b ∷ rest) ≡ some (length s)
position_found b [] rest h = ground arith
position_found b (c ∷ s) rest h = ground (arith, position_found b s rest)

pub position_absent : (b : ℕ) (s : Bytes) → contains b s ≡ false → position b s ≡ none
position_absent b [] h = refl
position_absent b (c ∷ s) h = ground (arith, position_absent b s)

abbrev pub standard : Crates
standard = record {
  write_be = be_bytes;
  read_be = be_value 0;
  memchr = position;
  length-write_be = length-be_bytes;
  read_be-write_be = be_value-be_bytes;
  read_be-lt = be_value-lt;
  memchr_found = position_found;
  memchr_absent = position_absent;
}
