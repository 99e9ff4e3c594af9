-- ===== src/Prelude/Int.antt =====
-- Rust's signed integers: ℤ over the native numbers, and two's complement at every width.
use Prim.Native.Nat.{ℕ, ◌+◌, ◌-◌, ◌%◌, ◌≤◌, ◌<◌}
use mathlib.Core.Path.{◌≡◌, ap, ◌∙◌}
use mathlib.Core.Bool.{Bool, true, false}
use native.Mathlib.Nat.{mod-eq_of_lt, mod-lt}
use native.Mathlib.Omega.{arith}
use native.Mathlib.Decide.{dec_lt}
use rust_kingbase.Prelude.Tests.{ltb, if◌then◌else◌, lt→ltb, le→ltb}

-- `negsuc n` is -(n + 1).
pub data ℤ : Type 0 where
  pos : ℕ → ℤ
  negsuc : ℕ → ℤ

-- `v < 0`
abbrev pub is_negative : ℤ → Bool
is_negative (pos n) = false
is_negative (negsuc n) = true

-- The range of a signed type of which `half` values are negative.
abbrev pub IsSigned : ℕ → ℤ → Type 0
IsSigned half (pos n) = n < half
IsSigned half (negsuc n) = n < half

-- The two's complement of a value, and the value of a bit pattern, for `half + half` patterns.
abbrev pub wrap : ℕ → ℤ → ℕ
wrap half (pos n) = n % (half + half)
wrap half (negsuc n) = half + half - 1 - n % (half + half)

abbrev pub signed : ℕ → ℕ → ℤ
signed half u = if ltb u half then pos u else negsuc (half + half - 1 - u)

pub signed_low : (half u : ℕ) → u < half → signed half u ≡ pos u
signed_low half u h = rw (lt→ltb u half h)

pub signed_high : (half u : ℕ) → half ≤ u → signed half u ≡ negsuc (half + half - 1 - u)
signed_high half u h = rw (le→ltb u half h)

wrap_pos : (half n : ℕ) → n < half → wrap half (pos n) ≡ n
wrap_pos half n h = mod-eq_of_lt (omega arith)

wrap_negsuc : (half n : ℕ) → n < half → wrap half (negsuc n) ≡ half + half - 1 - n
wrap_negsuc half n h = ap (λ (r : ℕ). half + half - 1 - r) (mod-eq_of_lt (omega arith))

pub signed-wrap : (half : ℕ) (v : ℤ) → IsSigned half v → signed half (wrap half v) ≡ v
signed-wrap half (pos n) h = rw (wrap_pos half n h) (signed_low half n h)
signed-wrap half (negsuc n) h =
    rw (wrap_negsuc half n h)
      (signed_high half (half + half - 1 - n) (omega arith) ∙ ap negsuc (omega arith))

pub wrap-lt : (half : ℕ) (v : ℤ) → 0 < half → wrap half v < half + half
wrap-lt half (pos n) h = mod-lt n (omega arith)
wrap-lt half (negsuc n) h = omega arith

pub wrap-signed : (half u : ℕ) → u < half + half → wrap half (signed half u) ≡ u
wrap-signed half u h = elim (dec_lt u half) [
  | yes low ↦ rw (signed_low half u low) (wrap_pos half u low)
  | no high ↦
      rw (signed_high half u (omega arith))
        (wrap_negsuc half (half + half - 1 - u) (omega arith) ∙ omega arith)
]

pub signed-IsSigned : (half u : ℕ) → u < half + half → IsSigned half (signed half u)
signed-IsSigned half u h = elim (dec_lt u half) [
  | yes low ↦ rw (signed_low half u low) low
  | no high ↦ rw (signed_high half u (omega arith)) (omega arith)
]
