-- ===== src/Codec/Scan.antt =====
-- One round of the loop of `decode`: the header at the index, and where the index goes.
use rust_kingbase.Wire.Read.{slice_to_within}
use rust_kingbase.Prelude.{
  ◌==◌, if◌then◌else◌, lt→ltb, le→ltb, Bytes, length, length-append, take-append_of, Error, Result,
  invalid_data, ok, err, panic, ℕ, ◌+◌, ◌^◌, ◌≤◌, ◌<◌, ◌≡◌, ◌∙◌, ◌⊎◌, Bool, true, false, none, some,
  [], ◌∷◌, ◌++◌, arith,
}
use rust_kingbase.Prelude.Int.{signed, signed_low, signed_high, pos}
use rust_kingbase.Wire.Crates.{Crates}
use rust_kingbase.Message.Backend.{less_than, parse_header}
use rust_kingbase.Message.Backend.Frame.{IsFrame}
use rust_kingbase.Codec.{is_async, Stop, async_first, stop_at}
use rust_kingbase.Message.Backend.Stream.{IsPartial}

abbrev pub header_error : Error
header_error = invalid_data "invalid message length: header length < 4"

pub header_few :
    (crates : Crates) (buf : Bytes) → length buf < 5 → parse_header crates buf ≡ ok none
unfolding parse_header
header_few crates buf h = rw (lt→ltb (length buf) 5 h)

module _ (crates : Crates) (tag : ℕ) (size rest : Bytes) (four : length size ≡ 4) where
  open crates use {read_be}

  header_sized : parse_header crates (tag ∷ (size ++ rest)) ≡ (
      if less_than 4 (signed (2 ^ 31) (read_be size))
      then err header_error
      else ok (some (record { tag = tag; len = signed (2 ^ 31) (read_be size) })))
  unfolding parse_header
  header_sized = rw (
    le→ltb (length (tag ∷ (size ++ rest))) 5 (omega (arith, length-append size rest)),
    slice_to_within 4 (size ++ rest) (omega (arith, length-append size rest)),
    take-append_of 4 size rest four,
  )

  pub header_small :
      read_be size < 4 → parse_header crates (tag ∷ (size ++ rest)) ≡ err header_error
  header_small h =
      header_sized
      ∙ rw (signed_low (2 ^ 31) (read_be size) (omega arith)) (rw (lt→ltb (read_be size) 4 h))

  pub header_large :
      2 ^ 31 ≤ read_be size → parse_header crates (tag ∷ (size ++ rest)) ≡ err header_error
  header_large h = header_sized ∙ rw (signed_high (2 ^ 31) (read_be size) h)

  pub header_some :
      4 ≤ read_be size
      → read_be size < 2 ^ 31
      → parse_header crates (tag ∷ (size ++ rest))
        ≡ ok (some (record { tag = tag; len = pos (read_be size) }))
  header_some h k =
      header_sized ∙ rw (signed_low (2 ^ 31) (read_be size) k) (rw (le→ltb (read_be size) 4 h))

-- What stands at the index where the loop stops with no request complete.
abbrev pub StartsAsync : Crates → Bytes → Type 0
StartsAsync crates buf =
    (tag : ℕ) × (body : Bytes) × (frame : Bytes) × (rest : Bytes) × IsFrame crates tag body frame
    × (buf ≡ frame ++ rest)
    × (is_async tag ≡ true)

-- A run of whole messages, none of them asynchronous, that ends with the first `ReadyForQuery` if the
-- flag is set and holds none otherwise.
pub data Batch (crates : Crates) : Bytes → Bool → Type 0 where
  empty : Batch crates [] false
  ready :
      {tag : ℕ} {body frame : Bytes}
      → IsFrame crates tag body frame
      → tag ≡ b'Z'
      → Batch crates frame true
  another :
      {tag : ℕ} {body frame rest bytes : Bytes} {complete : Bool}
      → IsFrame crates tag body frame
      → is_async tag ≡ false
      → (tag == b'Z') ≡ false
      → bytes ≡ frame ++ rest
      → Batch crates rest complete
      → Batch crates bytes complete

-- A header whose length field is below 4, or negative as an `i32`.
abbrev pub BadHeader : Crates → Bytes → Type 0
BadHeader crates buf =
    (tag : ℕ) × (size : Bytes) × (rest : Bytes) × (buf ≡ tag ∷ (size ++ rest))
    × (length size ≡ 4)
    × ((crates.read_be size < 4) ⊎ (2 ^ 31 ≤ crates.read_be size))

-- Whole messages, none of them asynchronous or a `ReadyForQuery`, with such a header behind them.
abbrev pub Malformed : Crates → Bytes → Type 0
Malformed crates buf =
    (skipped : Bytes) × (rest : Bytes) × (buf ≡ skipped ++ rest)
    × Batch crates skipped false
    × BadHeader crates rest

-- The batch in front of `tail`, and why it ends there.
pub record Front (crates : Crates) (tail : Bytes) (count : ℕ) (complete : Bool) : Type 0 where
  pub bytes : Bytes
  pub rest : Bytes
  pub splits : tail ≡ bytes ++ rest
  pub counts : count ≡ length bytes
  pub batch : Batch crates bytes complete
  pub ends : (complete ≡ true) ⊎ (IsPartial crates rest ⊎ StartsAsync crates rest)

-- What the loop may answer at index `idx` with `tail` behind it.
abbrev pub Scans : Crates → Bytes → ℕ → Result Stop → Type 0
Scans crates tail idx (ok async_first) = (idx ≡ 0) × StartsAsync crates tail
Scans crates tail idx (ok (stop_at n complete)) =
    (count : ℕ) × (n ≡ idx + count)
    × ((0 < n) ⊎ IsPartial crates tail)
    × Front crates tail count complete
Scans crates tail idx (err e) = (e ≡ header_error) × Malformed crates tail
Scans crates tail idx panic = ⊥
