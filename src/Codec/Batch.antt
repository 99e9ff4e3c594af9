-- ===== src/Codec/Batch.antt =====
-- The loop of `decode` stops at the end of a batch, within its fuel.

use rust_kingbase.Prelude.{
  dec_lt, ◌==◌, if◌then◌else◌, lt→ltb, le→ltb, ==_iff, Bool-cases, Bytes, length, length-append,
  Error, Result, ok, err, panic, ℕ, zero, suc, ◌+◌, ◌^◌, ◌≤◌, ◌<◌, ◌≡◌, refl, sym, ap, ◌∙◌, ◌⊎◌,
  inl, inr, true, false, Option, some, [], ◌∷◌, ◌++◌, append_assoc, arith,
}
use rust_kingbase.Prelude.Int.{pos}
use rust_kingbase.Wire.Crates.{Crates}
use rust_kingbase.Wire.Read.{slice_from, slice_from-append}
use rust_kingbase.Message.Backend.{parse_header, Header}
use rust_kingbase.Message.Backend.Frame.{cut, IsFrame, few, cut_off, invalid, whole}
use rust_kingbase.Codec.{is_async, round, scan, Stop, async_first, stop_at, finished, go_on}
use rust_kingbase.Codec.Scan.{
  header_error, header_few, header_small, header_large, header_some, StartsAsync, Scans, empty,
  ready, another,
}
use rust_kingbase.Message.Backend.Stream.{IsPartial}

module _ (crates : Crates) where
  scan_fails :
      (fuel : ℕ) (src : Bytes) (idx : ℕ) {rest : Bytes} {e : Error}
      → slice_from idx src ≡ ok rest
      → parse_header crates rest ≡ err e
      → scan crates (suc fuel) src idx ≡ err e
  unfolding scan
  scan_fails fuel src idx s h = rw (s, h)

  scan_finished :
      (fuel : ℕ) (src : Bytes) (idx : ℕ) {rest : Bytes} {h : Option Header} {stop : Stop}
      → slice_from idx src ≡ ok rest
      → parse_header crates rest ≡ ok h
      → round idx rest h ≡ finished stop
      → scan crates (suc fuel) src idx ≡ ok stop
  unfolding scan
  scan_finished fuel src idx s h r = ground arith

  scan_go_on :
      (fuel : ℕ) (src : Bytes) (idx : ℕ) {rest : Bytes} {h : Option Header} {idx' : ℕ}
      → slice_from idx src ≡ ok rest
      → parse_header crates rest ≡ ok h
      → round idx rest h ≡ go_on idx'
      → scan crates (suc fuel) src idx ≡ scan crates fuel src idx'
  unfolding scan
  scan_go_on fuel src idx s h r = ground arith

pub suc-ne-zero : (n : ℕ) → (suc n == 0) ≡ false
suc-ne-zero n = ground arith

-- The rounds of the loop on a header `h` with `rest` at the index.
module _ (idx : ℕ) (rest : Bytes) (tag n : ℕ) where
  abbrev header : Option Header
  header = some (record { tag = tag; len = pos n })

  round_short : length rest < n + 1 → round idx rest header ≡ finished (stop_at idx false)
  unfolding round
  round_short h = rw (lt→ltb (length rest) (n + 1) h)

  round_async :
      n + 1 ≤ length rest
      → is_async tag ≡ true
      → round idx rest header ≡ finished (if idx == 0 then async_first else stop_at idx false)
  unfolding round
  round_async h a = rw (le→ltb (length rest) (n + 1) h, a)

  round_ready :
      n + 1 ≤ length rest
      → is_async tag ≡ false
      → (tag == b'Z') ≡ true
      → round idx rest header ≡ finished (stop_at (idx + (n + 1)) true)
  unfolding round
  round_ready h a z = rw (le→ltb (length rest) (n + 1) h, a, z)

  round_on :
      n + 1 ≤ length rest
      → is_async tag ≡ false
      → (tag == b'Z') ≡ false
      → round idx rest header ≡ go_on (idx + (n + 1))
  unfolding round
  round_on h a z = rw (le→ltb (length rest) (n + 1) h, a, z)

module _ (crates : Crates) where
  -- The loop stops at once.
  stop_here :
      (tail : Bytes) (idx : ℕ)
      → (0 < idx) ⊎ IsPartial crates tail
      → IsPartial crates tail ⊎ StartsAsync crates tail
      → Scans crates tail idx (ok (stop_at idx false))
  stop_here tail idx moved why = (
    0,
    omega arith,
    moved,
    record { bytes = []; rest = tail; splits = refl; counts = refl; batch = empty; ends = inr why },
  )

  -- A message in front of what the later rounds find.
  extend :
      (tag : ℕ) (body frame rest tail : Bytes) (idx : ℕ) (r : Result Stop)
      → IsFrame crates tag body frame
      → is_async tag ≡ false
      → (tag == b'Z') ≡ false
      → tail ≡ frame ++ rest
      → 0 < length frame
      → Scans crates rest (idx + length frame) r
      → Scans crates tail idx r
  extend tag body frame rest tail idx (ok async_first) f a z e p s = absurd (omega (arith, s.0))
  extend tag body frame rest tail idx (ok (stop_at n complete)) f a z e p
        (count, at, moved, front) =
      (
        length frame + count,
        omega arith,
        inl (omega arith),
        record {
          bytes = frame ++ front.bytes;
          rest = front.rest;
          splits =
              e ∙ ap (◌++◌ frame) front.splits ∙ sym (append_assoc frame front.bytes front.rest);
          counts = omega (arith, length-append frame front.bytes, front.counts);
          batch = another f a z refl front.batch;
          ends = front.ends;
        },
      )
  extend tag body frame rest tail idx (err e') f a z e p
        (same, (skipped, behind, split, batch, bad)) =
      (
        same,
        (
          frame ++ skipped,
          behind,
          e ∙ ap (◌++◌ frame) split ∙ sym (append_assoc frame skipped behind),
          another f a z refl batch,
          bad,
        ),
      )
  extend tag body frame rest tail idx panic f a z e p s = s

  pub length-IsFrame :
      (tag : ℕ) (body frame : Bytes)
      → IsFrame crates tag body frame
      → length frame ≡ length body + 5
  length-IsFrame tag body frame f = rw f.laid_out (omega (arith, length-append f.size body, f.four))

  async_stop :
      (tail : Bytes) (idx : ℕ)
      → StartsAsync crates tail
      → Scans crates tail idx (ok (if idx == 0 then async_first else stop_at idx false))
  async_stop tail zero a = (refl, a)
  async_stop tail (suc idx) a =
      rw (suc-ne-zero idx) (stop_here tail (suc idx) (inl (omega arith)) (inr a))

module _ (crates : Crates) (fuel : ℕ) (pre tail : Bytes) (tag : ℕ) (body frame rest : Bytes)
    (f : IsFrame crates tag body frame) (e : tail ≡ frame ++ rest) where
  len : length frame ≡ length body + 4 + 1
  len = omega (arith, length-IsFrame crates tag body frame f)

  fits : length body + 4 + 1 ≤ length tail
  fits = rw e (omega (arith, length-append frame rest, len))

  sized : tail ≡ tag ∷ (f.size ++ (body ++ rest))
  sized = rw (e, f.laid_out) (ap (◌∷◌ tag) (append_assoc f.size body rest))

  header_frame :
      length body + 4 < 2 ^ 31
      → parse_header crates tail ≡ ok (some (record { tag = tag; len = pos (length body + 4) }))
  header_frame small =
      rw (sized, ← f.counts)
        (header_some crates tag f.size (body ++ rest) f.four (omega (arith, f.counts))
          (omega (arith, f.counts)))

  header_too_large : 2 ^ 31 ≤ length body + 4 → parse_header crates tail ≡ err header_error
  header_too_large large =
      rw sized (header_large crates tag f.size (body ++ rest) f.four (omega (arith, f.counts)))

  scan_frame :
      ((p : Bytes) → Scans crates rest (length p) (scan crates fuel (p ++ rest) (length p)))
      → length body + 4 < 2 ^ 31
      → Scans crates tail (length pre) (scan crates (suc fuel) (pre ++ tail) (length pre))
  scan_frame ih small = elim (Bool-cases (is_async tag)) [
    | inl yes_async ↦
        rw
          (scan_finished crates fuel (pre ++ tail) (length pre) at_tail (header_frame small)
            (round_async (length pre) tail tag (length body + 4) fits yes_async))
          (async_stop crates tail (length pre) (tag, body, frame, rest, f, e, yes_async))
    | inr not_async ↦ elim (Bool-cases (tag == b'Z')) [
      | inl is_ready ↦
          rw
            (scan_finished crates fuel (pre ++ tail) (length pre) at_tail (header_frame small)
              (round_ready (length pre) tail tag (length body + 4) fits not_async is_ready))
            (
              length frame,
              omega (arith, len),
              inl (omega (arith, len)),
              record {
                bytes = frame;
                rest = rest;
                splits = e;
                counts = refl;
                batch = ready f ((==_iff tag b'Z').0 is_ready);
                ends = inl refl;
              },
            )
      | inr not_ready ↦
          rw
            (scan_go_on crates fuel (pre ++ tail) (length pre) at_tail (header_frame small)
              (round_on (length pre) tail tag (length body + 4) fits not_async not_ready))
            (extend crates tag body frame rest tail (length pre) _ f not_async not_ready e
              (omega (arith, len)) moved)
    ]
  ]
    where
      at_tail : slice_from (length pre) (pre ++ tail) ≡ ok tail
      at_tail = slice_from-append pre tail

      moved :
          Scans crates rest
            (length pre + length frame)
            (scan crates fuel (pre ++ tail) (length pre + (length body + 4 + 1)))
      moved =
          rw (e, ← append_assoc pre frame rest, ← len, ← length-append pre frame)
            (ih (pre ++ frame))

module _ (crates : Crates) where
  pub scan-Scans :
      (fuel : ℕ) (pre tail : Bytes)
      → length tail < fuel
      → Scans crates tail (length pre) (scan crates fuel (pre ++ tail) (length pre))
  unfolding round
  scan-Scans zero pre tail h = absurd (omega arith)
  scan-Scans (suc fuel) pre tail h = elim (cut crates tail) [
    | few short ↦
        rw
          (scan_finished crates fuel (pre ++ tail) (length pre) (slice_from-append pre tail)
            (header_few crates tail short) refl)
          (stop_here crates tail (length pre) (inr (inl short)) (inl (inl short)))
    | cut_off tag size rest e four short ↦ rw e (cut_off_case tag size rest four short)
    | invalid tag size rest e four small ↦ rw e (
        rw
          (scan_fails crates fuel (pre ++ (tag ∷ (size ++ rest))) (length pre)
            (slice_from-append pre (tag ∷ (size ++ rest)))
            (header_small crates tag size rest four small))
          (refl, ([], _, refl, empty, (tag, size, rest, refl, four, inl small))))
    | whole tag body frame rest f e ↦ elim (dec_lt (length body + 4) (2 ^ 31)) [
      | yes small ↦
          scan_frame crates fuel pre tail tag body frame rest f e
            (λ p. scan-Scans fuel p rest (shorter tag body frame rest f e)) small
      | no large ↦
          rw
            (scan_fails crates fuel (pre ++ tail) (length pre) (slice_from-append pre tail)
              (header_too_large crates fuel pre tail tag body frame rest f e (omega arith)))
            (
              refl,
              (
                [],
                tail,
                refl,
                empty,
                (
                  tag,
                  f.size,
                  body ++ rest,
                  sized crates fuel pre tail tag body frame rest f e,
                  f.four,
                  inr (omega (arith, f.counts)),
                ),
              ),
            )
    ]
  ]
    where
      cut_off_case :
          (tag : ℕ) (size rest : Bytes)
          → length size ≡ 4
          → length rest + 4 < crates.read_be size
          → Scans crates
              (tag ∷ (size ++ rest))
              (length pre)
              (scan crates (suc fuel) (pre ++ (tag ∷ (size ++ rest))) (length pre))
      cut_off_case tag size rest four short = elim (dec_lt (crates.read_be size) (2 ^ 31)) [
        | yes small ↦
            rw
              (scan_finished crates fuel (pre ++ (tag ∷ (size ++ rest))) (length pre)
                (slice_from-append pre (tag ∷ (size ++ rest)))
                (header_some crates tag size rest four (omega arith) small)
                (round_short (length pre) (tag ∷ (size ++ rest)) tag (crates.read_be size)
                  (omega (arith, length-append size rest))))
              (stop_here crates (tag ∷ (size ++ rest)) (length pre)
                (inr (inr (tag, size, rest, refl, four, short)))
                (inl (inr (tag, size, rest, refl, four, short))))
        | no large ↦
            rw
              (scan_fails crates fuel (pre ++ (tag ∷ (size ++ rest))) (length pre)
                (slice_from-append pre (tag ∷ (size ++ rest)))
                (header_large crates tag size rest four (omega arith)))
              (refl, ([], _, refl, empty, (tag, size, rest, refl, four, inr (omega arith))))
      ]

      shorter :
          (tag : ℕ) (body frame rest : Bytes)
          → IsFrame crates tag body frame
          → tail ≡ frame ++ rest
          → length rest < fuel
      shorter tag body frame rest f e =
          omega
            (arith, ap length e, length-append frame rest, length-IsFrame crates tag body frame f)
