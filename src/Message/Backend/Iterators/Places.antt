-- ===== src/Message/Backend/Iterators/Places.antt =====
-- The places that `find_null` of postgres-protocol/src/message/backend.rs finds lie in the buffer.
use rust_kingbase.Prelude.{
  Bytes, length, Result, unexpected_eof, ok, err, panic, ℕ, ◌+◌, ◌<◌, ◌≡◌, refl, Option, none, some,
  [], arith,
}
use rust_kingbase.Wire.Crates.{Crates, memchr-lt}
use rust_kingbase.Wire.Read.{slice_from-append}
use rust_kingbase.Message.Backend.Iterators.{find_null}

-- The place of a null byte is a place of the buffer.
abbrev pub Found : Bytes → Result ℕ → Type 0
Found buf (ok n) = n < length buf
Found buf (err e) = Unit
Found buf panic = ⊥

module _ (crates : Crates) where
  open crates use {memchr}

  memchr-Found :
      (buf : Bytes) (r : Option ℕ)
      → memchr 0 buf ≡ r
      → Found buf
          (elim r as (λ x. Result ℕ) [ none ↦ err unexpected_eof | some place ↦ ok (place + 0) ])
  memchr-Found buf none e = tt
  memchr-Found buf (some n) e = let h = memchr-lt crates 0 buf e in omega arith

  pub find_null-Found : (buf : Bytes) → Found buf (find_null crates buf 0)
  unfolding find_null
  find_null-Found buf = rw (slice_from-append [] buf) (memchr-Found buf (memchr 0 buf) refl)
