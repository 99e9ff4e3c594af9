-- ===== src/Message/Frontend/Layout.antt =====
-- The bytes of each client message, and the inputs that are refused.
use native.Mathlib.Nat.{mod-eq_of_lt, add_assoc, add_comm}
use rust_kingbase.Prelude.{
  ◌>>=◌, Bytes, length, length-append, Error, Result, invalid_input, ok, err, ℕ, ◌+◌, ◌^◌, ◌≤◌, ◌<◌,
  ◌≡◌, sym, ap, false, [], ◌∷◌, ◌++◌, append_assoc, arith,
}
use rust_kingbase.Prelude.Int.{wrap, pos}
use rust_kingbase.Wire.Crates.{contains, Crates}
use rust_kingbase.Wire.Write.{write_at-append, sub_usize_add, from_usize_fits, from_usize_large}
use rust_kingbase.Message.Frontend.{zeros4, write_cstr, write_body}

-- The writer appends `out`, whatever the buffer holds.
abbrev pub Puts : (Bytes → Result Bytes) → Bytes → Type 0
Puts f out = (buf : Bytes) → f buf ≡ ok (buf ++ out)

abbrev pub cstr : Bytes → Bytes
cstr s = s ++ 0 ∷ []

pub write_cstr-Puts : (s : Bytes) → contains 0 s ≡ false → Puts (write_cstr s) (cstr s)
unfolding write_cstr
write_cstr-Puts s h buf = rw h (ap ok (append_assoc buf s (0 ∷ [])))

module _ (crates : Crates) where
  open crates use {write_be, length-write_be}

  -- The length field of a message counts itself and the body.
  abbrev pub sized : Bytes → Bytes
  sized body = write_be 4 (length body + 4) ++ body

  abbrev pub framed : ℕ → Bytes → Bytes
  framed tag body = tag ∷ sized body

-- One writer after another.
pub then-Puts :
    (f g : Bytes → Result Bytes) (x y : Bytes)
    → Puts f x
    → Puts g y
    → Puts (λ b. f b >>= g) (x ++ y)
then-Puts f g x y p q b = rw (p b, q (b ++ x)) (ap ok (append_assoc b x y))

pub wrap_length : (n : ℕ) → n < 2 ^ 31 → wrap (2 ^ 31) (pos n) ≡ n
wrap_length n h = mod-eq_of_lt (omega arith)

module _ (crates : Crates) where
  open crates use {write_be, length-write_be}

  pub write_body-Puts :
      (into : Error → Error) (f : Bytes → Result Bytes) (body buf : Bytes)
      → Puts f body
      → length body + 4 < 2 ^ 31
      → write_body crates into f buf ≡ ok (buf ++ sized crates body)
  unfolding write_body
  write_body-Puts into f body buf p h =
      rw
        (
          p (buf ++ zeros4),
          length-append (buf ++ zeros4) body,
          length-append buf zeros4,
          add_assoc (length buf) 4 (length body),
          sub_usize_add (length buf) (4 + length body),
          add_comm 4 (length body),
          from_usize_fits 2147483647 (length body + 4) (omega arith),
          append_assoc buf zeros4 body,
          wrap_length (length body + 4) h,
        )
        (write_at-append buf zeros4 body (write_be 4 (length body + 4)) (sym (length-write_be 4 _)))

  pub write_body-too_large :
      (into : Error → Error) (f : Bytes → Result Bytes) (body buf : Bytes)
      → Puts f body
      → 2 ^ 31 ≤ length body + 4
      → write_body crates into f buf ≡ err (into (invalid_input "value too large to transmit"))
  unfolding write_body
  write_body-too_large into f body buf p h = rw (
    p (buf ++ zeros4),
    length-append (buf ++ zeros4) body,
    length-append buf zeros4,
    add_assoc (length buf) 4 (length body),
    sub_usize_add (length buf) (4 + length body),
    from_usize_large 2147483647 (4 + length body) (omega arith),
  )
