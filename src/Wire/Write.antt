-- ===== src/Wire/Write.antt =====
-- Writers on a buffer: `bytes::BufMut`, `BigEndian::write_i32` in place, `write_nullable`, `FromUsize`.
use native.Mathlib.Nat.{add_assoc}
use rust_kingbase.Prelude.{
  ltb, leb, if◌then◌else◌, Bytes, length, take, drop, length-append, take-append, drop-append,
  drop-add, ◌>>=◌, Result, invalid_input, ok, err, panic, ℕ, ◌+◌, ◌-◌, ◌^◌, ◌≤◌, ◌<◌, ◌≡◌, refl,
  sym, ◌∙◌, true, [], ◌∷◌, ◌++◌, append_assoc, arith,
}
use rust_kingbase.Prelude.Int.{ℤ, pos, negsuc, wrap}
use rust_kingbase.Wire.Crates.{Crates}

pub data IsNull : Type 0 where
  yes_null no_null : IsNull

abbrev pub put_slice : Bytes → Bytes → Bytes
put_slice s buf = buf ++ s

abbrev pub put_u8 : ℕ → Bytes → Bytes
put_u8 b buf = buf ++ b ∷ []

abbrev pub put_i8 : ℤ → Bytes → Bytes
put_i8 v = put_u8 (wrap (2 ^ 7) v)

module _ (crates : Crates) where
  open crates use {write_be}

  abbrev pub put_u16 : ℕ → Bytes → Bytes
  put_u16 n buf = buf ++ write_be 2 n

  abbrev pub put_u32 : ℕ → Bytes → Bytes
  put_u32 n buf = buf ++ write_be 4 n

  abbrev pub put_u64 : ℕ → Bytes → Bytes
  put_u64 n buf = buf ++ write_be 8 n

  abbrev pub put_i16 : ℤ → Bytes → Bytes
  put_i16 v buf = buf ++ write_be 2 (wrap (2 ^ 15) v)

  abbrev pub put_i32 : ℤ → Bytes → Bytes
  put_i32 v buf = buf ++ write_be 4 (wrap (2 ^ 31) v)

  abbrev pub put_i64 : ℤ → Bytes → Bytes
  put_i64 v buf = buf ++ write_be 8 (wrap (2 ^ 63) v)

  abbrev pub put_f32 : ℕ → Bytes → Bytes
  put_f32 n buf = buf ++ write_be 4 n

  abbrev pub put_f64 : ℕ → Bytes → Bytes
  put_f64 n buf = buf ++ write_be 8 n

-- `buf[base..]` overwritten by `bs`, as `BigEndian::write_i32(&mut buf[base..], v)` does it. It panics
-- where the buffer is too short.
unfoldable pub write_at : ℕ → Bytes → Bytes → Result Bytes
write_at base bs buf =
    if leb (base + length bs) (length buf)
    then ok (take base buf ++ (bs ++ drop (base + length bs) buf))
    else panic

-- `a - b` on `usize`, with the overflow check.
unfoldable pub sub_usize : ℕ → ℕ → Result ℕ
sub_usize a b = if leb b a then ok (a - b) else panic

-- `FromUsize` for a type whose largest value is `max`.
unfoldable pub from_usize : ℕ → ℕ → Result ℕ
from_usize max x = if ltb max x then err (invalid_input "value too large to transmit") else ok x

abbrev pub u16_from_usize : ℕ → Result ℕ
u16_from_usize = from_usize 65535

abbrev pub i32_from_usize : ℕ → Result ℤ
i32_from_usize x = do n ← from_usize 2147483647 x; ok (pos n)

module _ (crates : Crates) where
  open crates use {write_be, length-write_be}

  abbrev pub write_i32_at : ℕ → ℤ → Bytes → Result Bytes
  write_i32_at base v = write_at base (write_be 4 (wrap (2 ^ 31) v))

  abbrev pub write_u16_at : ℕ → ℕ → Bytes → Result Bytes
  write_u16_at base v = write_at base (write_be 2 v)

-- The length field of a value: -1 for NULL.
unfoldable pub nullable_size : IsNull → ℕ → ℕ → Result ℤ
nullable_size no_null len base = do a ← sub_usize len base; b ← sub_usize a 4; i32_from_usize b
nullable_size yes_null len base = ok (negsuc 0)

module _ (crates : Crates) where
  -- `write_nullable`, with what the serializer answered, for a serializer that notes it.
  unfoldable pub write_noting : (Bytes → Result (Bytes × IsNull)) → Bytes → Result (Bytes × IsNull)
  write_noting serializer buf = do
    let base = length buf
    (buf', null) ← serializer (put_i32 crates (pos 0) buf)
    size ← nullable_size null (length buf') base
    buf₂ ← write_i32_at crates base size buf'
    ok (buf₂, null)

module _ (crates : Crates) where
  unfoldable pub write_nullable : (Bytes → Result (Bytes × IsNull)) → Bytes → Result Bytes
  write_nullable serializer buf = do (buf', _) ← write_noting crates serializer buf; ok buf'

pub write_at-append :
    (pre old post new : Bytes)
    → length old ≡ length new
    → write_at (length pre) new (pre ++ (old ++ post)) ≡ ok (pre ++ (new ++ post))
unfolding write_at
write_at-append pre old post new e = rw (
  fits,
  take-append pre (old ++ post),
  ← drop-add (length pre) (length new) (pre ++ (old ++ post)),
  drop-append pre (old ++ post),
  ← e,
  drop-append old post,
)
  where
    fits : leb (length pre + length new) (length (pre ++ (old ++ post))) ≡ true
    fits = ground (arith, length-append pre (old ++ post), length-append old post)

pub sub_usize_add : (a b : ℕ) → sub_usize (a + b) a ≡ ok b
unfolding sub_usize
sub_usize_add a b = ground arith

pub from_usize_fits : (max x : ℕ) → x ≤ max → from_usize max x ≡ ok x
unfolding from_usize
from_usize_fits max x h = ground arith

pub from_usize_large :
    (max x : ℕ) → max < x → from_usize max x ≡ err (invalid_input "value too large to transmit")
unfolding from_usize
from_usize_large max x h = ground arith

-- The serializer appends `out`, whatever the buffer holds.
abbrev pub Appends : (Bytes → Result (Bytes × IsNull)) → Bytes → IsNull → Type 0
Appends serializer out null = (buf : Bytes) → serializer buf ≡ ok (buf ++ out, null)

-- The length field that stands in front of `out`.
abbrev pub size_field : IsNull → Bytes → ℤ
size_field no_null out = pos (length out)
size_field yes_null out = negsuc 0

pub nullable_size-append :
    (null : IsNull) (buf zeros out : Bytes)
    → length zeros ≡ 4
    → length out < 2 ^ 31
    → nullable_size null (length ((buf ++ zeros) ++ out)) (length buf) ≡ ok (size_field null out)
unfolding nullable_size
nullable_size-append yes_null buf zeros out e h = refl
nullable_size-append no_null buf zeros out e h = rw (
  length-append (buf ++ zeros) out,
  length-append buf zeros,
  e,
  add_assoc (length buf) 4 (length out),
  sub_usize_add (length buf) (4 + length out),
  sub_usize_add 4 (length out),
  from_usize_fits 2147483647 (length out) (omega arith),
)

module _ (crates : Crates) where
  open crates use {write_be, length-write_be}

  -- `write_i32` over four bytes that were put at the end of `buf` before `out`.
  pub write_i32_at-append :
      (buf out : Bytes) (u v : ℤ)
      → write_i32_at crates (length buf) v (put_i32 crates u buf ++ out)
        ≡ ok (put_i32 crates v buf ++ out)
  write_i32_at-append buf out u v = rw (append_assoc buf (write_be 4 (wrap (2 ^ 31) u)) out) (
      write_at-append buf _ out _ (length-write_be 4 _ ∙ sym (length-write_be 4 _))
      ∙ rw append_assoc)

  pub write_noting-Appends :
      (serializer : Bytes → Result (Bytes × IsNull)) (out : Bytes) (null : IsNull) (buf : Bytes)
      → Appends serializer out null
      → length out < 2 ^ 31
      → write_noting crates serializer buf
        ≡ ok (put_i32 crates (size_field null out) buf ++ out, null)
  unfolding write_noting
  write_noting-Appends serializer out null buf a h = rw (
    a (put_i32 crates (pos 0) buf),
    nullable_size-append null buf (write_be 4 (wrap (2 ^ 31) (pos 0))) out (length-write_be 4 _) h,
    write_i32_at-append buf out (pos 0) (size_field null out),
  )

module _ (crates : Crates) where
  pub write_nullable-Appends :
      (serializer : Bytes → Result (Bytes × IsNull)) (out : Bytes) (null : IsNull) (buf : Bytes)
      → Appends serializer out null
      → length out < 2 ^ 31
      → write_nullable crates serializer buf ≡ ok (put_i32 crates (size_field null out) buf ++ out)
  unfolding write_nullable
  write_nullable-Appends serializer out null buf a h =
      rw (write_noting-Appends crates serializer out null buf a h)

pub write_at_here :
    (base : ℕ) (whole pre old post new : Bytes)
    → base ≡ length pre
    → whole ≡ pre ++ (old ++ post)
    → length old ≡ length new
    → write_at base new whole ≡ ok (pre ++ (new ++ post))
write_at_here base whole pre old post new b w e = rw (b, w) (write_at-append pre old post new e)
