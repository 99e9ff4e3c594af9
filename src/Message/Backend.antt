-- ===== src/Message/Backend.antt =====
-- postgres-protocol/src/message/backend.rs: the frame of a server message, and its body.
pub mod Body
pub mod Iterators
pub mod Frame
pub mod Stream
pub mod Total
pub mod Layouts
use rust_kingbase.Prelude.{
  ltb, if◌then◌else◌, Bytes, length, take, drop, ◌>>=◌, expect_ok, Result, invalid_input,
  invalid_data, message, ok, err, panic, ℕ, ◌+◌, ◌^◌, ◌<◌, Bool, true, Option, none, some, [], ◌∷◌,
}
use rust_kingbase.Prelude.Int.{signed, ℤ, pos, negsuc}
use rust_kingbase.Wire.Crates.{Crates}
use rust_kingbase.Wire.Read.{read_u32, split_at, slice_from, slice_to}
use Body.{Message, parse_body}

-- `BigEndian::read_i32(&buf[1..])` compared with 4.
abbrev pub less_than : ℕ → ℤ → Bool
less_than n (pos k) = ltb k n
less_than n (negsuc k) = true

pub record Header : Type 0 where
  pub tag : ℕ
  pub len : ℤ

module _ (crates : Crates) where
  open crates use {read_be}

  -- `Header::parse` behind the test of the length: the tag is `buf[0]`, and `read_i32` panics on a slice
  -- of fewer than four bytes.
  header_of : Bytes → Result (Option Header)
  header_of [] = panic
  header_of (tag ∷ rest) = slice_to 4 rest >>= λ size.
      let len = signed (2 ^ 31) (read_be size) in
      if less_than 4 len
      then err (invalid_data "invalid message length: header length < 4")
      else ok (some (record { tag = tag; len = len }))

-- `if !buf.is_empty() { return Err(..) } Ok(Some(message))`
abbrev pub if_drained : Message → Bytes → Bytes → Result (Option Message × Bytes)
if_drained m rest [] = ok (some m, rest)
if_drained m rest (b ∷ left) =
    err (invalid_input "invalid message length: expected buffer to be empty")

module _ (crates : Crates) where
  open crates use {read_be}

  unfoldable pub parse_header : Bytes → Result (Option Header)
  unfolding header_of
  parse_header buf = if ltb (length buf) 5 then ok none else header_of crates buf

  -- The end of `Message::parse`, on the bytes behind the header and the rest of the buffer.
  unfoldable pub finish : ℕ → Bytes → Bytes → Result (Option Message × Bytes)
  finish tag body rest = parse_body crates tag body >>= λ (m, left). if_drained m rest left

module _ (crates : Crates) where
  -- `Message::parse` behind the test of the length.
  unfoldable pub parse_frame : Bytes → Bytes → Result (Option Message × Bytes)
  parse_frame buf [] = panic
  parse_frame buf (tag ∷ rest) = expect_ok (read_u32 crates (take 4 rest)) >>= λ (len, _).
      if ltb len 4
      then err (invalid_input "invalid message length: parsing u32")
      else if ltb (length buf) (len + 1)
      then ok (none, buf)
      else do
        (frame, left) ← split_at (len + 1) buf
        body ← slice_from 5 frame
        finish crates tag body left

module _ (crates : Crates) where
  -- `Message::parse`. It returns what is left of the buffer, which is all of it where no whole
  -- message stands there.
  unfoldable pub parse : Bytes → Result (Option Message × Bytes)
  parse buf = if ltb (length buf) 5 then ok (none, buf) else parse_frame crates buf buf
