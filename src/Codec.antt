-- ===== src/Codec.antt =====
-- tokio-postgres/src/codec.rs: the stream of server bytes cut into batches of messages, and the
-- messages of the client put on the stream.
pub mod Scan
pub mod Batch
pub mod Decode
use rust_kingbase.Prelude.{
  ◌>>=◌, ltb, ◌==◌, if◌then◌else◌, Bytes, length, take, drop, unwrap, Result, ok, panic, ℕ, zero,
  suc, ◌+◌, ◌-◌, ◌^◌, Bool, true, false, ◌||◌, Option, none, some, ◌++◌,
}
use rust_kingbase.Prelude.Int.{ℤ, pos, negsuc}
use rust_kingbase.Wire.Crates.{Crates}
use rust_kingbase.Wire.Read.{slice_from}
use rust_kingbase.Message.Frontend.{CopyData, write_copy_data}
use rust_kingbase.Message.Backend.{Header, parse_header, parse}
use rust_kingbase.Message.Backend.Body.{Message}

pub data FrontendMessage : Type 0 where
  raw : Bytes → FrontendMessage
  copy_data : CopyData → FrontendMessage

pub data BackendMessage : Type 0 where
  normal : Bytes → Bool → BackendMessage
  async : Message → BackendMessage

-- How the loop of `decode` ends: with an asynchronous message in front, or at an index with whether a
-- request is complete.
pub data Stop : Type 0 where
  async_first : Stop
  stop_at : ℕ → Bool → Stop

-- The tags of `NoticeResponse`, `NotificationResponse` and `ParameterStatus`.
abbrev pub is_async : ℕ → Bool
is_async tag = tag == b'N' || (tag == b'A' || tag == b'S')

-- `header.len() as usize + 1`: a negative length wraps to a `usize`.
abbrev pub total_len : ℤ → ℕ
total_len (pos n) = n + 1
total_len (negsuc n) = (2 ^ 64 - 1 - n) + 1

-- What one round makes of a header: end the loop, or go on behind the message.
pub data Round : Type 0 where
  finished : Stop → Round
  go_on : ℕ → Round

unfoldable pub round : ℕ → Bytes → Option Header → Round
round idx rest none = finished (stop_at idx false)
round idx rest (some h) =
    if ltb (length rest) (total_len h.len)
    then finished (stop_at idx false)
    else if is_async h.tag
    then finished (if idx == 0 then async_first else stop_at idx false)
    else if h.tag == b'Z'
    then finished (stop_at (idx + total_len h.len) true)
    else go_on (idx + total_len h.len)

module _ (crates : Crates) where
  -- The loop of `decode`. Each round that goes on passes five bytes at least, so `length src` rounds
  -- and one more are enough; without fuel the model panics.
  unfoldable pub scan : ℕ → Bytes → ℕ → Result Stop
  scan zero src idx = panic
  scan (suc fuel) src idx = do
    rest ← slice_from idx src
    header ← parse_header crates rest
    elim (round idx rest header) [ finished stop ↦ ok stop | go_on idx' ↦ scan fuel src idx' ]

module _ (crates : Crates) where
  -- What `decode` returns once the loop has ended.
  unfoldable pub deliver : Bytes → Stop → Result (Option BackendMessage × Bytes)
  deliver src async_first = do
    (parsed, rest) ← parse crates src
    m ← unwrap parsed
    ok (some (async m), rest)
  deliver src (stop_at idx complete) =
      if idx == 0 then ok (none, src) else ok (some (normal (take idx src) complete), drop idx src)

module _ (crates : Crates) where
  unfoldable pub decode : Bytes → Result (Option BackendMessage × Bytes)
  decode src = do stop ← scan crates (suc (length src)) src 0; deliver crates src stop

  -- `BackendMessages::next`
  unfoldable pub next : Bytes → Result (Option Message × Bytes)
  next messages = parse crates messages

  unfoldable pub encode : FrontendMessage → Bytes → Bytes
  encode (raw buf) dst = dst ++ buf
  encode (copy_data d) dst = write_copy_data crates d dst
