-- ===== src/Codec/Decode.antt =====
-- What `PostgresCodec::decode` delivers, and the messages of a batch.

use rust_kingbase.Prelude.{
  Bytes, length, length-append, take-append, drop-append, ◌>>=◌, Returns, Result, ok, err, panic, ℕ,
  zero, suc, ◌<◌, ◌≡◌, refl, sym, subst, ◌⊎◌, inl, inr, Bool, true, false, Option, none, some, [],
  ◌++◌, append-nil, arith, Error,
}
use rust_kingbase.Wire.Crates.{Crates}
use rust_kingbase.Message.Backend.{finish, parse}
use rust_kingbase.Message.Backend.Body.{parse_body, Message}
use rust_kingbase.Message.Backend.Frame.{parse-IsFrame, IsFrame}
use rust_kingbase.Message.Backend.Stream.{IsPartial, finish-some, finish-ne-none}
use rust_kingbase.Message.Backend.Total.{parse-Returns}
use rust_kingbase.Codec.{
  is_async, scan, deliver, decode, next, BackendMessage, Stop, normal, async, async_first, stop_at,
}
use rust_kingbase.Codec.Scan.{
  header_error, StartsAsync, Scans, Batch, Front, empty, ready, another, Malformed,
}
use rust_kingbase.Codec.Batch.{suc-ne-zero, length-IsFrame, scan-Scans}

-- An asynchronous message stands first, and its body is read with the error `e`.
abbrev pub AsyncFails : Crates → Bytes → Error → Type 0
AsyncFails crates src e =
    (tag : ℕ) × (body : Bytes) × (frame : Bytes) × (rest : Bytes) × IsFrame crates tag body frame
    × (src ≡ frame ++ rest)
    × (is_async tag ≡ true)
    × (finish crates tag body rest ≡ err e)

-- What `decode` may answer on `src`.
abbrev pub Decodes : Crates → Bytes → Result (Option BackendMessage × Bytes) → Type 0
Decodes crates src (ok (none, rest)) = (rest ≡ src) × IsPartial crates src
Decodes crates src (ok (some (async m), rest)) =
    (tag : ℕ) × (body : Bytes) × (frame : Bytes) × IsFrame crates tag body frame
    × (src ≡ frame ++ rest)
    × (is_async tag ≡ true)
    × (parse_body crates tag body ≡ ok (m, []))
Decodes crates src (ok (some (normal messages complete), rest)) =
    (src ≡ messages ++ rest)
    × (0 < length messages)
    × Batch crates messages complete
    × ((complete ≡ true) ⊎ (IsPartial crates rest ⊎ StartsAsync crates rest))
Decodes crates src (err e) = ((e ≡ header_error) × Malformed crates src) ⊎ AsyncFails crates src e
Decodes crates src panic = ⊥

module _ (crates : Crates) where
  async_case :
      (src : Bytes) (tag : ℕ) (body frame rest : Bytes) (r : Result (Option Message × Bytes))
      → IsFrame crates tag body frame
      → src ≡ frame ++ rest
      → is_async tag ≡ true
      → parse crates src ≡ r
      → finish crates tag body rest ≡ r
      → Decodes crates src (deliver crates src async_first)
  unfolding deliver
  async_case src tag body frame rest (ok (none, left)) f e a p q =
      absurd (finish-ne-none crates tag body rest left q)
  async_case src tag body frame rest (ok (some m, left)) f e a p q =
      let (same, read) = finish-some crates tag body rest q in
      rw p (tag, body, frame, f, rw same e, a, read)
  async_case src tag body frame rest (err x) f e a p q =
      rw p (inr (tag, body, frame, rest, f, e, a, q))
  async_case src tag body frame rest panic f e a p q =
      absurd (subst Returns p (parse-Returns crates src))

  deliver_async :
      (src : Bytes) → StartsAsync crates src → Decodes crates src (deliver crates src async_first)
  deliver_async src (tag, body, frame, rest, f, e, a) =
      let p : parse crates src ≡ finish crates tag body rest =
        rw e (parse-IsFrame crates tag body frame rest f) in
      async_case src tag body frame rest (finish crates tag body rest) f e a p refl

  deliver_stop :
      (src : Bytes) (n : ℕ) (complete : Bool)
      → (0 < n) ⊎ IsPartial crates src
      → Front crates src n complete
      → Decodes crates src (deliver crates src (stop_at n complete))
  unfolding deliver
  deliver_stop src zero complete (inl h) front = absurd (omega arith)
  deliver_stop src zero complete (inr h) front = (refl, h)
  deliver_stop src (suc n) complete h front = rw (suc-ne-zero n) (
      rw
        (
          front.counts,
          front.splits,
          take-append front.bytes front.rest,
          drop-append front.bytes front.rest,
        )
        (refl, omega (arith, front.counts), front.batch, front.ends))

  deliver_case :
      (src : Bytes) (r : Result Stop)
      → Scans crates src 0 r
      → Decodes crates src (r >>= deliver crates src)
  deliver_case src (ok async_first) s = deliver_async src s.1
  deliver_case src (ok (stop_at n complete)) (count, at, progress, front) =
      let e : n ≡ count = omega arith in
      deliver_stop src n complete progress (subst (λ k. Front crates src k complete) (sym e) front)
  deliver_case src (err e) s = inl s
  deliver_case src panic s = s

  -- On any bytes `decode` returns: it never panics and its loop ends. It waits, and leaves the bytes,
  -- only for want of a whole first message; it delivers an asynchronous message that stands first,
  -- read from its whole body; or it cuts off a batch that is not empty, with its flag set where the
  -- batch ends with `ReadyForQuery`, and otherwise ending where the bytes run out or an asynchronous
  -- message stands. An error is that of a header whose length field is below 4 or has its highest bit
  -- set, behind whole messages at most, or the one with which the body of an asynchronous message
  -- that stands first is read.
  pub decode-Decodes : (src : Bytes) → Decodes crates src (decode crates src)
  unfolding decode
  decode-Decodes src =
      deliver_case src (scan crates (suc (length src)) src 0)
        (scan-Scans crates (suc (length src)) [] src (omega arith))

  -- What `next` answers on a batch that is not empty: the first frame's body, read, and the rest.
  abbrev pub NextOf : Bytes → Bool → Result (Option Message × Bytes) → Type 0
  NextOf bytes complete answer =
      (tag : ℕ) × (body : Bytes) × (frame : Bytes) × (rest : Bytes) × (flag : Bool) × IsFrame crates
        tag body frame
      × (bytes ≡ frame ++ rest)
      × (answer ≡ finish crates tag body rest)
      × Batch crates rest flag
      × ((rest ≡ []) ⊎ (flag ≡ complete))
      × (length rest < length bytes)
      × (is_async tag ≡ false)

  -- While messages are left in a batch, `BackendMessages::next` reads the body of the first of them,
  -- none of the asynchronous kinds, and leaves what stands behind its frame: a shorter batch, with the
  -- flag of the whole one unless it is empty. It never finds a message cut off.
  pub next-Batch :
      (bytes : Bytes) (complete : Bool)
      → Batch crates bytes complete
      → 0 < length bytes
      → NextOf bytes complete (next crates bytes)
  unfolding next
  next-Batch bytes complete empty h = absurd (omega arith)
  next-Batch bytes complete (ready {tag} {body} {frame} f z) h = (
    tag,
    body,
    frame,
    [],
    false,
    f,
    sym (append-nil frame),
    rw (← append-nil frame) (parse-IsFrame crates tag body frame [] f),
    empty,
    inl refl,
    h,
    rw z refl,
  )
  next-Batch bytes complete (another {tag} {body} {frame} {rest} f a z e b) h = (
    tag,
    body,
    frame,
    rest,
    complete,
    f,
    e,
    rw e (parse-IsFrame crates tag body frame rest f),
    b,
    inr refl,
    rw e (omega (arith, length-append frame rest, length-IsFrame crates tag body frame f)),
    a,
  )
