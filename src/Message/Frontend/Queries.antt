-- ===== src/Message/Frontend/Queries.antt =====
-- The messages of the extended query protocol and of the start-up, on the wire.
use rust_kingbase.Prelude.{
  concat_map, Bytes, length, All, length-append, ok, ℕ, ◌+◌, ◌^◌, ◌<◌, ◌≡◌, refl, ap, false, List,
  [], ◌∷◌, ◌++◌, append_assoc, arith,
}
use rust_kingbase.Prelude.Int.{wrap, ℤ, pos}
use rust_kingbase.Wire.Crates.{contains, Crates}
use rust_kingbase.Wire.Write.{put_u32, put_i32, from_usize_fits}
use rust_kingbase.Message.Frontend.{
  write_cstr, io_error, execute, parse, sasl_initial_response, sasl_response, startup_message,
}
use rust_kingbase.Message.Frontend.Layout.{
  cstr, write_cstr-Puts, sized, framed, then-Puts, write_body-Puts,
}
use rust_kingbase.Message.Frontend.Counted.{
  pair_bytes, HasNoNull, write_pairs-Puts, PutsAll, counted, write_counted-Puts,
}
use rust_kingbase.Message.Frontend.Messages.{i32_bytes, framed_lem}

module _ (crates : Crates) where
  open crates use {write_be, length-write_be}

  -- A `Parse` message holds the name, the text of the statement and the counted types of its
  -- parameters, where no text has a null byte, there are less than 2^16 types and the whole fits.
  pub parse-framed :
      (name text : Bytes) (types : List ℕ) (buf : Bytes)
      → contains 0 name ≡ false
      → contains 0 text ≡ false
      → length types < 2 ^ 16
      → length (cstr name ++ (cstr text ++ counted crates (write_be 4) types)) + 4 < 2 ^ 31
      → parse crates name text types buf
        ≡ ok (
            buf
            ++ framed crates b'P' (cstr name ++ (cstr text ++ counted crates (write_be 4) types)))
  unfolding parse
  parse-framed name text types buf hn ht few fits =
      framed_lem crates io_error b'P' _ _ buf
        (then-Puts (write_cstr name) _ (cstr name) _ (write_cstr-Puts name hn) (
          then-Puts (write_cstr text) _ (cstr text) _ (write_cstr-Puts text ht)
            (write_counted-Puts crates _ (write_be 4) types (u32s types) few)))
        fits
    where
      u32s : (ts : List ℕ) → PutsAll (λ t b. ok (put_u32 crates t b)) (write_be 4) ts
      u32s [] = tt
      u32s (t ∷ ts) = (λ b. refl, u32s ts)

  -- An `Execute` message holds the name of the portal and the limit on the rows.
  pub execute-framed :
      (portal buf : Bytes) (max_rows : ℤ)
      → contains 0 portal ≡ false
      → length portal + 9 < 2 ^ 31
      → execute crates portal max_rows buf
        ≡ ok (buf ++ framed crates b'E' (cstr portal ++ i32_bytes crates max_rows))
  unfolding execute
  execute-framed portal buf max_rows h fits =
      framed_lem crates io_error b'E' _ _ buf
        (then-Puts (write_cstr portal) _ (cstr portal) (i32_bytes crates max_rows)
          (write_cstr-Puts portal h) (λ b. refl))
        (omega (
          arith,
          length-append (cstr portal) (i32_bytes crates max_rows),
          length-append portal (0 ∷ []),
          length-write_be 4 (wrap (2 ^ 31) max_rows),
        ))

  -- A `SASLInitialResponse` holds the mechanism and the counted response, a `SASLResponse` the response.
  pub sasl_messages :
      (mechanism payload buf : Bytes)
      → contains 0 mechanism ≡ false
      → length mechanism + length payload + 9 < 2 ^ 31
      → (sasl_initial_response crates mechanism payload buf
          ≡ ok (
              buf
              ++ framed crates b'p'
                  (cstr mechanism ++ (i32_bytes crates (pos (length payload)) ++ payload))))
        × (sasl_response crates payload buf ≡ ok (buf ++ framed crates b'p' payload))
  unfolding sasl_initial_response sasl_response
  sasl_messages mechanism payload buf h fits = (
    framed_lem crates io_error b'p' _ _ buf
        (then-Puts (write_cstr mechanism) _ (cstr mechanism) _ (write_cstr-Puts mechanism h) (λ b.
          rw (from_usize_fits 2147483647 (length payload) (omega arith))
            (ap ok (append_assoc b (i32_bytes crates (pos (length payload))) payload))))
        (omega (
          arith,
          length-append (cstr mechanism) (i32_bytes crates (pos (length payload)) ++ payload),
          length-append (i32_bytes crates (pos (length payload))) payload,
          length-append mechanism (0 ∷ []),
          length-write_be 4 (wrap (2 ^ 31) (pos (length payload))),
        )),
    framed_lem crates io_error b'p' _ payload buf (λ b. refl) (omega arith),
  )

  -- A `StartupMessage` has no tag: it holds the protocol's version, each name and value with its
  -- terminator in order, and a null byte.
  pub startup_message-sized :
      (ps : List (Bytes × Bytes)) (buf : Bytes)
      → All HasNoNull ps
      → length (i32_bytes crates (pos 0x0003_0000) ++ (concat_map pair_bytes ps ++ 0 ∷ [])) + 4
        < 2 ^ 31
      → startup_message crates ps buf
        ≡ ok (
            buf
            ++ sized crates
                (i32_bytes crates (pos 0x0003_0000) ++ (concat_map pair_bytes ps ++ 0 ∷ [])))
  unfolding startup_message
  startup_message-sized ps buf h fits =
      write_body-Puts crates io_error _ _ buf
        (λ b.
          rw (write_pairs-Puts ps h (put_i32 crates (pos 0x0003_0000) b))
            (ap ok (simp append_assoc)))
        fits
