-- ===== src/Message/Frontend/Messages.antt =====
-- What each client message looks like on the wire.
use rust_kingbase.Prelude.{
  Bytes, length, length-append, expect_ok, Error, Result, ok, ℕ, ◌+◌, ◌^◌, ◌<◌, ◌≡◌, refl, sym, ap,
  ◌∙◌, false, [], ◌∷◌, ◌++◌, append-nil, append_assoc, arith,
}
use rust_kingbase.Prelude.Int.{wrap, ℤ, pos}
use rust_kingbase.Wire.Crates.{contains, Crates}
use rust_kingbase.Wire.Write.{put_u8, put_i32}
use rust_kingbase.Message.Frontend.{
  write_cstr, io_error, write_body, cancel_request, ssl_request, close, copy_done, copy_fail,
  describe, password_message, query, flush, sync, terminate,
}
use rust_kingbase.Message.Frontend.Layout.{
  Puts, cstr, write_cstr-Puts, sized, framed, write_body-Puts,
}

module _ (crates : Crates) where
  open crates use {write_be, length-write_be}

  -- `i32` as `put_i32` writes it.
  abbrev pub i32_bytes : ℤ → Bytes
  i32_bytes v = write_be 4 (wrap (2 ^ 31) v)

  pub framed_lem :
      (into : Error → Error) (tag : ℕ) (f : Bytes → Result Bytes) (body buf : Bytes)
      → Puts f body
      → length body + 4 < 2 ^ 31
      → write_body crates into f (put_u8 tag buf) ≡ ok (buf ++ framed crates tag body)
  framed_lem into tag f body buf p h =
      write_body-Puts crates into f body (put_u8 tag buf) p h
      ∙ ap ok (append_assoc buf (tag ∷ []) (sized crates body))

  empty_lem :
      (tag : ℕ) (buf : Bytes)
      → expect_ok (write_body crates io_error ok (put_u8 tag buf))
        ≡ ok (buf ++ framed crates tag [])
  empty_lem tag buf =
      rw (framed_lem io_error tag ok [] buf (λ b. ap ok (sym (append-nil b))) (omega arith))

  three_ints : (x y z : ℕ) → length (write_be 4 x ++ (write_be 4 y ++ write_be 4 z)) ≡ 12
  three_ints x y z = rw (
    length-append (write_be 4 x) (write_be 4 y ++ write_be 4 z),
    length-append (write_be 4 y) (write_be 4 z),
    length-write_be 4 x,
    length-write_be 4 y,
    length-write_be 4 z,
  )

  -- `CopyDone`, `Flush`, `Sync` and `Terminate` append their tag and a length of 4 to any buffer;
  -- `SSLRequest` and `CancelRequest` append their length, their code and, for the latter, the key of
  -- the session. None of them panics.
  pub bare_messages :
      (buf : Bytes) (process_id secret_key : ℤ)
      → (copy_done crates buf ≡ ok (buf ++ framed crates b'c' []))
        × (flush crates buf ≡ ok (buf ++ framed crates b'H' []))
        × (sync crates buf ≡ ok (buf ++ framed crates b'S' []))
        × (terminate crates buf ≡ ok (buf ++ framed crates b'X' []))
        × (ssl_request crates buf ≡ ok (buf ++ sized crates (i32_bytes (pos 80877103))))
        × (cancel_request crates process_id secret_key buf
            ≡ ok (
                buf
                ++ sized crates
                    (i32_bytes (pos 80877102) ++ (i32_bytes process_id ++ i32_bytes secret_key))))
  unfolding copy_done flush sync terminate ssl_request cancel_request
  bare_messages buf p k = (
    empty_lem b'c' buf,
    empty_lem b'H' buf,
    empty_lem b'S' buf,
    empty_lem b'X' buf,
    rw (
        write_body-Puts crates io_error (λ b. ok (put_i32 crates (pos 80877103) b))
          (i32_bytes (pos 80877103)) buf (λ b. refl) (omega (arith, length-write_be 4 80877103))),
    rw (
        write_body-Puts crates io_error session _ buf (λ b. ap ok (joined b))
          (omega (arith, three_ints 80877102 (wrap (2 ^ 31) p) (wrap (2 ^ 31) k)))),
  )
    where
      session : Bytes → Result Bytes
      session b = ok (put_i32 crates k (put_i32 crates p (put_i32 crates (pos 80877102) b)))

      joined :
          (b : Bytes)
          → put_i32 crates k (put_i32 crates p (put_i32 crates (pos 80877102) b))
            ≡ b ++ (i32_bytes (pos 80877102) ++ (i32_bytes p ++ i32_bytes k))
      joined b = simp append_assoc

  -- `Query`, `PasswordMessage`, `CopyFail`, `Close` and `Describe` of a text with no null byte append
  -- their tag, their length, the variant of the last two, and the text with its terminator.
  pub text_messages :
      (s buf : Bytes) (variant : ℕ)
      → contains 0 s ≡ false
      → length s + 6 < 2 ^ 31
      → (query crates s buf ≡ ok (buf ++ framed crates b'Q' (cstr s)))
        × (password_message crates s buf ≡ ok (buf ++ framed crates b'p' (cstr s)))
        × (copy_fail crates s buf ≡ ok (buf ++ framed crates b'f' (cstr s)))
        × (close crates variant s buf ≡ ok (buf ++ framed crates b'C' (variant ∷ cstr s)))
        × (describe crates variant s buf ≡ ok (buf ++ framed crates b'D' (variant ∷ cstr s)))
  unfolding query password_message copy_fail close describe
  text_messages s buf variant h fits = (
    framed_lem io_error b'Q' (write_cstr s) (cstr s) buf whole (omega (arith, short)),
    framed_lem io_error b'p' (write_cstr s) (cstr s) buf whole (omega (arith, short)),
    framed_lem io_error b'f' (write_cstr s) (cstr s) buf whole (omega (arith, short)),
    framed_lem io_error b'C' _ (variant ∷ cstr s) buf tagged (omega (arith, short)),
    framed_lem io_error b'D' _ (variant ∷ cstr s) buf tagged (omega (arith, short)),
  )
    where
      whole : Puts (write_cstr s) (cstr s)
      whole = write_cstr-Puts s h

      short : length (cstr s) + 5 < 2 ^ 31
      short = omega (arith, length-append s (0 ∷ []), fits)

      tagged : Puts (λ b. write_cstr s (put_u8 variant b)) (variant ∷ cstr s)
      tagged b = whole (put_u8 variant b) ∙ ap ok (append_assoc b (variant ∷ []) (cstr s))
