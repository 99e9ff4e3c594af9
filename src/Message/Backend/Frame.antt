-- ===== src/Message/Backend/Frame.antt =====
-- Where the first message of a buffer ends, and what `Message::parse` and `Header::parse` answer there.
use rust_kingbase.Prelude.{
  dec_lt, lt→ltb, le→ltb, Bytes, length, take, drop, length-append, take-append-drop, length-take,
  take-append_le, take-length, invalid_input, ok, err, ℕ, ◌+◌, ◌-◌, ◌<◌, ◌≡◌, refl, sym, ap, subst,
  ◌∙◌, none, [], ◌∷◌, ◌++◌, append_assoc, arith,
}
use rust_kingbase.Wire.Crates.{Crates}
use rust_kingbase.Wire.Read.{
  read_uint, read_u32, split_at, slice_from, read_exact-length, split_at-append, slice_from-append,
}
use rust_kingbase.Message.Backend.{finish, parse_frame, parse}

-- A whole message: its tag, a length field that counts itself and the body, and the body.
pub record IsFrame (crates : Crates) (tag : ℕ) (body frame : Bytes) : Type 0 where
  pub size : Bytes
  pub laid_out : frame ≡ tag ∷ (size ++ body)
  pub four : length size ≡ 4
  pub counts : crates.read_be size ≡ length body + 4

-- How a buffer begins: with a whole message, with a length field below 4, or with too few bytes.
pub data Cut (crates : Crates) (buf : Bytes) : Type 0 where
  few : length buf < 5 → Cut crates buf
  cut_off :
      (tag : ℕ) (size rest : Bytes)
      → buf ≡ tag ∷ (size ++ rest)
      → length size ≡ 4
      → length rest + 4 < crates.read_be size
      → Cut crates buf
  invalid :
      (tag : ℕ) (size rest : Bytes)
      → buf ≡ tag ∷ (size ++ rest)
      → length size ≡ 4
      → crates.read_be size < 4
      → Cut crates buf
  whole :
      (tag : ℕ) (body frame rest : Bytes)
      → IsFrame crates tag body frame
      → buf ≡ frame ++ rest
      → Cut crates buf

module _ (crates : Crates) where
  open crates use {read_be}

  Cut-sized : (tag : ℕ) (size rest : Bytes) → length size ≡ 4 → Cut crates (tag ∷ (size ++ rest))
  Cut-sized tag size rest e = elim (dec_lt (read_be size) 4) [
    | yes small ↦ invalid tag size rest refl e small
    | no large ↦ elim (dec_lt (length rest + 4) (read_be size)) [
      | yes short ↦ cut_off tag size rest refl e short
      | no fits ↦
          let k : ℕ = read_be size - 4 in
          whole tag (take k rest) (tag ∷ (size ++ take k rest)) (drop k rest)
            (record {
              size = size;
              laid_out = refl;
              four = e;
              counts = omega (arith, length-take k rest);
            })
            (ap (◌∷◌ tag)
              (ap (◌++◌ size) (sym (take-append-drop k rest)) ∙ sym (append_assoc size _ _)))
    ]
  ]

module _ (crates : Crates) where
  pub cut : (buf : Bytes) → Cut crates buf
  cut [] = few (omega arith)
  cut (tag ∷ rest) = elim (dec_lt (length rest) 4) [
    | yes short ↦ few (omega arith)
    | no long ↦
        subst (λ (r : Bytes). Cut crates (tag ∷ r)) (take-append-drop 4 rest)
          (Cut-sized crates tag (take 4 rest) (drop 4 rest) (omega (arith, length-take 4 rest)))
  ]

module _ (crates : Crates) where
  open crates use {read_be}

  read_size :
      (size rest : Bytes)
      → length size ≡ 4
      → read_u32 crates (take 4 (size ++ rest)) ≡ ok (read_be size, [])
  unfolding read_uint
  read_size size rest e =
      rw (take-append_le 4 size rest (omega arith))
        (rw (← e) (rw (take-length size, read_exact-length size)))

  sized_length :
      (tag : ℕ) (size rest : Bytes)
      → length size ≡ 4
      → length (tag ∷ (size ++ rest)) ≡ length rest + 5
  sized_length tag size rest e = omega (arith, length-append size rest)

  pub parse_invalid :
      (tag : ℕ) (size rest : Bytes)
      → length size ≡ 4
      → read_be size < 4
      → parse crates (tag ∷ (size ++ rest))
        ≡ err (invalid_input "invalid message length: parsing u32")
  unfolding parse parse_frame
  parse_invalid tag size rest e h = rw (
    le→ltb (length (tag ∷ (size ++ rest))) 5 (omega (arith, sized_length tag size rest e)),
    read_size size rest e,
    lt→ltb (read_be size) 4 h,
  )

  pub parse_cut_off :
      (tag : ℕ) (size rest : Bytes)
      → length size ≡ 4
      → length rest + 4 < read_be size
      → parse crates (tag ∷ (size ++ rest)) ≡ ok (none, tag ∷ (size ++ rest))
  unfolding parse parse_frame
  parse_cut_off tag size rest e h = rw (
    le→ltb (length (tag ∷ (size ++ rest))) 5 (omega (arith, sized_length tag size rest e)),
    read_size size rest e,
    le→ltb (read_be size) 4 (omega arith),
    lt→ltb (length (tag ∷ (size ++ rest))) (read_be size + 1)
        (omega (arith, sized_length tag size rest e)),
  )

  pub parse_few : (buf : Bytes) → length buf < 5 → parse crates buf ≡ ok (none, buf)
  unfolding parse
  parse_few buf h = rw (lt→ltb (length buf) 5 h)

  -- What `split_to` cuts off a buffer with a whole message in front, and the slice behind the header.
  frame_split :
      (tag : ℕ) (size body rest : Bytes)
      → length size ≡ 4
      → split_at (length body + 4 + 1) (tag ∷ (size ++ (body ++ rest)))
        ≡ ok (tag ∷ (size ++ body), rest)
  frame_split tag size body rest e =
      let n : length body + 4 + 1 ≡ length (tag ∷ (size ++ body)) =
        omega (arith, length-append size body) in
      rw (n, ← append_assoc size body rest) (split_at-append (tag ∷ (size ++ body)) rest)

  frame_body :
      (tag : ℕ) (size body : Bytes)
      → length size ≡ 4
      → slice_from 5 (tag ∷ (size ++ body)) ≡ ok body
  frame_body tag size body e =
      let n : 5 ≡ length (tag ∷ size) = omega arith in rw n (slice_from-append (tag ∷ size) body)

  -- On a buffer that begins with a whole message, `Message::parse` reads its body and takes it off.
  pub parse-IsFrame :
      (tag : ℕ) (body frame rest : Bytes)
      → IsFrame crates tag body frame
      → parse crates (frame ++ rest) ≡ finish crates tag body rest
  unfolding parse parse_frame
  parse-IsFrame tag body frame rest f =
      let long : length (tag ∷ (f.size ++ (body ++ rest))) ≡ length (body ++ rest) + 5 =
        sized_length tag f.size (body ++ rest) f.four in
      rw (f.laid_out, append_assoc f.size body rest)
        (rw (
          le→ltb (length (tag ∷ (f.size ++ (body ++ rest)))) 5 (omega arith),
          read_size f.size (body ++ rest) f.four,
          f.counts,
          le→ltb (length body + 4) 4 (omega arith),
          le→ltb (length (tag ∷ (f.size ++ (body ++ rest)))) (length body + 4 + 1)
              (omega (arith, length-append body rest)),
          frame_split tag f.size body rest f.four,
          frame_body tag f.size body f.four,
        ))
