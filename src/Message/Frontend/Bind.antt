-- ===== src/Message/Frontend/Bind.antt =====
-- The `Bind` message on the wire, and what the client messages refuse.
use rust_kingbase.Prelude.{
  Bytes, length, All, map_err, Error, Result, conversion, serialization, ok, ◌+◌, ◌^◌, ◌<◌, ◌≡◌,
  refl, ap, ◌∙◌, false, List, [], ◌∷◌, ◌++◌, append_assoc,
}
use rust_kingbase.Prelude.Int.{wrap, ℤ}
use rust_kingbase.Wire.Crates.{contains, Crates}
use rust_kingbase.Wire.Write.{write_nullable, Appends, size_field, write_nullable-Appends, IsNull}
use rust_kingbase.Message.Frontend.{write_counted, put_format, bind_body, bind}
use rust_kingbase.Message.Frontend.Layout.{Puts, cstr, write_cstr-Puts, framed, then-Puts}
use rust_kingbase.Message.Frontend.Counted.{PutsAll, counted, write_counted-Puts}
use rust_kingbase.Message.Frontend.Messages.{i32_bytes, framed_lem}

map_err-Puts :
    (into : Error → Error) (f : Bytes → Result Bytes) (x : Bytes)
    → Puts f x
    → Puts (λ b. map_err into (f b)) x
map_err-Puts into f x p b = rw (p b)

module _ {ℓ} (crates : Crates) {T : Type ℓ} (serializer : T → Bytes → Result (Bytes × IsNull))
    (encode : T → Bytes) (null : T → IsNull) where
  -- Each value appends its encoding, which is short enough for its length field.
  abbrev pub Serializes : List T → Type 0
  Serializes = All (λ v. Appends (serializer v) (encode v) (null v) × (length (encode v) < 2 ^ 31))

  -- A value with its length, which is -1 for NULL.
  abbrev pub value_bytes : T → Bytes
  value_bytes v = i32_bytes crates (size_field (null v) (encode v)) ++ encode v

module _ {ℓ} (crates : Crates) {T : Type ℓ} (serializer : T → Bytes → Result (Bytes × IsNull))
    (encode : T → Bytes) (null : T → IsNull) where
  values-PutsAll :
      (vs : List T)
      → Serializes crates serializer encode null vs
      → PutsAll
          (λ v. write_nullable crates (serializer v))
          (value_bytes crates serializer encode null)
          vs
  values-PutsAll [] h = tt
  values-PutsAll (v ∷ vs) ((a, short), hs) = (
    λ b.
        write_nullable-Appends crates (serializer v) (encode v) (null v) b a short
        ∙ ap ok (append_assoc b _ (encode v)),
    values-PutsAll vs hs,
  )

module _ (crates : Crates) where
  open crates use {write_be}

  abbrev pub i16_bytes : ℤ → Bytes
  i16_bytes f = write_be 2 (wrap (2 ^ 15) f)

  formats-PutsAll : (fs : List ℤ) → PutsAll (put_format crates) i16_bytes fs
  unfolding put_format
  formats-PutsAll [] = tt
  formats-PutsAll (f ∷ fs) = (λ b. refl, formats-PutsAll fs)

module _ {ℓ} (crates : Crates) {T : Type ℓ} (serializer : T → Bytes → Result (Bytes × IsNull))
    (encode : T → Bytes) (null : T → IsNull) where
  -- What stands in a `Bind` message behind its length.
  abbrev pub bound : Bytes → Bytes → List ℤ → List T → List ℤ → Bytes
  bound portal statement formats values result_formats =
      cstr portal
      ++ (cstr statement
          ++ (counted crates (i16_bytes crates) formats
              ++ (counted crates (value_bytes crates serializer encode null) values
                  ++ counted crates (i16_bytes crates) result_formats)))

module _ {ℓ} (crates : Crates) {T : Type ℓ} (serializer : T → Bytes → Result (Bytes × IsNull))
    (encode : T → Bytes) (null : T → IsNull) where
  -- A `Bind` message holds the portal, the statement, the counted formats of the parameters, the
  -- counted values, each with its length or -1, and the counted formats of the results. That is so for
  -- names with no null byte, lists of less than 2^16 items, serializers that append the encoding of
  -- their value, and a message that fits.
  pub bind-framed :
      (portal statement : Bytes) (formats : List ℤ) (values : List T) (result_formats : List ℤ)
      (buf : Bytes)
      → contains 0 portal ≡ false
      → contains 0 statement ≡ false
      → length formats < 2 ^ 16
      → length values < 2 ^ 16
      → length result_formats < 2 ^ 16
      → Serializes crates serializer encode null values
      → length (bound crates serializer encode null portal statement formats values result_formats)
          + 4
        < 2 ^ 31
      → bind crates portal statement formats values serializer result_formats buf
        ≡ ok (
            buf
            ++ framed crates b'B' (
                bound crates serializer encode null portal statement formats values result_formats))
  unfolding bind bind_body
  bind-framed portal statement fs vs rs buf hp hs nf nv nr s fits =
      framed_lem crates serialization b'B' _ _ buf
        (then-Puts _ _ (cstr portal) _ (map_err-Puts serialization _ _ (write_cstr-Puts portal hp))
          (then-Puts _ _ (cstr statement) _
            (map_err-Puts serialization _ _ (write_cstr-Puts statement hs))
            (then-Puts _ _ (counted crates (i16_bytes crates) fs) _ (formats fs nf) (
              then-Puts _ _ (counted crates (value_bytes crates serializer encode null) vs) _
                (map_err-Puts conversion _ _ (
                  write_counted-Puts crates _ _ vs
                    (values-PutsAll crates serializer encode null vs s) nv))
                (formats rs nr)))))
        fits
    where
      formats :
          (xs : List ℤ)
          → length xs < 2 ^ 16
          → Puts
              (λ b. map_err serialization (write_counted crates xs (put_format crates) b))
              (counted crates (i16_bytes crates) xs)
      formats xs few = map_err-Puts serialization _ _ (
          write_counted-Puts crates (put_format crates) (i16_bytes crates) xs
            (formats-PutsAll crates xs) few)
