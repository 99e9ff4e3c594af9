-- ===== src/Message/Frontend/Counted.antt =====
-- `write_counted` and `write_pairs`: loops that append the bytes of each item.
use rust_kingbase.Prelude.{
  concat_map, Bytes, length, All, Result, invalid_input, ok, err, ℕ, ◌+◌, ◌^◌, ◌≤◌, ◌<◌, ◌≡◌, sym,
  ap, false, List, [], ◌∷◌, ◌++◌, append-nil, append_assoc, arith,
}
use rust_kingbase.Wire.Crates.{contains, Crates}
use rust_kingbase.Wire.Write.{write_at-append, from_usize_fits, from_usize_large}
use rust_kingbase.Message.Frontend.{zeros2, write_items, write_counted, write_pairs}
use rust_kingbase.Message.Frontend.Layout.{Puts, cstr, write_cstr-Puts}
use native.Mathlib.Nat.{zero-add, add-zero}

abbrev pub pair_bytes : Bytes × Bytes → Bytes
pair_bytes (key, value) = cstr key ++ cstr value

abbrev pub HasNoNull : Bytes × Bytes → Type 0
HasNoNull (key, value) = (contains 0 key ≡ false) × (contains 0 value ≡ false)

pub write_pairs-Puts :
    (ps : List (Bytes × Bytes))
    → All HasNoNull ps
    → Puts (write_pairs ps) (concat_map pair_bytes ps)
unfolding write_pairs
write_pairs-Puts [] h buf = rw append-nil
write_pairs-Puts ((k, v) ∷ ps) (h, hs) buf =
    rw (write_cstr-Puts k h.0 buf, write_cstr-Puts v h.1 (buf ++ cstr k), write_pairs-Puts ps hs)
      (ap ok (simp append_assoc))

module _ {ℓ} {T : Type ℓ} (serializer : T → Bytes → Result Bytes) (encode : T → Bytes) where
  -- The serializer appends the encoding of each listed item.
  abbrev pub PutsAll : List T → Type 0
  PutsAll = All (λ t. (buf : Bytes) → serializer t buf ≡ ok (buf ++ encode t))

  write_items-concat_map :
      (items : List T) (count : ℕ) (buf : Bytes)
      → PutsAll items
      → write_items serializer items count buf
        ≡ ok (count + length items, buf ++ concat_map encode items)
  unfolding write_items
  write_items-concat_map [] count buf h = rw (append-nil, add-zero)
  write_items-concat_map (t ∷ ts) count buf (h, hs) =
      rw (h buf, write_items-concat_map ts (count + 1) (buf ++ encode t) hs, append_assoc)
        (ap (λ n. ok (n, buf ++ (encode t ++ concat_map encode ts))) (omega arith))

module _ {ℓ} (crates : Crates) {T : Type ℓ} where
  open crates use {write_be, length-write_be}

  -- A count, and the bytes of all items.
  abbrev pub counted : (T → Bytes) → List T → Bytes
  counted encode items = write_be 2 (length items) ++ concat_map encode items

  pub write_counted-Puts :
      (serializer : T → Bytes → Result Bytes) (encode : T → Bytes) (items : List T)
      → PutsAll serializer encode items
      → length items < 2 ^ 16
      → Puts (write_counted crates items serializer) (counted encode items)
  unfolding write_counted
  write_counted-Puts serializer encode items h few buf =
      rw
        (
          write_items-concat_map serializer encode items 0 (buf ++ zeros2) h,
          zero-add,
          from_usize_fits 65535 (length items) (omega arith),
          append_assoc buf zeros2 (concat_map encode items),
        )
        (write_at-append buf zeros2 _ (write_be 2 (length items)) (sym (length-write_be 2 _)))

  pub write_counted_too_many :
      (serializer : T → Bytes → Result Bytes) (encode : T → Bytes) (items : List T) (buf : Bytes)
      → PutsAll serializer encode items
      → 2 ^ 16 ≤ length items
      → write_counted crates items serializer buf
        ≡ err (invalid_input "value too large to transmit")
  unfolding write_counted
  write_counted_too_many serializer encode items buf h many = rw (
    write_items-concat_map serializer encode items 0 (buf ++ zeros2) h,
    zero-add,
    from_usize_large 65535 (length items) (omega arith),
  )
