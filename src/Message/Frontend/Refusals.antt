-- ===== src/Message/Frontend/Refusals.antt =====
-- What the client messages refuse: a text with a null byte, and more than the length fields can hold.
use rust_kingbase.Prelude.{
  lt→ltb, le→leb, Bytes, length, ◌>>=◌, Error, invalid_input, ok, err, ◌+◌, ◌^◌, ◌≤◌, ◌<◌, ◌≡◌, ap,
  true, ◌++◌, append_assoc, arith,
}
use rust_kingbase.Wire.Crates.{contains, Crates}
use rust_kingbase.Message.Frontend.{write_cstr, new_copy_data, write_copy_data}
use rust_kingbase.Message.Frontend.Layout.{framed, wrap_length}

abbrev pub embedded_null : Error
embedded_null = invalid_input "string contains embedded null"

pub write_cstr_null : (s buf : Bytes) → contains 0 s ≡ true → write_cstr s buf ≡ err embedded_null
unfolding write_cstr
write_cstr_null s buf h = rw h

-- Where the length of the payload and four more fit an `i32`, `CopyData::new` takes it, and `write`
-- appends the tag, that length and the payload.
pub copy_data-framed :
    (crates : Crates) (payload out : Bytes)
    → length payload + 4 < 2 ^ 31
    → (new_copy_data payload >>= λ d. ok (write_copy_data crates d out))
      ≡ ok (out ++ framed crates b'd' payload)
unfolding new_copy_data write_copy_data
copy_data-framed crates payload out h =
    rw
      (
        lt→ltb (length payload + 4) (2 ^ 64) (omega arith),
        le→leb (length payload + 4) 2147483647 (omega arith),
      )
      (rw (wrap_length (length payload + 4) h) (ap ok (simp append_assoc)))

-- `CopyData::new` refuses a buffer whose length and four more pass the largest `i32`.
pub copy_data_too_long :
    (payload : Bytes)
    → 2 ^ 31 ≤ length payload + 4
    → new_copy_data payload ≡ err (invalid_input "message length overflow")
unfolding new_copy_data
copy_data_too_long payload h = ground arith
