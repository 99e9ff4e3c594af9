-- ===== src/Message/Backend/Layouts.antt =====
-- The layout of each server message as the protocol describes it, and that `Message::parse` reads it.
use rust_kingbase.Prelude.{
  Bytes, length, drop, drop-add-append, ok, ℕ, ◌+◌, ◌^◌, ◌<◌, ◌≡◌, refl, ◌∙◌, false, some, [], ◌∷◌,
  ◌++◌, append-nil, arith,
}
use rust_kingbase.Prelude.Int.{IsSigned, wrap, ℤ, pos}
use rust_kingbase.Wire.Crates.{contains, Crates}
use rust_kingbase.Wire.Read.{
  read_exact, read_exact-length, read_i32, read_uint-write_be, read_int-write_be, slice_to-append,
  slice_from-behind,
}
use rust_kingbase.Message.Backend.{finish, parse}
use rust_kingbase.Message.Backend.Body.{
  read_cstr, read_notification, read_counted, read_copy_response, read_key_data,
  read_parameter_status, authentication, read_authentication, read_command_tag, read_status,
  parse_body, CountedBody, CopyResponseBody, Message, authentication_cleartext_password,
  authentication_gss, authentication_kerberos_v5, authentication_md5_password, authentication_ok,
  authentication_scm_credential, authentication_sspi, authentication_gss_continue,
  authentication_sasl, authentication_sasl_continue, authentication_sasl_final, backend_key_data,
  bind_complete, close_complete, command_complete, copy_data, copy_done, copy_in_response,
  copy_out_response, data_row, empty_query_response, error_response, no_data, notice_response,
  notification_response, parameter_description, parameter_status, parse_complete, portal_suspended,
  ready_for_query, row_description,
}
use rust_kingbase.Message.Backend.Frame.{parse-IsFrame, IsFrame}

read_exact_all : (n : ℕ) (xs : Bytes) → length xs ≡ n → read_exact n xs ≡ ok (xs, [])
read_exact_all n xs e = rw (← e) (read_exact-length xs)

module _ (crates : Crates) where
  open crates use {write_be, memchr_found}

  abbrev pub i32_be : ℤ → Bytes
  i32_be v = write_be 4 (wrap (2 ^ 31) v)

  abbrev pub counted_layout : CountedBody → Bytes
  counted_layout b = write_be 2 b.len ++ b.storage

  abbrev pub copy_layout : CopyResponseBody → Bytes
  copy_layout b = b.format ∷ (write_be 2 b.len ++ b.storage)

  pub read_cstr-append :
      (s rest : Bytes) → contains 0 s ≡ false → read_cstr crates (s ++ 0 ∷ rest) ≡ ok (s, rest)
  unfolding read_cstr
  read_cstr-append s rest h =
      rw (memchr_found 0 s rest h, read_cstr)
        (rw (slice_to-append s (0 ∷ rest), slice_from-behind s 0 rest))
    where
      next : drop (length s + 1) (s ++ 0 ∷ rest) ≡ rest
      next = drop-add-append s (0 ∷ rest) 1

module _ (crates : Crates) where
  open crates use {write_be}

  -- The tag and the body that the protocol gives each message.
  abbrev pub layout : Message → ℕ × Bytes
  layout authentication_ok = (b'R', i32_be crates (pos 0))
  layout authentication_kerberos_v5 = (b'R', i32_be crates (pos 2))
  layout authentication_cleartext_password = (b'R', i32_be crates (pos 3))
  layout (authentication_md5_password salt) = (b'R', i32_be crates (pos 5) ++ salt)
  layout authentication_scm_credential = (b'R', i32_be crates (pos 6))
  layout authentication_gss = (b'R', i32_be crates (pos 7))
  layout (authentication_gss_continue s) = (b'R', i32_be crates (pos 8) ++ s)
  layout authentication_sspi = (b'R', i32_be crates (pos 9))
  layout (authentication_sasl s) = (b'R', i32_be crates (pos 10) ++ s)
  layout (authentication_sasl_continue s) = (b'R', i32_be crates (pos 11) ++ s)
  layout (authentication_sasl_final s) = (b'R', i32_be crates (pos 12) ++ s)
  layout (backend_key_data b) = (b'K', i32_be crates b.process_id ++ i32_be crates b.secret_key)
  layout bind_complete = (b'2', [])
  layout close_complete = (b'3', [])
  layout (command_complete tag) = (b'C', tag ++ 0 ∷ [])
  layout (copy_data s) = (b'd', s)
  layout copy_done = (b'c', [])
  layout (copy_in_response b) = (b'G', copy_layout crates b)
  layout (copy_out_response b) = (b'H', copy_layout crates b)
  layout (data_row b) = (b'D', counted_layout crates b)
  layout empty_query_response = (b'I', [])
  layout (error_response s) = (b'E', s)
  layout no_data = (b'n', [])
  layout (notice_response s) = (b'N', s)
  layout (notification_response b) =
      (b'A', i32_be crates b.process_id ++ (b.channel ++ 0 ∷ (b.message ++ 0 ∷ [])))
  layout (parameter_description b) = (b't', counted_layout crates b)
  layout (parameter_status b) = (b'S', b.name ++ 0 ∷ (b.value ++ 0 ∷ []))
  layout parse_complete = (b'1', [])
  layout portal_suspended = (b's', [])
  layout (ready_for_query status) = (b'Z', status ∷ [])
  layout (row_description b) = (b'T', counted_layout crates b)

-- The fields of a message are in the range of their types, and its texts have no null byte.
abbrev pub IsSendable : Message → Type 0
IsSendable (authentication_md5_password salt) = length salt ≡ 4
IsSendable (backend_key_data b) = IsSigned (2 ^ 31) b.process_id × IsSigned (2 ^ 31) b.secret_key
IsSendable (command_complete tag) = contains 0 tag ≡ false
IsSendable (copy_in_response b) = b.len < 2 ^ 16
IsSendable (copy_out_response b) = b.len < 2 ^ 16
IsSendable (data_row b) = b.len < 2 ^ 16
IsSendable (notification_response b) =
    IsSigned (2 ^ 31) b.process_id × (contains 0 b.channel ≡ false) × (contains 0 b.message ≡ false)
IsSendable (parameter_description b) = b.len < 2 ^ 16
IsSendable (parameter_status b) = (contains 0 b.name ≡ false) × (contains 0 b.value ≡ false)
IsSendable (row_description b) = b.len < 2 ^ 16
IsSendable _ = Unit

module _ (crates : Crates) where
  open crates use {write_be, read_be-write_be, length-write_be}

  read_code :
      (n : ℕ) (rest : Bytes)
      → n < 2 ^ 31
      → read_authentication crates (i32_be crates (pos n) ++ rest) ≡ authentication (pos n) rest
  unfolding read_authentication
  read_code n rest h = rw (read_int-write_be crates 4 (2 ^ 31) (pos n) rest refl (omega arith) h)

  bare_code :
      (n : ℕ)
      → n < 2 ^ 31
      → read_authentication crates (i32_be crates (pos n)) ≡ authentication (pos n) []
  bare_code n h = rw (← append-nil (i32_be crates (pos n))) (read_code n [] h)

  read_i32-i32_be :
      (v : ℤ) (rest : Bytes)
      → IsSigned (2 ^ 31) v
      → read_i32 crates (i32_be crates v ++ rest) ≡ ok (v, rest)
  read_i32-i32_be v rest h = read_int-write_be crates 4 (2 ^ 31) v rest refl (omega arith) h

  read_counted-layout :
      (make : CountedBody → Message) (b : CountedBody)
      → b.len < 2 ^ 16
      → read_counted crates make (counted_layout crates b) ≡ ok (make b, [])
  unfolding read_counted
  read_counted-layout make b h = rw (read_uint-write_be crates 2 b.len b.storage h)

  read_copy_response-layout :
      (make : CopyResponseBody → Message) (b : CopyResponseBody)
      → b.len < 2 ^ 16
      → read_copy_response crates make (copy_layout crates b) ≡ ok (make b, [])
  unfolding read_copy_response
  read_copy_response-layout make b h = rw (read_uint-write_be crates 2 b.len b.storage h)

module _ (crates : Crates) where
  open crates use {write_be, read_be-write_be, length-write_be}

  parse_body-layout :
      (m : Message)
      → IsSendable m
      → parse_body crates (layout crates m).0 (layout crates m).1 ≡ ok (m, [])
  unfolding parse_body authentication read_key_data read_command_tag read_notification
      read_parameter_status read_status
  parse_body-layout authentication_ok h = rw (bare_code crates 0 (omega arith))
  parse_body-layout authentication_kerberos_v5 h = rw (bare_code crates 2 (omega arith))
  parse_body-layout authentication_cleartext_password h = rw (bare_code crates 3 (omega arith))
  parse_body-layout (authentication_md5_password salt) h =
      rw (read_code crates 5 salt (omega arith)) (rw (read_exact_all 4 salt h))
  parse_body-layout authentication_scm_credential h = rw (bare_code crates 6 (omega arith))
  parse_body-layout authentication_gss h = rw (bare_code crates 7 (omega arith))
  parse_body-layout (authentication_gss_continue s) h = rw (read_code crates 8 s (omega arith))
  parse_body-layout authentication_sspi h = rw (bare_code crates 9 (omega arith))
  parse_body-layout (authentication_sasl s) h = rw (read_code crates 10 s (omega arith))
  parse_body-layout (authentication_sasl_continue s) h = rw (read_code crates 11 s (omega arith))
  parse_body-layout (authentication_sasl_final s) h = rw (read_code crates 12 s (omega arith))
  parse_body-layout (backend_key_data b) (p, k) =
      rw (read_i32-i32_be crates b.process_id (i32_be crates b.secret_key) p) (
        rw (← append-nil (i32_be crates b.secret_key))
          (rw (read_i32-i32_be crates b.secret_key [] k)))
  parse_body-layout bind_complete h = refl
  parse_body-layout close_complete h = refl
  parse_body-layout (command_complete tag) h = rw (read_cstr-append crates tag [] h)
  parse_body-layout (copy_data s) h = refl
  parse_body-layout copy_done h = refl
  parse_body-layout (copy_in_response b) h = read_copy_response-layout crates copy_in_response b h
  parse_body-layout (copy_out_response b) h = read_copy_response-layout crates copy_out_response b h
  parse_body-layout (data_row b) h = read_counted-layout crates data_row b h
  parse_body-layout empty_query_response h = refl
  parse_body-layout (error_response s) h = refl
  parse_body-layout no_data h = refl
  parse_body-layout (notice_response s) h = refl
  parse_body-layout (notification_response b) (p, c, t) = rw (
    read_i32-i32_be crates b.process_id (b.channel ++ 0 ∷ (b.message ++ 0 ∷ [])) p,
    read_cstr-append crates b.channel (b.message ++ 0 ∷ []) c,
    read_cstr-append crates b.message [] t,
  )
  parse_body-layout (parameter_description b) h =
      read_counted-layout crates parameter_description b h
  parse_body-layout (parameter_status b) (n, v) =
      rw
        (read_cstr-append crates b.name (b.value ++ 0 ∷ []) n, read_cstr-append crates b.value [] v)
  parse_body-layout parse_complete h = refl
  parse_body-layout portal_suspended h = refl
  parse_body-layout (ready_for_query status) h = refl
  parse_body-layout (row_description b) h = read_counted-layout crates row_description b h

  -- The message on the wire: its tag, its length and its body.
  abbrev pub on_wire : Message → Bytes
  on_wire m =
      (layout crates m).0 ∷ (write_be 4 (length (layout crates m).1 + 4) ++ (layout crates m).1)

  pub on_wire-IsFrame :
      (m : Message)
      → length (layout crates m).1 + 4 < 2 ^ 32
      → IsFrame crates (layout crates m).0 (layout crates m).1 (on_wire m)
  on_wire-IsFrame m h = record {
    size = write_be 4 (length (layout crates m).1 + 4);
    laid_out = refl;
    four = length-write_be 4 _;
    counts = read_be-write_be 4 (length (layout crates m).1 + 4) h;
  }

module _ (crates : Crates) where
  -- Every server message that the protocol allows, laid out as the protocol says and short enough for
  -- its length field, is read back by `Message::parse`, which leaves whatever follows it.
  pub parse-on_wire :
      (m : Message) (rest : Bytes)
      → IsSendable m
      → length (layout crates m).1 + 4 < 2 ^ 32
      → parse crates (on_wire crates m ++ rest) ≡ ok (some m, rest)
  unfolding finish
  parse-on_wire m rest s h =
      parse-IsFrame crates _ _ (on_wire crates m) rest (on_wire-IsFrame crates m h)
      ∙ rw (parse_body-layout crates m s)
