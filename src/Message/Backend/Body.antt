-- ===== src/Message/Backend/Body.antt =====
-- `Message` and the bodies of `Message::parse`. The state of a `Buffer` is what its `slice` shows.
use rust_kingbase.Prelude.{
  ◌==◌, if◌then◌else◌, Bytes, ◌>>=◌, Result, unexpected_eof, invalid_input, ok, err, ℕ, ◌+◌, none,
  some, [],
}
use rust_kingbase.Prelude.Int.{ℤ, pos, negsuc}
use rust_kingbase.Wire.Crates.{Crates}
use rust_kingbase.Wire.Read.{read_exact, read_u8, read_u16, read_i32, slice_to, slice_from}

pub record NotificationResponseBody : Type 0 where
  pub process_id : ℤ
  pub channel : Bytes
  pub message : Bytes

-- The body of a message that holds a count and what is counted, not yet read.
pub record CountedBody : Type 0 where
  pub storage : Bytes
  pub len : ℕ

-- `CopyInResponseBody` and `CopyOutResponseBody`.
pub record CopyResponseBody : Type 0 where
  pub format : ℕ
  pub len : ℕ
  pub storage : Bytes

pub record BackendKeyDataBody : Type 0 where
  pub process_id : ℤ
  pub secret_key : ℤ

pub record ParameterStatusBody : Type 0 where
  pub name : Bytes
  pub value : Bytes

pub data Message : Type 0 where
  authentication_cleartext_password : Message
  authentication_gss : Message
  authentication_kerberos_v5 : Message
  authentication_md5_password : Bytes → Message
  authentication_ok : Message
  authentication_scm_credential : Message
  authentication_sspi : Message
  authentication_gss_continue : Bytes → Message
  authentication_sasl : Bytes → Message
  authentication_sasl_continue : Bytes → Message
  authentication_sasl_final : Bytes → Message
  backend_key_data : BackendKeyDataBody → Message
  bind_complete : Message
  close_complete : Message
  command_complete : Bytes → Message
  copy_data : Bytes → Message
  copy_done : Message
  copy_in_response : CopyResponseBody → Message
  copy_out_response : CopyResponseBody → Message
  data_row : CountedBody → Message
  empty_query_response : Message
  error_response : Bytes → Message
  no_data : Message
  notice_response : Bytes → Message
  notification_response : NotificationResponseBody → Message
  parameter_description : CountedBody → Message
  parameter_status : ParameterStatusBody → Message
  parse_complete : Message
  portal_suspended : Message
  ready_for_query : ℕ → Message
  row_description : CountedBody → Message

-- `Buffer::read_all`
abbrev pub read_all : Bytes → Bytes × Bytes
read_all buf = (buf, [])

module _ (crates : Crates) where
  open crates use {memchr}

  -- `Buffer::read_cstr`
  unfoldable pub read_cstr : Bytes → Result (Bytes × Bytes)
  read_cstr buf = elim (memchr 0 buf) [
    | none ↦ err unexpected_eof
    | some end ↦ slice_to end buf >>= λ cstr. slice_from (end + 1) buf >>= λ rest. ok (cstr, rest)
  ]

module _ (crates : Crates) where
  unfoldable pub read_notification : Bytes → Result (Message × Bytes)
  read_notification buf = do
    (process_id, buf₁) ← read_i32 crates buf
    (channel, buf₂) ← read_cstr crates buf₁
    (text, buf₃) ← read_cstr crates buf₂
    ok (
      notification_response (record { process_id = process_id; channel = channel; message = text }),
      buf₃,
    )

  unfoldable pub read_counted : (CountedBody → Message) → Bytes → Result (Message × Bytes)
  read_counted make buf = do
    (len, buf₁) ← read_u16 crates buf
    let (storage, buf₂) = read_all buf₁
    ok (make (record { storage = storage; len = len }), buf₂)

  unfoldable pub read_copy_response :
      (CopyResponseBody → Message) → Bytes → Result (Message × Bytes)
  read_copy_response make buf = do
    (format, buf₁) ← read_u8 buf
    (len, buf₂) ← read_u16 crates buf₁
    let (storage, buf₃) = read_all buf₂
    ok (make (record { format = format; len = len; storage = storage }), buf₃)

  unfoldable pub read_key_data : Bytes → Result (Message × Bytes)
  read_key_data buf = do
    (process_id, buf₁) ← read_i32 crates buf
    (secret_key, buf₂) ← read_i32 crates buf₁
    ok (backend_key_data (record { process_id = process_id; secret_key = secret_key }), buf₂)

  unfoldable pub read_parameter_status : Bytes → Result (Message × Bytes)
  read_parameter_status buf = do
    (name, buf₁) ← read_cstr crates buf
    (value, buf₂) ← read_cstr crates buf₁
    ok (parameter_status (record { name = name; value = value }), buf₂)

-- `let storage = buf.read_all(); make(storage)`
abbrev pub take_all : (Bytes → Message) → Bytes → Result (Message × Bytes)
take_all make buf = let (storage, rest) = read_all buf in ok (make storage, rest)

abbrev pub read_salt : Bytes → Result (Message × Bytes)
read_salt buf = do (salt, rest) ← read_exact 4 buf; ok (authentication_md5_password salt, rest)

-- The message of an authentication request with code `n`.
unfoldable pub authentication : ℤ → Bytes → Result (Message × Bytes)
authentication (negsuc n) buf = err (invalid_input "unknown authentication tag")
authentication (pos n) buf =
    if n == 0
    then ok (authentication_ok, buf)
    else if n == 2
    then ok (authentication_kerberos_v5, buf)
    else if n == 3
    then ok (authentication_cleartext_password, buf)
    else if n == 5
    then read_salt buf
    else if n == 6
    then ok (authentication_scm_credential, buf)
    else if n == 7
    then ok (authentication_gss, buf)
    else if n == 8
    then take_all authentication_gss_continue buf
    else if n == 9
    then ok (authentication_sspi, buf)
    else if n == 10
    then take_all authentication_sasl buf
    else if n == 11
    then take_all authentication_sasl_continue buf
    else if n == 12
    then take_all authentication_sasl_final buf
    else err (invalid_input "unknown authentication tag")

module _ (crates : Crates) where
  unfoldable pub read_authentication : Bytes → Result (Message × Bytes)
  read_authentication buf = do (n, rest) ← read_i32 crates buf; authentication n rest

  unfoldable pub read_command_tag : Bytes → Result (Message × Bytes)
  read_command_tag buf = do (tag, rest) ← read_cstr crates buf; ok (command_complete tag, rest)

  unfoldable pub read_status : Bytes → Result (Message × Bytes)
  read_status buf = do (status, rest) ← read_u8 buf; ok (ready_for_query status, rest)

module _ (crates : Crates) where
  -- The `match tag` of `Message::parse`. The text of the last error names the tag.
  unfoldable pub parse_body : ℕ → Bytes → Result (Message × Bytes)
  parse_body tag buf =
      if tag == b'1'
      then ok (parse_complete, buf)
      else if tag == b'2'
      then ok (bind_complete, buf)
      else if tag == b'3'
      then ok (close_complete, buf)
      else if tag == b'A'
      then read_notification crates buf
      else if tag == b'c'
      then ok (copy_done, buf)
      else if tag == b'C'
      then read_command_tag crates buf
      else if tag == b'd'
      then take_all copy_data buf
      else if tag == b'D'
      then read_counted crates data_row buf
      else if tag == b'E'
      then take_all error_response buf
      else if tag == b'G'
      then read_copy_response crates copy_in_response buf
      else if tag == b'H'
      then read_copy_response crates copy_out_response buf
      else if tag == b'I'
      then ok (empty_query_response, buf)
      else if tag == b'K'
      then read_key_data crates buf
      else if tag == b'n'
      then ok (no_data, buf)
      else if tag == b'N'
      then take_all notice_response buf
      else if tag == b'R'
      then read_authentication crates buf
      else if tag == b's'
      then ok (portal_suspended, buf)
      else if tag == b'S'
      then read_parameter_status crates buf
      else if tag == b't'
      then read_counted crates parameter_description buf
      else if tag == b'T'
      then read_counted crates row_description buf
      else if tag == b'Z'
      then read_status crates buf
      else err (invalid_input "unknown message tag")
