-- ===== src/Examples/Password.antt =====
-- `Client.Connect.Progress` at the user "me" with the password "pw".
use rust_kingbase.Prelude.{Bytes, ok, ◌≡◌, refl, false, none, some, [], ◌∷◌, ◌++◌}
use rust_kingbase.Prelude.Int.{pos}
use rust_kingbase.Wire.Text.{codes}
use rust_kingbase.Wire.Standard.{standard}
use rust_kingbase.Wire.Read.{split_at, slice_from, read_exact, read_uint, read_int}
use rust_kingbase.Wire.Write.{write_at, sub_usize, from_usize}
use rust_kingbase.Message.Backend.{parse, parse_frame, finish}
use rust_kingbase.Message.Backend.Body.{
  read_key_data, authentication, read_authentication, read_status, parse_body, BackendKeyDataBody,
  authentication_cleartext_password, authentication_ok, backend_key_data, ready_for_query,
}
use rust_kingbase.Message.Frontend.{
  startup_message, password_message, write_body, write_pairs, write_cstr,
}
use rust_kingbase.Auth.Plain.{plain}
use rust_kingbase.Client.Connection.{socket_ready}
use rust_kingbase.Client.Connect.{startup_parameters}
use rust_kingbase.Client.Connect.Session.{connect_raw, new_stream, Transport}
use rust_kingbase.Client.Connect.Progress.{
  password_config, password_attempt, password_answers, password_connected, connects_by_password,
}

abbrev same_bytes : Bytes → Bytes
same_bytes s = s

abbrev opening_bytes : Bytes
opening_bytes =
    0
    ∷ 0
    ∷ 0
    ∷ 38
    ∷ 0
    ∷ 3
    ∷ 0
    ∷ 0
    ∷ (codes "client_encoding"
        ++ 0 ∷ (codes "UTF8" ++ 0 ∷ (codes "user" ++ 0 ∷ (codes "me" ++ 0 ∷ 0 ∷ []))))

abbrev password_bytes : Bytes
password_bytes = b'p' ∷ 0 ∷ 0 ∷ 0 ∷ 7 ∷ (codes "pw" ++ 0 ∷ [])

abbrev request_bytes : Bytes
request_bytes = b'R' ∷ 0 ∷ 0 ∷ 0 ∷ 8 ∷ 0 ∷ 0 ∷ 0 ∷ 3 ∷ []

abbrev consent_bytes : Bytes
consent_bytes = b'R' ∷ 0 ∷ 0 ∷ 0 ∷ 8 ∷ 0 ∷ 0 ∷ 0 ∷ 0 ∷ []

abbrev ready_for_me : Bytes
ready_for_me = b'Z' ∷ 0 ∷ 0 ∷ 0 ∷ 5 ∷ b'I' ∷ []

abbrev key_bytes : Bytes
key_bytes = b'K' ∷ 0 ∷ 0 ∷ 0 ∷ 12 ∷ 0 ∷ 0 ∷ 0 ∷ 7 ∷ 0 ∷ 0 ∷ 0 ∷ 9 ∷ ready_for_me

abbrev my_key : BackendKeyDataBody
my_key = record { process_id = pos 7; secret_key = pos 9 }

abbrev no_tls : Transport
no_tls = record {
  can_connect = false;
  request_sent = ok tt;
  reply = ok b'N';
  handshake = ok tt;
  end_point = none;
}

opening_written :
    startup_message standard
      (startup_parameters (password_config (codes "me") (codes "pw")) (codes "me"))
      []
    ≡ ok opening_bytes
unfolding startup_message startup_parameters write_body write_pairs write_cstr write_at sub_usize
    from_usize
opening_written = refl

password_written : password_message standard (codes "pw") [] ≡ ok password_bytes
unfolding password_message write_body write_cstr write_at sub_usize from_usize
password_written = refl

request_parsed : parse standard request_bytes ≡ ok (some authentication_cleartext_password, [])
unfolding parse parse_frame finish parse_body split_at slice_from read_authentication authentication
    read_int read_uint read_exact
request_parsed = refl

consent_parsed : parse standard consent_bytes ≡ ok (some authentication_ok, [])
unfolding parse parse_frame finish parse_body split_at slice_from read_authentication authentication
    read_int read_uint read_exact
consent_parsed = refl

key_parsed : parse standard key_bytes ≡ ok (some (backend_key_data my_key), ready_for_me)
unfolding parse parse_frame finish parse_body split_at slice_from read_key_data read_int read_uint
    read_exact
key_parsed = refl

end_parsed : parse standard ready_for_me ≡ ok (some (ready_for_query b'I'), [])
unfolding parse parse_frame finish parse_body split_at slice_from read_status read_int read_uint
    read_exact
end_parsed = refl

connects_by_password_example :
    connect_raw standard plain same_bytes [] []
      (password_attempt (codes "me") (codes "pw") no_tls (ok []) [])
      (new_stream
        (password_answers request_bytes consent_bytes key_bytes)
        (socket_ready ∷ socket_ready ∷ []))
    ≡ password_connected opening_bytes password_bytes my_key [] [] []
connects_by_password_example =
    connects_by_password standard plain same_bytes (codes "me") (codes "pw") opening_bytes
      password_bytes request_bytes consent_bytes key_bytes ready_for_me my_key b'I' no_tls (ok [])
      [] [] [] [] opening_written password_written request_parsed consent_parsed key_parsed
      end_parsed
