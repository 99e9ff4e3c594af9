-- ===== src/Examples/Options.antt =====
-- The theorems of `Config` at a string of three options.
use rust_kingbase.Prelude.{
  Bytes, All, Returns, ok, ℕ, ◌≡◌, refl, Bool, true, ◌&&◌, Option, none, some, List, [], ◌∷◌, arith,
}
use rust_kingbase.Wire.Text.{codes, parse_digits, parse_unsigned}
use rust_kingbase.Types.Inet.{IpAddr}
use rust_kingbase.Config.{
  new_config, parse_i64, add_host, port_of, add_ports, set_positive, positive_param, tcp_host,
  unix_host,
}
use rust_kingbase.Config.Param.{param_keepalive, param_mode, param}
use rust_kingbase.Config.Parser.{is_keyword, parse_config}
use rust_kingbase.Config.Parser.Quoted.{write_params, set_params, parse_config-write}
use rust_kingbase.Config.Url.{
  take_until, eat_byte, until_or_all, split_port, strip_prefix, first_stripped, remove_url_prefix,
  bracket_port, bracketed, host_and_port, decode, set_credentials, parse_credentials, host_of,
  host_param, port_text, parse_chunks, parse_hosts, parse_host, set_dbname, parse_path, take_value,
  url_param, params_rounds, parse_params, parse_url, config_from_str,
}
use rust_kingbase.Config.Url.Total.{config_from_str-Returns}

abbrev no_ip : Bytes → Option IpAddr
no_ip s = none

abbrev chosen : List (Bytes × Bytes)
chosen =
    (codes "user", codes "o'neil")
    ∷ (codes "port", codes "54321,")
    ∷ (codes "connect_timeout", codes "-1")
    ∷ []

-- Each character of a text passes a test.
abbrev passes : (ℕ → Bool) → Bytes → Bool
passes f [] = true
passes f (c ∷ s) = f c && passes f s

passes-All : (f : ℕ → Bool) (s : Bytes) → passes f s ≡ true → All (λ c. f c ≡ true) s
passes-All f [] h = tt
passes-All f (c ∷ s) h =
    let here : f c ≡ true = ground arith in
    let behind : passes f s ≡ true = ground arith in (here, passes-All f s behind)

parse_config-write_example :
    parse_config no_ip (write_params chosen) ≡ set_params no_ip chosen new_config
parse_config-write_example = parse_config-write no_ip chosen (
  passes-All is_keyword (codes "user") refl,
  (
    passes-All is_keyword (codes "port") refl,
    (passes-All is_keyword (codes "connect_timeout") refl, tt),
  ),
)

abbrev as_text : Bytes → Option Bytes
as_text s = some s

abbrev as_bytes : Bytes → Bytes
as_bytes s = s

config_from_str-Returns_example : Returns (
    config_from_str no_ip as_bytes as_text as_text
      (codes "kingbase://me:pw@[::1]:54321,db/x?host=/tmp&port=1"))
config_from_str-Returns_example = config_from_str-Returns no_ip as_bytes as_text as_text _

-- A port that is left out is 5432, and a timeout that is not positive is not set.
chosen_ports :
    set_params no_ip chosen new_config
    ≡ ok (record new_config { user = some (codes "o'neil"); ports = 54321 ∷ 5432 ∷ [] })
unfolding param param_mode param_keepalive add_ports port_of positive_param set_positive parse_i64
    parse_unsigned parse_digits
chosen_ports = refl

-- The parts of a URL.
url_parts :
    config_from_str no_ip as_bytes as_text as_text
      (codes "kingbase://me:pw@[::1]:54321,db/x?host=/tmp")
    ≡ ok (record new_config {
      user = some (codes "me");
      password = some (codes "pw");
      dbname = some (codes "x");
      hosts = tcp_host (codes "::1") ∷ tcp_host (codes "db") ∷ unix_host (codes "/tmp") ∷ [];
      ports = 54321 ∷ 5432 ∷ [];
    })
unfolding config_from_str remove_url_prefix first_stripped strip_prefix parse_url parse_credentials
    set_credentials parse_host parse_hosts parse_chunks host_and_port bracketed bracket_port
    host_param host_of add_host port_text parse_path set_dbname parse_params params_rounds
    take_value url_param take_until until_or_all eat_byte split_port decode param add_ports port_of
    parse_unsigned parse_digits
url_parts = refl
