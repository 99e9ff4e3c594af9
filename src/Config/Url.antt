-- ===== src/Config/Url.antt =====
-- The parser of URLs of tokio-postgres/src/config.rs, and `from_str`. `percent_decode` of the crate
-- percent_encoding is a parameter, as bytes, and as text where these are UTF-8, and so is `from_utf8` of
-- bytes. Whether an error names an option or holds another error is left out.
pub mod Parts
pub mod Total
use rust_kingbase.Prelude.{
  ◌==◌, if◌then◌else◌, Bytes, length, ◌>>=◌, ok_or, Result, message, ok, err, panic, ℕ, zero, suc,
  Option, none, some, List, [], ◌∷◌, ◌++◌,
}
use rust_kingbase.Wire.Text.{codes, same}
use rust_kingbase.Wire.Crates.{contains}
use rust_kingbase.Types.Inet.{IpAddr}
use rust_kingbase.Config.{new_config, split, add_host, Config, unix_host}
use rust_kingbase.Config.Param.{param}
use rust_kingbase.Config.Parser.{parse_config}

-- `take_until`: what stands in front of the first of the characters, and what is left from it on.
unfoldable pub take_until : Bytes → Bytes → Option (Bytes × Bytes)
take_until ends [] = none
take_until ends (c ∷ s) =
    let behind = take_until ends s in
    if contains c ends
    then some ([], c ∷ s)
    else elim behind [ none ↦ none | some (head, tail) ↦ some (c ∷ head, tail) ]

-- `eat_byte`
unfoldable pub eat_byte : Bytes → Result Bytes
eat_byte [] = panic
eat_byte (c ∷ s) = ok s

unfoldable pub until_or_all : Bytes → Bytes → Bytes × Bytes
until_or_all ends s = elim (take_until ends s) [ some p ↦ p | none ↦ (s, []) ]

-- `splitn(2, ':')`
unfoldable pub split_port : Bytes → Bytes × Option Bytes
split_port [] = ([], none)
split_port (c ∷ s) =
    let (host, port) = split_port s in if c == b':' then ([], some s) else (c ∷ host, port)

-- `strip_prefix`
unfoldable pub strip_prefix : Bytes → Bytes → Option Bytes
strip_prefix [] s = some s
strip_prefix (p ∷ prefix) [] = none
strip_prefix (p ∷ prefix) (c ∷ s) =
    let rest = strip_prefix prefix s in if c == p then rest else none

unfoldable pub first_stripped : List Bytes → Bytes → Option Bytes
first_stripped [] s = none
first_stripped (p ∷ ps) s =
    let rest = first_stripped ps s in
    elim (strip_prefix p s) [ some stripped ↦ some stripped | none ↦ rest ]

unfoldable pub remove_url_prefix : Bytes → Option Bytes
remove_url_prefix s =
    first_stripped (codes "postgres://" ∷ codes "postgresql://" ∷ codes "kingbase://" ∷ []) s

-- What stands behind a host in brackets.
unfoldable pub bracket_port : Bytes → Result (Option Bytes)
bracket_port [] = ok none
bracket_port (c ∷ port) =
    if c == b':' then ok (some port) else err (message "invalid value for option `host`")

unfoldable pub bracketed : Bytes → Result (Bytes × Option Bytes)
bracketed rest = do
  (host, tail) ← ok_or (take_until (b']' ∷ []) rest) (message "invalid value for option `host`")
  remaining ← eat_byte tail
  port ← bracket_port remaining
  ok (host, port)

-- The host and the port of a chunk.
unfoldable pub host_and_port : Bytes → Result (Bytes × Option Bytes)
host_and_port [] = ok ([], none)
host_and_port (c ∷ chunk) = if c == b'[' then bracketed chunk else ok (split_port (c ∷ chunk))

module _ (parse_ip : Bytes → Option IpAddr) (percent_bytes : Bytes → Bytes)
    (percent_text : Bytes → Option Bytes) (text_of : Bytes → Option Bytes) where
  unfoldable pub decode : Bytes → Result Bytes
  decode s = ok_or (percent_text s) (message "invalid utf-8")

  unfoldable pub set_credentials : Bytes × Option Bytes → Config → Result Config
  set_credentials (user, none) c = decode user >>= λ u. ok (record c { user = some u })
  set_credentials (user, some password) c =
      decode user >>= λ u. ok (record c { user = some u; password = some (percent_bytes password) })

  unfoldable pub parse_credentials : Bytes → Config → Result (Config × Bytes)
  parse_credentials s c = elim (take_until (b'@' ∷ []) s) [
    | none ↦ ok (c, s)
    | some (creds, tail) ↦
        eat_byte tail >>= λ rest. set_credentials (split_port creds) c >>= λ d. ok (d, rest)
  ]

  -- A host whose bytes start with a slash is a path.
  unfoldable pub host_of : Bytes → Config → Result Config
  host_of [] c = ok_or (text_of []) (message "invalid utf-8") >>= λ h. ok (add_host h c)
  host_of (x ∷ s) c =
      if x == b'/'
      then ok (record c { hosts = c.hosts ++ unix_host (x ∷ s) ∷ [] })
      else (ok_or (text_of (x ∷ s)) (message "invalid utf-8") >>= λ h. ok (add_host h c))

  unfoldable pub host_param : Bytes → Config → Result Config
  host_param s c = host_of (percent_bytes s) c

  unfoldable pub port_text : Option Bytes → Bytes
  port_text none = codes "5432"
  port_text (some port) = port

  unfoldable pub parse_chunks : List Bytes → Config → Result Config
  parse_chunks [] c = ok c
  parse_chunks (chunk ∷ chunks) c = do
    (host, port) ← host_and_port chunk
    c ← host_param host c
    port ← decode (port_text port)
    c ← param parse_ip (codes "port") port c
    parse_chunks chunks c

  unfoldable pub parse_hosts : Bytes → Config → Result Config
  parse_hosts [] c = ok c
  parse_hosts (x ∷ host) c = parse_chunks (split b',' (x ∷ host)) c

  unfoldable pub parse_host : Bytes → Config → Result (Config × Bytes)
  parse_host s c =
      let (host, rest) = until_or_all (codes "/?") s in parse_hosts host c >>= λ d. ok (d, rest)

  unfoldable pub set_dbname : Bytes → Config → Result Config
  set_dbname [] c = ok c
  set_dbname (x ∷ name) c = decode (x ∷ name) >>= λ n. ok (record c { dbname = some n })

  unfoldable pub parse_path : Bytes → Config → Result (Config × Bytes)
  parse_path [] c = ok (c, [])
  parse_path (x ∷ s) c =
      if x == b'/'
      then (let (name, rest) = until_or_all (codes "?") s in
          set_dbname name c >>= λ d. ok (d, rest))
      else ok (c, x ∷ s)

  -- The value of a parameter, and what is left behind its `&`.
  unfoldable pub take_value : Bytes → Result (Bytes × Bytes)
  take_value s = elim (take_until (codes "&") s) [
    | none ↦ ok (s, [])
    | some (value, tail) ↦ eat_byte tail >>= λ rest. ok (value, rest)
  ]

  unfoldable pub url_param : Bytes → Bytes → Config → Result Config
  url_param key value c =
      if same key (codes "host")
      then host_param value c
      else (decode value >>= λ v. param parse_ip key v c)

  -- The loop of `parse_params`. A parameter takes a character at least, so that the length of the text
  -- and one more is enough fuel; without fuel the model panics.
  unfoldable pub params_rounds : ℕ → Bytes → Config → Result Config
  params_rounds zero s c = panic
  params_rounds (suc fuel) [] c = ok c
  params_rounds (suc fuel) (x ∷ s) c = do
    (key, tail) ← ok_or (take_until (codes "=") (x ∷ s)) (message "unterminated parameter")
    key ← decode key
    rest ← eat_byte tail
    (value, rest) ← take_value rest
    c ← url_param key value c
    params_rounds fuel rest c

  unfoldable pub parse_params : Bytes → Config → Result Config
  parse_params [] c = ok c
  parse_params (x ∷ s) c = if x == b'?' then params_rounds (suc (length s)) s c else ok c

  -- `UrlParser::parse`, behind the prefix.
  unfoldable pub parse_url : Bytes → Result Config
  parse_url s = do
    (c, s) ← parse_credentials s new_config
    (c, s) ← parse_host s c
    (c, s) ← parse_path s c
    parse_params s c

  -- `Config::from_str`
  unfoldable pub config_from_str : Bytes → Result Config
  config_from_str s = elim (remove_url_prefix s) [
    | some rest ↦ parse_url rest
    | none ↦ parse_config parse_ip s
  ]
