-- ===== src/Config.antt =====
-- tokio-postgres/src/config.rs: the configuration and its options by name. A text is the list of its
-- characters, a duration its seconds. Unix is the system; `parse_ip` stands for the parser of addresses
-- of the standard library. An error is its text, less the name of an unknown
-- option. A password that is given as text is kept as its characters.
pub mod Param
pub mod Parser
pub mod Url
use rust_kingbase.Prelude.{
  ◌==◌, if◌then◌else◌, Bytes, ◌>>=◌, ok_or, Error, Result, message, ok, err, ℕ, zero, suc, ◌-◌, ◌*◌,
  ◌^◌, Bool, true, Option, none, some, List, [], ◌∷◌, ◌++◌,
}
use rust_kingbase.Prelude.Int.{ℤ, pos, negsuc}
use rust_kingbase.Wire.Text.{codes, same, parse_digits, parse_unsigned}
use rust_kingbase.Types.Inet.{IpAddr}

pub data TargetSessionAttrs : Type 0 where
  any_session read_write read_only : TargetSessionAttrs

pub data SslMode : Type 0 where
  ssl_disable ssl_prefer ssl_require : SslMode

pub data SslNegotiation : Type 0 where
  postgres_negotiation direct_negotiation : SslNegotiation

pub data ChannelBinding : Type 0 where
  binding_disable binding_prefer binding_require : ChannelBinding

pub data LoadBalanceHosts : Type 0 where
  balance_disable balance_random : LoadBalanceHosts

pub data Host : Type 0 where
  tcp_host unix_host : Bytes → Host

pub record KeepaliveConfig : Type 0 where
  pub idle : ℕ
  pub interval : Option ℕ
  pub retries : Option ℕ

pub record Config : Type 0 where
  pub user : Option Bytes
  pub password : Option Bytes
  pub dbname : Option Bytes
  pub options : Option Bytes
  pub application_name : Option Bytes
  pub ssl_mode : SslMode
  pub ssl_negotiation : SslNegotiation
  pub hosts : List Host
  pub hostaddrs : List IpAddr
  pub ports : List ℕ
  pub connect_timeout : Option ℕ
  pub tcp_user_timeout : Option ℕ
  pub keepalives : Bool
  pub keepalive_config : KeepaliveConfig
  pub target_session_attrs : TargetSessionAttrs
  pub channel_binding : ChannelBinding
  pub load_balance_hosts : LoadBalanceHosts

-- `Config::new`
abbrev pub new_config : Config
new_config = record {
  user = none;
  password = none;
  dbname = none;
  options = none;
  application_name = none;
  ssl_mode = ssl_prefer;
  ssl_negotiation = postgres_negotiation;
  hosts = [];
  hostaddrs = [];
  ports = [];
  connect_timeout = none;
  tcp_user_timeout = none;
  keepalives = true;
  keepalive_config = record { idle = 2 * 60 * 60; interval = none; retries = none };
  target_session_attrs = any_session;
  channel_binding = binding_prefer;
  load_balance_hosts = balance_disable;
}

-- `str::split` at a character: the first piece, and those behind it.
abbrev pub split_first : ℕ → Bytes → Bytes × List Bytes
split_first d [] = ([], [])
split_first d (c ∷ s) =
    let (piece, pieces) = split_first d s in
    if c == d then ([], piece ∷ pieces) else (c ∷ piece, pieces)

abbrev pub split : ℕ → Bytes → List Bytes
split d s = let (piece, pieces) = split_first d s in piece ∷ pieces

-- `Option::map` and the negation of a number.
abbrev pub map_option : (ℕ → ℤ) → Option ℕ → Option ℤ
map_option f none = none
map_option f (some n) = some (f n)

abbrev pub negated : ℕ → ℤ
negated zero = pos 0
negated (suc n) = negsuc n

-- `str::parse::<i64>`
unfoldable pub parse_i64 : Bytes → Option ℤ
unfolding parse_digits parse_unsigned
parse_i64 [] = none
parse_i64 (c ∷ []) = map_option pos (parse_unsigned (2 ^ 63 - 1) (c ∷ []))
parse_i64 (c ∷ d ∷ s) =
    if c == b'-'
    then map_option negated (parse_digits (2 ^ 63) 0 (d ∷ s))
    else map_option pos (parse_unsigned (2 ^ 63 - 1) (c ∷ d ∷ s))

-- `Config::host` of a text
unfoldable pub add_host : Bytes → Config → Config
add_host [] c = record c { hosts = c.hosts ++ tcp_host [] ∷ [] }
add_host (x ∷ s) c =
    if x == b'/'
    then record c { hosts = c.hosts ++ unix_host (x ∷ s) ∷ [] }
    else record c { hosts = c.hosts ++ tcp_host (x ∷ s) ∷ [] }

unfoldable pub add_hosts : List Bytes → Config → Config
add_hosts [] c = c
add_hosts (h ∷ hs) c = add_hosts hs (add_host h c)

unfoldable pub port_of : Bytes → Result ℕ
port_of [] = ok 5432
port_of (x ∷ s) =
    ok_or (parse_unsigned (2 ^ 16 - 1) (x ∷ s)) (message "invalid value for option `port`")

unfoldable pub add_ports : List Bytes → Config → Result Config
add_ports [] c = ok c
add_ports (p ∷ ps) c = do port ← port_of p; add_ports ps (record c { ports = c.ports ++ port ∷ [] })

-- A duration that is set only where it is positive.
unfoldable pub set_positive : (ℕ → Config → Config) → ℤ → Config → Config
set_positive set (pos zero) c = c
set_positive set (pos (suc n)) c = set (suc n) c
set_positive set (negsuc n) c = c

unfoldable pub positive_param : Error → (ℕ → Config → Config) → Bytes → Config → Result Config
positive_param invalid set value c = do
  n ← ok_or (parse_i64 value) invalid
  ok (set_positive set n c)

unfoldable pub ssl_mode_of : Bytes → Result SslMode
ssl_mode_of v =
    if same v (codes "disable")
    then ok ssl_disable
    else if same v (codes "prefer")
    then ok ssl_prefer
    else if same v (codes "require")
    then ok ssl_require
    else err (message "invalid value for option `sslmode`")

unfoldable pub ssl_negotiation_of : Bytes → Result SslNegotiation
ssl_negotiation_of v =
    if same v (codes "postgres")
    then ok postgres_negotiation
    else if same v (codes "direct")
    then ok direct_negotiation
    else err (message "invalid value for option `sslnegotiation`")

unfoldable pub target_session_attrs_of : Bytes → Result TargetSessionAttrs
target_session_attrs_of v =
    if same v (codes "any")
    then ok any_session
    else if same v (codes "read-write")
    then ok read_write
    else if same v (codes "read-only")
    then ok read_only
    else err (message "invalid value for option `target_session_attrs`")

unfoldable pub channel_binding_of : Bytes → Result ChannelBinding
channel_binding_of v =
    if same v (codes "disable")
    then ok binding_disable
    else if same v (codes "prefer")
    then ok binding_prefer
    else if same v (codes "require")
    then ok binding_require
    else err (message "invalid value for option `channel_binding`")

unfoldable pub load_balance_hosts_of : Bytes → Result LoadBalanceHosts
load_balance_hosts_of v =
    if same v (codes "disable")
    then ok balance_disable
    else if same v (codes "random")
    then ok balance_random
    else err (message "invalid value for option `load_balance_hosts`")
