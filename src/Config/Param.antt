-- ===== src/Config/Param.antt =====
-- `Config::param` of tokio-postgres/src/config.rs.
pub mod Total
use rust_kingbase.Prelude.{
  ◌==◌, if◌then◌else◌, Bytes, ◌>>=◌, ok_or, Result, message, ok, err, ◌-◌, ◌^◌, not, Option, some,
  List, [], ◌∷◌, ◌++◌,
}
use rust_kingbase.Wire.Text.{codes, same, parse_unsigned}
use rust_kingbase.Types.Inet.{IpAddr}
use rust_kingbase.Config.{
  split, add_hosts, add_ports, positive_param, ssl_mode_of, ssl_negotiation_of,
  target_session_attrs_of, channel_binding_of, load_balance_hosts_of, Config,
}

module _ (parse_ip : Bytes → Option IpAddr) where
  unfoldable pub add_hostaddrs : List Bytes → Config → Result Config
  add_hostaddrs [] c = ok c
  add_hostaddrs (h ∷ hs) c = do
    addr ← ok_or (parse_ip h) (message "invalid value for option `hostaddr`")
    add_hostaddrs hs (record c { hostaddrs = c.hostaddrs ++ addr ∷ [] })

  unfoldable pub param_keepalive : Bytes → Bytes → Config → Result Config
  param_keepalive key v c =
      if same key (codes "keepalives")
      then (ok_or (parse_unsigned (2 ^ 64 - 1) v) (message "invalid value for option `keepalives`")
          >>= λ n. ok (record c { keepalives = not (n == 0) }))
      else if same key (codes "keepalives_idle")
      then positive_param (message "invalid value for option `keepalives_idle`")
          (λ n d. record d { keepalive_config = record d.keepalive_config { idle = n } }) v c
      else if same key (codes "keepalives_interval")
      then positive_param (message "invalid value for option `keepalives_interval`")
          (λ n d. record d { keepalive_config = record d.keepalive_config { interval = some n } }) v
          c
      else if same key (codes "keepalives_retries")
      then (ok_or (parse_unsigned (2 ^ 32 - 1) v)
            (message "invalid value for option `keepalives_retries`")
          >>= λ n.
              ok (record c { keepalive_config = record c.keepalive_config { retries = some n } }))
      else err (message "unknown option")

  unfoldable pub param_mode : Bytes → Bytes → Config → Result Config
  param_mode key v c =
      if same key (codes "sslmode")
      then (ssl_mode_of v >>= λ mode. ok (record c { ssl_mode = mode }))
      else if same key (codes "sslnegotiation")
      then (ssl_negotiation_of v >>= λ mode. ok (record c { ssl_negotiation = mode }))
      else if same key (codes "target_session_attrs")
      then (target_session_attrs_of v >>= λ attrs. ok (record c { target_session_attrs = attrs }))
      else if same key (codes "channel_binding")
      then (channel_binding_of v >>= λ binding. ok (record c { channel_binding = binding }))
      else if same key (codes "load_balance_hosts")
      then (load_balance_hosts_of v >>= λ hosts. ok (record c { load_balance_hosts = hosts }))
      else param_keepalive key v c

  unfoldable pub param : Bytes → Bytes → Config → Result Config
  param key v c =
      if same key (codes "user")
      then ok (record c { user = some v })
      else if same key (codes "password")
      then ok (record c { password = some v })
      else if same key (codes "dbname")
      then ok (record c { dbname = some v })
      else if same key (codes "options")
      then ok (record c { options = some v })
      else if same key (codes "application_name")
      then ok (record c { application_name = some v })
      else if same key (codes "host")
      then ok (add_hosts (split b',' v) c)
      else if same key (codes "hostaddr")
      then add_hostaddrs (split b',' v) c
      else if same key (codes "port")
      then add_ports (split b',' v) c
      else if same key (codes "connect_timeout")
      then positive_param (message "invalid value for option `connect_timeout`")
          (λ n d. record d { connect_timeout = some n }) v c
      else if same key (codes "tcp_user_timeout")
      then positive_param (message "invalid value for option `tcp_user_timeout`")
          (λ n d. record d { tcp_user_timeout = some n }) v c
      else param_mode key v c
