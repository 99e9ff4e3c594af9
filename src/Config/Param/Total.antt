-- ===== src/Config/Param/Total.antt =====
-- `Config::param` returns for every option and value.
use rust_kingbase.Prelude.{
  Bytes, Returns, Error, ℕ, ◌-◌, ◌^◌, Option, List, [], ◌∷◌, ◌++◌, if-Returned, ok_or-Returned,
  >>=-Returned, Returned-Returns, Returned, returned, refused,
}
use rust_kingbase.Wire.Text.{codes, same, parse_unsigned}
use rust_kingbase.Types.Inet.{IpAddr}
use rust_kingbase.Config.{
  split, parse_i64, port_of, add_ports, positive_param, ssl_mode_of, ssl_negotiation_of,
  target_session_attrs_of, channel_binding_of, load_balance_hosts_of, Config,
}
use rust_kingbase.Config.Param.{add_hostaddrs, param_keepalive, param_mode, param}

positive_param-Returned :
    (e : Error) (set : ℕ → Config → Config) (v : Bytes) (c : Config)
    → Returned (positive_param e set v c)
unfolding positive_param
positive_param-Returned e set v c = >>=-Returned (ok_or-Returned (parse_i64 v) e) (λ n. returned _)

port_of-Returned : (p : Bytes) → Returned (port_of p)
unfolding port_of
port_of-Returned [] = returned _
port_of-Returned (x ∷ s) = ok_or-Returned (parse_unsigned (2 ^ 16 - 1) (x ∷ s)) _

add_ports-Returned : (ps : List Bytes) (c : Config) → Returned (add_ports ps c)
unfolding add_ports
add_ports-Returned [] c = returned c
add_ports-Returned (p ∷ ps) c =
    >>=-Returned (port_of-Returned p)
      (λ n. add_ports-Returned ps (record c { ports = c.ports ++ n ∷ [] }))

ssl_mode_of-Returned : (v : Bytes) → Returned (ssl_mode_of v)
unfolding ssl_mode_of
ssl_mode_of-Returned v =
    (if-Returned (same v (codes "disable")) (returned _) (
      if-Returned (same v (codes "prefer")) (returned _)
        (if-Returned (same v (codes "require")) (returned _) (refused _))))

ssl_negotiation_of-Returned : (v : Bytes) → Returned (ssl_negotiation_of v)
unfolding ssl_negotiation_of
ssl_negotiation_of-Returned v =
    (if-Returned (same v (codes "postgres")) (returned _)
      (if-Returned (same v (codes "direct")) (returned _) (refused _)))

target_session_attrs_of-Returned : (v : Bytes) → Returned (target_session_attrs_of v)
unfolding target_session_attrs_of
target_session_attrs_of-Returned v =
    (if-Returned (same v (codes "any")) (returned _) (
      if-Returned (same v (codes "read-write")) (returned _)
        (if-Returned (same v (codes "read-only")) (returned _) (refused _))))

channel_binding_of-Returned : (v : Bytes) → Returned (channel_binding_of v)
unfolding channel_binding_of
channel_binding_of-Returned v =
    (if-Returned (same v (codes "disable")) (returned _) (
      if-Returned (same v (codes "prefer")) (returned _)
        (if-Returned (same v (codes "require")) (returned _) (refused _))))

load_balance_hosts_of-Returned : (v : Bytes) → Returned (load_balance_hosts_of v)
unfolding load_balance_hosts_of
load_balance_hosts_of-Returned v =
    (if-Returned (same v (codes "disable")) (returned _)
      (if-Returned (same v (codes "random")) (returned _) (refused _)))

module _ (parse_ip : Bytes → Option IpAddr) where
  add_hostaddrs-Returned : (hs : List Bytes) (c : Config) → Returned (add_hostaddrs parse_ip hs c)
  unfolding add_hostaddrs
  add_hostaddrs-Returned [] c = returned c
  add_hostaddrs-Returned (h ∷ hs) c =
      >>=-Returned (ok_or-Returned (parse_ip h) _)
        (λ a. add_hostaddrs-Returned hs (record c { hostaddrs = c.hostaddrs ++ a ∷ [] }))

  param_keepalive-Returned :
      (key v : Bytes) (c : Config) → Returned (param_keepalive parse_ip key v c)
  unfolding param_keepalive
  param_keepalive-Returned key v c =
      (if-Returned (same key (codes "keepalives"))
        (>>=-Returned (ok_or-Returned _ _) (λ n. returned _))
        (if-Returned (same key (codes "keepalives_idle")) (positive_param-Returned _ _ v c) (
          if-Returned (same key (codes "keepalives_interval")) (positive_param-Returned _ _ v c) (
            if-Returned (same key (codes "keepalives_retries"))
              (>>=-Returned (ok_or-Returned _ _) (λ n. returned _)) (refused _)))))

  param_mode-Returned : (key v : Bytes) (c : Config) → Returned (param_mode parse_ip key v c)
  unfolding param_mode
  param_mode-Returned key v c =
      (if-Returned (same key (codes "sslmode"))
        (>>=-Returned (ssl_mode_of-Returned v) (λ n. returned _))
        (if-Returned (same key (codes "sslnegotiation"))
          (>>=-Returned (ssl_negotiation_of-Returned v) (λ n. returned _))
          (if-Returned (same key (codes "target_session_attrs"))
            (>>=-Returned (target_session_attrs_of-Returned v) (λ n. returned _))
            (if-Returned (same key (codes "channel_binding"))
              (>>=-Returned (channel_binding_of-Returned v) (λ n. returned _))
              (if-Returned (same key (codes "load_balance_hosts"))
                (>>=-Returned (load_balance_hosts_of-Returned v) (λ n. returned _))
                (param_keepalive-Returned key v c))))))

  pub param-Returned : (key v : Bytes) (c : Config) → Returned (param parse_ip key v c)
  unfolding param
  param-Returned key v c =
      (if-Returned (same key (codes "user")) (returned _) (
        if-Returned (same key (codes "password")) (returned _) (
          if-Returned (same key (codes "dbname")) (returned _) (
            if-Returned (same key (codes "options")) (returned _) (
              if-Returned (same key (codes "application_name")) (returned _) (
                if-Returned (same key (codes "host")) (returned _) (
                  if-Returned (same key (codes "hostaddr"))
                    (add_hostaddrs-Returned (split b',' v) c)
                    (if-Returned (same key (codes "port")) (add_ports-Returned (split b',' v) c) (
                      if-Returned (same key (codes "connect_timeout"))
                        (positive_param-Returned _ _ v c)
                        (if-Returned (same key (codes "tcp_user_timeout"))
                          (positive_param-Returned _ _ v c) (param_mode-Returned key v c)))))))))))

  pub param-Returns : (key v : Bytes) (c : Config) → Returns (param parse_ip key v c)
  param-Returns key v c = Returned-Returns (param-Returned key v c)
