-- ===== src/Config/Url/Total.antt =====
-- Reading a configuration from any text ends without a panic.
use rust_kingbase.Prelude.{
  ◌==◌, Bytes, length, ◌>>=◌, ok_or, Returns, Error, Result, ok, err, panic, ℕ, zero, suc, ◌≤◌, ◌<◌,
  Option, none, some, [], ◌∷◌, arith, if-Returned, >>=-Returned, Returned-Returns, Returned,
  returned, refused,
}
use rust_kingbase.Wire.Text.{codes, same}
use rust_kingbase.Types.Inet.{IpAddr}
use rust_kingbase.Config.{new_config, Config}
use rust_kingbase.Config.Param.Total.{param-Returned}
use rust_kingbase.Config.Parser.{parse_config}
use rust_kingbase.Config.Parser.Total.{parse_config-Returns}
use rust_kingbase.Config.Url.{
  eat_byte, remove_url_prefix, decode, take_value, url_param, params_rounds, parse_params,
  parse_url, config_from_str,
}
use rust_kingbase.Config.Url.Parts.{
  take_until-Cut, decode-Returned, parse_credentials-Returned, host_param-Returned,
  parse_host-Returned, parse_path-Returned, Cut, uncut, cut,
}

-- What `take_value` makes of a text: no more than it is left.
data Taken (s : Bytes) : Result (Bytes × Bytes) → Type 0 where
  taken : (v rest : Bytes) → length rest ≤ length s → Taken s (ok (v, rest))

value_tail-Taken :
    (s : Bytes) {r : Option (Bytes × Bytes)}
    → Cut s r
    → Taken s (elim r as (λ _. Result (Bytes × Bytes)) [
      | none ↦ ok (s, [])
      | some (value, tail) ↦ eat_byte tail >>= λ rest. ok (value, rest)
    ])
unfolding eat_byte
value_tail-Taken s uncut = taken s [] (omega arith)
value_tail-Taken s (cut h x u l) = taken h u (omega arith)

Returns-Returned : (r : Result Config) → Returns r → Returned r
Returns-Returned (ok c) h = returned c
Returns-Returned (err e) h = refused e
Returns-Returned panic h = absurd h

module _ (parse_ip : Bytes → Option IpAddr) (percent_bytes : Bytes → Bytes)
    (percent_text : Bytes → Option Bytes) (text_of : Bytes → Option Bytes) where
  abbrev rounds : ℕ → Bytes → Config → Result Config
  rounds = params_rounds parse_ip percent_bytes percent_text text_of

  abbrev set : Bytes → Bytes → Config → Result Config
  set = url_param parse_ip percent_bytes percent_text text_of

  take_value-Taken :
      (s : Bytes) → Taken s (take_value parse_ip percent_bytes percent_text text_of s)
  unfolding take_value
  take_value-Taken s = value_tail-Taken s (take_until-Cut (codes "&") s)

  url_param-Returned : (key v : Bytes) (c : Config) → Returned (set key v c)
  unfolding url_param
  url_param-Returned key v c =
      if-Returned (same key (codes "host"))
        (host_param-Returned parse_ip percent_bytes percent_text text_of v c)
        (>>=-Returned (decode-Returned parse_ip percent_bytes percent_text text_of v)
          (λ w. param-Returned parse_ip key w c))

  value_round-Returned :
      (fuel : ℕ) (s key : Bytes) (c : Config) {r : Result (Bytes × Bytes)}
      → ((t : Bytes) (d : Config) → length t < fuel → Returned (rounds fuel t d))
      → length s < fuel
      → Taken s r
      → Returned (r >>= λ q. set key q.0 c >>= λ d. rounds fuel q.1 d)
  value_round-Returned fuel s key c ih l (taken v rest k) =
      >>=-Returned (url_param-Returned key v c) (λ d. ih rest d (omega arith))

  round-Returned :
      (fuel : ℕ) (s : Bytes) (c : Config) (e : Error) {r : Option (Bytes × Bytes)}
      → ((t : Bytes) (d : Config) → length t < fuel → Returned (rounds fuel t d))
      → length s < suc fuel
      → Cut s r
      → Returned (
          ok_or r e >>= λ p. decode parse_ip percent_bytes percent_text text_of p.0 >>= λ key.
          eat_byte p.1 >>= λ rest.
          take_value parse_ip percent_bytes percent_text text_of rest >>= λ q.
          set key q.0 c >>= λ d. rounds fuel q.1 d)
  unfolding eat_byte
  round-Returned fuel s c e ih l uncut = refused e
  round-Returned fuel s c e ih l (cut h x u k) =
      >>=-Returned (decode-Returned parse_ip percent_bytes percent_text text_of h)
        (λ key. value_round-Returned fuel u key c ih (omega arith) (take_value-Taken u))

  params_rounds-Returned :
      (fuel : ℕ) (s : Bytes) (c : Config) → length s < fuel → Returned (rounds fuel s c)
  unfolding params_rounds
  params_rounds-Returned zero s c l = absurd (omega arith)
  params_rounds-Returned (suc fuel) [] c l = returned c
  params_rounds-Returned (suc fuel) (x ∷ s) c l =
      round-Returned fuel (x ∷ s) c _ (params_rounds-Returned fuel) l
        (take_until-Cut (codes "=") (x ∷ s))

  parse_params-Returned :
      (s : Bytes) (c : Config)
      → Returned (parse_params parse_ip percent_bytes percent_text text_of s c)
  unfolding parse_params
  parse_params-Returned [] c = returned c
  parse_params-Returned (x ∷ s) c =
      if-Returned (x == b'?') (params_rounds-Returned (suc (length s)) s c (omega arith))
        (returned c)

  parse_url-Returned :
      (s : Bytes) → Returned (parse_url parse_ip percent_bytes percent_text text_of s)
  unfolding parse_url
  parse_url-Returned s =
      >>=-Returned
        (parse_credentials-Returned parse_ip percent_bytes percent_text text_of s new_config)
        (λ p.
          >>=-Returned (parse_host-Returned parse_ip percent_bytes percent_text text_of p.1 p.0)
            (λ q.
              >>=-Returned (parse_path-Returned parse_ip percent_bytes percent_text text_of q.1 q.0)
                (λ r. parse_params-Returned r.1 r.0)))

  from_str-Returned :
      (s : Bytes) (stripped : Option Bytes)
      → Returned (elim stripped as (λ _. Result Config) [
        | some rest ↦ parse_url parse_ip percent_bytes percent_text text_of rest
        | none ↦ parse_config parse_ip s
      ])
  from_str-Returned s none =
      Returns-Returned (parse_config parse_ip s) (parse_config-Returns parse_ip s)
  from_str-Returned s (some rest) = parse_url-Returned rest

  -- On any text `Config::from_str` ends and returns a configuration or an error, as a URL or as a
  -- string of options, whatever the parser of addresses and the decoder of percent signs make of
  -- the parts: no cut and no index of the parser of URLs leaves its text.
  pub config_from_str-Returns :
      (s : Bytes) → Returns (config_from_str parse_ip percent_bytes percent_text text_of s)
  unfolding config_from_str
  config_from_str-Returns s = Returned-Returns (from_str-Returned s (remove_url_prefix s))
