-- ===== src/Config/Parser/Total.antt =====
-- The parser of key-value strings ends, without a panic, on any text.
use rust_kingbase.Prelude.{
  Bytes, length, ◌>>=◌, Returns, >>=-Returns, Result, ok, err, panic, ℕ, zero, suc, ◌+◌, ◌≤◌, ◌<◌,
  Option, none, some, [], ◌∷◌, arith,
}
use rust_kingbase.Types.Inet.{IpAddr}
use rust_kingbase.Config.{new_config, Config}
use rust_kingbase.Config.Param.{param}
use rust_kingbase.Config.Param.Total.{param-Returns}
use rust_kingbase.Config.Parser.{
  take_chars, skip_ws, eat_if, is_keyword, keyword, value_of, parameter_of, next_parameter,
  parse_rounds, parse_config,
}
use rust_kingbase.Config.Parser.Lengths.{
  take_chars-short, >>=-Leaves, eat_char->>=, value_of-Leaves, skip_ws-length, eat_if-length,
  Shrinks, Leaves-Shrinks,
}

parameter_of-Shrinks :
    (n : ℕ) (key s : Bytes) → length key + length s ≤ n → Shrinks n (parameter_of (key, s))
unfolding parameter_of
parameter_of-Shrinks n [] s h = tt
parameter_of-Shrinks n (c ∷ key) s h = Leaves-Shrinks (length s) n _ (omega arith) (
    eat_char->>= b'=' (length s) (skip_ws s) _ (λ t l.
      let quoted = eat_if b'\'' (skip_ws t) in
      >>=-Leaves (length quoted.1) _ (value_of quoted) _ (value_of-Leaves quoted.0 quoted.1)
        (λ v u k.
          omega (arith, skip_ws-length s, skip_ws-length t, eat_if-length b'\'' (skip_ws t)))))

next_parameter-Shrinks : (s : Bytes) → Shrinks (length s) (next_parameter s)
unfolding next_parameter keyword
next_parameter-Shrinks s =
    let taken = take_chars is_keyword (skip_ws s) in
    parameter_of-Shrinks (length s) taken.0 taken.1
      (omega (arith, take_chars-short is_keyword (skip_ws s), skip_ws-length s))

module _ (parse_ip : Bytes → Option IpAddr) where
  round-Returns :
      (fuel n : ℕ) (r : Result (Option (Bytes × Bytes) × Bytes)) (c : Config)
      → ((s : Bytes) (d : Config) → length s < fuel → Returns (parse_rounds parse_ip fuel s d))
      → n < suc fuel
      → Shrinks n r
      → Returns (
          r >>= (λ p. elim p.0 as (λ _. Result Config) [
            | none ↦ ok c
            | some kv ↦ param parse_ip kv.0 kv.1 c >>= parse_rounds parse_ip fuel p.1
          ]))
  round-Returns fuel n (ok (none, s)) c ih l h = tt
  round-Returns fuel n (ok (some (key, v), s)) c ih l h =
      >>=-Returns (param parse_ip key v c) _ (param-Returns parse_ip key v c)
        (λ d. ih s d (omega arith))
  round-Returns fuel n (err e) c ih l h = tt
  round-Returns fuel n panic c ih l h = h

  parse_rounds-Returns :
      (fuel : ℕ) (s : Bytes) (c : Config)
      → length s < fuel
      → Returns (parse_rounds parse_ip fuel s c)
  unfolding parse_rounds
  parse_rounds-Returns zero s c l = absurd (omega arith)
  parse_rounds-Returns (suc fuel) s c l =
      round-Returns fuel (length s) (next_parameter s) c (parse_rounds-Returns fuel) l
        (next_parameter-Shrinks s)

  -- On any text `Parser::parse` ends and returns, with a configuration or an error, whatever the parser
  -- of addresses makes of the values.
  pub parse_config-Returns : (s : Bytes) → Returns (parse_config parse_ip s)
  unfolding parse_config
  parse_config-Returns s = parse_rounds-Returns (suc (length s)) s new_config (omega arith)
