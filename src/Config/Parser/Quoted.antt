-- ===== src/Config/Parser/Quoted.antt =====
-- A string that is written with quotes sets the options that it was written from.
use rust_kingbase.Prelude.{
  ◌==◌, if◌then◌else◌, Bool-cases, Bytes, length, All, length-append, ◌>>=◌, Result, ok, err, panic,
  ℕ, zero, suc, ◌≤◌, ◌<◌, ◌≡◌, refl, ◌∙◌, inl, inr, Bool, true, false, ◌||◌, Option, none, some,
  List, [], ◌∷◌, ◌++◌, arith,
}
use rust_kingbase.Wire.Text.{codes}
use rust_kingbase.Types.Inet.{IpAddr}
use rust_kingbase.Config.{new_config, Config}
use rust_kingbase.Config.Param.{param}
use rust_kingbase.Config.Parser.{
  is_whitespace, take_chars, skip_ws, eat_char, eat_if, is_keyword, keyword, quoted_value, value_of,
  parameter_of, next_parameter, parse_rounds, parse_config,
}

-- A value between quotes, with a backslash before each quote and backslash.
abbrev pub escape : Bytes → Bytes
escape [] = []
escape (c ∷ v) = if c == b'\'' || c == b'\\' then b'\\' ∷ (c ∷ escape v) else c ∷ escape v

abbrev pub write_param : Bytes → Bytes → Bytes → Bytes
write_param key v rest = key ++ (codes "='" ++ (escape v ++ b'\'' ∷ rest))

abbrev pub write_params : List (Bytes × Bytes) → Bytes
write_params [] = []
write_params ((key, v) ∷ ps) = write_param key v (32 ∷ write_params ps)

-- A keyword has a character, and none that is a whitespace or an equals sign.
abbrev pub IsKeyword : Bytes → Type 0
IsKeyword [] = ⊥
IsKeyword (c ∷ key) = All (λ x. is_keyword x ≡ true) (c ∷ key)

quoted_plain :
    (c : ℕ) (s : Bytes) {v rest : Bytes}
    → (c == b'\'') ≡ false
    → (c == b'\\') ≡ false
    → quoted_value s ≡ ok (v, rest)
    → quoted_value (c ∷ s) ≡ ok (c ∷ v, rest)
unfolding quoted_value
quoted_plain c [] h k e = cc
quoted_plain c (d ∷ s) h k e = rw (h, k, e) refl

quoted_escaped :
    (d : ℕ) (s : Bytes) {v rest : Bytes}
    → quoted_value s ≡ ok (v, rest)
    → quoted_value (b'\\' ∷ (d ∷ s)) ≡ ok (d ∷ v, rest)
unfolding quoted_value
quoted_escaped d s e = rw e refl

quoted_end : (rest : Bytes) → quoted_value (b'\'' ∷ rest) ≡ ok ([], b'\'' ∷ rest)
unfolding quoted_value
quoted_end [] = refl
quoted_end (c ∷ rest) = refl

quoted_value-escape :
    (v rest : Bytes) → quoted_value (escape v ++ b'\'' ∷ rest) ≡ ok (v, b'\'' ∷ rest)
quoted_value-escape [] rest = quoted_end rest
quoted_value-escape (c ∷ v) rest = elim (Bool-cases (c == b'\'' || c == b'\\')) [
  | inl special ↦ rw special (quoted_escaped c _ (quoted_value-escape v rest))
  | inr ordinary ↦
      (let no_quote : (c == b'\'') ≡ false = ground arith in
        let no_backslash : (c == b'\\') ≡ false = ground arith in
        rw ordinary (quoted_plain c _ no_quote no_backslash (quoted_value-escape v rest)))
]

take_chars-stop :
    (f : ℕ → Bool) (s : Bytes) (d : ℕ) (rest : Bytes)
    → All (λ c. f c ≡ true) s
    → f d ≡ false
    → take_chars f (s ++ d ∷ rest) ≡ (s, d ∷ rest)
unfolding take_chars
take_chars-stop f [] d rest h e = rw e refl
take_chars-stop f (c ∷ s) d rest (h, hs) e = rw (h, take_chars-stop f s d rest hs e) refl

skip_ws-none : (c : ℕ) (s : Bytes) → is_whitespace c ≡ false → skip_ws (c ∷ s) ≡ c ∷ s
unfolding skip_ws take_chars
skip_ws-none c s h = rw (skip_ws, take_chars, h) refl

next_parameter-space : (s : Bytes) → next_parameter (32 ∷ s) ≡ next_parameter s
unfolding next_parameter skip_ws take_chars
next_parameter-space s = refl

value_of-write : (v rest : Bytes) → value_of (true, escape v ++ b'\'' ∷ rest) ≡ ok (v, rest)
unfolding value_of eat_char
value_of-write v rest = rw (quoted_value-escape v rest) refl

parameter_of-write :
    (c : ℕ) (key v rest : Bytes)
    → parameter_of (c ∷ key, codes "='" ++ (escape v ++ b'\'' ∷ rest))
      ≡ ok (some (c ∷ key, v), rest)
unfolding parameter_of eat_char eat_if skip_ws take_chars
parameter_of-write c key v rest = rw (value_of-write v rest) refl

next_parameter-write :
    (key v rest : Bytes)
    → IsKeyword key
    → next_parameter (write_param key v rest) ≡ ok (some (key, v), rest)
unfolding next_parameter keyword
next_parameter-write [] v rest h = absurd h
next_parameter-write (c ∷ key) v rest (h, hs) =
    let no_space : is_whitespace c ≡ false = ground arith in
    rw (skip_ws-none c (key ++ (codes "='" ++ (escape v ++ b'\'' ∷ rest))) no_space) (
      rw
        (take_chars-stop is_keyword (c ∷ key) b'=' (b'\'' ∷ (escape v ++ b'\'' ∷ rest)) (h, hs)
          refl)
        (parameter_of-write c key v rest))

next_parameter-empty : next_parameter [] ≡ ok (none, [])
unfolding next_parameter parameter_of keyword skip_ws take_chars
next_parameter-empty = refl

length-behind : (s t : Bytes) → length t ≤ length (s ++ t)
length-behind s t = omega (arith, length-append s t)

length-write_param : (key v rest : Bytes) → length rest < length (write_param key v rest)
length-write_param key v rest =
    let behind_value : length (b'\'' ∷ rest) ≤ length (escape v ++ b'\'' ∷ rest) =
      length-behind (escape v) (b'\'' ∷ rest) in
    let behind_key : length (codes "='" ++ (escape v ++ b'\'' ∷ rest))
        ≤ length (write_param key v rest) =
      length-behind key (codes "='" ++ (escape v ++ b'\'' ∷ rest)) in
    omega arith

>>=-cong :
    (r : Result Config) (f g : Config → Result Config)
    → ((c : Config) → f c ≡ g c)
    → (r >>= f) ≡ (r >>= g)
>>=-cong (ok c) f g h = h c
>>=-cong (err e) f g h = refl
>>=-cong panic f g h = refl

module _ (parse_ip : Bytes → Option IpAddr) where
  -- The options set one after the other, up to the first error.
  abbrev pub set_params : List (Bytes × Bytes) → Config → Result Config
  set_params [] c = ok c
  set_params ((key, v) ∷ ps) c = param parse_ip key v c >>= set_params ps

  parse_rounds-space :
      (fuel : ℕ) (s : Bytes) (c : Config)
      → parse_rounds parse_ip fuel (32 ∷ s) c ≡ parse_rounds parse_ip fuel s c
  unfolding parse_rounds
  parse_rounds-space zero s c = refl
  parse_rounds-space (suc fuel) s c = rw (next_parameter-space s) refl

  parse_rounds-write :
      (fuel : ℕ) (ps : List (Bytes × Bytes)) (c : Config)
      → All (λ p. IsKeyword p.0) ps
      → length (write_params ps) < fuel
      → parse_rounds parse_ip fuel (write_params ps) c ≡ set_params ps c
  unfolding parse_rounds
  parse_rounds-write zero ps c h l = absurd (omega arith)
  parse_rounds-write (suc fuel) [] c h l = rw next_parameter-empty refl
  parse_rounds-write (suc fuel) ((key, v) ∷ ps) c (h, hs) l =
      let shorter : length (write_params ps) < fuel =
        omega (arith, length-write_param key v (32 ∷ write_params ps)) in
      rw (next_parameter-write key v (32 ∷ write_params ps) h) (
        >>=-cong (param parse_ip key v c) _ _ (λ d.
          parse_rounds-space fuel (write_params ps) d ∙ parse_rounds-write fuel ps d hs shorter))

  -- A string that holds any options, each with its value between quotes, quotes and backslashes escaped,
  -- and a space behind it, is parsed to the configuration that these options set in their order, or to
  -- the first error that they give.
  pub parse_config-write :
      (ps : List (Bytes × Bytes))
      → All (λ p. IsKeyword p.0) ps
      → parse_config parse_ip (write_params ps) ≡ set_params ps new_config
  unfolding parse_config
  parse_config-write ps h =
      parse_rounds-write (suc (length (write_params ps))) ps new_config h (omega arith)
