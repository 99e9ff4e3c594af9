-- ===== src/Config/Parser.antt =====
-- The parser of key-value strings of tokio-postgres/src/config.rs. Its state is the text that is left.
pub mod Quoted
pub mod Lengths
pub mod Total
use rust_kingbase.Prelude.{
  leb, ◌==◌, if◌then◌else◌, Bytes, length, ◌>>=◌, Result, message, ok, err, panic, ℕ, zero, suc,
  Bool, true, false, not, ◌&&◌, ◌||◌, Option, none, some, [], ◌∷◌,
}
use rust_kingbase.Types.Inet.{IpAddr}
use rust_kingbase.Config.{new_config, Config}
use rust_kingbase.Config.Param.{param}

-- `char::is_whitespace`: the characters with the property White_Space of Unicode.
abbrev pub is_whitespace : ℕ → Bool
is_whitespace c =
    (leb 9 c && leb c 13)
    || (c == 32
        || (c == 0x85
            || (c == 0xa0
                || (c == 0x1680
                    || ((leb 0x2000 c && leb c 0x200a)
                        || (c == 0x2028
                            || (c == 0x2029 || (c == 0x202f || (c == 0x205f || c == 0x3000)))))))))

unfoldable pub take_chars : (ℕ → Bool) → Bytes → Bytes × Bytes
take_chars f [] = ([], [])
take_chars f (c ∷ s) =
    let (taken, left) = take_chars f s in if f c then (c ∷ taken, left) else ([], c ∷ s)

unfoldable pub skip_ws : Bytes → Bytes
skip_ws s = (take_chars is_whitespace s).1

unfoldable pub eat_char : ℕ → Bytes → Result Bytes
eat_char target [] = err (message "unexpected EOF")
eat_char target (c ∷ s) = if c == target then ok s else err (message "unexpected character")

-- `eat_if`
unfoldable pub eat_if : ℕ → Bytes → Bool × Bytes
eat_if target [] = (false, [])
eat_if target (c ∷ s) = if c == target then (true, s) else (false, c ∷ s)

abbrev pub is_keyword : ℕ → Bool
is_keyword c = not (is_whitespace c) && not (c == b'=')

unfoldable pub keyword : Bytes → Bytes × Bytes
keyword s = take_chars is_keyword s

-- The loop of `simple_value`, which stops at a whitespace.
unfoldable pub simple_chars : Bytes → Bytes × Bytes
simple_chars [] = ([], [])
simple_chars (c ∷ []) =
    if is_whitespace c then ([], c ∷ []) else if c == b'\\' then ([], []) else (c ∷ [], [])
simple_chars (c ∷ d ∷ s) =
    let (escaped, behind) = simple_chars s in
    let (v, rest) = simple_chars (d ∷ s) in
    if is_whitespace c
    then ([], c ∷ d ∷ s)
    else if c == b'\\'
    then (d ∷ escaped, behind)
    else (c ∷ v, rest)

unfoldable pub simple_of : Bytes × Bytes → Result (Bytes × Bytes)
simple_of ([], s) = err (message "unexpected EOF")
simple_of (c ∷ v, s) = ok (c ∷ v, s)

-- The loop of `quoted_value`, which stops at a quote.
unfoldable pub quoted_value : Bytes → Result (Bytes × Bytes)
quoted_value [] = err (message "unterminated quoted connection parameter value")
quoted_value (c ∷ []) =
    if c == b'\''
    then ok ([], c ∷ [])
    else err (message "unterminated quoted connection parameter value")
quoted_value (c ∷ d ∷ s) =
    let escaped = quoted_value s in
    let rest = quoted_value (d ∷ s) in
    if c == b'\''
    then ok ([], c ∷ d ∷ s)
    else if c == b'\\'
    then (escaped >>= λ r. ok (d ∷ r.0, r.1))
    else (rest >>= λ r. ok (c ∷ r.0, r.1))

unfoldable pub value_of : Bool × Bytes → Result (Bytes × Bytes)
value_of (true, s) = do (v, s) ← quoted_value s; s ← eat_char b'\'' s; ok (v, s)
value_of (false, s) = simple_of (simple_chars s)

unfoldable pub parameter_of : Bytes × Bytes → Result (Option (Bytes × Bytes) × Bytes)
parameter_of ([], s) = ok (none, s)
parameter_of (c ∷ key, s) = do
  s ← eat_char b'=' (skip_ws s)
  (v, s) ← value_of (eat_if b'\'' (skip_ws s))
  ok (some (c ∷ key, v), s)

-- `parameter`
unfoldable pub next_parameter : Bytes → Result (Option (Bytes × Bytes) × Bytes)
next_parameter s = parameter_of (keyword (skip_ws s))

module _ (parse_ip : Bytes → Option IpAddr) where
  -- The loop of `parse`. A parameter takes a character at least, so that the length of the text and one
  -- more is enough fuel; without fuel the model panics.
  unfoldable pub parse_rounds : ℕ → Bytes → Config → Result Config
  parse_rounds zero s c = panic
  parse_rounds (suc fuel) s c = do
    (parsed, s) ← next_parameter s
    elim parsed [ none ↦ ok c | some (key, v) ↦ param parse_ip key v c >>= parse_rounds fuel s ]

  unfoldable pub parse_config : Bytes → Result Config
  parse_config s = parse_rounds (suc (length s)) s new_config
