-- ===== src/Escape.antt =====
-- postgres-protocol/src/escape/mod.rs: literals and identifiers for SQL text. A string is the list of
-- its characters. The size that is set aside for the output is not modelled.
pub mod Count
pub mod Lex
pub mod ReadBack
use rust_kingbase.Prelude.{
  ltb, ◌==◌, if◌then◌else◌, ℕ, ◌+◌, Bool, true, false, not, ◌&&◌, ◌||◌, List, [], ◌∷◌, ◌++◌,
}

abbrev pub single_quote : ℕ
single_quote = 39

abbrev pub double_quote : ℕ
double_quote = 34

abbrev pub backslash : ℕ
backslash = 92

abbrev pub quote_char : Bool → ℕ
quote_char as_ident = if as_ident then double_quote else single_quote

-- The first loop: how many quotes and how many backslashes.
unfoldable pub count_special : ℕ → List ℕ → ℕ → ℕ → ℕ × ℕ
count_special quote [] quotes backslashes = (quotes, backslashes)
count_special quote (ch ∷ input) quotes backslashes =
    count_special quote input (if ch == quote then quotes + 1 else quotes) (
      if ch == quote then backslashes else if ch == backslash then backslashes + 1 else backslashes)

-- The second loop: every quote is doubled, and in a literal every backslash.
unfoldable pub double_special : ℕ → Bool → List ℕ → List ℕ → List ℕ
double_special quote as_ident [] output = output
double_special quote as_ident (ch ∷ input) output = double_special quote as_ident input (
    (if ch == quote || (not as_ident && ch == backslash) then output ++ ch ∷ [] else output)
    ++ ch ∷ [])

unfoldable pub escape_internal : List ℕ → Bool → List ℕ
escape_internal input as_ident =
    let quote = quote_char as_ident in
    let (num_quotes, num_backslashes) = count_special quote input 0 0 in
    let prefix = if not as_ident && ltb 0 num_backslashes then b' ' ∷ b'E' ∷ [] else [] in
    let opened = prefix ++ quote ∷ [] in
    let body =
      if num_quotes == 0 && (num_backslashes == 0 || as_ident)
      then opened ++ input
      else double_special quote as_ident input opened in
    body ++ quote ∷ []

unfoldable pub escape_literal : List ℕ → List ℕ
unfolding escape_internal
escape_literal input = escape_internal input false

unfoldable pub escape_identifier : List ℕ → List ℕ
unfolding escape_internal
escape_identifier input = escape_internal input true
