-- ===== src/Escape/Lex.antt =====
-- What a server reads: a lexer for quoted literals and identifiers, and that it reads back what was
-- escaped, up to its closing quote and no further.
use rust_kingbase.Prelude.{
  ◌==◌, if◌then◌else◌, ==_iff, Bool-cases, ℕ, ◌≡◌, refl, ap, subst, ◌∙◌, inl, inr, Bool, true,
  false, not, ◌&&◌, ◌||◌, Option, none, some, List, [], ◌∷◌, ◌++◌, arith,
}
use rust_kingbase.Escape.{single_quote, double_quote, backslash}
use rust_kingbase.Escape.Count.{doubled}

-- A character in front of what was read.
abbrev before : ℕ → Option (List ℕ × List ℕ) → Option (List ℕ × List ℕ)
before c none = none
before c (some (read, rest)) = some (c ∷ read, rest)

-- The text up to the closing quote, and what stands behind it. A doubled quote is a quote. With
-- `backslashes` a doubled backslash is a backslash, and no other escape is read.
unfoldable pub lex_quoted : ℕ → Bool → List ℕ → Option (List ℕ × List ℕ)
lex_quoted quote backslashes [] = none
lex_quoted quote backslashes (c ∷ []) = if c == quote then some ([], []) else none
lex_quoted quote backslashes (c ∷ d ∷ s) =
    let skipped = lex_quoted quote backslashes s in
    let next = lex_quoted quote backslashes (d ∷ s) in
    if c == quote
    then (if d == quote then before quote skipped else some ([], d ∷ s))
    else if backslashes && c == backslash
    then (if d == backslash then before backslash skipped else none)
    else before c next

-- An identifier, and a literal: with `E` backslashes escape, and else as the setting
-- `standard_conforming_strings` has it.
unfoldable pub lex_identifier : List ℕ → Option (List ℕ × List ℕ)
unfolding lex_quoted
lex_identifier [] = none
lex_identifier (c ∷ s) = if c == double_quote then lex_quoted double_quote false s else none

unfoldable pub lex_opened : Bool → List ℕ → Option (List ℕ × List ℕ)
lex_opened backslashes [] = none
lex_opened backslashes (c ∷ s) =
    if c == single_quote then lex_quoted single_quote backslashes s else none

unfoldable pub lex_prefixed : List ℕ → Option (List ℕ × List ℕ)
lex_prefixed [] = none
lex_prefixed (c ∷ s) = if c == b'E' then lex_opened true s else none

unfoldable pub lex_literal : Bool → List ℕ → Option (List ℕ × List ℕ)
unfolding lex_opened lex_prefixed
lex_literal conforming [] = none
lex_literal conforming (c ∷ s) =
    if c == b' ' then lex_prefixed s else lex_opened (not conforming) (c ∷ s)

-- The text does not go on with a quote.
abbrev pub Ends : ℕ → List ℕ → Type 0
Ends quote [] = Unit
Ends quote (c ∷ s) = (c == quote) ≡ false

lex_end :
    (quote : ℕ) (b : Bool) (rest : List ℕ)
    → Ends quote rest
    → lex_quoted quote b (quote ∷ rest) ≡ some ([], rest)
unfolding lex_quoted
lex_end quote b [] h = ground arith
lex_end quote b (c ∷ rest) h = ground arith

lex_plain :
    (quote : ℕ) (b : Bool) (c : ℕ) (s : List ℕ)
    → (c == quote || (b && c == backslash)) ≡ false
    → lex_quoted quote b (c ∷ s) ≡ before c (lex_quoted quote b s)
unfolding lex_quoted
lex_plain quote true c [] h = ground arith
lex_plain quote false c [] h = ground arith
lex_plain quote true c (d ∷ s) h = ground arith
lex_plain quote false c (d ∷ s) h = ground arith

lex_quote :
    (quote : ℕ) (b : Bool) (s : List ℕ)
    → lex_quoted quote b (quote ∷ quote ∷ s) ≡ before quote (lex_quoted quote b s)
unfolding lex_quoted
lex_quote quote b s = ground arith

lex_backslash :
    (quote : ℕ) (s : List ℕ)
    → (backslash == quote) ≡ false
    → lex_quoted quote true (backslash ∷ backslash ∷ s) ≡ before backslash (lex_quoted quote true s)
unfolding lex_quoted
lex_backslash quote s h = rw h refl

lex_special_backslash :
    (quote : ℕ) (b : Bool) (c : ℕ) (s : List ℕ)
    → (c == quote || (b && c == backslash)) ≡ true
    → (c == quote) ≡ false
    → lex_quoted quote b (c ∷ c ∷ s) ≡ before c (lex_quoted quote b s)
lex_special_backslash quote false c s h other = ground arith
lex_special_backslash quote true c s h other =
    let c≡backslash : backslash ≡ c = ground arith in
    subst
      (λ d.
        ((d == quote) ≡ false)
        → lex_quoted quote true (d ∷ d ∷ s) ≡ before d (lex_quoted quote true s))
      c≡backslash (lex_backslash quote s) other

-- A quote and, where backslashes escape, a backslash.
lex_special :
    (quote : ℕ) (b : Bool) (c : ℕ) (s : List ℕ)
    → (c == quote || (b && c == backslash)) ≡ true
    → lex_quoted quote b (c ∷ c ∷ s) ≡ before c (lex_quoted quote b s)
lex_special quote b c s h = elim (Bool-cases (c == quote)) [
  | inl is_quote ↦
      let c≡quote : c ≡ quote = (==_iff c quote).0 is_quote in
      subst (λ q. lex_quoted q b (c ∷ c ∷ s) ≡ before c (lex_quoted q b s)) c≡quote
        (lex_quote c b s)
  | inr other ↦ lex_special_backslash quote b c s h other
]

-- Doubled text and its closing quote are read back.
pub lex-doubled :
    (quote : ℕ) (b : Bool) (s rest : List ℕ)
    → Ends quote rest
    → lex_quoted quote b (doubled quote b s ++ quote ∷ rest) ≡ some (s, rest)
lex-doubled quote b [] rest ends = lex_end quote b rest ends
lex-doubled quote b (c ∷ s) rest ends = elim (Bool-cases (c == quote || (b && c == backslash))) [
  | inl special ↦ rw special (
      lex_special quote b c (doubled quote b s ++ quote ∷ rest) special
      ∙ ap (before c) (lex-doubled quote b s rest ends))
  | inr plain ↦ rw plain (
      lex_plain quote b c (doubled quote b s ++ quote ∷ rest) plain
      ∙ ap (before c) (lex-doubled quote b s rest ends))
]
