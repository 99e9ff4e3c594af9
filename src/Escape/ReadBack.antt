-- ===== src/Escape/ReadBack.antt =====
-- escape_literal and escape_identifier against the lexer: both the copy of plain text and the loop
-- over special characters write what is read back.
use rust_kingbase.Prelude.{
  ltb, ◌==◌, if◌then◌else◌, Bool-cases, ℕ, ◌≡◌, sym, ap, ◌∙◌, inl, inr, Bool, true, false, not,
  ◌&&◌, ◌||◌, some, List, [], ◌∷◌, ◌++◌, append-nil, append_assoc, arith,
}
use rust_kingbase.Escape.{
  single_quote, double_quote, backslash, count_special, double_special, escape_internal,
  escape_literal, escape_identifier,
}
use rust_kingbase.Escape.Count.{doubled, no_quotes, no_backslashes}
use rust_kingbase.Escape.Lex.{
  lex_quoted, lex_identifier, lex_opened, lex_prefixed, lex_literal, Ends, lex-doubled,
}

double_special-doubled :
    (quote : ℕ) (as_ident : Bool) (s output : List ℕ)
    → double_special quote as_ident s output ≡ output ++ doubled quote (not as_ident) s
unfolding double_special
double_special-doubled quote as_ident [] output = sym (append-nil output)
double_special-doubled quote as_ident (c ∷ s) output =
    elim (Bool-cases (c == quote || (not as_ident && c == backslash))) [
      | inl special ↦ rw special (
          double_special-doubled quote as_ident s ((output ++ c ∷ []) ++ c ∷ [])
          ∙ simp append_assoc)
      | inr plain ↦
          rw plain (double_special-doubled quote as_ident s (output ++ c ∷ []) ∙ simp append_assoc)
    ]

-- Both branches add the doubled text.
body_doubled :
    (quote : ℕ) (as_ident : Bool) (s opened : List ℕ)
    → (if (count_special quote s 0 0).0 == 0 && ((count_special quote s 0 0).1 == 0 || as_ident)
        then opened ++ s
        else double_special quote as_ident s opened)
      ≡ opened ++ doubled quote (not as_ident) s
body_doubled quote true s opened =
    elim (Bool-cases
      ((count_special quote s 0 0).0 == 0 && ((count_special quote s 0 0).1 == 0 || true))) [
        | inl plain ↦
            let none : (count_special quote s 0 0).0 ≡ 0 = ground arith in
            rw plain (ap (opened ++◌) (sym (no_quotes quote s 0 0 none)))
        | inr special ↦ rw special (double_special-doubled quote true s opened)
      ]
body_doubled quote false s opened =
    elim (Bool-cases
      ((count_special quote s 0 0).0 == 0 && ((count_special quote s 0 0).1 == 0 || false))) [
        | inl plain ↦
            let none : (count_special quote s 0 0).0 ≡ 0 = ground arith in
            let none_either : (count_special quote s 0 0).1 ≡ 0 = ground arith in
            rw plain (
              ap (opened ++◌)
                (sym (no_backslashes quote false s 0 0 none_either ∙ no_quotes quote s 0 0 none)))
        | inr special ↦ rw special (double_special-doubled quote false s opened)
      ]

-- What an identifier is escaped to.
identifier_text :
    (s : List ℕ)
    → escape_identifier s ≡ (double_quote ∷ doubled double_quote false s) ++ double_quote ∷ []
unfolding escape_identifier escape_internal
identifier_text s =
    ap (◌++ double_quote ∷ []) (body_doubled double_quote true s (double_quote ∷ []))

-- A literal without backslashes, and one with.
literal_text :
    (s : List ℕ)
    → (ltb 0 (count_special single_quote s 0 0).1) ≡ false
    → escape_literal s ≡ (single_quote ∷ doubled single_quote true s) ++ single_quote ∷ []
unfolding escape_literal escape_internal
literal_text s h =
    rw h (ap (◌++ single_quote ∷ []) (body_doubled single_quote false s (single_quote ∷ [])))

prefixed_text :
    (s : List ℕ)
    → (ltb 0 (count_special single_quote s 0 0).1) ≡ true
    → escape_literal s
      ≡ (b' ' ∷ b'E' ∷ single_quote ∷ doubled single_quote true s) ++ single_quote ∷ []
unfolding escape_literal escape_internal
prefixed_text s h = rw h (
    ap (◌++ single_quote ∷ [])
      (body_doubled single_quote false s (b' ' ∷ b'E' ∷ single_quote ∷ [])))

-- `escape_identifier` gives text that reads back as the identifier, whatever follows that does not
-- begin with a double quote.
pub lex_identifier-escape_identifier :
    (s rest : List ℕ)
    → Ends double_quote rest
    → lex_identifier (escape_identifier s ++ rest) ≡ some (s, rest)
unfolding lex_identifier
lex_identifier-escape_identifier s rest ends =
    ap (λ t. lex_identifier (t ++ rest)) (identifier_text s)
    ∙ ap (lex_quoted double_quote false)
        (append_assoc (doubled double_quote false s) (double_quote ∷ []) rest)
    ∙ lex-doubled double_quote false s rest ends

-- `escape_literal` gives text that reads back as the string under both settings of
-- `standard_conforming_strings`, whatever follows that does not begin with a single quote.
pub lex_literal-escape_literal :
    (conforming : Bool) (s rest : List ℕ)
    → Ends single_quote rest
    → lex_literal conforming (escape_literal s ++ rest) ≡ some (s, rest)
unfolding lex_literal lex_opened lex_prefixed
lex_literal-escape_literal conforming s rest ends =
    elim (Bool-cases (ltb 0 (count_special single_quote s 0 0).1)) [
      | inl with_prefix ↦
          ap (λ t. lex_literal conforming (t ++ rest)) (prefixed_text s with_prefix)
          ∙ ap (lex_quoted single_quote true)
              (append_assoc (doubled single_quote true s) (single_quote ∷ []) rest)
          ∙ lex-doubled single_quote true s rest ends
      | inr bare ↦
          let none : (count_special single_quote s 0 0).1 ≡ 0 = ground arith in
          ap (λ t. lex_literal conforming (t ++ rest)) (literal_text s bare)
          ∙ ap (lex_quoted single_quote (not conforming)) (
              append_assoc (doubled single_quote true s) (single_quote ∷ []) rest
              ∙ ap (◌++ single_quote ∷ rest)
                  (no_backslashes single_quote (not conforming) s 0 0 none))
          ∙ lex-doubled single_quote (not conforming) s rest ends
    ]
