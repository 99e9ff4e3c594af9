-- ===== src/Examples/Quoting.antt =====
-- Texts for escape/mod.rs.
use rust_kingbase.Prelude.{ℕ, ◌≡◌, refl, true, some, List, [], ◌∷◌, ◌++◌}
use rust_kingbase.Escape.{single_quote, double_quote, backslash, escape_literal, escape_identifier}
use rust_kingbase.Escape.Lex.{lex_identifier, lex_literal}
use rust_kingbase.Escape.ReadBack.{lex_identifier-escape_identifier, lex_literal-escape_literal}

-- A quote, a double quote and a backslash.
abbrev special : List ℕ
special = single_quote ∷ double_quote ∷ backslash ∷ []

lex_identifier-escape_identifier_example :
    lex_identifier (escape_identifier special ++ b' ' ∷ []) ≡ some (special, b' ' ∷ [])
lex_identifier-escape_identifier_example = lex_identifier-escape_identifier special (b' ' ∷ []) refl

lex_literal-escape_literal_example :
    lex_literal true (escape_literal special ++ b' ' ∷ []) ≡ some (special, b' ' ∷ [])
lex_literal-escape_literal_example = lex_literal-escape_literal true special (b' ' ∷ []) refl
