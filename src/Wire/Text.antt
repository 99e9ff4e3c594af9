-- ===== src/Wire/Text.antt =====
-- What the code uses of `str`: equality, prefixes, and `str::parse` for unsigned numbers.
use Prim.Native.Char.{code}
use rust_kingbase.Prelude.{
  leb, ◌==◌, if◌then◌else◌, Bytes, ℕ, ◌+◌, ◌-◌, ◌*◌, String, ◌≡◌, refl, Bool, true, false, ◌&&◌,
  Option, none, some, [], ◌∷◌, ◌++◌, arith,
}

-- The bytes of a text in ASCII.
abbrev pub codes : String → Bytes
codes String.[] = []
codes (String.◌∷◌ c s) = code c ∷ codes s

abbrev pub same : Bytes → Bytes → Bool
same [] [] = true
same [] (b ∷ t) = false
same (a ∷ s) [] = false
same (a ∷ s) (b ∷ t) = a == b && same s t

abbrev pub starts_with : Bytes → Bytes → Bool
starts_with s [] = true
starts_with [] (p ∷ prefix) = false
starts_with (c ∷ s) (p ∷ prefix) = c == p && starts_with s prefix

abbrev pub is_digit : ℕ → Bool
is_digit c = leb b'0' c && leb c b'9'

-- The digits of a number of at most `max`, behind the number `acc`.
unfoldable pub parse_digits : ℕ → ℕ → Bytes → Option ℕ
parse_digits max acc [] = some acc
parse_digits max acc (c ∷ s) =
    let rest = parse_digits max (acc * 10 + (c - b'0')) s in
    if is_digit c && leb (acc * 10 + (c - b'0')) max then rest else none

-- `str::parse::<u32>` and the like, which take a plus sign in front of the digits.
unfoldable pub parse_unsigned : ℕ → Bytes → Option ℕ
unfolding parse_digits
parse_unsigned max [] = none
parse_unsigned max (c ∷ []) = parse_digits max 0 (c ∷ [])
parse_unsigned max (c ∷ d ∷ s) =
    if c == b'+' then parse_digits max 0 (d ∷ s) else parse_digits max 0 (c ∷ d ∷ s)

pub same_refl : (s : Bytes) → same s s ≡ true
same_refl [] = refl
same_refl (a ∷ s) = ground (arith, same_refl s)

pub same-eq : (s t : Bytes) → same s t ≡ true → s ≡ t
same-eq [] [] h = refl
same-eq [] (b ∷ t) h = cc
same-eq (a ∷ s) [] h = cc
same-eq (a ∷ s) (b ∷ t) h = ground (arith, same-eq s t)

pub starts_with-append : (p s : Bytes) → starts_with (p ++ s) p ≡ true
starts_with-append [] [] = refl
starts_with-append [] (c ∷ s) = refl
starts_with-append (c ∷ p) s = ground (arith, starts_with-append p s)
