-- ===== src/Config/Parser/Lengths.antt =====
-- What the parts of the parser leave of a text.
use rust_kingbase.Prelude.{
  ◌==◌, if◌then◌else◌, Bool-cases, Bytes, length, ◌>>=◌, Result, ok, err, panic, ℕ, suc, ◌+◌, ◌≤◌,
  ◌<◌, ◌≡◌, refl, inl, inr, Bool, true, false, Option, none, some, [], ◌∷◌, arith,
}
use rust_kingbase.Config.Parser.{
  is_whitespace, take_chars, skip_ws, eat_char, eat_if, simple_chars, simple_of, quoted_value,
  value_of,
}

pub take_chars-short :
    (f : ℕ → Bool) (s : Bytes) → length (take_chars f s).0 + length (take_chars f s).1 ≡ length s
unfolding take_chars
take_chars-short f [] = refl
take_chars-short f (c ∷ s) = elim (Bool-cases (f c)) [
  | inl on ↦ rw on (omega (arith, take_chars-short f s))
  | inr off ↦ rw off (omega arith)
]

-- A result that is no panic, and leaves at most `n` characters.
abbrev pub Leaves : {A : Type 0} → ℕ → Result (A × Bytes) → Type 0
Leaves n (ok (a, s)) = length s ≤ n
Leaves n (err e) = Unit
Leaves n panic = ⊥

pub >>=-Leaves :
    {A B : Type 0} (n m : ℕ) (r : Result (A × Bytes)) (f : A × Bytes → Result (B × Bytes))
    → Leaves n r
    → ((a : A) (s : Bytes) → length s ≤ n → Leaves m (f (a, s)))
    → Leaves m (r >>= f)
>>=-Leaves n m (ok (a, s)) f h k = k a s h
>>=-Leaves n m (err e) f h k = tt
>>=-Leaves n m panic f h k = h

if-Leaves :
    {A : Type 0} (n : ℕ) (b : Bool) (x y : Result (A × Bytes))
    → Leaves n x
    → Leaves n y
    → Leaves n (if b then x else y)
if-Leaves n true x y h k = h
if-Leaves n false x y h k = k

if-length :
    (n : ℕ) (b : Bool) (x y : Bytes × Bytes)
    → length x.1 ≤ n
    → length y.1 ≤ n
    → length (if b then x else y).1 ≤ n
if-length n true x y h k = h
if-length n false x y h k = k

quoted_value-Leaves : (s : Bytes) → Leaves (length s) (quoted_value s)
unfolding quoted_value
quoted_value-Leaves [] = tt
quoted_value-Leaves (c ∷ []) = if-Leaves 1 (c == b'\'') _ _ (omega arith) tt
quoted_value-Leaves (c ∷ d ∷ s) = if-Leaves _ (c == b'\'') _ _ (omega arith) (
    if-Leaves _ (c == b'\\') _ _
      (>>=-Leaves (length s) _ (quoted_value s) _ (quoted_value-Leaves s) (λ v t h. omega arith))
      (>>=-Leaves (suc (length s)) _ (quoted_value (d ∷ s)) _ (quoted_value-Leaves (d ∷ s))
        (λ v t h. omega arith)))

simple_chars-length : (s : Bytes) → length (simple_chars s).1 ≤ length s
unfolding simple_chars
simple_chars-length [] = omega arith
simple_chars-length (c ∷ []) =
    if-length 1 (is_whitespace c) _ _ (omega arith)
      (if-length 1 (c == b'\\') _ _ (omega arith) (omega arith))
simple_chars-length (c ∷ d ∷ s) = if-length _ (is_whitespace c) _ _ (omega arith) (
    if-length _ (c == b'\\') _ _ (omega (arith, simple_chars-length s))
      (omega (arith, simple_chars-length (d ∷ s))))

simple_of-Leaves : (n : ℕ) (p : Bytes × Bytes) → length p.1 ≤ n → Leaves n (simple_of p)
unfolding simple_of
simple_of-Leaves n ([], s) h = tt
simple_of-Leaves n (c ∷ v, s) h = h

pub eat_char->>= :
    {B : Type 0} (target m : ℕ) (s : Bytes) (f : Bytes → Result (B × Bytes))
    → ((t : Bytes) → length t < length s → Leaves m (f t))
    → Leaves m (eat_char target s >>= f)
unfolding eat_char
eat_char->>= target m [] f k = tt
eat_char->>= target m (c ∷ s) f k = elim (Bool-cases (c == target)) [
  | inl on ↦ rw on (k s (omega arith))
  | inr off ↦ rw off tt
]

pub value_of-Leaves : (quoted : Bool) (s : Bytes) → Leaves (length s) (value_of (quoted, s))
unfolding value_of
value_of-Leaves true s =
    >>=-Leaves (length s) _ (quoted_value s) _ (quoted_value-Leaves s)
      (λ v t h. eat_char->>= b'\'' _ t _ (λ u k. omega arith))
value_of-Leaves false s = simple_of-Leaves (length s) (simple_chars s) (simple_chars-length s)

pub skip_ws-length : (s : Bytes) → length (skip_ws s) ≤ length s
unfolding skip_ws
skip_ws-length s = omega (arith, take_chars-short is_whitespace s)

pub eat_if-length : (target : ℕ) (s : Bytes) → length (eat_if target s).1 ≤ length s
unfolding eat_if
eat_if-length target [] = omega arith
eat_if-length target (c ∷ s) = elim (Bool-cases (c == target)) [
  | inl on ↦ rw on (omega arith)
  | inr off ↦ rw off (omega arith)
]

-- A parameter that was read has taken a character at least.
abbrev pub Shrinks : ℕ → Result (Option (Bytes × Bytes) × Bytes) → Type 0
Shrinks n (ok (none, s)) = Unit
Shrinks n (ok (some p, s)) = length s < n
Shrinks n (err e) = Unit
Shrinks n panic = ⊥

pub Leaves-Shrinks :
    (m n : ℕ) (r : Result (Option (Bytes × Bytes) × Bytes)) → m < n → Leaves m r → Shrinks n r
Leaves-Shrinks m n (ok (none, s)) l h = tt
Leaves-Shrinks m n (ok (some p, s)) l h = omega arith
Leaves-Shrinks m n (err e) l h = tt
Leaves-Shrinks m n panic l h = h
