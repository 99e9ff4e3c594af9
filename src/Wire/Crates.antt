-- ===== src/Wire/Crates.antt =====
-- The third-party crates that the protocol code calls, as parameters with their documented laws.
use rust_kingbase.Prelude.{
  ℕ, ◌^◌, ◌<◌, ◌≡◌, Bool, true, false, ◌||◌, [], ◌∷◌, ◌++◌, Option, none, some, Bytes, IsByte, All,
  length, ◌==◌, ==_iff, Bool-cases, length-append, refl, sym, ap, ◌∙◌, inl, inr, arith,
}

-- `s.contains(&b)` of the standard library.
abbrev pub contains : ℕ → Bytes → Bool
contains b [] = false
contains b (c ∷ s) = c == b || contains b s

-- `byteorder` (`BigEndian::write_uN`, `BigEndian::read_uN`) and `bytes` (`BufMut::put_uN`) agree on the
-- bytes of a number: `write_be w n` are the `w` bytes of `n`, and `read_be` is the number of its bytes.
-- `memchr(b, s)` is the place of the first `b` in `s`.
pub record Crates : Type 0 where
  pub write_be : ℕ → ℕ → Bytes
  pub read_be : Bytes → ℕ
  pub memchr : ℕ → Bytes → Option ℕ
  pub length-write_be : (w n : ℕ) → length (write_be w n) ≡ w
  pub read_be-write_be : (w n : ℕ) → n < 256 ^ w → read_be (write_be w n) ≡ n
  pub read_be-lt : (bs : Bytes) → All IsByte bs → read_be bs < 256 ^ length bs
  pub memchr_found :
      (b : ℕ) (s rest : Bytes) → contains b s ≡ false → memchr b (s ++ b ∷ rest) ≡ some (length s)
  pub memchr_absent : (b : ℕ) (s : Bytes) → contains b s ≡ false → memchr b s ≡ none

-- A text that holds a byte is split at the first of it.
contains-split :
    (b : ℕ) (s : Bytes)
    → contains b s ≡ true
    → (front : Bytes) × (rest : Bytes) × (s ≡ front ++ b ∷ rest) × (contains b front ≡ false)
contains-split b [] h = cc
contains-split b (c ∷ s) h = elim (Bool-cases (c == b)) [
  | inl here ↦ ([], s, ap (λ x. x ∷ s) ((==_iff c b).0 here), refl)
  | inr there ↦
      let (front, rest, split, none_before) = contains-split b s (sym (rw there) ∙ h) in
      (c ∷ front, rest, ap (◌∷◌ c) split, rw there none_before)
]

-- The place that `memchr` finds is a place of the text.
pub memchr-lt :
    (crates : Crates) (b : ℕ) (s : Bytes) {n : ℕ} → crates.memchr b s ≡ some n → n < length s
memchr-lt crates b s {n = n} h = elim (Bool-cases (contains b s)) [
  | inl held ↦
      let (front, rest, split, none_before) = contains-split b s held in
      let found : crates.memchr b s ≡ some (length front) =
        ap (crates.memchr b) split ∙ crates.memchr_found b front rest none_before in
      let same : n ≡ length front = cc in
      rw (same, split) (omega (arith, length-append front (b ∷ rest)))
  | inr absent ↦ cc (crates.memchr_absent b s absent)
]
