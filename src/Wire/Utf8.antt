-- ===== src/Wire/Utf8.antt =====
-- `str::from_utf8` of the standard library: the well-formed byte sequences of the Unicode standard
-- (table 3-7). A `&str` is the list of its bytes.
use rust_kingbase.Prelude.{
  ltb, leb, ◌==◌, if◌then◌else◌, lt→ltb, Bytes, All, Result, utf8_error, ok, err, ℕ, zero, suc, ◌<◌,
  ◌≡◌, refl, Bool, true, false, ◌&&◌, [], ◌∷◌, arith,
}

-- What may follow a first byte: how many continuation bytes, and the range of the first of them.
pub data Lead : Type 0 where
  ill_formed : Lead
  follow : ℕ → ℕ → ℕ → Lead

abbrev pub lead : ℕ → Lead
lead b =
    if ltb b 0x80
    then follow 0 0x80 0xbf
    else if ltb b 0xc2
    then ill_formed
    else if ltb b 0xe0
    then follow 1 0x80 0xbf
    else if b == 0xe0
    then follow 2 0xa0 0xbf
    else if b == 0xed
    then follow 2 0x80 0x9f
    else if ltb b 0xf0
    then follow 2 0x80 0xbf
    else if b == 0xf0
    then follow 3 0x90 0xbf
    else if ltb b 0xf4
    then follow 3 0x80 0xbf
    else if b == 0xf4
    then follow 3 0x80 0x8f
    else ill_formed

-- `s` completes a character that still wants `n` bytes, the first of them from `lo` to `hi`.
pub utf8_from : ℕ → ℕ → ℕ → Bytes → Bool
utf8_from zero lo hi [] = true
utf8_from (suc n) lo hi [] = false
utf8_from zero lo hi (b ∷ s) = elim (lead b) [
  | ill_formed ↦ false
  | follow n lo' hi' ↦ utf8_from n lo' hi' s
]
utf8_from (suc n) lo hi (b ∷ s) = leb lo b && leb b hi && utf8_from n 0x80 0xbf s

unfoldable pub is_utf8 : Bytes → Bool
unfolding utf8_from
is_utf8 = utf8_from 0 0x80 0xbf

unfoldable pub from_utf8 : Bytes → Result Bytes
from_utf8 s = if is_utf8 s then ok s else err utf8_error

pub from_utf8_valid : (s : Bytes) → is_utf8 s ≡ true → from_utf8 s ≡ ok s
unfolding from_utf8
from_utf8_valid s h = rw h

pub from_utf8-eq-ok : (s : Bytes) {t : Bytes} → from_utf8 s ≡ ok t → (t ≡ s) × (is_utf8 s ≡ true)
unfolding from_utf8
from_utf8-eq-ok s h = ground arith

lead-ascii : (c : ℕ) → c < 128 → lead c ≡ follow 0 0x80 0xbf
lead-ascii c h = rw (lt→ltb c 128 h) refl

-- A text in ASCII is well-formed.
pub ascii-utf8 : (s : Bytes) → All (λ c. c < 128) s → is_utf8 s ≡ true
unfolding is_utf8 utf8_from
ascii-utf8 [] h = refl
ascii-utf8 (c ∷ s) (h, hs) = rw (is_utf8, utf8_from, lead-ascii c h) (ascii-utf8 s hs)
