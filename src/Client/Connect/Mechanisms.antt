-- ===== src/Client/Connect/Mechanisms.antt =====
-- The loop over the SASL mechanisms of a server in tokio-postgres/src/connect_raw.rs ends.
use rust_kingbase.Wire.Read.{slice_to, slice_to_within, slice_from, slice_from_within}
use rust_kingbase.Prelude.{
  ◌==◌, if◌then◌else◌, Bool-cases, Bytes, length, take, drop, length-drop, ◌>>=◌, >>=-eq-ok,
  Returns, >>=-Returns, Error, Result, invalid_data, ok, err, panic, ℕ, zero, suc, ◌+◌, ◌<◌, ◌≡◌,
  refl, sym, ◌∙◌, inl, inr, Bool, true, false, Option, none, some, List, [], ◌∷◌, arith, subst,
}
use rust_kingbase.Wire.Crates.{Crates}
use rust_kingbase.Wire.Iterate.{collect}
use rust_kingbase.Message.Backend.Iterators.{get_str, find_null, sasl_mechanisms_next}
use rust_kingbase.Message.Backend.Iterators.Places.{find_null-Found, Found}
use rust_kingbase.Client.Connection.Read.Rounds.{get_str-Returns}

if-Returns {ℓ} :
    {A : Type ℓ} (b : Bool) (x y : Result A) → Returns x → Returns y → Returns (if b then x else y)
if-Returns true x y h k = h
if-Returns false x y h k = k

collect_step {ℓ κ} :
    {S : Type ℓ} {T : Type κ} (step : S → Result (Option T × S)) (fuel : ℕ)
    (r : Result (Option T × S))
    → Returns r
    → ((x : T) (s' : S) → r ≡ ok (some x, s') → Returns (collect step fuel s'))
    → Returns (
        r >>= λ (item, s'). elim item as (λ _. Result (List T)) [
          | none ↦ ok []
          | some x ↦ collect step fuel s' >>= λ xs. ok (x ∷ xs)
        ])
collect_step step fuel (ok (none, s')) t k = tt
collect_step step fuel (ok (some x, s')) t k =
    >>=-Returns (collect step fuel s') _ (k x s' refl) (λ xs. tt)
collect_step step fuel (err e) t k = tt
collect_step step fuel panic t k = absurd t

collect-Returns {ℓ κ} :
    {S : Type ℓ} {T : Type κ} (step : S → Result (Option T × S)) (size : S → ℕ)
    → ((s : S) → Returns (step s))
    → ((s s' : S) (x : T) → step s ≡ ok (some x, s') → size s' < size s)
    → (fuel : ℕ) (s : S) → size s < fuel
    → Returns (collect step fuel s)
unfolding collect
collect-Returns step size total less zero s h = absurd (omega arith)
collect-Returns step size total less (suc fuel) s h =
    collect_step step fuel (step s) (total s) (λ x s' e.
      let smaller = less s s' x e in collect-Returns step size total less fuel s' (omega arith))

abbrev left_over : Error
left_over = invalid_data "invalid message length: expected to be at end of iterator for sasl"

-- What the iterator answers at an empty mechanism, and what it answers behind a text.
abbrev at_end : Bool → Bytes → Result (Option Bytes × Bytes)
at_end one buf = if one then ok (none, buf) else err left_over

abbrev behind_text : ℕ → Bytes → Result (Option Bytes × Bytes)
behind_text n buf = do
  text ← slice_to n buf
  value ← get_str text
  rest ← slice_from (n + 1) buf
  ok (some value, rest)

-- What it answers where a null byte stands at `n`.
abbrev answer_at : Bytes → ℕ → Result (Option Bytes × Bytes)
answer_at buf n = if n == 0 then at_end (length buf == 1) buf else behind_text n buf

-- The slices around a place of the buffer.
behind_text_within :
    (n : ℕ) (buf : Bytes)
    → n < length buf
    → behind_text n buf ≡ (get_str (take n buf) >>= λ value. ok (some value, drop (n + 1) buf))
behind_text_within n buf h =
    rw (slice_to_within n buf (omega arith), slice_from_within (n + 1) buf (omega arith)) refl

at_end-ne-some :
    (one : Bool) (buf : Bytes) {value rest : Bytes}
    → at_end one buf ≡ ok (some value, rest)
    → length rest < length buf
at_end-ne-some true buf h = cc
at_end-ne-some false buf h = cc

module _ (crates : Crates) where
  place_left :
      (n : ℕ) (buf : Bytes) {value rest : Bytes}
      → n < length buf
      → answer_at buf n ≡ ok (some value, rest)
      → length rest < length buf
  place_left n buf {value = value} {rest = rest} within h = elim (Bool-cases (n == 0)) [
    | inl zeroth ↦ at_end-ne-some (length buf == 1) buf (sym (rw zeroth) ∙ h)
    | inr further ↦
        let (v, e, g) =
          >>=-eq-ok (get_str (take n buf)) (λ value. ok (some value, drop (n + 1) buf))
            (sym (behind_text_within n buf within) ∙ (sym (rw further) ∙ h)) in
        let same : rest ≡ drop (n + 1) buf = cc in rw (same, length-drop (n + 1) buf) (omega arith)
  ]

  mechanism_left :
      (buf rest value : Bytes)
      → sasl_mechanisms_next crates buf ≡ ok (some value, rest)
      → length rest < length buf
  unfolding sasl_mechanisms_next
  mechanism_left buf rest value h =
      let (n, e, g) = >>=-eq-ok (find_null crates buf 0) _ h in
      place_left n buf (subst (Found buf) e (find_null-Found crates buf)) g

  answer_at-Returns :
      (buf : Bytes) (place : Result ℕ) → Found buf place → Returns (place >>= answer_at buf)
  answer_at-Returns buf (ok n) h =
      if-Returns (n == 0) _ _ (if-Returns (length buf == 1) _ _ tt tt) (
        rw (behind_text_within n buf h)
          (>>=-Returns (get_str (take n buf)) _ (get_str-Returns (take n buf)) (λ v. tt)))
  answer_at-Returns buf (err e) h = tt
  answer_at-Returns buf panic h = h

  sasl_mechanisms_next-Returns : (buf : Bytes) → Returns (sasl_mechanisms_next crates buf)
  unfolding sasl_mechanisms_next
  sasl_mechanisms_next-Returns buf =
      answer_at-Returns buf (find_null crates buf 0) (find_null-Found crates buf)

  pub mechanisms-Returns :
      (body : Bytes) → Returns (collect (sasl_mechanisms_next crates) (suc (length body)) body)
  mechanisms-Returns body =
      collect-Returns (sasl_mechanisms_next crates) length sasl_mechanisms_next-Returns
        (λ s s' x e. mechanism_left s s' x e) (suc (length body)) body (omega arith)
