-- ===== src/Wire/Iterate.antt =====
-- The fallible iterators of the protocol crate. Each is a record with a function `next`; what an `Err`
-- leaves in the iterator is not modelled. `collect` is the loop `while let Some(x) = it.next()?`.
use rust_kingbase.Prelude.{
  Bytes, length, All, concat_map, ◌>>=◌, Error, Result, ok, err, panic, ℕ, zero, suc, ◌≡◌, refl,
  Option, none, some, List, [], ◌∷◌, ◌++◌,
}

module _ {ℓ κ} {S : Type ℓ} {A : Type κ} (next : S → Result (Option A × S)) where
  -- The loop with fuel; without fuel the model panics.
  unfoldable pub collect : ℕ → S → Result (List A)
  collect zero s = panic
  collect (suc fuel) s = next s >>= λ (item, s'). elim item [
    | none ↦ ok []
    | some x ↦ collect fuel s' >>= λ xs. ok (x ∷ xs)
  ]

module _ {ℓ κ} {S : Type ℓ} {A : Type κ} (next : S → Result (Option A × S)) where
  pub collect_done :
      (fuel : ℕ) (s s' : S) → next s ≡ ok (none, s') → collect next (suc fuel) s ≡ ok []
  unfolding collect
  collect_done fuel s s' h = rw h

  pub collect_more :
      (fuel : ℕ) (s s' : S) (x : A) (xs : List A)
      → next s ≡ ok (some x, s')
      → collect next fuel s' ≡ ok xs
      → collect next (suc fuel) s ≡ ok (x ∷ xs)
  unfolding collect
  collect_more fuel s s' x xs h k = rw (h, k)

-- An iterator over a slice that knows how many items are left.
pub record Remaining : Type 0 where
  pub buf : Bytes
  pub remaining : ℕ

module _ {κ} {A : Type κ} (left_over : Error) (read : Bytes → Result (A × Bytes)) where
  -- `next` where the items left are counted: at none left the slice must be used up.
  abbrev pub next_from : ℕ → Bytes → Result (Option A × Remaining)
  next_from zero [] = ok (none, record { buf = []; remaining = 0 })
  next_from zero (b ∷ buf) = err left_over
  next_from (suc n) buf =
      read buf >>= λ (x, buf'). ok (some x, record { buf = buf'; remaining = n })

module _ {κ} {A : Type κ} (left_over : Error) (read : Bytes → Result (A × Bytes)) where
  unfoldable pub next_counted : Remaining → Result (Option A × Remaining)
  next_counted it = next_from left_over read it.remaining it.buf

  -- A reader that reads back each encoded item makes the iterator return the items in order.
  pub collect-next_counted :
      (encode : A → Bytes) (items : List A)
      → All (λ x. (rest : Bytes) → read (encode x ++ rest) ≡ ok (x, rest)) items
      → collect next_counted
          (suc (length items))
          (record { buf = concat_map encode items; remaining = length items })
        ≡ ok items
  unfolding next_counted
  collect-next_counted encode [] h = collect_done next_counted 0 _ _ refl
  collect-next_counted encode (x ∷ xs) (h, hs) =
      collect_more next_counted _ _ _ x xs (rw (h (concat_map encode xs)))
        (collect-next_counted encode xs hs)

  -- With items left the iterator reads one; with none left it ends exactly where the slice is used up.
  pub next_counted-left_over :
      (b : ℕ) (buf : Bytes) → next_counted (record { buf = b ∷ buf; remaining = 0 }) ≡ err left_over
  unfolding next_counted
  next_counted-left_over b buf = refl
