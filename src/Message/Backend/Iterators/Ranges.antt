-- ===== src/Message/Backend/Iterators/Ranges.antt =====
-- `DataRowRanges` finds every value of a row, and never a range outside the row.

use rust_kingbase.Prelude.{
  sym, ◌∙◌, dec_le, dec_lt, lt→ltb, le→ltb, le→leb, lt→leb, Bytes, length, take, drop, All,
  length-append, length-drop, take-append, drop-add-append, drop-append_of, concat_map, ◌>>=◌,
  Result, ok, err, panic, ℕ, zero, suc, ◌+◌, ◌-◌, ◌^◌, ◌≤◌, ◌<◌, ◌≡◌, refl, ap, ap₂, Option, none,
  some, List, [], ◌∷◌, ◌++◌, map, append_assoc, arith,
}
use rust_kingbase.Prelude.Int.{wrap, ℤ, pos, negsuc}
use rust_kingbase.Wire.Crates.{Crates}
use rust_kingbase.Wire.Read.{
  read_exact, read_uint, read_int, read_i32, read_int-write_be, slice_from-append,
  slice_from_within,
}
use rust_kingbase.Wire.Iterate.{collect, collect_done, collect_more}
use rust_kingbase.Message.Backend.Iterators.{
  ranges, range_of, ranges_next, DataRowRanges, checked_minus,
}
use rust_kingbase.Message.Backend.Body.{CountedBody}

-- `&storage[range]`, for a column that is not NULL.
abbrev pub cell : Bytes → Option (ℕ × ℕ) → Option Bytes
cell storage none = none
cell storage (some (start, end)) = some (take (end - start) (drop start storage))

abbrev pub FitsValue : Option Bytes → Type 0
FitsValue none = Unit
FitsValue (some v) = length v < 2 ^ 31

-- Where the ranges of the values lie in a row whose first value starts at `base`.
ranges_at : ℕ → List (Option Bytes) → List (Option (ℕ × ℕ))
ranges_at base [] = []
ranges_at base (none ∷ vs) = none ∷ ranges_at (base + 4) vs
ranges_at base (some v ∷ vs) =
    some (base + 4, base + 4 + length v) ∷ ranges_at (base + 4 + length v) vs

module _ (crates : Crates) where
  open crates use {write_be, length-write_be}

  -- A value as the protocol lays it out: its length and its bytes, or -1.
  abbrev pub value_field : Option Bytes → Bytes
  value_field none = write_be 4 (wrap (2 ^ 31) (negsuc 0))
  value_field (some v) = write_be 4 (wrap (2 ^ 31) (pos (length v))) ++ v

  end_step :
      (len : ℕ)
      → ranges_next crates (record { buf = []; len = len; remaining = 0 })
        ≡ ok (none, record { buf = []; len = len; remaining = 0 })
  unfolding ranges_next
  end_step len = refl

  null_step :
      (rest : Bytes) (len n : ℕ)
      → ranges_next crates (record { buf = value_field none ++ rest; len = len; remaining = suc n })
        ≡ ok (some none, record { buf = rest; len = len; remaining = n })
  unfolding ranges_next range_of
  null_step rest len n =
      rw (read_int-write_be crates 4 (2 ^ 31) (negsuc 0) rest refl (omega arith) (omega arith))

  value_step :
      (v rest : Bytes) (len n base : ℕ)
      → length v < 2 ^ 31
      → len ≡ base + 4 + length (v ++ rest)
      → ranges_next crates
          (record { buf = value_field (some v) ++ rest; len = len; remaining = suc n })
        ≡ ok (
          some (some (base + 4, base + 4 + length v)),
          record { buf = rest; len = len; remaining = n },
        )
  unfolding ranges_next range_of checked_minus
  value_step v rest len n base h e =
      rw (append_assoc (write_be 4 (wrap (2 ^ 31) (pos (length v)))) v rest) (
        rw (
          read_int-write_be crates 4 (2 ^ 31) (pos (length v)) (v ++ rest) refl (omega arith) h,
          le→ltb (length (v ++ rest)) (length v) (omega (arith, length-append v rest)),
          le→leb (length (v ++ rest)) len (omega (arith)),
          at_base,
          slice_from-append v rest,
        ))
    where
      at_base : len - length (v ++ rest) ≡ base + 4
      at_base = omega arith

cell_at :
    (pre w v rest : Bytes)
    → length w ≡ 4
    → take
        (length pre + 4 + length v - (length pre + 4))
        (drop (length pre + 4) (pre ++ ((w ++ v) ++ rest)))
      ≡ v
cell_at pre w v rest e =
    let width : length pre + 4 + length v - (length pre + 4) ≡ length v = omega arith in
    rw (width, append_assoc w v rest, drop-add-append pre (w ++ (v ++ rest)) 4)
      (rw (drop-append_of 4 w (v ++ rest) e) (take-append v rest))

module _ (crates : Crates) where
  open crates use {write_be, length-write_be}

  after_null : (pre : Bytes) → length (pre ++ value_field crates none) ≡ length pre + 4
  after_null pre = omega (
    arith,
    length-append pre (value_field crates none),
    length-write_be 4 (wrap (2 ^ 31) (negsuc 0)),
  )

  after_value :
      (pre v : Bytes) → length (pre ++ value_field crates (some v)) ≡ length pre + 4 + length v
  after_value pre v = omega (
    arith,
    length-append pre (value_field crates (some v)),
    length-append (write_be 4 (wrap (2 ^ 31) (pos (length v)))) v,
    length-write_be 4 (wrap (2 ^ 31) (pos (length v))),
  )

module _ (crates : Crates) where
  open crates use {length-write_be}

  collect-ranges_at :
      (vs : List (Option Bytes)) (len base : ℕ)
      → All FitsValue vs
      → len ≡ base + length (concat_map (value_field crates) vs)
      → collect
          (ranges_next crates)
          (suc (length vs))
          (record { buf = concat_map (value_field crates) vs; len = len; remaining = length vs })
        ≡ ok (ranges_at base vs)
  unfolding ranges_at
  collect-ranges_at [] len base h e = collect_done (ranges_next crates) 0 _ _ (end_step crates len)
  collect-ranges_at (none ∷ vs) len base (h, hs) e =
      collect_more (ranges_next crates) _ _ _ none _
        (null_step crates (concat_map (value_field crates) vs) len (length vs))
        (collect-ranges_at vs len (base + 4) hs (
          omega (
            arith,
            length-append (value_field crates none) (concat_map (value_field crates) vs),
            length-write_be 4 (wrap (2 ^ 31) (negsuc 0)),
          )))
  collect-ranges_at (some v ∷ vs) len base (h, hs) e =
      let rest : Bytes = concat_map (value_field crates) vs in
      let field : length (value_field crates (some v)) ≡ 4 + length v = omega (
        arith,
        length-append (crates.write_be 4 (wrap (2 ^ 31) (pos (length v)))) v,
        length-write_be 4 (wrap (2 ^ 31) (pos (length v))),
      ) in
      collect_more (ranges_next crates) _ _ _ (some (base + 4, base + 4 + length v)) _
        (value_step crates v rest len (length vs) base h (
          omega
            (arith, length-append (value_field crates (some v)) rest, field, length-append v rest)))
        (collect-ranges_at vs len (base + 4 + length v) hs
          (omega (arith, length-append (value_field crates (some v)) rest, field)))

  cells-ranges_at :
      (vs : List (Option Bytes)) (pre storage : Bytes) (base : ℕ)
      → storage ≡ pre ++ concat_map (value_field crates) vs
      → base ≡ length pre
      → map (cell storage) (ranges_at base vs) ≡ vs
  unfolding ranges_at
  cells-ranges_at [] pre storage base e b = refl
  cells-ranges_at (none ∷ vs) pre storage base e b =
      let field : Bytes = value_field crates none in
      ap (◌∷◌ none) (
        cells-ranges_at vs (pre ++ field) storage (base + 4)
          (e ∙ sym (append_assoc pre field (concat_map (value_field crates) vs)))
          (omega (arith, after_null crates pre)))
  cells-ranges_at (some v ∷ vs) pre storage base e b =
      let field : Bytes = value_field crates (some v) in
      ap₂ ◌∷◌
        (ap some
          (rw (e, b) (cell_at pre _ v (concat_map (value_field crates) vs) (length-write_be 4 _))))
        (cells-ranges_at vs (pre ++ field) storage (base + 4 + length v)
          (e ∙ sym (append_assoc pre field (concat_map (value_field crates) vs)))
          (omega (arith, after_value crates pre v)))

module _ (crates : Crates) where
  -- On a row of values laid out as the protocol says, each shorter than 2^31 bytes, the iterator returns
  -- one range for each column, and the bytes in the ranges are the values, with NULL where it was sent.
  pub data_row_cells :
      (vs : List (Option Bytes))
      → All FitsValue vs
      → let storage = concat_map (value_field crates) vs in
        (rs : List (Option (ℕ × ℕ))) × (collect
            (ranges_next crates)
            (suc (length vs))
            (ranges (record { storage = storage; len = length vs }))
          ≡ ok rs)
        × (map (cell storage) rs ≡ vs)
  unfolding ranges
  data_row_cells vs h = (
    ranges_at 0 vs,
    collect-ranges_at crates vs _ 0 h (omega arith),
    cells-ranges_at crates vs [] _ 0 refl refl,
  )

-- The part of the row that the iterator has not read is a part of the row.
abbrev pub IsInside : DataRowRanges → Type 0
IsInside it = length it.buf ≤ it.len

-- A range of the row.
abbrev pub InRow : ℕ → Option (Option (ℕ × ℕ)) → Type 0
InRow len (some (some (start, end))) = (start ≤ end) × (end ≤ len)
InRow len _ = Unit

-- The step returns, within a row of `len` bytes.
abbrev pub StaysIn : ℕ → Result (Option (Option (ℕ × ℕ)) × DataRowRanges) → Type 0
StaysIn len (ok (item, it)) = InRow len item × (it.len ≡ len) × IsInside it
StaysIn len (err e) = Unit
StaysIn len panic = ⊥

range_of-StaysIn :
    (size : ℤ) (buf : Bytes) (len n : ℕ) → length buf ≤ len → StaysIn len (range_of size buf len n)
unfolding range_of checked_minus
range_of-StaysIn (negsuc k) buf len n h = (tt, refl, h)
range_of-StaysIn (pos k) buf len n h = elim (dec_lt (length buf) k) [
  | yes short ↦ rw (lt→ltb (length buf) k short) tt
  | no long ↦
      rw
        (
          le→ltb (length buf) k (omega arith),
          le→leb (length buf) len h,
          slice_from_within k buf (omega arith),
        )
        ((omega arith, omega arith), refl, omega (arith, length-drop k buf))
]

-- The reader returns, and leaves at most `n` bytes.
Leaves : ℕ → Result (ℤ × Bytes) → Type 0
Leaves n (ok (v, buf)) = length buf ≤ n
Leaves n (err e) = Unit
Leaves n panic = ⊥

module _ (crates : Crates) where
  read_i32-Leaves : (buf : Bytes) → Leaves (length buf) (read_i32 crates buf)
  unfolding Leaves read_int read_uint read_exact
  read_i32-Leaves buf = elim (dec_le 4 (length buf)) [
    | yes long ↦ rw (le→leb 4 (length buf) long) (omega (arith, length-drop 4 buf))
    | no short ↦ rw (lt→leb 4 (length buf) (omega arith)) tt
  ]

  sized-StaysIn :
      (len n : ℕ) (k : ℕ) (r : Result (ℤ × Bytes))
      → k ≤ len
      → Leaves k r
      → StaysIn len (r >>= λ (size, buf'). range_of size buf' len n)
  unfolding Leaves
  sized-StaysIn len n k (ok (size, buf)) h l = range_of-StaysIn size buf len n (omega arith)
  sized-StaysIn len n k (err e) h l = tt
  sized-StaysIn len n k panic h l = l

  from-StaysIn :
      (remaining len : ℕ) (buf : Bytes)
      → length buf ≤ len
      → StaysIn len (ranges_next crates (record { buf = buf; len = len; remaining = remaining }))
  unfolding ranges_next
  from-StaysIn zero len [] h = (tt, refl, h)
  from-StaysIn zero len (b ∷ buf) h = tt
  from-StaysIn (suc n) len buf h =
      sized-StaysIn len n (length buf) (read_i32 crates buf) h (read_i32-Leaves buf)

module _ (crates : Crates) where
  -- From inside a row, whatever its bytes are, a step of the iterator never panics, returns only ranges
  -- that lie in the row, and stays inside the same row.
  pub ranges_next-StaysIn :
      (it : DataRowRanges) → IsInside it → StaysIn it.len (ranges_next crates it)
  ranges_next-StaysIn it h = from-StaysIn crates it.remaining it.len it.buf h

-- The iterator of a row starts inside it.
pub ranges-IsInside : (body : CountedBody) → IsInside (ranges body)
unfolding ranges
ranges-IsInside body = omega arith
