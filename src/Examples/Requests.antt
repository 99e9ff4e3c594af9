-- ===== src/Examples/Requests.antt =====
-- Messages of the client, for message/frontend.rs.
use rust_kingbase.Prelude.{
  Bytes, length, Result, ok, ℕ, zero, suc, ◌≡◌, refl, List, [], ◌∷◌, ◌++◌, arith,
}
use rust_kingbase.Prelude.Int.{pos}
use rust_kingbase.Wire.Standard.{be_bytes, standard}
use rust_kingbase.Wire.Write.{IsNull, yes_null, no_null}
use rust_kingbase.Message.Frontend.{bind, parse}
use rust_kingbase.Message.Frontend.Layout.{cstr, framed}
use rust_kingbase.Message.Frontend.Counted.{counted}
use rust_kingbase.Message.Frontend.Queries.{parse-framed}
use rust_kingbase.Message.Frontend.Bind.{bound, bind-framed}

-- A text and its name.
abbrev select : Bytes
select = b'S' ∷ b'1' ∷ []

abbrev torn : Bytes
torn = b'a' ∷ 0 ∷ b'b' ∷ []

-- A value is its bytes; an empty one is written as NULL.
abbrev nullness : Bytes → IsNull
nullness [] = yes_null
nullness (_ ∷ _) = no_null

abbrev append_value : Bytes → Bytes → Result (Bytes × IsNull)
append_value v buf = ok (buf ++ v, nullness v)

abbrev own_bytes : Bytes → Bytes
own_bytes v = v

abbrev sent : List Bytes
sent = (7 ∷ []) ∷ [] ∷ []

bind-framed_example :
    bind standard [] select (pos 1 ∷ []) sent append_value (pos 1 ∷ []) []
    ≡ ok (
        framed standard b'B'
          (bound standard append_value own_bytes nullness [] select (pos 1 ∷ []) sent (pos 1 ∷ [])))
bind-framed_example =
    bind-framed standard append_value own_bytes nullness [] select (pos 1 ∷ []) sent (pos 1 ∷ []) []
      refl refl (omega arith) (omega arith) (omega arith)
      ((λ b. refl, omega arith), ((λ b. refl, omega arith), tt)) (omega arith)

parse-framed_example :
    parse standard [] select (23 ∷ []) []
    ≡ ok
        (framed standard b'P' (cstr [] ++ (cstr select ++ counted standard (be_bytes 4) (23 ∷ []))))
parse-framed_example =
    parse-framed standard [] select (23 ∷ []) [] refl refl (omega arith) (omega arith)

-- A payload of `n` zeros, which no proof writes out.
unfoldable zeros : ℕ → Bytes
zeros zero = []
zeros (suc n) = 0 ∷ zeros n

length-zeros : (n : ℕ) → length (zeros n) ≡ n
unfolding zeros
length-zeros zero = refl
length-zeros (suc n) = omega (arith, length-zeros n)
