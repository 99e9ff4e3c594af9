-- ===== src/Prelude/Outcome.antt =====
-- Rust's outcomes: `Ok`, `Err`, and a panic, which unwinds through every caller.
use Prim.Native.String.{String}
use Prim.Native.Nat.{ℕ}
use mathlib.Core.List.{List}
use mathlib.Core.Path.{◌≡◌, refl}
use mathlib.Core.Bool.{Bool, true, false}
use mathlib.Core.Option.{Option, none, some}
use rust_kingbase.Prelude.Tests.{if◌then◌else◌}

-- The errors of the crates: `io::Error` by its kind and text, a boxed string, `Utf8Error`.
pub data Error : Type 0 where
  unexpected_eof : Error
  invalid_input : String → Error
  invalid_data : String → Error
  message : String → Error
  utf8_error : Error
  -- "SCRAM error: " with a text of the server.
  scram_error : List ℕ → Error
  -- The two constructors of `BindError`, in postgres-protocol/src/message/frontend.rs.
  conversion : Error → Error
  serialization : Error → Error

pub data Result {ℓ} (A : Type ℓ) : Type ℓ where
  ok : A → Result A
  err : Error → Result A
  panic : Result A

infixl 5 ◌>>=◌
abbrev pub ◌>>=◌ {ℓ κ} : {S : Type ℓ} {T : Type κ} → Result S → (S → Result T) → Result T
panic >>= rest = panic
err e >>= rest = err e
ok value >>= rest = rest value

-- `Option::unwrap` and `Option::ok_or`.
abbrev pub unwrap {ℓ} : {A : Type ℓ} → Option A → Result A
unwrap none = panic
unwrap (some a) = ok a

abbrev pub ok_or {ℓ} : {A : Type ℓ} → Option A → Error → Result A
ok_or none e = err e
ok_or (some a) e = ok a

pub >>=-eq-ok {ℓ κ} :
    {S : Type ℓ} {T : Type κ} (first : Result S) (rest : S → Result T) {end : T}
    → (first >>= rest) ≡ ok end
    → (value : S) × (first ≡ ok value) × (rest value ≡ ok end)
>>=-eq-ok panic rest e = cc
>>=-eq-ok (err why) rest e = cc
>>=-eq-ok (ok value) rest e = (value, refl, e)

-- It returns, with a value or an error.
abbrev pub Returns {ℓ} : {A : Type ℓ} → Result A → Type 0
Returns (ok a) = Unit {0}
Returns (err e) = Unit {0}
Returns panic = ⊥

pub >>=-Returns {ℓ κ} :
    {A : Type ℓ} {B : Type κ} (m : Result A) (f : A → Result B)
    → Returns m
    → ((a : A) → Returns (f a))
    → Returns (m >>= f)
>>=-Returns (ok a) f h k = k a
>>=-Returns (err e) f h k = tt
>>=-Returns panic f h k = h

-- `Result::map_err`, which `?` applies by `From` too.
abbrev pub map_err {ℓ} : {A : Type ℓ} → (Error → Error) → Result A → Result A
map_err f (ok a) = ok a
map_err f (err e) = err (f e)
map_err f panic = panic

-- `Result::unwrap`.
abbrev pub expect_ok {ℓ} : {A : Type ℓ} → Result A → Result A
expect_ok (ok a) = ok a
expect_ok (err e) = panic
expect_ok panic = panic

-- It returns, as a data type.
pub data Returned {A : Type 0} : Result A → Type 0 where
  returned : (a : A) → Returned (ok a)
  refused : (e : Error) → Returned (err e)

pub Returned-Returns : {A : Type 0} {r : Result A} → Returned r → Returns r
Returned-Returns (returned a) = tt
Returned-Returns (refused e) = tt

pub if-Returned :
    {A : Type 0} (b : Bool) {x y : Result A}
    → Returned x
    → Returned y
    → Returned (if b then x else y)
if-Returned true h k = h
if-Returned false h k = k

pub ok_or-Returned : {A : Type 0} (o : Option A) (e : Error) → Returned (ok_or o e)
ok_or-Returned none e = refused e
ok_or-Returned (some a) e = returned a

pub >>=-Returned :
    {A B : Type 0} {r : Result A} {f : A → Result B}
    → Returned r
    → ((a : A) → Returned (f a))
    → Returned (r >>= f)
>>=-Returned (returned a) k = k a
>>=-Returned (refused e) k = refused e
