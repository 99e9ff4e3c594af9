-- ===== src/Client/Startup/Ends.antt =====
-- A part of the dialogue that does not panic, with what holds where it comes to a value.
use rust_kingbase.Prelude.{Returns, Error, Result, ok, err, panic, ◌≡◌, refl, Option, none, some}
use rust_kingbase.Client.DbError.{ClientError}
use rust_kingbase.Client.Startup.{
  Talk, followed, lift, required, Reply, StartupStream, gives, raises, aborts, awaits,
}

abbrev pub Ends {ℓ} : {A : Type ℓ} → (A → StartupStream → Type 0) → Reply A × StartupStream → Type 0
Ends Q (gives a, s) = Q a s
Ends Q (raises e, s) = Unit
Ends Q (aborts, s) = ⊥
Ends Q (awaits, s) = Unit

-- The outcome does not panic.
abbrev pub Replies {ℓ} : {A : Type ℓ} → Reply A × StartupStream → Type 0
Replies = Ends (λ a s. Unit {0})

pub followed-Ends {ℓ κ} :
    {A : Type ℓ} {B : Type κ} (P : A → StartupStream → Type 0) (Q : B → StartupStream → Type 0)
    (f : A → Talk B) (r : Reply A × StartupStream)
    → Ends P r
    → ((a : A) (s : StartupStream) → P a s → Ends Q (f a s))
    → Ends Q (followed f r)
followed-Ends P Q f (gives a, s) h k = k a s h
followed-Ends P Q f (raises e, s) h k = tt
followed-Ends P Q f (awaits, s) h k = tt
followed-Ends P Q f (aborts, s) h k = absurd h

-- The same, with the equation of the first part for what follows.
pub bound-Ends {ℓ κ} :
    {A : Type ℓ} {B : Type κ} (P : A → StartupStream → Type 0) (Q : B → StartupStream → Type 0)
    (f : A → Talk B) (r : Reply A × StartupStream)
    → Ends P r
    → ((a : A) (s : StartupStream) → r ≡ (gives a, s) → P a s → Ends Q (f a s))
    → Ends Q (followed f r)
bound-Ends P Q f (gives a, s) h k = k a s refl h
bound-Ends P Q f (raises e, s) h k = tt
bound-Ends P Q f (awaits, s) h k = tt
bound-Ends P Q f (aborts, s) h k = absurd h

pub lift-Ends {ℓ κ} :
    {A : Type ℓ} {B : Type κ} (Q : B → StartupStream → Type 0) (wrap : Error → ClientError)
    (f : A → Talk B) (r : Result A) (s : StartupStream)
    → Returns r
    → ((a : A) → r ≡ ok a → Ends Q (f a s))
    → Ends Q (followed f (lift wrap r s))
lift-Ends Q wrap f (ok a) s t k = k a refl
lift-Ends Q wrap f (err e) s t k = tt
lift-Ends Q wrap f panic s t k = absurd t

pub required-Ends {ℓ κ} :
    {A : Type ℓ} {B : Type κ} (Q : B → StartupStream → Type 0) (e : ClientError) (f : A → Talk B)
    (o : Option A) (s : StartupStream)
    → ((a : A) → o ≡ some a → Ends Q (f a s))
    → Ends Q (followed f (required e o s))
required-Ends Q e f none s k = tt
required-Ends Q e f (some a) s k = k a refl
