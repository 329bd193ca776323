-- ===== src/Prelude/Results.antt =====
-- A Go function that returns `(T, error)`: a value or an error of the type `E`.

use mathlib.Core.Path.{◌≡◌, refl}
use mathlib.Core.Logic.{◌⊎◌, inl, inr}
use mathlib.Core.Bool.{Bool, true, false}
use mathlib.Core.Option.{Option, none, some}

pub data Result (E : Type 0) (A : Type 0) : Type 0 where
  ok : A → Result E A
  err : E → Result E A

infixl 5 ◌>>=◌ ◌>>◌
abbrev pub ◌>>=◌ : {E A B : Type 0} → Result E A → (A → Result E B) → Result E B
ok value >>= next = next value
err error >>= next = err error

abbrev pub ◌>>◌ : {E B : Type 0} → Result E (Unit {0}) → Result E B → Result E B
first >> next = first >>= λ _. next

-- `if !c { return e }`
abbrev pub guard : {E : Type 0} → Bool → E → Result E (Unit {0})
guard true error = ok tt
guard false error = err error

-- `if v == nil { return e }`
abbrev pub or_err : {E A : Type 0} → Option A → E → Result E A
or_err none error = err error
or_err (some value) error = ok value

-- The state that a fallible operation leaves: the old one where it failed.
abbrev pub or_old : {E A : Type 0} → Result E A → A → A
or_old (ok a) s = a
or_old (err e) s = s

abbrev pub is_ok : {E A : Type 0} → Result E A → Bool
is_ok (ok a) = true
is_ok (err e) = false

pub Result-cases :
    {E A : Type 0} (r : Result E A) → ((e : E) × (r ≡ err e)) ⊎ ((a : A) × (r ≡ ok a))
Result-cases (ok a) = inr (a, refl)
Result-cases (err e) = inl (e, refl)
