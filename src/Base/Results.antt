-- ===== src/Base/Results.antt =====
-- `Result<T, DomainError>`: what may fail returns its value or the error's code.
use mathlib.Core.Path.{◌≡◌, refl}
use mathlib.Core.Logic.{◌⊎◌, inl, inr}
use mathlib.Core.Option.{Option, none, some}

pub data Result {κ ℓ} (Failure : Type κ) (Value : Type ℓ) : Type (ℓ ⊔ κ) where
  err : Failure → Result Failure Value
  ok : Value → Result Failure Value

-- the `?` operator: an error ends the function
infixl 5 ◌>>=◌
abbrev pub ◌>>=◌ {κ ℓ μ} :
    {Failure : Type κ} {V : Type ℓ} {W : Type μ}
    → Result Failure V
    → (V → Result Failure W)
    → Result Failure W
err failure >>= next = err failure
ok value >>= next = next value

abbrev pub ok_or {ℓ μ} : {E : Type μ} {A : Type ℓ} → Option A → E → Result E A
ok_or none e = err e
ok_or (some a) e = ok a

pub Result-cases {ℓ μ} :
    {E : Type μ} {A : Type ℓ} (r : Result E A) → ((a : A) × (r ≡ ok a)) ⊎ ((e : E) × (r ≡ err e))
Result-cases (ok a) = inl (a, refl)
Result-cases (err e) = inr (e, refl)
