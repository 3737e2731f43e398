-- ===== src/Common/Results.antt =====
-- The outcome of TypeScript code that may throw: `returns` a value, or `throws`. What is thrown
-- is an `Error` or an `AxtpError`, of which the model keeps which one it is.
use mathlib.Core.Path.{◌≡◌, refl}
use mathlib.Core.Logic.{◌⊎◌, inl, inr}

pub data Result {ℓ} (E : Type 0) (A : Type ℓ) : Type ℓ where
  returns : A → Result E A
  throws : E → Result E A

infixl 5 ◌>>=◌
abbrev pub ◌>>=◌ {ℓ κ} :
    {E : Type 0} {A : Type ℓ} {B : Type κ} → Result E A → (A → Result E B) → Result E B
returns a >>= f = f a
throws e >>= f = throws e

-- To split on a computed result and keep the equation.
pub Result-cases {ℓ} :
    {E : Type 0} {A : Type ℓ} (r : Result E A)
    → ((e : E) × (r ≡ throws e)) ⊎ ((a : A) × (r ≡ returns a))
Result-cases (returns a) = inr (a, refl)
Result-cases (throws e) = inl (e, refl)
