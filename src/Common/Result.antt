-- ===== src/Common/Result.antt =====
-- A synchronous function that may throw returns a `Result`.
use mathlib.Core.Path.{◌≡◌, refl}
use mathlib.Core.Logic.{◌⊎◌, inl, inr}

pub data Result {ℓ} (E A : Type ℓ) : Type ℓ where
  ok : A → Result E A
  err : E → Result E A

module _ {ℓ} {E A B : Type ℓ} where
  infixl 10 ◌>>=◌
  abbrev pub ◌>>=◌ : Result E A → (A → Result E B) → Result E B
  err thrown >>= next = err thrown
  ok value >>= next = next value

  infixl 10 ◌>>◌
  abbrev pub ◌>>◌ : Result E A → Result E B → Result E B
  first >> second = first >>= λ _. second

-- To split on a computed result and keep the equation.
pub Result-cases {ℓ} :
    {E A : Type ℓ} (m : Result E A) → ((a : A) × (m ≡ ok a)) ⊎ ((e : E) × (m ≡ err e))
Result-cases (ok a) = inl (a, refl)
Result-cases (err e) = inr (e, refl)
