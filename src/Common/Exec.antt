-- ===== src/Common/Exec.antt =====
-- Asynchronous code that reads and writes a state and may throw. What was written before a throw
-- stays written, so the state comes back beside the exception too.
use mathlib.Core.Path.{◌≡◌, refl}
use mathlib.Core.Logic.{◌⊎◌, inl, inr}

pub data Outcome {ℓ} (E A : Type ℓ) : Type ℓ where
  returned : A → Outcome E A
  thrown : E → Outcome E A

abbrev pub Exec {ℓ} : Type ℓ → Type ℓ → Type ℓ → Type ℓ
Exec S E A = S → Outcome E A × S

module _ {ℓ} {S E A : Type ℓ} where
  abbrev pub pure : A → Exec S E A
  pure a s = (returned a, s)

  abbrev pub throw : E → Exec S E A
  throw e s = (thrown e, s)

module _ {ℓ} {S E A B : Type ℓ} where
  abbrev pub continue : Outcome E A × S → (A → Exec S E B) → Outcome E B × S
  continue (returned a, s) f = f a s
  continue (thrown e, s) f = (thrown e, s)

  infixl 10 ◌>>=◌
  abbrev pub ◌>>=◌ : Exec S E A → (A → Exec S E B) → Exec S E B
  ◌>>=◌ m f s = continue (m s) f

  infixl 10 ◌>>◌
  abbrev pub ◌>>◌ : Exec S E A → Exec S E B → Exec S E B
  m >> n = m >>= λ _. n

-- `try { m } catch (e) { handler(e) }`
module _ {ℓ} {S E A : Type ℓ} where
  abbrev recover : Outcome E A × S → (E → Exec S E A) → Outcome E A × S
  recover (returned a, s) f = (returned a, s)
  recover (thrown e, s) f = f e s

  abbrev pub try_catch : Exec S E A → (E → Exec S E A) → Exec S E A
  try_catch m handler s = recover (m s) handler

  -- A handler that returns leaves nothing thrown.
  pub try_catch-returns :
      (m : Exec S E A) (a : A) (s : S) → (v : A) × ((try_catch m (λ _. pure a) s).0 ≡ returned v)
  try_catch-returns m a s = recovered (m s)
    where
      recovered : (p : Outcome E A × S) → (v : A) × ((recover p (λ _. pure a)).0 ≡ returned v)
      recovered (returned v, s') = (v, refl)
      recovered (thrown e, s') = (a, refl)

-- To split on a run and keep the equation.
module _ {ℓ} {S E A : Type ℓ} where
  pub run-cases :
      (p : Outcome E A × S)
      → ((a : A) × (s : S) × (p ≡ (returned a, s))) ⊎ ((e : E) × (s : S) × (p ≡ (thrown e, s)))
  run-cases (returned a, s) = inl (a, s, refl)
  run-cases (thrown e, s) = inr (e, s, refl)
