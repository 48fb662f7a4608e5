-- ===== src/Common/Sort.antt =====
-- `Array.prototype.sort`, which is stable: each item is put before the first later item that does not
-- come before it.
use Prim.Native.Nat.{ℕ, ◌≤◌}
use mathlib.Core.Logic.{inl, inr}
use mathlib.Core.Bool.{Bool}
use mathlib.Core.List.{List, [], ◌∷◌, Perm}
use mathlib.Core.List.Perm
use native.Mathlib.Omega.{arith}
use mini_banking_app.Common.Tests.{if◌then◌else◌, Bool-cases, ltb}
use mini_banking_app.Common.Lists.{All}

module _ {ℓ} {A : Type ℓ} (before : A → A → Bool) where
  abbrev pub insert : A → List A → List A
  insert x [] = x ∷ []
  insert x (y ∷ ys) = let later = insert x ys in if before y x then y ∷ later else x ∷ y ∷ ys

  abbrev pub sort : List A → List A
  sort [] = []
  sort (x ∷ xs) = insert x (sort xs)

  insert-perm : (x : A) (xs : List A) → Perm (insert x xs) (x ∷ xs)
  insert-perm x [] = Perm.refl (x ∷ [])
  insert-perm x (y ∷ ys) = elim (Bool-cases (before y x)) [
    | inl e ↦ rw e (Perm.trans (Perm.cons y (insert-perm x ys)) (Perm.swap x y ys))
    | inr e ↦ rw e (Perm.refl (x ∷ y ∷ ys))
  ]

  pub sort-perm : (xs : List A) → Perm (sort xs) xs
  sort-perm [] = Perm.refl []
  sort-perm (x ∷ xs) = Perm.trans (insert-perm x (sort xs)) (Perm.cons x (sort-perm xs))

  -- What holds of all items holds of all sorted items.
  insert-All {κ} : (P : A → Type κ) (x : A) (xs : List A) → P x → All P xs → All P (insert x xs)
  insert-All P x [] p h = (p, tt)
  insert-All P x (y ∷ ys) p h = elim (Bool-cases (before y x)) [
    | inl e ↦ rw e (h.0, insert-All P x ys p h.1)
    | inr e ↦ rw e (p, h)
  ]

  pub sort-All {κ} : (P : A → Type κ) (xs : List A) → All P xs → All P (sort xs)
  sort-All P [] h = tt
  sort-All P (x ∷ xs) h = insert-All P x (sort xs) h.0 (sort-All P xs h.1)

-- `(a, b) => key(a) - key(b)`
module _ {ℓ} {A : Type ℓ} (key : A → ℕ) where
  abbrev pub by_key : A → A → Bool
  by_key a b = ltb (key a) (key b)

  -- No item comes before one with a lower key.
  abbrev pub IsSorted : List A → Type ℓ
  IsSorted [] = Unit
  IsSorted (x ∷ xs) = All (λ y. key x ≤ key y) xs × IsSorted xs

  All-weaken : (a b : ℕ) (xs : List A) → a ≤ b → All (λ y. b ≤ key y) xs → All (λ y. a ≤ key y) xs
  All-weaken a b [] h all = tt
  All-weaken a b (x ∷ xs) h all = (ground arith, All-weaken a b xs h all.1)

  insert-IsSorted : (x : A) (xs : List A) → IsSorted xs → IsSorted (insert by_key x xs)
  insert-IsSorted x [] h = (tt, tt)
  insert-IsSorted x (y ∷ ys) h = elim (Bool-cases (by_key y x)) [
    | inl e ↦
        rw e
          (insert-All by_key (λ z. key y ≤ key z) x ys (ground arith) h.0, insert-IsSorted x ys h.1)
    | inr e ↦ rw e ((ground arith, All-weaken (key x) (key y) ys (ground arith) h.0), h)
  ]

  pub sort-IsSorted : (xs : List A) → IsSorted (sort by_key xs)
  sort-IsSorted [] = tt
  sort-IsSorted (x ∷ xs) = insert-IsSorted x (sort by_key xs) (sort-IsSorted xs)
