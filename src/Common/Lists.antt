-- ===== src/Common/Lists.antt =====
-- Lists measured and indexed by native numbers, under the library's names.
use Prim.Native.Nat.{ℕ, zero, suc, ◌+◌, ◌-◌, ◌≤◌, min}
use mathlib.Core.Path.{◌≡◌, refl, sym, ap, ◌∙◌}
use mathlib.Core.Bool.{Bool, false, ◌||◌}
use mathlib.Core.List.{List, [], ◌∷◌, ◌++◌, map}
use mathlib.Core.Option.{Option, none, some}
use native.Mathlib.Omega.{arith}
use mini_banking_app.Common.Tests.{if◌then◌else◌}

module _ {ℓ} {A : Type ℓ} where
  abbrev pub length : List A → ℕ
  length [] = 0
  length (x ∷ xs) = suc (length xs)

  abbrev pub head? : List A → Option A
  head? [] = none
  head? (x ∷ xs) = some x

  abbrev pub get_elem? : List A → ℕ → Option A
  get_elem? [] i = none
  get_elem? (x ∷ xs) zero = some x
  get_elem? (x ∷ xs) (suc i) = get_elem? xs i

  abbrev pub take : ℕ → List A → List A
  take zero xs = []
  take (suc n) [] = []
  take (suc n) (x ∷ xs) = x ∷ take n xs

  abbrev pub drop : ℕ → List A → List A
  drop zero xs = xs
  drop (suc n) [] = []
  drop (suc n) (x ∷ xs) = drop n xs

  -- `Array.prototype.some`
  abbrev pub any : (A → Bool) → List A → Bool
  any p [] = false
  any p (x ∷ xs) = p x || any p xs

  -- `Array.prototype.filter`
  abbrev pub filter : (A → Bool) → List A → List A
  filter p [] = []
  filter p (x ∷ xs) = let rest = filter p xs in if p x then x ∷ rest else rest

  pub length-append : (xs ys : List A) → length (xs ++ ys) ≡ length xs + length ys
  length-append [] ys = omega arith
  length-append (x ∷ xs) ys = omega (arith, length-append xs ys)

  pub length-take : (n : ℕ) (xs : List A) → length (take n xs) ≡ min n (length xs)
  length-take zero xs = omega arith
  length-take (suc n) [] = omega arith
  length-take (suc n) (x ∷ xs) = omega (arith, length-take n xs)

  pub length-drop : (n : ℕ) (xs : List A) → length (drop n xs) ≡ length xs - n
  length-drop zero xs = omega arith
  length-drop (suc n) [] = omega arith
  length-drop (suc n) (x ∷ xs) = omega (arith, length-drop n xs)

  pub take-append-drop : (n : ℕ) (xs : List A) → take n xs ++ drop n xs ≡ xs
  take-append-drop zero xs = refl
  take-append-drop (suc n) [] = refl
  take-append-drop (suc n) (x ∷ xs) = rw (take-append-drop n xs)

  -- A prefix is all that is taken from a concatenation that begins with it.
  pub take-append : (xs ys : List A) → take (length xs) (xs ++ ys) ≡ xs
  take-append [] ys = refl
  take-append (x ∷ xs) ys = ap (λ l. x ∷ l) (take-append xs ys)

  pub drop-append : (xs ys : List A) → drop (length xs) (xs ++ ys) ≡ ys
  drop-append [] ys = refl
  drop-append (x ∷ xs) ys = drop-append xs ys

  take-nil : (n : ℕ) → take n [] ≡ []
  take-nil zero = refl
  take-nil (suc n) = refl

  pub drop-nil : (n : ℕ) → drop n [] ≡ []
  drop-nil zero = refl
  drop-nil (suc n) = refl

  pub drop-drop : (m n : ℕ) (xs : List A) → drop m (drop n xs) ≡ drop (n + m) xs
  drop-drop m zero xs = let e : m ≡ zero + m = omega arith in ap (λ (k : ℕ). drop k xs) e
  drop-drop m (suc n) [] = rw (drop-nil, drop-nil)
  drop-drop m (suc n) (x ∷ xs) =
      let e : suc (n + m) ≡ suc n + m = omega arith in
      rw (drop-drop m n xs) (ap (λ (k : ℕ). drop k (x ∷ xs)) e)

  -- Every element satisfies `P`.
  abbrev pub All {κ} : (A → Type κ) → List A → Type κ
  All P [] = Unit
  All P (x ∷ xs) = P x × All P xs

  pub map-All {κ ν} :
      {P : A → Type κ} {Q : A → Type ν}
      → ((x : A) → P x → Q x)
      → (xs : List A) → All P xs
      → All Q xs
  map-All f [] h = tt
  map-All f (x ∷ xs) h = (f x h.0, map-All f xs h.1)

  pub All-append {κ} : (P : A → Type κ) (xs ys : List A) → All P xs → All P ys → All P (xs ++ ys)
  All-append P [] ys h k = k
  All-append P (x ∷ xs) ys (p, h) k = (p, All-append P xs ys h k)

  pub All-take {κ} : (P : A → Type κ) (n : ℕ) (xs : List A) → All P xs → All P (take n xs)
  All-take P zero xs h = tt
  All-take P (suc n) [] h = tt
  All-take P (suc n) (x ∷ xs) (p, h) = (p, All-take P n xs h)

module _ {ℓ κ} {A : Type ℓ} {B : Type κ} where
  pub length-map : (f : A → B) (xs : List A) → length (map f xs) ≡ length xs
  length-map f [] = refl
  length-map f (x ∷ xs) = ap suc (length-map f xs)

  pub map-take : (f : A → B) (n : ℕ) (xs : List A) → map f (take n xs) ≡ take n (map f xs)
  map-take f zero xs = refl
  map-take f (suc n) [] = refl
  map-take f (suc n) (x ∷ xs) = ap (λ l. f x ∷ l) (map-take f n xs)

module _ {ℓ} {A : Type ℓ} where
  -- Positions past a prefix are those of the rest.
  pub get_elem?-append_right :
      (xs ys : List A) (k : ℕ) → get_elem? (xs ++ ys) (length xs + k) ≡ get_elem? ys k
  get_elem?-append_right [] ys k =
      let e : zero + k ≡ k = omega arith in ap (λ (i : ℕ). get_elem? ys i) e
  get_elem?-append_right (x ∷ xs) ys k =
      let e : suc (length xs) + k ≡ suc (length xs + k) = omega arith in
      ap (λ (i : ℕ). get_elem? (x ∷ xs ++ ys) i) e ∙ get_elem?-append_right xs ys k

-- Parts of lists put together and cut again.
module _ {ℓ} {A : Type ℓ} where
  pub take-add : (m n : ℕ) (xs : List A) → take (m + n) xs ≡ take m xs ++ take n (drop m xs)
  take-add zero n xs = ap (λ k. take k xs) (omega arith)
  take-add (suc m) n [] = take-nil (suc m + n) ∙ sym (take-nil n)
  take-add (suc m) n (x ∷ xs) =
      let shift : (suc m + n) ≡ suc (m + n) = omega arith in
      ap (λ k. take k (x ∷ xs)) shift ∙ ap (x ∷◌) (take-add m n xs)

  pub take-take : (m n : ℕ) (xs : List A) → m ≤ n → take m (take n xs) ≡ take m xs
  take-take zero n xs h = refl
  take-take (suc m) zero xs h = absurd (omega arith)
  take-take (suc m) (suc n) [] h = refl
  take-take (suc m) (suc n) (x ∷ xs) h = ap (x ∷◌) (take-take m n xs (omega arith))

  pub take-all : (n : ℕ) (xs : List A) → length xs ≤ n → take n xs ≡ xs
  take-all zero [] h = refl
  take-all zero (x ∷ xs) h = absurd (omega arith)
  take-all (suc n) [] h = refl
  take-all (suc n) (x ∷ xs) h = ap (x ∷◌) (take-all n xs (omega arith))

module _ {ℓ κ} {A : Type ℓ} {B : Type κ} where
  pub map-append : (f : A → B) (xs ys : List A) → map f (xs ++ ys) ≡ map f xs ++ map f ys
  map-append f [] ys = refl
  map-append f (x ∷ xs) ys = ap (f x ∷◌) (map-append f xs ys)

module _ {ℓ κ ν} {A : Type ℓ} {B : Type κ} {C : Type ν} where
  pub map-map : (f : A → B) (g : B → C) (xs : List A) → map g (map f xs) ≡ map (λ x. g (f x)) xs
  map-map f g [] = refl
  map-map f g (x ∷ xs) = ap (g (f x) ∷◌) (map-map f g xs)
