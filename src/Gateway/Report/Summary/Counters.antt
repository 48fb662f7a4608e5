-- ===== src/Gateway/Report/Summary/Counters.antt =====
-- A counter as a finite map: what `increment` does to every key, and that no key is there twice.
use mini_banking_app.Common.{
  ℕ, ◌+◌, ◌≤◌, ◌<◌, ◌≡◌, refl, ap, ◌∙◌, inl, inr, arith, String, Bool, true, false, ◌||◌, List, [],
  ◌∷◌, ◌===◌, if◌then◌else◌, any, filter, All, Bool-cases, eq_iff, eq_refl, leb,
}
use mini_banking_app.Common.Sort.{insert, sort}
use mini_banking_app.Gateway.Report.Summary.{Counts, increment, count_at}

-- How many items pass a test.
module _ {ℓ} {A : Type ℓ} where
  abbrev pub number_of : (A → Bool) → List A → ℕ
  number_of p [] = 0
  number_of p (x ∷ xs) = (if p x then 1 else 0) + number_of p xs

pub count_at-increment :
    (key k : String) (m : Counts)
    → count_at k (increment m key) ≡ count_at k m + (if key === k then 1 else 0)
count_at-increment key k [] = ground (arith, eq_iff key k, eq_iff k key)
count_at-increment key k ((k', n) ∷ m) = elim (Bool-cases (k' === key)) [
  | inl e ↦ rw e (ground (arith, eq_iff k' key, eq_iff k k', eq_iff key k))
  | inr e ↦
      let rest = count_at-increment key k m in
      rw e (ground (arith, eq_iff k' key, eq_iff k k', eq_iff key k))
]

abbrev pub has : String → Counts → Bool
has key m = any (λ entry. entry.0 === key) m

-- No key is there twice.
abbrev pub Distinct : Counts → Type 0
Distinct [] = Unit
Distinct ((k, n) ∷ m) = (has k m ≡ false) × Distinct m

has-increment :
    (key k : String) (m : Counts)
    → has k m ≡ false
    → (key === k) ≡ false
    → has k (increment m key) ≡ false
has-increment key k [] h e = ground arith
has-increment key k ((k', n) ∷ m) h e =
    let rest = has-increment key k m in ground (arith, eq_iff k' key, eq_iff k' k, eq_iff key k)

pub increment-Distinct : (key : String) (m : Counts) → Distinct m → Distinct (increment m key)
increment-Distinct key [] h = (refl, tt)
increment-Distinct key ((k, n) ∷ m) h = elim (Bool-cases (k === key)) [
  | inl e ↦ rw e h
  | inr e ↦ rw e (
    has-increment key k m h.0 (ground (arith, eq_iff k key, eq_iff key k)),
    increment-Distinct key m h.1,
  )
]

shadowed :
    (k : String) (n : ℕ) (part m : Counts)
    → has k part ≡ false
    → All (λ entry. count_at entry.0 m ≡ entry.1) part
    → All (λ entry. count_at entry.0 ((k, n) ∷ m) ≡ entry.1) part
shadowed k n [] m h all = tt
shadowed k n ((k', n') ∷ part) m h all =
    (ground (arith, eq_iff k k', eq_iff k' k), shadowed k n part m (ground arith) all.1)

-- Every entry has the number that is looked up under its key.
pub entries : (m : Counts) → Distinct m → All (λ entry. count_at entry.0 m ≡ entry.1) m
entries [] h = tt
entries ((k, n) ∷ m) h = (ground (arith, eq_refl k), shadowed k n m m h.0 (entries m h.1))

pub filter-All {ℓ κ} :
    {A : Type ℓ} (p : A → Bool) (P : A → Type κ) (xs : List A)
    → All P xs
    → All (λ x. P x × (p x ≡ true)) (filter p xs)
filter-All p P [] h = tt
filter-All p P (x ∷ xs) h = elim (Bool-cases (p x)) [
  | inl e ↦ rw e ((h.0, e), filter-All p P xs h.1)
  | inr e ↦ rw e (filter-All p P xs h.1)
]

-- A key with a high number stays when the entries are filtered by their numbers.
pub has-filter :
    (k : String) (least : ℕ) (m : Counts)
    → least ≤ count_at k m
    → 0 < least
    → has k (filter (λ entry. leb least entry.1) m) ≡ true
has-filter k least [] h pos = absurd (ground arith)
has-filter k least ((k', n) ∷ m) h pos = elim (Bool-cases (k' === k)) [
  | inl e ↦
      let high : leb least n ≡ true = ground (arith, eq_iff k k', eq_iff k' k) in rw (high, e) refl
  | inr e ↦
      let rest = has-filter k least m (ground (arith, eq_iff k k', eq_iff k' k)) pos in
      elim (Bool-cases (leb least n)) [ inl high ↦ rw (high, e) rest | inr low ↦ rw low rest ]
]

has-insert :
    (before : String × ℕ → String × ℕ → Bool) (k : String) (x : String × ℕ) (m : Counts)
    → has k (insert before x m) ≡ has k (x ∷ m)
has-insert before k x [] = refl
has-insert before k x (y ∷ m) = let rest = has-insert before k x m in ground arith

pub has-sort :
    (before : String × ℕ → String × ℕ → Bool) (k : String) (m : Counts)
    → has k (sort before m) ≡ has k m
has-sort before k [] = refl
has-sort before k (x ∷ m) =
    let rest = has-sort before k m in
    has-insert before k x (sort before m) ∙ ap (λ b. (x.0 === k) || b) rest
