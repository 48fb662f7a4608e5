-- ===== src/Common/Decimal.antt =====
-- `String(n)` and `parseInt(s, 10)` on the natural numbers. A text that does not begin with a digit
-- has no number (`NaN`); signs and leading spaces do not occur in what the program parses.
use Prim.Native.Nat.{ℕ, zero, suc, ◌+◌, ◌-◌, ◌*◌, ◌/◌, ◌%◌, ◌<◌}
use Prim.Native.Char.{Char, code}
use Prim.Native.String.{String, [], ◌∷◌, char_at}
use mathlib.Core.Path.{◌≡◌, refl, ap, ◌∙◌}
use mathlib.Core.Bool.{Bool, true, ◌&&◌}
use mathlib.Core.Option.{Option, none, some}
use native.Mathlib.Omega.{arith}
use mini_banking_app.Common.Tests.{ltb, leb, if◌then◌else◌, Bool-cases}
use mathlib.Core.Logic.{inl, inr}

abbrev pub is_digit : Char → Bool
is_digit c = leb b'0' (code c) && leb (code c) b'9'

value_from : ℕ → String → ℕ
value_from n [] = n
value_from n (c ∷ s) =
    let more = value_from (n * 10 + (code c - b'0')) s in if is_digit c then more else n

unfoldable pub parse_int : String → Option ℕ
unfolding value_from
parse_int [] = none
parse_int (c ∷ s) = if is_digit c then some (value_from 0 (c ∷ s)) else none

digit : ℕ → Char
digit d = char_at "0123456789" d

show_from : ℕ → ℕ → String → String
show_from zero n out = out
show_from (suc f) n out =
    let more = show_from f (n / 10) (digit (n % 10) ∷ out) in
    if ltb n 10 then digit n ∷ out else more

unfoldable pub to_string : ℕ → String
unfolding show_from digit
to_string n = show_from (suc n) n []

digit-code : (d : ℕ) → d < 10 → code (digit d) ≡ b'0' + d
unfolding digit
digit-code zero h = refl
digit-code (suc zero) h = refl
digit-code (suc (suc zero)) h = refl
digit-code (suc (suc (suc zero))) h = refl
digit-code (suc (suc (suc (suc zero)))) h = refl
digit-code (suc (suc (suc (suc (suc zero))))) h = refl
digit-code (suc (suc (suc (suc (suc (suc zero)))))) h = refl
digit-code (suc (suc (suc (suc (suc (suc (suc zero))))))) h = refl
digit-code (suc (suc (suc (suc (suc (suc (suc (suc zero)))))))) h = refl
digit-code (suc (suc (suc (suc (suc (suc (suc (suc (suc zero))))))))) h = refl
digit-code (suc (suc (suc (suc (suc (suc (suc (suc (suc (suc d)))))))))) h = absurd (omega arith)

value_from-digit :
    (n d : ℕ) (s : String) → d < 10 → value_from n (digit d ∷ s) ≡ value_from (n * 10 + d) s
unfolding value_from
value_from-digit n d s h = ground (arith, digit-code d h)

value_from-show_from :
    (f n : ℕ) (out : String) → n < f → value_from 0 (show_from f n out) ≡ value_from n out
unfolding show_from
value_from-show_from zero n out h = absurd (omega arith)
value_from-show_from (suc f) n out h = elim (Bool-cases (ltb n 10)) [
  | inl small ↦
      rw small
        (value_from-digit 0 n out (ground arith) ∙ ap (λ (k : ℕ). value_from k out) (omega arith))
  | inr big ↦ rw big (
      value_from-show_from f (n / 10) (digit (n % 10) ∷ out) (ground arith)
      ∙ value_from-digit (n / 10) (n % 10) out (omega arith)
      ∙ ap (λ (k : ℕ). value_from k out) (omega arith))
]

-- The head of a decimal is a digit.
HasDigit : String → Type 0
HasDigit [] = ⊥
HasDigit (c ∷ s) = is_digit c ≡ true

show_from-HasDigit : (f n : ℕ) (out : String) → n < f → HasDigit (show_from f n out)
unfolding show_from HasDigit
show_from-HasDigit zero n out h = absurd (omega arith)
show_from-HasDigit (suc f) n out h = elim (Bool-cases (ltb n 10)) [
  | inl small ↦ rw small (ground (arith, digit-code n))
  | inr big ↦ rw big (show_from-HasDigit f (n / 10) (digit (n % 10) ∷ out) (ground arith))
]

parse_int_of_HasDigit : (s : String) → HasDigit s → parse_int s ≡ some (value_from 0 s)
unfolding parse_int HasDigit
parse_int_of_HasDigit [] h = absurd h
parse_int_of_HasDigit (c ∷ s) h = rw h

-- A number is read back from its decimal.
pub parse_int-to_string : (n : ℕ) → parse_int (to_string n) ≡ some n
unfolding to_string
parse_int-to_string n =
    parse_int_of_HasDigit (show_from (suc n) n []) (show_from-HasDigit (suc n) n [] (omega arith))
    ∙ ap some (value_from-show_from (suc n) n [] (omega arith) ∙ unfold value_from in refl)
