-- ===== src/Common/Ascii.antt =====
-- JavaScript's operations on texts: `trim`, `toLowerCase`, `endsWith`, `split`, `indexOf`. Case and
-- space are those of ASCII: other letters keep their case.
use Prim.Native.Nat.{ℕ, ◌-◌}
use Prim.Native.Char.{Char, code}
use Prim.Native.String
use Prim.Native.String.{String, [], ◌∷◌, char_at}
use mathlib.Core.Path.{◌≡◌, ap}
use native.Mathlib.Omega.{arith}
use text.Mathlib.TextEquality.{eq_iff}
use mathlib.Core.Logic.{◌≢◌, ◌⊎◌, inl, inr}
use mathlib.Core.Bool.{Bool, false, not, ◌&&◌, ◌||◌}
use mathlib.Core.Option.{Option, none, some}
use text.Mathlib.TextLemmas.{cons-append, head-eq_of_cons-eq, tail-eq_of_cons-eq}
use mini_banking_app.Common.Tests.{leb, ◌==◌, ◌===◌, if◌then◌else◌}

lower_char : Char → Char
lower_char c =
    if leb b'A' (code c) && leb (code c) b'Z'
    then char_at "abcdefghijklmnopqrstuvwxyz" (code c - b'A')
    else c

unfoldable pub to_lower_case : String → String
unfolding lower_char
to_lower_case [] = []
to_lower_case (c ∷ s) = lower_char c ∷ to_lower_case s

-- Space, and the controls from tab to carriage return.
abbrev pub is_space : Char → Bool
is_space c = code c == 32 || leb 9 (code c) && leb (code c) 13

trim_start : String → String
trim_start [] = []
trim_start (c ∷ s) = let rest = trim_start s in if is_space c then rest else c ∷ s

trim_end : String → String
trim_end [] = []
trim_end (c ∷ s) = let rest = trim_end s in if is_space c && rest === "" then "" else c ∷ rest

unfoldable pub trim : String → String
unfolding trim_start trim_end
trim s = trim_end (trim_start s)

unfoldable pub ends_with : String → String → Bool
ends_with [] t = t === ""
ends_with (c ∷ s) t = t === (c ∷ s) || ends_with s t

-- The text before the first `c` and the text after it.
unfoldable pub split_at : ℕ → String → Option (String × String)
split_at sep [] = none
split_at sep (c ∷ s) =
    let later = split_at sep s in
    if code c == sep
    then some ([], s)
    else elim later [ none ↦ none | some (before, after) ↦ some (c ∷ before, after) ]

-- Two prefixes that differ at some place before either ends.
abbrev pub Diverge : String → String → Type 0
Diverge (c ∷ s) (d ∷ t) = (code c ≢ code d) ⊎ Diverge s t
Diverge _ _ = ⊥

append-ne_of_Diverge : (p q a b : String) → Diverge p q → String.◌++◌ p a ≢ String.◌++◌ q b
append-ne_of_Diverge (c ∷ s) (d ∷ t) a b (inl h) e =
    h (ap code (head-eq_of_cons-eq (rw (cons-append, cons-append) at e)))
append-ne_of_Diverge (c ∷ s) (d ∷ t) a b (inr h) e =
    append-ne_of_Diverge s t a b h (tail-eq_of_cons-eq (rw (cons-append, cons-append) at e))
append-ne_of_Diverge [] [] a b h e = absurd h
append-ne_of_Diverge [] (d ∷ t) a b h e = absurd h
append-ne_of_Diverge (c ∷ s) [] a b h e = absurd h

-- Keys under prefixes that differ are different.
pub prefix_ne : (p q a b : String) → Diverge p q → (String.◌++◌ p a === String.◌++◌ q b) ≡ false
prefix_ne p q a b h =
    ground (arith, eq_iff (String.◌++◌ p a) (String.◌++◌ q b), append-ne_of_Diverge p q a b h)

-- What follows a prefix, where the text has it.
abbrev pub strip_prefix : String → String → Option String
strip_prefix [] s = some s
strip_prefix (c ∷ p) [] = none
strip_prefix (c ∷ p) (d ∷ s) =
    let rest = strip_prefix p s in if code c == code d then rest else none

-- The digits that a text begins with, and what follows.
abbrev pub leading_digits : String → String × String
leading_digits [] = ("", "")
leading_digits (c ∷ s) =
    let rest = leading_digits s in
    if leb b'0' (code c) && leb (code c) b'9' then (c ∷ rest.0, rest.1) else ("", c ∷ s)

-- `s.replace(/\s+/g, "")` and `s.replace(/\s+/g, " ")`; the flag says that a space came before.
abbrev pub remove_spaces : String → String
remove_spaces [] = ""
remove_spaces (c ∷ s) = let rest = remove_spaces s in if is_space c then rest else c ∷ rest

collapse_from : Bool → String → String
collapse_from spaced [] = ""
collapse_from spaced (c ∷ s) =
    let rest = collapse_from (is_space c) s in
    if not (is_space c) then c ∷ rest else if spaced then rest else char_at " " 0 ∷ rest

unfoldable pub collapse_spaces : String → String
unfolding collapse_from
collapse_spaces s = collapse_from false s

-- `Number` of one decimal digit
abbrev pub digit_value : Char → ℕ
digit_value c = code c - b'0'
