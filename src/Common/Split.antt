-- ===== src/Common/Split.antt =====
-- `s.split(c)` and `parts.join(s)`
use Prim.Native.Nat.{ℕ}
use Prim.Native.Char.{code}
use Prim.Native.String
use Prim.Native.String.{String}
use mathlib.Core.List.{List, [], ◌∷◌}
use mathlib.Core.Option.{Option, none, some}
use mini_banking_app.Common.Tests.{◌==◌, if◌then◌else◌}
use mini_banking_app.Common.Ascii.{strip_prefix}

abbrev on_head : (String → String) → List String → List String
on_head f [] = f "" ∷ []
on_head f (s ∷ parts) = f s ∷ parts

abbrev pub split_on : ℕ → String → List String
split_on sep String.[] = "" ∷ []
split_on sep (String.◌∷◌ c s) =
    let rest = split_on sep s in
    if code c == sep then "" ∷ rest else on_head (λ t. String.◌∷◌ c t) rest

abbrev pub join : String → List String → String
join sep [] = ""
join sep (s ∷ []) = s
join sep (s ∷ s' ∷ parts) = String.◌++◌ s (String.◌++◌ sep (join sep (s' ∷ parts)))

-- The text before the first occurrence of a text, and after it.
abbrev pub find_text : String → String → Option (String × String)
find_text part String.[] = none
find_text part (String.◌∷◌ c s) =
    let later = find_text part s in
    elim (strip_prefix part (String.◌∷◌ c s)) [
      | some rest ↦ some ("", rest)
      | none ↦ elim later [ none ↦ none | some (before, after) ↦ some (String.◌∷◌ c before, after) ]
    ]

-- `s.replace(part, "")`, of a text that is not empty
abbrev pub remove_first : String → String → String
remove_first part s = elim (find_text part s) [
  | none ↦ s
  | some (before, after) ↦ String.◌++◌ before after
]
