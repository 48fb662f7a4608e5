-- ===== src/Client/Bank/Canonical.antt =====
-- What `canonicalStringify` guarantees of its text.
use Prim.Native.Char.{Char, code}
use text.Mathlib.TextLemmas.{cons-append, nil-append}
use mini_banking_app.Common.{
  ◌≡◌, refl, sym, ap, ◌∙◌, inl, inr, arith, String, Bool, false, ◌||◌, ◌==◌, Bool-cases,
}
use mini_banking_app.Client.BankMessages.{◌^◌}
use mini_banking_app.Client.Bank.{escape_char, escape_html}

-- The characters that the Bank's printer escapes.
abbrev pub is_escaped : Char → Bool
is_escaped c =
    code c == b'<' || code c == b'>' || code c == b'&' || code c == 0x2028 || code c == 0x2029

abbrev pub has_escaped : String → Bool
has_escaped String.[] = false
has_escaped (String.◌∷◌ c s) = is_escaped c || has_escaped s

has_escaped-append : (s t : String) → has_escaped (s ^ t) ≡ (has_escaped s || has_escaped t)
has_escaped-append String.[] t = ap has_escaped (nil-append t)
has_escaped-append (String.◌∷◌ c s) t =
    ap has_escaped (cons-append c s t) ∙ (let rest = has_escaped-append s t in ground arith)

escape_char-safe :
    (c : Char) (s : String) → has_escaped s ≡ false → has_escaped (escape_char c s) ≡ false
escape_char-safe c s h = elim (Bool-cases (code c == b'<')) [
  | inl e ↦ rw e (has_escaped-append "\\u003c" s ∙ h)
  | inr e ↦ elim (Bool-cases (code c == b'>')) [
    | inl e₁ ↦ rw (e, e₁) (has_escaped-append "\\u003e" s ∙ h)
    | inr e₁ ↦ elim (Bool-cases (code c == b'&')) [
      | inl e₂ ↦ rw (e, e₁, e₂) (has_escaped-append "\\u0026" s ∙ h)
      | inr e₂ ↦ elim (Bool-cases (code c == 0x2028)) [
        | inl e₃ ↦ rw (e, e₁, e₂, e₃) (has_escaped-append "\\u2028" s ∙ h)
        | inr e₃ ↦ elim (Bool-cases (code c == 0x2029)) [
          | inl e₄ ↦ rw (e, e₁, e₂, e₃, e₄) (has_escaped-append "\\u2029" s ∙ h)
          | inr e₄ ↦ rw (e, e₁, e₂, e₃, e₄) (ground arith)
        ]
      ]
    ]
  ]
]

escape_html-safe : (s : String) → has_escaped (escape_html s) ≡ false
escape_html-safe String.[] = refl
escape_html-safe (String.◌∷◌ c s) = escape_char-safe c (escape_html s) (escape_html-safe s)

escape_html-same : (s : String) → has_escaped s ≡ false → escape_html s ≡ s
escape_html-same String.[] h = refl
escape_html-same (String.◌∷◌ c s) h =
    let rest = escape_html-same s (ground arith) in
    let e : (code c == b'<') ≡ false = ground arith in
    let e₁ : (code c == b'>') ≡ false = ground arith in
    let e₂ : (code c == b'&') ≡ false = ground arith in
    let e₃ : (code c == 0x2028) ≡ false = ground arith in
    let e₄ : (code c == 0x2029) ≡ false = ground arith in
    rw (e, e₁, e₂, e₃, e₄) (ap (λ t. String.◌∷◌ c t) rest)

-- The escaped text has none of the five characters that the Bank escapes, and is the text itself exactly
-- where that has none of them; so escaping twice is escaping once.
pub escape_html_iff :
    (s : String)
    → (has_escaped (escape_html s) ≡ false)
      × ((has_escaped s ≡ false → escape_html s ≡ s) × (escape_html s ≡ s → has_escaped s ≡ false))
      × (escape_html (escape_html s) ≡ escape_html s)
escape_html_iff s = (
  escape_html-safe s,
  (escape_html-same s, (λ e. ap has_escaped (sym e) ∙ escape_html-safe s)),
  escape_html-same (escape_html s) (escape_html-safe s),
)
