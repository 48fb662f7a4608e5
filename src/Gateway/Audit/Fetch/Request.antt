-- ===== src/Gateway/Audit/Fetch/Request.antt =====
-- mini-banking-app/api-gateway/src/lib/audit-fetch.ts, readCookie and parseWindowSeconds.
-- `decodeURIComponent`, which may throw, is an argument.
use mini_banking_app.Common.{
  ℕ, ◌*◌, String, none, some, List, [], ◌∷◌, ◌===◌, if◌then◌else◌, get_or,
}
use mini_banking_app.Common.Ascii.{trim, split_at, leading_digits}
use mini_banking_app.Common.Split.{split_on}
use mini_banking_app.Common.Decimal.{parse_int}
use mini_banking_app.Common.Result.{Result, ok}
use mini_banking_app.Gateway.Audit.Semantics.{find_key}
use mini_banking_app.Gateway.Audit.Fetch.{unit_seconds}

abbrev pub bank_session_cookie : String
bank_session_cookie = "bank_admin_session"

-- `const [k, ...v] = part.split("=")` and `v.join("=")`
abbrev pub name_value : String → String × String
name_value part = get_or (split_at b'=' part) (part, "")

module _ {E : Type 0} (decode : String → Result E String) where
  abbrev pub find_cookie : String → List String → Result E String
  find_cookie name [] = ok ""
  find_cookie name (part ∷ parts) =
      let later = find_cookie name parts in
      let pair = name_value (trim part) in if pair.0 === name then decode pair.1 else later

  -- A missing header is the empty text.
  unfoldable pub read_cookie : String → String → Result E String
  read_cookie header name = if header === "" then ok "" else find_cookie name (split_on b';' header)

abbrev pub default_window : ℕ
default_window = 24 * 3600

-- The pattern `^(\d+)([smhd])$`.
unfoldable pub parse_window_seconds : String → ℕ
parse_window_seconds value =
    let parts = leading_digits (trim value) in
    elim (parse_int parts.0) [
      | none ↦ default_window
      | some n ↦ elim (find_key parts.1 unit_seconds) [
        | none ↦ default_window
        | some unit ↦ n * unit
      ]
    ]
