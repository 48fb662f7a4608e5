-- ===== src/Gateway/CaAdmin/Roles.antt =====
-- mini-banking-app/api-gateway/src/middleware/admin.middleware.ts, requireAdminRole: who passes to the
-- handlers of the CA administration. `jwt.verify` and the message of zod's first issue are arguments.
use mini_banking_app.Common.{
  ◌≡◌, ◌⊎◌, refl, inl, inr, arith, String, Bool, true, false, not, ◌&&◌, Option, none, some, List,
  any, ◌===◌, if◌then◌else◌, get_or, Bool-cases, Option-cases,
}
use mini_banking_app.Common.Ascii.{strip_prefix, is_space}
use mini_banking_app.Common.Result.{Result, ok, err, Result-cases}
use mini_banking_app.Gateway.Http.{Response, failed}
use mini_banking_app.Gateway.CaAdmin.{◌^◌}

-- The claims that are read; a missing one is `none`.
pub record AdminCaTokenPayload : Type 0 where
  pub email : Option String
  pub role : Option String
  pub sub : Option String

-- `res.locals.adminCa`
pub record AdminCa : Type 0 where
  pub email : String
  pub role : String
  pub performed_by : String

-- The settings of the token for demonstrations; one that is not set is the empty text.
pub record DemoEnv : Type 0 where
  pub admin_sec_demo_token : String
  pub admin_sec_demo_email : Option String

abbrev pub no_spaces : String → Bool
no_spaces String.[] = true
no_spaces (String.◌∷◌ c s) = let rest = no_spaces s in not (is_space c) && rest

abbrev pub after_spaces : String → Option String
after_spaces String.[] = none
after_spaces (String.◌∷◌ c s) =
    let rest = after_spaces s in
    if is_space c then rest else if no_spaces s then some (String.◌∷◌ c s) else none

-- The token of a header that matches `^Bearer\s+\S+$`.
abbrev pub spaced : String → Option String
spaced String.[] = none
spaced (String.◌∷◌ c s) = let rest = after_spaces s in if is_space c then rest else none

abbrev pub bearer_token : String → Option String
bearer_token header = elim (strip_prefix "Bearer" header) [ none ↦ none | some rest ↦ spaced rest ]

abbrev pub has_role : List String → String → Bool
has_role allowed role = any (λ r. r === role) allowed

abbrev pub allow : List String → String → AdminCa → Result Response AdminCa
allow allowed message admin =
    if has_role allowed admin.role
    then ok admin
    else err (failed 403 "ADMIN_CA_ROLE_FORBIDDEN" message)

by_role :
    (allowed : List String) (admin : AdminCa) (message : String) (run : Result Response AdminCa)
    → run ≡ allow allowed message admin
    → ((has_role allowed admin.role ≡ true) × (run ≡ ok admin))
      ⊎ ((has_role allowed admin.role ≡ false)
          × ((answer : Response) × (run ≡ err answer) × (answer.status ≡ 403)))
by_role allowed admin message run h = elim (Bool-cases (has_role allowed admin.role)) [
  | inl good ↦ inl (good, ground arith)
  | inr bad ↦ inr (bad, (failed 403 "ADMIN_CA_ROLE_FORBIDDEN" message, ground arith, refl))
]

module _ (env : DemoEnv) (verify : String → Result String AdminCaTokenPayload)
    (issue : String → String) (allowed : List String) where
  abbrev pub static_admin : AdminCa
  static_admin =
      let email = get_or env.admin_sec_demo_email "security-admin" in
      record { email = email; role = "security-admin"; performed_by = "security-admin:" ^ email }

  abbrev pub token_admin : AdminCaTokenPayload → AdminCa
  token_admin payload =
      let email = get_or payload.email (get_or payload.sub "unknown") in
      record { email = email; role = get_or payload.role ""; performed_by = "admin-ca:" ^ email }

  abbrev pub is_static : String → Bool
  is_static token = not (env.admin_sec_demo_token === "") && token === env.admin_sec_demo_token

  abbrev pub admin_of_token : String → Result Response AdminCa
  admin_of_token token = elim (verify token) [
    | err message ↦ err (failed 401 "ADMIN_CA_TOKEN_INVALID" message)
    | ok payload ↦
        allow allowed "Admin CA role is not allowed for this endpoint" (token_admin payload)
  ]

  -- The answer that ends the request, or the administrator that the handlers see.
  unfoldable pub require_admin_role : String → Result Response AdminCa
  require_admin_role header = elim (bearer_token header) [
    | none ↦ err (failed 401 "ADMIN_CA_TOKEN_REQUIRED" (issue header))
    | some token ↦
        if is_static token
        then allow allowed "Admin role is not allowed for this endpoint" static_admin
        else admin_of_token token
  ]

  -- The administrator that a token stands for: the one for demonstrations, or the one whose claims it
  -- carries.
  abbrev pub StandsFor : String → AdminCa → Type 0
  StandsFor token admin =
      ((is_static token ≡ true) × (admin ≡ static_admin))
      ⊎ ((is_static token ≡ false)
          × ((payload : AdminCaTokenPayload) × (verify token ≡ ok payload)
              × (admin ≡ token_admin payload)))

  -- The header carries no token, or one that is not for demonstrations and does not verify.
  abbrev pub Unknown : String → Type 0
  Unknown header =
      (bearer_token header ≡ none)
      ⊎ ((token : String) × (message : String) × (bearer_token header ≡ some token)
          × (is_static token ≡ false)
          × (verify token ≡ err message))

  -- A request passes, as the administrator that its token stands for, only when its header carries a token
  -- and either this is the token for demonstrations, which must be set, or it verifies; and the
  -- administrator's role, which is security-admin for the token for demonstrations and the token's own
  -- otherwise, is one of the allowed. A request that does not pass is answered with 401 if its header
  -- carries no token or one that is not for demonstrations and does not verify, and with 403 if the token
  -- stands for an administrator whose role is not allowed.
  pub require_admin_role_sound :
      (header : String)
      → ((token : String) × (admin : AdminCa) × (bearer_token header ≡ some token)
          × StandsFor token admin
          × (((has_role allowed admin.role ≡ true) × (require_admin_role header ≡ ok admin))
              ⊎ ((has_role allowed admin.role ≡ false)
                  × ((answer : Response) × (require_admin_role header ≡ err answer)
                      × (answer.status ≡ 403)))))
        ⊎ (Unknown header
            × ((answer : Response) × (require_admin_role header ≡ err answer)
                × (answer.status ≡ 401)))
  unfolding require_admin_role
  require_admin_role_sound header = elim (Option-cases (bearer_token header)) [
    | inl e ↦ inr (inl e, (failed 401 "ADMIN_CA_TOKEN_REQUIRED" (issue header), ground arith, refl))
    | inr (token, e) ↦ elim (Bool-cases (is_static token)) [
      | inl static ↦ inl (
        token,
        static_admin,
        e,
        inl (static, refl),
        by_role allowed static_admin "Admin role is not allowed for this endpoint"
            (require_admin_role header) (ground arith),
      )
      | inr other ↦ elim (Result-cases (verify token)) [
        | inr (x, e₁) ↦ inr (
          inr (token, x, e, other, e₁),
          (failed 401 "ADMIN_CA_TOKEN_INVALID" x, ground arith, refl),
        )
        | inl (payload, e₁) ↦ inl (
          token,
          token_admin payload,
          e,
          inr (other, (payload, e₁, refl)),
          by_role allowed (token_admin payload) "Admin CA role is not allowed for this endpoint"
              (require_admin_role header) (ground arith),
        )
      ]
    ]
  ]
