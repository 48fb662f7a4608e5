-- ===== src/Gateway/Otp.antt =====
-- mini-banking-app/api-gateway/src/controller/otp.controller.ts: the one-time passwords. Random
-- values, the clock, the HMAC and the signing of tokens are arguments.
pub mod Verify
pub mod Attempts
use Prim.Native.String
use Prim.Native.String.{len}
use mini_banking_app.Common.{
  ℕ, ◌+◌, ◌≡◌, String, Bool, true, false, not, ◌&&◌, Option, none, some, List, [], ◌∷◌, ltb, leb,
  ◌==◌, ◌===◌, if◌then◌else◌, get_or,
}
use mini_banking_app.Common.Ascii.{to_lower_case, split_at}
use mini_banking_app.Common.Decimal.{parse_int}
use mini_banking_app.Common.Exec.{Exec, pure, ◌>>=◌, ◌>>◌}
use mini_banking_app.Gateway.Http.{Exception, Response, Field, text, number, failed, succeeded}
use mini_banking_app.Gateway.Redis.{Redis}
use mini_banking_app.Gateway.World.{World, AuditEvent, on_store, record_ra_audit, enqueue}

-- The settings of config/env.ts that the handlers read.
pub record OtpEnv : Type 0 where
  pub max_attempts : ℕ
  pub expires_in : ℕ
  pub cooldown : ℕ
  pub demo_otp : Option String

-- The claims of a registration token.
pub record RegClaims : Type 0 where
  pub sub : String
  pub owner_id : String
  pub jti : String
  pub iat : ℕ
  pub exp : ℕ

pub record OtpCrypto : Type 0 where
  pub hmac_otp : String → String
  pub sign : RegClaims → String

-- What one request draws: two UUIDs and the time in seconds.
pub record Drawn : Type 0 where
  pub jti : String
  pub owner_id : String
  pub now : ℕ

-- The keys of `RedisKeys`.
abbrev pub otp_key : String → String
otp_key email = String.◌++◌ "otp:val:" email

abbrev pub otp_failed_key : String → String
otp_failed_key email = String.◌++◌ "rate:verify:" email

abbrev pub reg_token_key : String → String
reg_token_key jti = String.◌++◌ "`jwt_used:" jti

-- `len` counts the bytes of the UTF-8, as the two buffers do.
unfoldable pub safe_equal : String → String → Bool
safe_equal a b = if not (len a == len b) then false else a === b

-- `local[0]`, printed in a template.
first_letter : String → String
first_letter String.[] = "undefined"
first_letter (String.◌∷◌ c s) = String.◌∷◌ c String.[]

-- `email.split("@")` keeps the part up to a second "@".
domain_of : Option (String × String) → String
domain_of none = "undefined"
domain_of (some (before, after)) = elim (split_at b'@' after) [ none ↦ after | some (d, rest) ↦ d ]

local_of : String → Option (String × String) → String
local_of email none = email
local_of email (some (before, after)) = before

unfoldable pub mask_email : String → String
unfolding first_letter domain_of local_of
mask_email email =
    let parts = split_at b'@' email in
    String.◌++◌ (first_letter (local_of email parts)) (String.◌++◌ "***@" (domain_of parts))

-- `failRaw && parseInt(failRaw, 10) >= ENV.OTP_MAX_ATTEMPTS`
unfoldable pub blocked : ℕ → Option String → Bool
blocked max none = false
blocked max (some raw) = elim (parse_int raw) [ none ↦ false | some n ↦ leb max n ]

abbrev event : String → String → List (String × String) → AuditEvent
event action reason metadata = record {
  action = action;
  serial_number = "";
  performed_by = "ra:otp";
  reason = reason;
  metadata = metadata;
}

module _ (redis : Redis) (env : OtpEnv) (crypto : OtpCrypto) where
  open redis use {get, set_ex, del, incr, expire}

  unfoldable pub handle_otp_request : String → String → Exec (World redis) Exception Response
  handle_otp_request email random = do
    let otp = get_or env.demo_otp random
    on_store redis (set_ex (otp_key email) (crypto.hmac_otp otp) env.expires_in)
    enqueue redis (record { to = email; otp = otp })
    record_ra_audit redis (event "ra_otp_requested" "" (("email", to_lower_case email) ∷ []))
    pure (
        succeeded 200 "OTP dispatched"
          (("email_masked", text (mask_email email)) ∷ ("expires_in", number env.expires_in) ∷ []))

  -- The answer to a wrong code.
  unfoldable pub mismatch : String → Exec (World redis) Exception Response
  mismatch email = do
    count ← on_store redis (incr (otp_failed_key email))
    if count == 1 then on_store redis (expire (otp_failed_key email) env.cooldown) else pure tt
    record_ra_audit redis (event "ra_otp_failed" "otp_mismatch" (("email", email) ∷ []))
    pure (failed 401 "OTP_MISMATCH" "Invalid OTP")

  -- The answer to the right code: it is used up, and a registration token is issued.
  unfoldable pub issue : Drawn → String → Exec (World redis) Exception Response
  issue drawn email = do
    on_store redis (del (otp_key email))
    let reg_token = crypto.sign (record {
      sub = email;
      owner_id = drawn.owner_id;
      jti = drawn.jti;
      iat = drawn.now;
      exp = drawn.now + 600;
    })
    on_store redis (set_ex (reg_token_key drawn.jti) "0" 600)
    record_ra_audit redis
        (event "ra_otp_verified" "" (("email", email) ∷ ("owner_id", drawn.owner_id) ∷ []))
    pure (
        succeeded 200 "OTP verified" (
          ("reg_token", text reg_token)
          ∷ ("owner_id", text drawn.owner_id)
          ∷ ("expires_in", number 600)
          ∷ []))

  unfoldable pub too_many_attempts : String → Exec (World redis) Exception Response
  too_many_attempts email = do
    record_ra_audit redis (event "ra_otp_failed" "too_many_attempts" (("email", email) ∷ []))
    pure (failed 429 "VERIFY_RATE_LIMITED" "Too many failed attempts. Try again later.")

  -- The steps after the read of the stored HMAC; an empty text is no HMAC.
  unfoldable pub verify_stored :
      Drawn → String → String → Option String → Exec (World redis) Exception Response
  verify_stored drawn email otp none =
      pure (failed 404 "OTP_NOT_FOUND" "No pending OTP for this email")
  verify_stored drawn email otp (some stored) =
      if stored === ""
      then pure (failed 404 "OTP_NOT_FOUND" "No pending OTP for this email")
      else do
        fail_raw ← on_store redis (get (otp_failed_key email))
        if blocked env.max_attempts fail_raw
            then too_many_attempts email
            else if safe_equal (crypto.hmac_otp otp) stored
            then issue drawn email
            else mismatch email

  unfoldable pub handle_otp_verify : Drawn → String → String → Exec (World redis) Exception Response
  unfolding verify_stored too_many_attempts
  handle_otp_verify drawn raw_email otp = do
    let email = to_lower_case raw_email
    stored ← on_store redis (get (otp_key email))
    verify_stored drawn email otp stored
