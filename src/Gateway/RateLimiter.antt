-- ===== src/Gateway/RateLimiter.antt =====
-- mini-banking-app/api-gateway/src/middleware/rateLimiter.ts
pub mod Window
use mini_banking_app.Common.{
  ℕ, ◌+◌, String, Bool, Option, none, some, List, ltb, ◌==◌, ◌===◌, if◌then◌else◌, get_or,
}
use mini_banking_app.Common.Ascii.{to_lower_case, trim}
use mini_banking_app.Common.Decimal.{to_string}
use mini_banking_app.Common.Exec.{Exec, pure, ◌>>=◌, ◌>>◌, try_catch}
use mini_banking_app.Gateway.Http.{Exception, Response, failed}
use mini_banking_app.Gateway.Redis.{Redis}
use Prim.Native.String

pub record LimitConfig : Type 0 where
  pub window : ℕ
  pub max : ℕ

pub data Verdict : Type 0 where
  next : Verdict
  -- The answer, with its `Retry-After` header.
  limited : ℕ → Response → Verdict

-- The settings of config/env.ts that the limiter reads.
pub record LimitEnv : Type 0 where
  pub disabled : Bool
  pub as_limit : LimitConfig
  pub bank_limit : LimitConfig
  pub tgs_limit : LimitConfig
  pub otp_limit : LimitConfig

-- `ttl > 0 ? ttl : cfg.window`
unfoldable pub retry_after : Option ℕ → LimitConfig → ℕ
retry_after none cfg = cfg.window
retry_after (some left) cfg = if ltb 0 left then left else cfg.window

unfoldable pub too_many : String → ℕ → Verdict
too_many code seconds = limited seconds (
    failed 429 code (
      String.◌++◌ "Too many requests. Try again in " (String.◌++◌ (to_string seconds) " seconds.")))

module _ (redis : Redis) where
  open redis use {State, incr, expire, ttl}

  unfoldable pub reject : String → LimitConfig → String → Exec State Exception Verdict
  unfolding too_many
  reject key cfg code = do left ← ttl key; pure (too_many code (retry_after left cfg))

  unfoldable pub attempt : String → LimitConfig → String → Exec State Exception Verdict
  unfolding reject
  attempt key cfg code = do
    count ← incr key
    if count == 1 then expire key cfg.window else pure tt
    if ltb cfg.max count then reject key cfg code else pure next

  -- An error of Redis lets the request through.
  unfoldable pub check : Bool → String → LimitConfig → String → Exec State Exception Verdict
  unfolding attempt
  check disabled key cfg code =
      if disabled then pure next else try_catch (attempt key cfg code) (λ _. pure next)

  -- `req.ip ?? req.socket.remoteAddress ?? "unknown"`
  abbrev caller : Option String → Option String → String
  caller ip remote = get_or ip (get_or remote "unknown")

  unfoldable pub rate_limit_by_ip :
      LimitEnv → Option String → Option String → Exec State Exception Verdict
  unfolding check
  rate_limit_by_ip env ip remote =
      check env.disabled (String.◌++◌ "rate:as:" (caller ip remote)) env.as_limit
        "AUTH_RATE_LIMITED"

  unfoldable pub rate_limit_bank_by_ip :
      LimitEnv → Option String → Option String → Exec State Exception Verdict
  unfolding check
  rate_limit_bank_by_ip env ip remote =
      check env.disabled (String.◌++◌ "rate:bank:" (caller ip remote)) env.bank_limit
        "BANK_RATE_LIMITED"

  -- A missing or empty serial is left to the validation.
  unfoldable pub rate_limit_by_cert_sn : LimitEnv → Option String → Exec State Exception Verdict
  unfolding check
  rate_limit_by_cert_sn env none = pure next
  rate_limit_by_cert_sn env (some cert_sn) =
      if cert_sn === ""
      then pure next
      else check env.disabled (String.◌++◌ "rate:tgs:" cert_sn) env.tgs_limit "AUTH_RATE_LIMITED"

  unfoldable pub rate_limit_otp_by_email : LimitEnv → Option String → Exec State Exception Verdict
  unfolding check
  rate_limit_otp_by_email env none = pure next
  rate_limit_otp_by_email env (some raw) =
      let email = trim (to_lower_case raw) in
      if email === ""
      then pure next
      else check env.disabled (String.◌++◌ "rate:otp:" email) env.otp_limit "OTP_RATE_LIMITED"
