-- ===== src/Tests/OtpRuns.antt =====
-- One-time passwords and the limiter on a Redis that holds a list of entries.
use mini_banking_app.Common.{◌+◌, ◌-◌, ◌≤◌, min, ◌≡◌, false, refl, none, some, [], ◌∷◌, arith}
use mini_banking_app.Common.Ascii.{to_lower_case}
use mini_banking_app.Common.Exec.{returned}
use mini_banking_app.Gateway.Http.{Response, failed, succeeded, text, number}
use mini_banking_app.Gateway.Redis.{count}
use mini_banking_app.Gateway.World.{World}
use mini_banking_app.Gateway.Mock.{find_entry, mock_redis}
use mini_banking_app.Gateway.Otp.{
  OtpEnv, OtpCrypto, Drawn, otp_key, otp_failed_key, safe_equal, blocked, mismatch, issue,
  verify_stored, handle_otp_verify,
}
use mini_banking_app.Gateway.Otp.Verify.{Explained, handle_otp_verify-Explained}
use mini_banking_app.Gateway.Otp.Attempts.{Attempts, verified_once, Attempts-bounded}
use mini_banking_app.Gateway.RateLimiter.{LimitConfig}
use mini_banking_app.Gateway.RateLimiter.Window.{Answers, admitted, admitted_lem}

abbrev env : OtpEnv
env = record { max_attempts = 3; expires_in = 300; cooldown = 900; demo_otp = none }

abbrev crypto : OtpCrypto
crypto = record { hmac_otp = λ otp. otp; sign = λ claims. claims.sub }

abbrev drawn : Drawn
drawn = record { jti = "j1"; owner_id = "o1"; now = 1000 }

abbrev pending : World mock_redis
pending = record {
  store = (otp_key "a@b.vn", some "123456", some 300) ∷ [];
  audits = [];
  mails = [];
}

abbrev wrong : World mock_redis
wrong = (handle_otp_verify mock_redis env crypto drawn "A@b.vn" "000000" pending).1

abbrev right : World mock_redis
right = (handle_otp_verify mock_redis env crypto drawn "A@b.vn" "123456" pending).1

abbrev again : World mock_redis
again = (handle_otp_verify mock_redis env crypto drawn "A@b.vn" "123456" right).1

abbrev mismatched : Response
mismatched = failed 401 "OTP_MISMATCH" "Invalid OTP"

abbrev verified : Response
verified =
    succeeded 200 "OTP verified"
      (("reg_token", text "a@b.vn") ∷ ("owner_id", text "o1") ∷ ("expires_in", number 600) ∷ [])

abbrev not_found : Response
not_found = failed 404 "OTP_NOT_FOUND" "No pending OTP for this email"

wrong_run :
    handle_otp_verify mock_redis env crypto drawn "A@b.vn" "000000" pending
    ≡ (returned mismatched, wrong)
unfolding handle_otp_verify verify_stored mismatch safe_equal blocked to_lower_case
wrong_run = refl

right_run :
    handle_otp_verify mock_redis env crypto drawn "A@b.vn" "123456" pending
    ≡ (returned verified, right)
unfolding handle_otp_verify verify_stored issue safe_equal blocked to_lower_case
right_run = refl

again_run :
    handle_otp_verify mock_redis env crypto drawn "A@b.vn" "123456" right
    ≡ (returned not_found, again)
unfolding handle_otp_verify verify_stored issue safe_equal blocked to_lower_case
again_run = refl

handle_otp_verify-Explained_example :
    Explained mock_redis env crypto (to_lower_case "A@b.vn") "000000" pending.store wrong.store 401
handle_otp_verify-Explained_example =
    handle_otp_verify-Explained mock_redis env crypto drawn "A@b.vn" "000000" pending wrong
      mismatched (omega arith) wrong_run

verified_once_example : not_found.status ≡ 404
verified_once_example =
    verified_once mock_redis env crypto drawn drawn "A@b.vn" "123456" "123456" pending right again
      verified not_found 5 (omega arith) right_run refl again_run

one_wrong : Attempts mock_redis env crypto "A@b.vn" pending 1 wrong
one_wrong = Attempts.made drawn "000000" mismatched wrong_run (Attempts.none_made wrong)

Attempts-bounded_example :
    1 + count (find_entry pending.store (otp_failed_key (to_lower_case "A@b.vn")))
    ≤ env.max_attempts
unfolding to_lower_case
Attempts-bounded_example =
    Attempts-bounded mock_redis env crypto "A@b.vn" (omega arith) (omega arith) one_wrong
      (ground arith)

abbrev limit : LimitConfig
limit = record { window = 60; max = 2 }

answering : Answers mock_redis "rate:otp:a@b.vn" limit
answering = record {
  incr_ok = λ s. (_, _, refl);
  expire_ok = λ s. (_, refl);
  ttl_ok = λ s. (_, _, refl);
}

admitted_lem_example :
    admitted mock_redis false "rate:otp:a@b.vn" limit "RATE_LIMITED" 5 []
    ≡ min 5 (2 - count (find_entry [] "rate:otp:a@b.vn"))
admitted_lem_example =
    admitted_lem mock_redis "rate:otp:a@b.vn" limit "RATE_LIMITED" answering (omega arith) false 5
      []
