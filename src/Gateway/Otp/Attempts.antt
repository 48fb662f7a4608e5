-- ===== src/Gateway/Otp/Attempts.antt =====
-- Several verifications of one address, one after another.
use mini_banking_app.Common.{
  ℕ, suc, ◌+◌, ◌≤◌, ◌<◌, ◌≡◌, inl, inr, String, false, Option, none, some, arith, ◌==◌,
  if◌then◌else◌, Option-cases,
}
use mini_banking_app.Common.Ascii.{to_lower_case}
use mini_banking_app.Common.Decimal.{parse_int}
use mini_banking_app.Common.Exec.{returned}
use mini_banking_app.Gateway.Http.{Response}
use mini_banking_app.Gateway.Redis.{Redis, count}
use mini_banking_app.Gateway.World.{World}
use mini_banking_app.Gateway.Otp.{
  OtpEnv, OtpCrypto, Drawn, otp_key, otp_failed_key, blocked, handle_otp_verify,
}
use mini_banking_app.Gateway.Otp.Verify.{handle_otp_verify-Explained}

-- Below the limit means fewer failures than the limit.
count-lt_of_free :
    (max : ℕ) (raw : Option String) → 0 < max → blocked max raw ≡ false → count raw < max
unfolding blocked
count-lt_of_free max none pos h = pos
count-lt_of_free max (some raw) pos h = elim (Option-cases (parse_int raw)) [
  | inl e ↦ rw e pos
  | inr (n, e) ↦ rw e (ground arith)
]

module _ (redis : Redis) (env : OtpEnv) (crypto : OtpCrypto) where
  open redis use {lookup, elapse}

  -- A password that was verified is used up: whenever and with whatever code the address is verified
  -- next, with no new password requested in between, the answer is 404. Failures are remembered for a
  -- positive time.
  pub verified_once :
      (drawn drawn' : Drawn) (email otp otp' : String) (w w' w'' : World redis) (r r' : Response)
      (n : ℕ)
      → 0 < env.cooldown
      → handle_otp_verify redis env crypto drawn email otp w ≡ (returned r, w')
      → r.status ≡ 200
      → handle_otp_verify redis env crypto drawn' email otp'
          (record w' { store = elapse n w'.store })
        ≡ (returned r', w'')
      → r'.status ≡ 404
  verified_once drawn drawn' email otp otp' w w' w'' r r' n pos h ok h' =
      let first = handle_otp_verify-Explained redis env crypto drawn email otp w w' r pos h in
      let second =
        handle_otp_verify-Explained redis env crypto drawn' email otp'
          (record w' { store = elapse n w'.store }) w'' r' pos h' in
      let later = redis.lookup-elapse n (otp_key (to_lower_case email)) w'.store in ground arith

  -- Verifications of one address in a row, and how many of them were answered 401.
  pub data Attempts (email : String) : World redis → ℕ → World redis → Type 0 where
    none_made : (w : World redis) → Attempts email w 0 w
    made :
        (drawn : Drawn) (otp : String) (r : Response) {w w' w'' : World redis} {n : ℕ}
        → handle_otp_verify redis env crypto drawn email otp w ≡ (returned r, w')
        → Attempts email w' n w''
        → Attempts email w (if r.status == 401 then suc n else n) w''

  -- While the failures of an address are remembered, no more wrong codes are compared than the limit
  -- allows: those answered 401 and those counted before are at most the limit together, where those
  -- counted before are at most the limit. The limit and the time that failures are remembered for are
  -- positive.
  pub Attempts-bounded :
      (email : String) {w w' : World redis} {n : ℕ}
      → 0 < env.cooldown
      → 0 < env.max_attempts
      → Attempts email w n w'
      → count (lookup w.store (otp_failed_key (to_lower_case email))) ≤ env.max_attempts
      → n + count (lookup w.store (otp_failed_key (to_lower_case email))) ≤ env.max_attempts
  Attempts-bounded email cool pos (none_made w) h = omega arith
  Attempts-bounded email cool pos (made drawn otp r {w} {w'} {n = n} run rest) h =
      let said = handle_otp_verify-Explained redis env crypto drawn email otp w w' r cool run in
      let free =
        count-lt_of_free env.max_attempts (lookup w.store (otp_failed_key (to_lower_case email)))
          pos in
      let ih = Attempts-bounded email cool pos rest in ground arith
