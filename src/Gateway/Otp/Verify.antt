-- ===== src/Gateway/Otp/Verify.antt =====
-- What `handleOtpVerify` guarantees.
use mini_banking_app.Common.{
  ℕ, ◌+◌, ◌<◌, ◌≡◌, ◌≢◌, ap, ◌∙◌, sym, ◌⊎◌, ◌↔◌, inl, inr, String, true, false, none, some, arith,
  ◌===◌, if◌then◌else◌, eq_iff, eq_refl, Bool-cases, Option-cases,
}
use mini_banking_app.Common.Ascii.{to_lower_case, prefix_ne}
use mini_banking_app.Common.Decimal.{parse_int-to_string}
use mini_banking_app.Common.Exec.{returned, run-cases}
use mini_banking_app.Gateway.Http.{Response}
use mini_banking_app.Gateway.Redis.{Redis, count}
use mini_banking_app.Gateway.World.{World}
use mini_banking_app.Gateway.Otp.{
  OtpEnv, OtpCrypto, Drawn, otp_key, otp_failed_key, reg_token_key, safe_equal, blocked, mismatch,
  issue, too_many_attempts, verify_stored, handle_otp_verify,
}

otp_key-ne-reg_token_key : (email jti : String) → (reg_token_key jti === otp_key email) ≡ false
otp_key-ne-reg_token_key email jti = prefix_ne "`jwt_used:" "otp:val:" jti email (omega arith)

otp_failed_key-ne :
    (email jti : String)
    → ((reg_token_key jti === otp_failed_key email) ≡ false)
      × ((otp_key email === otp_failed_key email) ≡ false)
otp_failed_key-ne email jti = (
  prefix_ne "`jwt_used:" "rate:verify:" jti email (omega arith),
  prefix_ne "otp:val:" "rate:verify:" email email (omega arith),
)

safe_equal_iff : (a b : String) → (safe_equal a b ≡ true) ↔ (a ≡ b)
unfolding safe_equal
safe_equal_iff a b = (λ h. ground (arith, eq_iff a b), λ e. rw e (ground (arith, eq_refl b)))

module _ (redis : Redis) (env : OtpEnv) (crypto : OtpCrypto) where
  open redis use {State, lookup, get, set_ex, del, incr, expire}

  issue-returned :
      (drawn : Drawn) (email : String) (w w' : World redis) (r : Response)
      → issue redis env crypto drawn email w ≡ (returned r, w')
      → (lookup w'.store (otp_key email) ≡ none)
        × (lookup w'.store (otp_failed_key email) ≡ lookup w.store (otp_failed_key email))
        × (r.status ≡ 200)
  unfolding issue
  issue-returned drawn email w w' r h = elim (run-cases (del (otp_key email) w.store)) [
    | inr (e, s, deleted) ↦ absurd (ground arith)
    | inl (u, s, deleted) ↦ elim (run-cases (set_ex (reg_token_key drawn.jti) "0" 600 s)) [
      | inr (e, s', marked) ↦ absurd (ground arith)
      | inl (u', s', marked) ↦
          let a = redis.lookup-del (otp_key email) (otp_key email) w.store s deleted in
          let b = redis.lookup-del (otp_key email) (otp_failed_key email) w.store s deleted in
          let c =
            redis.lookup-set_ex (reg_token_key drawn.jti) (otp_key email) "0" 600 s s' marked in
          let d =
            redis.lookup-set_ex (reg_token_key drawn.jti) (otp_failed_key email) "0" 600 s s'
              marked in
          let (k₁, k₂) = otp_failed_key-ne email drawn.jti in
          ground (arith, eq_refl (otp_key email), otp_key-ne-reg_token_key email drawn.jti)
    ]
  ]

  mismatch-returned :
      (email : String) (w w' : World redis) (r : Response)
      → 0 < env.cooldown
      → mismatch redis env crypto email w ≡ (returned r, w')
      → (count (lookup w'.store (otp_failed_key email))
          ≡ count (lookup w.store (otp_failed_key email)) + 1)
        × (r.status ≡ 401)
  unfolding mismatch
  mismatch-returned email w w' r pos h = elim (run-cases (incr (otp_failed_key email) w.store)) [
    | inr (e, s, bumped) ↦ absurd (ground arith)
    | inl (n, s, bumped) ↦
        let size = redis.incr_lem (otp_failed_key email) n w.store s bumped in
        let stored =
          redis.lookup-incr (otp_failed_key email) (otp_failed_key email) n w.store s bumped in
        let kept =
          redis.lookup-expire (otp_failed_key email) (otp_failed_key email) env.cooldown s pos in
        elim (run-cases (expire (otp_failed_key email) env.cooldown s)) [
          | inr (e, s', set) ↦ ground (arith, eq_refl (otp_failed_key email), parse_int-to_string n)
          | inl (u, s', set) ↦ ground (arith, eq_refl (otp_failed_key email), parse_int-to_string n)
        ]
  ]

  module _ (email otp : String) (s s' : State) where
    -- No pending password: nothing is found, and the failures are not counted.
    abbrev NotFound : Type 0
    NotFound =
        ((lookup s (otp_key email) ≡ none) ⊎ (lookup s (otp_key email) ≡ some ""))
        × (count (lookup s' (otp_failed_key email)) ≡ count (lookup s (otp_failed_key email)))

    abbrev Blocked : Type 0
    Blocked =
        (lookup s (otp_key email) ≢ none)
        × (blocked env.max_attempts (lookup s (otp_failed_key email)) ≡ true)
        × (count (lookup s' (otp_failed_key email)) ≡ count (lookup s (otp_failed_key email)))

    -- A failure is counted only below the limit.
    abbrev Mismatch : Type 0
    Mismatch =
        (lookup s (otp_key email) ≢ none)
        × (lookup s (otp_key email) ≢ some (crypto.hmac_otp otp))
        × (blocked env.max_attempts (lookup s (otp_failed_key email)) ≡ false)
        × (count (lookup s' (otp_failed_key email)) ≡ count (lookup s (otp_failed_key email)) + 1)

    -- The password's HMAC was stored, and is stored no more.
    abbrev Verified : Type 0
    Verified =
        (lookup s (otp_key email) ≡ some (crypto.hmac_otp otp))
        × (blocked env.max_attempts (lookup s (otp_failed_key email)) ≡ false)
        × (lookup s' (otp_key email) ≡ none)
        × (count (lookup s' (otp_failed_key email)) ≡ count (lookup s (otp_failed_key email)))

    -- What an answer's status says.
    abbrev pub Explained : ℕ → Type 0
    Explained status =
        ((status ≡ 404) × NotFound)
        ⊎ ((status ≡ 429) × Blocked)
        ⊎ ((status ≡ 401) × Mismatch)
        ⊎ ((status ≡ 200) × Verified)

  -- The steps past the two reads, from the failures and the password that they found.
  compare_lem :
      (drawn : Drawn) (email otp stored : String) (w w' : World redis) (r : Response)
      → 0 < env.cooldown
      → lookup w.store (otp_key email) ≡ some stored
      → blocked env.max_attempts (lookup w.store (otp_failed_key email)) ≡ false
      → (if safe_equal (crypto.hmac_otp otp) stored
            then issue redis env crypto drawn email
            else mismatch redis env crypto email)
          w
        ≡ (returned r, w')
      → Explained email otp w.store w'.store r.status
  compare_lem drawn email otp stored w w' r pos there free h =
      let same_iff = safe_equal_iff (crypto.hmac_otp otp) stored in
      elim (Bool-cases (safe_equal (crypto.hmac_otp otp) stored)) [
        | inl same ↦
            let (gone, kept, status) = issue-returned drawn email w w' r (ground arith) in
            inr (
              inr (
                inr (status, (there ∙ ap some (sym (same_iff.0 same)), free, gone, ap count kept))))
        | inr differs ↦
            let (counted, status) = mismatch-returned email w w' r pos (ground arith) in
            inr (inr (inl (status, (λ e. ground arith, λ e. ground arith, free, counted))))
      ]

  verify_stored-returned :
      (drawn : Drawn) (email otp stored : String) (w w' : World redis) (r : Response)
      → 0 < env.cooldown
      → lookup w.store (otp_key email) ≡ some stored
      → verify_stored redis env crypto drawn email otp (some stored) w ≡ (returned r, w')
      → Explained email otp w.store w'.store r.status
  unfolding verify_stored too_many_attempts
  verify_stored-returned drawn email otp stored w w' r pos there h =
      elim (Bool-cases (stored === "")) [
        | inl empty ↦ inl (ground arith, (inr (ground (arith, eq_iff stored "")), ground arith))
        | inr full ↦ elim (run-cases (get (otp_failed_key email) w.store)) [
          | inr (e, s, down) ↦ absurd (ground arith)
          | inl (raw, s, read) ↦
              let found = redis.get_lem (otp_failed_key email) w.store s raw read in
              let kept_otp : lookup s (otp_key email) ≡ lookup w.store (otp_key email) =
                rw read at (redis.lookup-get (otp_failed_key email) (otp_key email) w.store) in
              let kept_failed : lookup s (otp_failed_key email)
                  ≡ lookup w.store (otp_failed_key email) =
                rw read at
                  (redis.lookup-get (otp_failed_key email) (otp_failed_key email) w.store) in
              elim (Bool-cases (blocked env.max_attempts raw)) [
                | inl stop ↦
                    inr (inl (ground arith, (λ e. ground arith, ground arith, ground arith)))
                | inr free ↦
                    rw (← kept_otp, ← kept_failed)
                      (compare_lem drawn email otp stored (record w { store = s }) w' r pos
                        (kept_otp ∙ there) (ground arith) (ground arith))
              ]
        ]
      ]

  -- Each answer of the verification says what was stored and what became of it. 404: no password is
  -- pending. 429: one is pending, and the counted failures have reached the limit. 401: one is
  -- pending, the code is wrong, the failures
  -- were below the limit, and one more is counted. 200: the HMAC of the code was stored, the failures
  -- were below the limit, and the password is gone. Only a wrong code changes the number of failures.
  -- The time that failures are remembered for is positive.
  pub handle_otp_verify-Explained :
      (drawn : Drawn) (email otp : String) (w w' : World redis) (r : Response)
      → 0 < env.cooldown
      → handle_otp_verify redis env crypto drawn email otp w ≡ (returned r, w')
      → Explained (to_lower_case email) otp w.store w'.store r.status
  unfolding handle_otp_verify
  handle_otp_verify-Explained drawn email otp w w' r pos h =
      let e = to_lower_case email in
      elim (run-cases (get (otp_key e) w.store)) [
        | inr (x, s, down) ↦ absurd (ground arith)
        | inl (stored, s, read) ↦
            let found = redis.get_lem (otp_key e) w.store s stored read in
            let kept_otp : lookup s (otp_key e) ≡ lookup w.store (otp_key e) =
              rw read at (redis.lookup-get (otp_key e) (otp_key e) w.store) in
            let kept_failed : lookup s (otp_failed_key e) ≡ lookup w.store (otp_failed_key e) =
              rw read at (redis.lookup-get (otp_key e) (otp_failed_key e) w.store) in
            elim (Option-cases stored) [
              | inl missing ↦ inl (ground arith, (inl (ground arith), ground arith))
              | inr (v, there) ↦
                  rw (← kept_otp, ← kept_failed)
                    (verify_stored-returned drawn e otp v (record w { store = s }) w' r pos
                      (kept_otp ∙ sym found ∙ there) (ground arith))
            ]
      ]
