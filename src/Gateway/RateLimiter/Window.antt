-- ===== src/Gateway/RateLimiter/Window.antt =====
-- What the limiter admits within one window.
use mini_banking_app.Common.{
  ℕ, zero, suc, ◌+◌, ◌-◌, ◌<◌, min, ◌≡◌, refl, String, Bool, true, false, Option, some, arith, ltb,
  if◌then◌else◌, eq_refl, ◌∙◌, Bool-cases, inl, inr,
}
use mini_banking_app.Common.Decimal.{to_string, parse_int-to_string}
use mini_banking_app.Common.Exec.{Outcome, returned, try_catch-returns}
use mini_banking_app.Gateway.Http.{Exception}
use mini_banking_app.Gateway.Redis.{Redis, count}
use mini_banking_app.Gateway.RateLimiter.{LimitConfig, Verdict, next, attempt, check}

module _ (redis : Redis) where
  open redis use {State, lookup, incr, expire, ttl}

  -- Redis answers the limiter's commands on a key.
  pub record Answers (key : String) (cfg : LimitConfig) : Type 0 where
    pub incr_ok : (s : State) → (n : ℕ) × (s' : State) × (incr key s ≡ (returned n, s'))
    pub expire_ok : (s : State) → (s' : State) × (expire key cfg.window s ≡ (returned tt, s'))
    pub ttl_ok : (s : State) → (left : Option ℕ) × (s' : State) × (ttl key s ≡ (returned left, s'))

  abbrev is_next : Outcome Exception Verdict → Bool
  is_next (returned next) = true
  is_next _ = false

  -- How many of a number of requests in a row are let through.
  pub admitted : Bool → String → LimitConfig → String → ℕ → State → ℕ
  admitted disabled key cfg code zero s = 0
  admitted disabled key cfg code (suc n) s =
      let (outcome, s') = check redis disabled key cfg code s in
      (if is_next outcome then 1 else 0) + admitted disabled key cfg code n s'

  -- What the limit leaves over of a number of requests.
  abbrev pub allowance : Bool → LimitConfig → ℕ → ℕ → ℕ
  allowance true cfg used n = n
  allowance false cfg used n = min n (cfg.max - used)

  count-to_string : (n : ℕ) → count (some (to_string n)) ≡ n
  count-to_string n = rw (parse_int-to_string n)

  -- The limiter never fails: whatever Redis answers, a request is let through or refused.
  pub check-returns :
      (disabled : Bool) (key : String) (cfg : LimitConfig) (code : String) (s : State)
      → (v : Verdict) × ((check redis disabled key cfg code s).0 ≡ returned v)
  unfolding check
  check-returns true key cfg code s = (next, refl)
  check-returns false key cfg code s = try_catch-returns (attempt redis key cfg code) next s

  module _ (key : String) (cfg : LimitConfig) (code : String) (up : Answers key cfg)
      (pos : 0 < cfg.window) where
    counted : State → ℕ
    counted s = count (lookup s key)

    check_run :
        (s s₁ s₂ t₁ t₂ : State) (n : ℕ) (l₁ l₂ : Option ℕ)
        → incr key s ≡ (returned n, s₁)
        → expire key cfg.window s₁ ≡ (returned tt, s₂)
        → ttl key s₁ ≡ (returned l₁, t₁)
        → ttl key s₂ ≡ (returned l₂, t₂)
        → (is_next (check redis false key cfg code s).0 ≡ ltb (counted s) cfg.max)
          × (counted (check redis false key cfg code s).1 ≡ counted s + 1)
    unfolding check counted
    check_run s s₁ s₂ t₁ t₂ n l₁ l₂ e₁ e₂ e₃ e₄ =
        let size : n ≡ count (lookup s key) + 1 = redis.incr_lem key n s s₁ e₁ in
        let stored : lookup s₁ key ≡ some (to_string n) =
          redis.lookup-incr key key n s s₁ e₁ ∙ rw eq_refl in
        let value : count (lookup s₁ key) ≡ n = rw stored (count-to_string n) in
        let same₁ : lookup s₂ key ≡ lookup s₁ key =
          rw e₂ at (redis.lookup-expire key key cfg.window s₁ pos) in
        let same₂ : lookup t₁ key ≡ lookup s₁ key = rw e₃ at (redis.lookup-ttl key key s₁) in
        let same₃ : lookup t₂ key ≡ lookup s₂ key = rw e₄ at (redis.lookup-ttl key key s₂) in
        ground arith

    check_lem :
        (s : State)
        → (is_next (check redis false key cfg code s).0 ≡ ltb (counted s) cfg.max)
          × (counted (check redis false key cfg code s).1 ≡ counted s + 1)
    check_lem s =
        let (n, s₁, e₁) = up.incr_ok s in
        let (s₂, e₂) = up.expire_ok s₁ in
        let (l₁, t₁, e₃) = up.ttl_ok s₁ in
        let (l₂, t₂, e₄) = up.ttl_ok s₂ in check_run s s₁ s₂ t₁ t₂ n l₁ l₂ e₁ e₂ e₃ e₄

    -- With a window of at least a second, while no key expires and Redis answers, a row of requests on one key is let through up to the
    -- limit, less the requests that the window has counted before, and no further; where the limiter is
    -- disabled, all of them are let through.
    pub admitted_lem :
        (disabled : Bool) (n : ℕ) (s : State)
        → admitted disabled key cfg code n s ≡ allowance disabled cfg (count (lookup s key)) n
    unfolding admitted counted check
    admitted_lem disabled zero s = elim (Bool-cases disabled) [
      | inl on ↦ rw on refl
      | inr off ↦ rw off (omega arith)
    ]
    admitted_lem true (suc n) s = rw (admitted_lem true n s) (omega arith)
    admitted_lem false (suc n) s =
        ground (arith, check_lem s, admitted_lem false n (check redis false key cfg code s).1)
