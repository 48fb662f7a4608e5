-- ===== src/Gateway/Register/SingleUse.antt =====
-- A registration token is good once.
use mini_banking_app.Common.{
  ℕ, ◌≡◌, refl, String, Bool, true, false, Option, some, [], ◌∷◌, ◌++◌, arith, ◌===◌, get_or,
  Bool-cases, ◌⊎◌, inl, inr, eq_refl, ◌||◌,
}
use mini_banking_app.Common.Ascii.{to_lower_case}
use mini_banking_app.Common.Exec.{returned, thrown, run-cases}
use mini_banking_app.Common.Result.{Result, ok, err}
use mini_banking_app.Gateway.Http.{Exception, GrpcError, Response, failed}
use mini_banking_app.Gateway.Redis.{Redis}
use mini_banking_app.Gateway.Otp.{reg_token_key}
use mini_banking_app.Gateway.ErrorHandler.{bank_grpc_error}
use mini_banking_app.Gateway.ErrorHandler.Statuses.{bank_grpc_error-IsError, ca_grpc_error-IsError}
use mini_banking_app.Gateway.Register.{
  TokenPayload, JwtError, IssuedCertificate, AccountRequest, RegisterRequest, Services,
  RegisterBody, ttl_seconds, RegWorld, finish, after_account, after_register, after_check,
  with_subject, with_payload, after_verify, handle_register, bearer, refuse, refuse_error,
  record_registration_rejected, is_used, registered, account_created, email_checked,
}
use mini_banking_app.Gateway.Register.Compensation.{roll_back-calls}

module _ (redis : Redis) (services : Services) (verify : String → Result JwtError TokenPayload)
    (now : ℕ) where
  open redis use {State, lookup, left, get, set_ex}

  -- A token that is used up is refused with 401, and neither the CA nor the Bank is called, as long as
  -- Redis answers.
  pub handle_register-used :
      (auth_header : String) (body : RegisterBody) (payload : TokenPayload) (w : RegWorld redis)
      → verify (bearer auth_header) ≡ ok payload
      → lookup w.store (reg_token_key payload.jti) ≡ some "1"
      → ((v : Option String) × (s : State) × (get (reg_token_key payload.jti) w.store
            ≡ (returned v, s)))
      → (r : Response) × (w' : RegWorld redis) × (handle_register redis services verify now
            auth_header body w
          ≡ (returned r, w'))
        × (r.status ≡ 401)
        × (w'.calls ≡ w.calls)
  unfolding handle_register after_verify with_payload refuse
  handle_register-used auth_header body payload w known used (v, s, e) =
      let found = redis.get_lem (reg_token_key payload.jti) w.store s v e in
      let same = eq_refl "1" in
      elim (Bool-cases (get_or payload.purpose "" === "pki_registration")) [
        | inl right ↦ (
          failed 401 "REG_TOKEN_USED" "Registration token has already been used",
          record w { store = s },
          ground arith,
          refl,
          refl,
        )
        | inr wrong ↦
            (failed 401 "REG_TOKEN_INVALID" "Invalid token purpose", w, ground arith, refl, refl)
      ]

  -- The token is used up, for as long as it is valid, or storing that, from a given state of Redis, threw
  -- and left the state at the end.
  abbrev pub Uses : TokenPayload → State → State → Type 0
  Uses payload from to =
      ((lookup to (reg_token_key payload.jti) ≡ some "1")
        × (left to (reg_token_key payload.jti) ≡ some (ttl_seconds payload.exp now)))
      ⊎ ((x : Exception) × (set_ex (reg_token_key payload.jti) "1" (ttl_seconds payload.exp now)
              from
            ≡ (thrown x, to)))

  finish-Uses :
      (payload : TokenPayload) (email owner_id : String) (issued : IssuedCertificate) (r : Response)
      (w w' : RegWorld redis)
      → finish redis services verify now payload email owner_id issued w ≡ (returned r, w')
      → Uses payload w.store w'.store
  unfolding finish
  finish-Uses payload email owner_id issued r w w' h =
      let key = reg_token_key payload.jti in
      elim (run-cases (set_ex key "1" (ttl_seconds payload.exp now) w.store)) [
        | inl (u, s, e) ↦
            let stored =
              redis.lookup-set_ex key key "1" (ttl_seconds payload.exp now) w.store s e in
            let timed = redis.left-set_ex key key "1" (ttl_seconds payload.exp now) w.store s e in
            let same = eq_refl key in inl (ground arith, ground arith)
        | inr (x, s, e) ↦ inr (x, ground arith)
      ]

  after_account-Uses :
      (payload : TokenPayload) (email owner_id : String) (issued : IssuedCertificate)
      (answer : Result GrpcError (Unit {0})) (r : Response) (w w' : RegWorld redis)
      → after_account redis services verify now payload email owner_id issued answer w
        ≡ (returned r, w')
      → r.status ≡ 201
      → Uses payload w.store w'.store
  unfolding after_account
  after_account-Uses payload email owner_id issued (ok tt) r w w' h done =
      finish-Uses payload email owner_id issued r w w' h
  after_account-Uses payload email owner_id issued (err e) r w w' h done =
      let (calls, bad) =
        roll_back-calls redis services verify now email owner_id issued (bank_grpc_error e) r w w'
          (bank_grpc_error-IsError e) h in
      absurd (ground arith)

  after_register-Uses :
      (payload : TokenPayload) (body : RegisterBody) (email owner_id : String)
      (answer : Result GrpcError IssuedCertificate) (r : Response) (w w' : RegWorld redis)
      → after_register redis services verify now payload body email owner_id answer w
        ≡ (returned r, w')
      → r.status ≡ 201
      → Uses payload w.store w'.store
  unfolding after_register record_registration_rejected refuse_error
  after_register-Uses payload body email owner_id (err e) r w w' h done =
      let bad = ca_grpc_error-IsError e in absurd (ground arith)
  after_register-Uses payload body email owner_id (ok issued) r w w' h done =
      let account : AccountRequest = record {
        user_id = owner_id;
        subject_email = email;
        full_name = body.full_name;
      } in
      let answer = services.create_user_bank_account w.calls account in
      after_account-Uses payload email owner_id issued answer r
        (record w { calls = w.calls ++ (account_created account answer ∷ []) }) w' (ground arith)
        done

  after_check-Uses :
      (payload : TokenPayload) (body : RegisterBody) (email owner_id : String)
      (answer : Result GrpcError Bool) (r : Response) (w w' : RegWorld redis)
      → after_check redis services verify now payload body email owner_id answer w
        ≡ (returned r, w')
      → r.status ≡ 201
      → Uses payload w.store w'.store
  unfolding after_check record_registration_rejected refuse refuse_error
  after_check-Uses payload body email owner_id (err e) r w w' h done =
      let bad = bank_grpc_error-IsError e in absurd (ground arith)
  after_check-Uses payload body email owner_id (ok true) r w w' h done = absurd (ground arith)
  after_check-Uses payload body email owner_id (ok false) r w w' h done =
      let request : RegisterRequest = record {
        csr_pem = body.csr_pem;
        owner_id = owner_id;
        subject_email = email;
        full_name = body.full_name;
      } in
      let answer = services.register_user w.calls request in
      after_register-Uses payload body email owner_id answer r
        (record w { calls = w.calls ++ (registered request answer ∷ []) }) w' (ground arith) done

  with_subject-Uses :
      (payload : TokenPayload) (body : RegisterBody) (email owner_id : String) (r : Response)
      (w w' : RegWorld redis)
      → with_subject redis services verify now payload body email owner_id w ≡ (returned r, w')
      → r.status ≡ 201
      → Uses payload w.store w'.store
  unfolding with_subject refuse
  with_subject-Uses payload body email owner_id r w w' h done =
      elim (Bool-cases (email === "" || owner_id === "")) [
        | inl missing ↦ absurd (ground arith)
        | inr there ↦
            let answer = services.check_user_email w.calls email in
            after_check-Uses payload body email owner_id answer r
              (record w { calls = w.calls ++ (email_checked email answer ∷ []) }) w' (ground arith)
              done
      ]

  with_payload-Uses :
      (payload : TokenPayload) (body : RegisterBody) (r : Response) (w w' : RegWorld redis)
      → with_payload redis services verify now payload body w ≡ (returned r, w')
      → r.status ≡ 201
      → Uses payload (get (reg_token_key payload.jti) w.store).1 w'.store
  unfolding with_payload refuse
  with_payload-Uses payload body r w w' h done =
      elim (Bool-cases (get_or payload.purpose "" === "pki_registration")) [
        | inr wrong ↦ absurd (ground arith)
        | inl right ↦ elim (run-cases (get (reg_token_key payload.jti) w.store)) [
          | inr (x, s, e) ↦ absurd (ground arith)
          | inl (v, s, e) ↦ elim (Bool-cases (is_used redis services verify now v)) [
            | inl used ↦ absurd (ground arith)
            | inr fresh ↦ rw e (
                with_subject-Uses payload body (to_lower_case (get_or payload.sub ""))
                  (get_or payload.owner_id "") r (record w { store = s }) w' (ground arith) done)
          ]
        ]
      ]

  -- When a registration was answered 201, its token is marked as used at the end, for the seconds until
  -- the token expires (at least one, and 600 without an expiry), unless the one command that stores this,
  -- which it ran in the state that its look-up of the token left, threw.
  pub handle_register-Uses :
      (auth_header : String) (body : RegisterBody) (payload : TokenPayload) (r : Response)
      (w w' : RegWorld redis)
      → verify (bearer auth_header) ≡ ok payload
      → handle_register redis services verify now auth_header body w ≡ (returned r, w')
      → r.status ≡ 201
      → Uses payload (get (reg_token_key payload.jti) w.store).1 w'.store
  unfolding handle_register after_verify
  handle_register-Uses auth_header body payload r w w' known h done =
      with_payload-Uses payload body r w w' (ground arith) done
