-- ===== src/Gateway/Register/Compensation.antt =====
-- What a registration leaves behind.
use mathlib.Core.List.{append_assoc, append-nil}
use mini_banking_app.Common.{
  ℕ, ◌≡◌, refl, String, Bool, true, false, List, [], ◌∷◌, ◌++◌, All, arith, ◌===◌, get_or,
  Bool-cases, inl, inr, ◌||◌, ◌⊎◌, sym, ◌∙◌,
}
use mini_banking_app.Common.Ascii.{to_lower_case}
use mini_banking_app.Common.Exec.{returned, run-cases}
use mini_banking_app.Common.Result.{Result, ok, err, Result-cases}
use mini_banking_app.Gateway.Http.{GrpcError, Response}
use mini_banking_app.Gateway.Redis.{Redis}
use mini_banking_app.Gateway.Otp.{reg_token_key}
use mini_banking_app.Gateway.ErrorHandler.{HttpError, bank_grpc_error}
use mini_banking_app.Gateway.ErrorHandler.Statuses.{
  IsError, bank_grpc_error-IsError, ca_grpc_error-IsError,
}
use mini_banking_app.Gateway.Register.{
  TokenPayload, JwtError, RegisterRequest, IssuedCertificate, AccountRequest, Call, email_checked,
  registered, account_created, revoked, Services, RegisterBody, ttl_seconds, RegWorld, finish,
  roll_back, after_account, after_register, after_check, with_subject, with_payload, after_verify,
  handle_register, bearer, is_used, refuse, refuse_error, record_registration_rejected,
}

-- A call that issued no certificate and did not go to the Bank's accounts.
abbrev pub NotIssued : Call → Type 0
NotIssued (email_checked email answer) = Unit
NotIssued (registered request (err e)) = Unit
NotIssued _ = ⊥

-- The customer that a token speaks of, and what the CA and the Bank are to be asked for this customer.
abbrev pub email_of : TokenPayload → String
email_of payload = to_lower_case (get_or payload.sub "")

abbrev pub owner_of : TokenPayload → String
owner_of payload = get_or payload.owner_id ""

abbrev pub request_for : RegisterBody → String → String → RegisterRequest
request_for body email owner_id = record {
  csr_pem = body.csr_pem;
  owner_id = owner_id;
  subject_email = email;
  full_name = body.full_name;
}

abbrev pub account_for : RegisterBody → String → String → AccountRequest
account_for body email owner_id = record {
  user_id = owner_id;
  subject_email = email;
  full_name = body.full_name;
}

module _ (redis : Redis) (services : Services) (verify : String → Result JwtError TokenPayload)
    (now : ℕ) where
  open redis use {State, lookup, get, set_ex}

  -- How a registration of a customer ends, by the calls that it made.
  pub data Ends (body : RegisterBody) (email owner_id : String) (before after : List Call)
      (status : ℕ) : Type 0 where
    refused :
        (made : List Call)
        → after ≡ before ++ made
        → All NotIssued made
        → IsError status
        → Ends body email owner_id before after status
    enrolled :
        (issued : IssuedCertificate)
        → after
          ≡ before
            ++ (email_checked email (ok false)
                ∷ registered (request_for body email owner_id) (ok issued)
                ∷ account_created (account_for body email owner_id) (ok tt)
                ∷ [])
        → status ≡ 201
        → Ends body email owner_id before after status
    rolled_back :
        (issued : IssuedCertificate) (e : GrpcError) (answer : Result GrpcError (Unit {0}))
        → after
          ≡ before
            ++ (email_checked email (ok false)
                ∷ registered (request_for body email owner_id) (ok issued)
                ∷ account_created (account_for body email owner_id) (err e)
                ∷ revoked issued.serial_number answer
                ∷ [])
        → IsError status
        → Ends body email owner_id before after status

  finish-calls :
      (payload : TokenPayload) (email owner_id : String) (issued : IssuedCertificate) (r : Response)
      (w w' : RegWorld redis)
      → finish redis services verify now payload email owner_id issued w ≡ (returned r, w')
      → (w'.calls ≡ w.calls) × (r.status ≡ 201)
  unfolding finish
  finish-calls payload email owner_id issued r w w' h =
      elim (run-cases
        (set_ex (reg_token_key payload.jti) "1" (ttl_seconds payload.exp now) w.store)) [
          | inl (u, s, e) ↦ (ground arith, ground arith)
          | inr (x, s, e) ↦ (ground arith, ground arith)
        ]

  pub roll_back-calls :
      (email owner_id : String) (issued : IssuedCertificate) (mapped : HttpError) (r : Response)
      (w w' : RegWorld redis)
      → IsError mapped.status
      → roll_back redis services verify now email owner_id issued mapped w ≡ (returned r, w')
      → (w'.calls
          ≡ w.calls
            ++ (revoked issued.serial_number
                  (services.revoke_certificate w.calls issued.serial_number)
                ∷ []))
        × IsError r.status
  unfolding roll_back record_registration_rejected refuse refuse_error
  roll_back-calls email owner_id issued mapped r w w' bad h = (ground arith, ground arith)

  after_account-Ends :
      (payload : TokenPayload) (body : RegisterBody) (email owner_id : String)
      (issued : IssuedCertificate) (answer : Result GrpcError (Unit {0})) (before : List Call)
      (r : Response) (w w' : RegWorld redis)
      → w.calls
        ≡ before
          ++ (email_checked email (ok false)
              ∷ registered (request_for body email owner_id) (ok issued)
              ∷ account_created (account_for body email owner_id) answer
              ∷ [])
      → after_account redis services verify now payload email owner_id issued answer w
        ≡ (returned r, w')
      → Ends body email owner_id before w'.calls r.status
  unfolding after_account
  after_account-Ends payload body email owner_id issued (ok tt) before r w w' made h =
      let (kept, status) = finish-calls payload email owner_id issued r w w' h in
      enrolled issued (kept ∙ made) status
  after_account-Ends payload body email owner_id issued (err e) before r w w' made h =
      let (last, bad) =
        roll_back-calls email owner_id issued (bank_grpc_error e) r w w' (bank_grpc_error-IsError e)
          h in
      rolled_back issued e (services.revoke_certificate w.calls issued.serial_number)
        (last ∙ rw (made, append_assoc) refl) bad

  after_register-Ends :
      (payload : TokenPayload) (body : RegisterBody) (email owner_id : String)
      (answer : Result GrpcError IssuedCertificate) (before : List Call) (r : Response)
      (w w' : RegWorld redis)
      → w.calls
        ≡ before
          ++ (email_checked email (ok false)
              ∷ registered (request_for body email owner_id) answer
              ∷ [])
      → after_register redis services verify now payload body email owner_id answer w
        ≡ (returned r, w')
      → Ends body email owner_id before w'.calls r.status
  unfolding after_register after_account record_registration_rejected refuse_error
  after_register-Ends payload body email owner_id (err e) before r w w' made h =
      let bad = ca_grpc_error-IsError e in
      refused
        (email_checked email (ok false) ∷ registered (request_for body email owner_id) (err e) ∷ [])
        (ground arith) (tt, (tt, tt)) (ground arith)
  after_register-Ends payload body email owner_id (ok issued) before r w w' made h =
      let account = account_for body email owner_id in
      let answer = services.create_user_bank_account w.calls account in
      after_account-Ends payload body email owner_id issued answer before r
        (record w { calls = w.calls ++ (account_created account answer ∷ []) }) w'
        (rw (made, append_assoc) refl) (ground arith)

  after_check-Ends :
      (payload : TokenPayload) (body : RegisterBody) (email owner_id : String)
      (answer : Result GrpcError Bool) (before : List Call) (r : Response) (w w' : RegWorld redis)
      → w.calls ≡ before ++ (email_checked email answer ∷ [])
      → after_check redis services verify now payload body email owner_id answer w
        ≡ (returned r, w')
      → Ends body email owner_id before w'.calls r.status
  unfolding after_check record_registration_rejected refuse refuse_error
  after_check-Ends payload body email owner_id (err e) before r w w' made h =
      let bad = bank_grpc_error-IsError e in
      refused (email_checked email (err e) ∷ []) (ground arith) (tt, tt) (ground arith)
  after_check-Ends payload body email owner_id (ok true) before r w w' made h =
      refused (email_checked email (ok true) ∷ []) (ground arith) (tt, tt) (ground arith)
  after_check-Ends payload body email owner_id (ok false) before r w w' made h =
      let request = request_for body email owner_id in
      let answer = services.register_user w.calls request in
      after_register-Ends payload body email owner_id answer before r
        (record w { calls = w.calls ++ (registered request answer ∷ []) }) w'
        (rw (made, append_assoc) refl) (ground arith)

  nothing_made :
      (body : RegisterBody) (email owner_id : String) (r : Response) (w w' : RegWorld redis)
      → w'.calls ≡ w.calls
      → IsError r.status
      → Ends body email owner_id w.calls w'.calls r.status
  nothing_made body email owner_id r w w' same bad =
      refused [] (same ∙ sym (append-nil w.calls)) tt bad

  with_subject-Ends :
      (payload : TokenPayload) (body : RegisterBody) (email owner_id : String) (r : Response)
      (w w' : RegWorld redis)
      → with_subject redis services verify now payload body email owner_id w ≡ (returned r, w')
      → Ends body email owner_id w.calls w'.calls r.status
  unfolding with_subject refuse
  with_subject-Ends payload body email owner_id r w w' h =
      elim (Bool-cases (email === "" || owner_id === "")) [
        | inl missing ↦ nothing_made body email owner_id r w w' (ground arith) (ground arith)
        | inr there ↦
            let answer = services.check_user_email w.calls email in
            after_check-Ends payload body email owner_id answer w.calls r
              (record w { calls = w.calls ++ (email_checked email answer ∷ []) }) w' refl
              (ground arith)
      ]

  with_payload-Ends :
      (payload : TokenPayload) (body : RegisterBody) (r : Response) (w w' : RegWorld redis)
      → with_payload redis services verify now payload body w ≡ (returned r, w')
      → Ends body (email_of payload) (owner_of payload) w.calls w'.calls r.status
  unfolding with_payload refuse
  with_payload-Ends payload body r w w' h =
      elim (Bool-cases (get_or payload.purpose "" === "pki_registration")) [
        | inr wrong ↦
            nothing_made body (email_of payload) (owner_of payload) r w w' (ground arith)
              (ground arith)
        | inl right ↦ elim (run-cases (get (reg_token_key payload.jti) w.store)) [
          | inr (x, s, e) ↦ absurd (ground arith)
          | inl (v, s, e) ↦ elim (Bool-cases (is_used redis services verify now v)) [
            | inl used ↦
                nothing_made body (email_of payload) (owner_of payload) r w w' (ground arith)
                  (ground arith)
            | inr fresh ↦
                with_subject-Ends payload body (email_of payload) (owner_of payload) r
                  (record w { store = s }) w' (ground arith)
          ]
        ]
      ]

  -- The token does not verify and nothing is called, or it verifies and the registration of its customer
  -- ends.
  abbrev pub EndsFor : String → RegisterBody → List Call → List Call → ℕ → Type 0
  EndsFor auth_header body before after status =
      ((e : JwtError) × (verify (bearer auth_header) ≡ err e) × (after ≡ before) × IsError status)
      ⊎ ((payload : TokenPayload) × (verify (bearer auth_header) ≡ ok payload)
          × Ends body (email_of payload) (owner_of payload) before after status)

  -- A registration that is answered ends in one of these ways: its token does not verify, it calls nothing
  -- and fails; or the token verifies, and then, for the customer that the token names (its address in
  -- lower case, and its owner), it issued no certificate, created no account and failed; or the CA issued
  -- this customer's certificate, the Bank created this customer's account, and the answer is 201; or the
  -- CA issued this customer's certificate, the Bank refused this customer's account, the CA was asked
  -- once to revoke that certificate, whatever it answered, and the registration failed.
  pub handle_register-Ends :
      (auth_header : String) (body : RegisterBody) (r : Response) (w w' : RegWorld redis)
      → handle_register redis services verify now auth_header body w ≡ (returned r, w')
      → EndsFor auth_header body w.calls w'.calls r.status
  unfolding handle_register after_verify refuse
  handle_register-Ends auth_header body r w w' h =
      elim (Result-cases (verify (bearer auth_header))) [
        | inr (e, bad) ↦ inl (e, bad, ground arith, ground arith)
        | inl (payload, good) ↦
            inr (payload, good, with_payload-Ends payload body r w w' (ground arith))
      ]
