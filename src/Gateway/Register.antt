-- ===== src/Gateway/Register.antt =====
-- mini-banking-app/api-gateway/src/controller/ca.controller.ts, `handleRegister`: the registration of
-- a customer. `jwt.verify`, the clock, the CA and the Bank are arguments; a service's answer may depend
-- on all calls before it, which are kept with their answers.
pub mod Compensation
pub mod SingleUse
use Prim.Native.String
use mini_banking_app.Common.{
  ℕ, ◌-◌, String, Bool, true, false, ◌||◌, Option, none, some, List, [], ◌∷◌, ◌++◌, ltb, ◌===◌,
  if◌then◌else◌, get_or,
}
use mini_banking_app.Common.Ascii.{to_lower_case, strip_prefix}
use mini_banking_app.Common.Exec.{Exec, returned, pure, ◌>>=◌, ◌>>◌, try_catch}
use mini_banking_app.Common.Result.{Result, ok, err}
use mini_banking_app.Gateway.Http.{Exception, GrpcError, Response, coded, text, number, succeeded}
use mini_banking_app.Gateway.Redis.{Redis}
use mini_banking_app.Gateway.World.{AuditEvent}
use mini_banking_app.Gateway.Otp.{reg_token_key}
use mini_banking_app.Gateway.ErrorHandler.{HttpError, ca_grpc_error, bank_grpc_error, error_handler}

-- The claims of a registration token; a claim of another type is `none`.
pub record TokenPayload : Type 0 where
  pub purpose : Option String
  pub jti : String
  pub sub : Option String
  pub owner_id : Option String
  pub exp : Option ℕ

pub record JwtError : Type 0 where
  pub expired : Bool
  pub message : String

-- What `registerUser` of the CA is asked for, for the role of a customer, and what it answers.
pub record RegisterRequest : Type 0 where
  pub csr_pem : String
  pub owner_id : String
  pub subject_email : String
  pub full_name : String

pub record IssuedCertificate : Type 0 where
  pub certificate_pem : String
  pub serial_number : String
  pub not_after_unix : ℕ
  pub chain_pem : String

pub record AccountRequest : Type 0 where
  pub user_id : String
  pub subject_email : String
  pub full_name : String

pub data Call : Type 0 where
  email_checked : String → Result GrpcError Bool → Call
  registered : RegisterRequest → Result GrpcError IssuedCertificate → Call
  account_created : AccountRequest → Result GrpcError (Unit {0}) → Call
  revoked : String → Result GrpcError (Unit {0}) → Call

pub record Services : Type 0 where
  pub check_user_email : List Call → String → Result GrpcError Bool
  pub register_user : List Call → RegisterRequest → Result GrpcError IssuedCertificate
  pub create_user_bank_account : List Call → AccountRequest → Result GrpcError (Unit {0})
  pub revoke_certificate : List Call → String → Result GrpcError (Unit {0})

pub record RegisterBody : Type 0 where
  pub csr_pem : String
  pub full_name : String

abbrev ra_event : String → String → String → List (String × String) → AuditEvent
ra_event action serial_number reason metadata = record {
  action = action;
  serial_number = serial_number;
  performed_by = "ra:register";
  reason = reason;
  metadata = metadata;
}

-- `authHeader.startsWith("Bearer ") ? authHeader.slice(7) : ""`
abbrev pub bearer : String → String
bearer header = get_or (strip_prefix "Bearer " header) ""

-- `Math.max(1, payload.exp - now)`
abbrev pub ttl_seconds : Option ℕ → ℕ → ℕ
ttl_seconds none now = 600
ttl_seconds (some exp) now = if ltb (exp - now) 1 then 1 else exp - now

module _ (redis : Redis) where
  open redis use {State}

  pub record RegWorld : Type 0 where
    pub store : State
    pub audits : List AuditEvent
    pub calls : List Call

module _ (redis : Redis) {A : Type 0} where
  open redis use {State}

  abbrev pub with_store : Exec State Exception A → Exec (RegWorld redis) Exception A
  with_store m w = ((m w.store).0, record w { store = (m w.store).1 })

module _ (redis : Redis) (services : Services) (verify : String → Result JwtError TokenPayload)
    (now : ℕ) where
  open redis use {get, set_ex}

  abbrev pub Step : Type 0 → Type 0
  Step A = Exec (RegWorld redis) Exception A

  unfoldable pub audit : AuditEvent → Step (Unit {0})
  audit event w = (returned tt, record w { audits = w.audits ++ (event ∷ []) })

  -- `next(httpError(...))`
  unfoldable pub refuse : ℕ → String → String → Step Response
  unfolding error_handler
  refuse status code message = pure (error_handler (coded status code message))

  unfoldable pub refuse_error : HttpError → Step Response
  unfolding refuse
  refuse_error e = refuse e.status e.error_code e.message

  unfoldable pub record_registration_rejected : String → String → String → Step (Unit {0})
  unfolding audit
  record_registration_rejected owner_id email reason = audit (
      ra_event "ra_registration_rejected" "" reason
        (("owner_id", owner_id) ∷ ("email", email) ∷ []))

  unfoldable pub check_user_email : String → Step (Result GrpcError Bool)
  check_user_email email w =
      let answer = services.check_user_email w.calls email in
      (returned answer, record w { calls = w.calls ++ (email_checked email answer ∷ []) })

  unfoldable pub register_user : RegisterRequest → Step (Result GrpcError IssuedCertificate)
  register_user request w =
      let answer = services.register_user w.calls request in
      (returned answer, record w { calls = w.calls ++ (registered request answer ∷ []) })

  unfoldable pub create_user_bank_account : AccountRequest → Step (Result GrpcError (Unit {0}))
  create_user_bank_account request w =
      let answer = services.create_user_bank_account w.calls request in
      (returned answer, record w { calls = w.calls ++ (account_created request answer ∷ []) })

  -- A failure is only logged.
  unfoldable pub revoke_certificate : String → Step (Unit {0})
  revoke_certificate serial w =
      let answer = services.revoke_certificate w.calls serial in
      (returned tt, record w { calls = w.calls ++ (revoked serial answer ∷ []) })

  -- The steps after the account was created.
  unfoldable pub finish : TokenPayload → String → String → IssuedCertificate → Step Response
  unfolding audit
  finish payload email owner_id issued = do
    try_catch
        (with_store redis (set_ex (reg_token_key payload.jti) "1" (ttl_seconds payload.exp now)))
        (λ e. pure tt)
    audit (
        ra_event "ra_registration_approved" issued.serial_number ""
          (("owner_id", owner_id) ∷ ("email", email) ∷ []))
    pure (
        succeeded 201 "X.509 certificate issued" (
          ("cert_pem", text issued.certificate_pem)
          ∷ ("cert_serial", text issued.serial_number)
          ∷ ("issued_at", number now)
          ∷ ("expires_at", number issued.not_after_unix)
          ∷ ("chain_pem", text issued.chain_pem)
          ∷ []))

  -- The steps after the account was refused.
  unfoldable pub roll_back : String → String → IssuedCertificate → HttpError → Step Response
  unfolding revoke_certificate record_registration_rejected refuse refuse_error
  roll_back email owner_id issued mapped =
      let taken = mapped.error_code === "ALREADY_EXISTS" in
      do
        revoke_certificate issued.serial_number
        record_registration_rejected owner_id email
            (if taken then "email_already_registered" else "bank_create_user_failed")
        if taken
            then refuse 409 "EMAIL_ALREADY_REGISTERED" "Email is already registered"
            else refuse_error mapped

  unfoldable pub after_account :
      TokenPayload
      → String
      → String
      → IssuedCertificate
      → Result GrpcError (Unit {0})
      → Step Response
  unfolding finish roll_back
  after_account payload email owner_id issued (ok done) = finish payload email owner_id issued
  after_account payload email owner_id issued (err e) =
      roll_back email owner_id issued (bank_grpc_error e)

  unfoldable pub after_register :
      TokenPayload
      → RegisterBody
      → String
      → String
      → Result GrpcError IssuedCertificate
      → Step Response
  unfolding after_account create_user_bank_account record_registration_rejected refuse_error
  after_register payload body email owner_id (ok issued) = do
    done ←
        create_user_bank_account
          (record { user_id = owner_id; subject_email = email; full_name = body.full_name })
    after_account payload email owner_id issued done
  after_register payload body email owner_id (err e) = do
    record_registration_rejected owner_id email e.details
    refuse_error (ca_grpc_error e)

  unfoldable pub after_check :
      TokenPayload → RegisterBody → String → String → Result GrpcError Bool → Step Response
  unfolding after_register register_user record_registration_rejected refuse refuse_error
  after_check payload body email owner_id (err e) = do
    record_registration_rejected owner_id email "bank_email_check_failed"
    refuse_error (bank_grpc_error e)
  after_check payload body email owner_id (ok true) = do
    record_registration_rejected owner_id email "email_already_registered"
    refuse 409 "EMAIL_ALREADY_REGISTERED" "Email is already registered"
  after_check payload body email owner_id (ok false) = do
    issued ← register_user (record {
      csr_pem = body.csr_pem;
      owner_id = owner_id;
      subject_email = email;
      full_name = body.full_name;
    })
    after_register payload body email owner_id issued

  unfoldable pub with_subject : TokenPayload → RegisterBody → String → String → Step Response
  unfolding after_check check_user_email refuse
  with_subject payload body email owner_id =
      if email === "" || owner_id === ""
      then refuse 401 "REG_TOKEN_INVALID" "Registration token is missing subject email or owner id"
      else do exists ← check_user_email email; after_check payload body email owner_id exists

  abbrev pub is_used : Option String → Bool
  is_used none = false
  is_used (some state) = state === "1"

  unfoldable pub with_payload : TokenPayload → RegisterBody → Step Response
  unfolding with_subject refuse
  with_payload payload body =
      if get_or payload.purpose "" === "pki_registration"
      then (do
        jti_state ← with_store redis (get (reg_token_key payload.jti))
        if is_used jti_state
            then refuse 401 "REG_TOKEN_USED" "Registration token has already been used"
            else with_subject payload body (to_lower_case (get_or payload.sub ""))
                (get_or payload.owner_id ""))
      else refuse 401 "REG_TOKEN_INVALID" "Invalid token purpose"

  unfoldable pub after_verify : RegisterBody → Result JwtError TokenPayload → Step Response
  unfolding with_payload refuse
  after_verify body (err e) =
      refuse 401 (if e.expired then "REG_TOKEN_EXPIRED" else "REG_TOKEN_INVALID") e.message
  after_verify body (ok payload) = with_payload payload body

  unfoldable pub handle_register : String → RegisterBody → Step Response
  unfolding after_verify
  handle_register auth_header body = after_verify body (verify (bearer auth_header))
