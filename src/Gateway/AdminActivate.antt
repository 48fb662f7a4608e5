-- ===== src/Gateway/AdminActivate.antt =====
-- mini-banking-app/api-gateway/src/controller: handleAdminCaActivate of ca.controller.ts and
-- handleAdminActivate of admin-bank.controller.ts, with their mappings of errors. An administrator sends
-- an activation token and a certificate request. The CA is an argument: its answer may depend on what it
-- was asked before, which is kept with the answers. A lost connection to Redis has a text of its own.
pub mod Issues
use mini_banking_app.Common.{ℕ, String, Bool, true, false, Option, none, some, List, [], ◌∷◌, ◌++◌}
use mini_banking_app.Common.Exec.{Exec, Outcome, returned, thrown, pure, throw, ◌>>=◌, ◌>>◌}
use mini_banking_app.Common.Result.{Result, ok, err}
use mini_banking_app.Gateway.Http.{
  Exception, redis_error, coded, grpc, GrpcError, Response, text, number, failed, succeeded,
}
use mini_banking_app.Gateway.Redis.{Redis}
use mini_banking_app.Gateway.ErrorHandler.{
  GrpcStatus, HttpError, already_exists, invalid_argument, unavailable, deadline_exceeded,
  grpc_status, message_of, ca_grpc_error, answer,
}
use mini_banking_app.Gateway.Activation.{
  AdminRole, bank_admin, ca_admin, AdminIdentity, IdentityJson, get_pending_admin_by_token,
  mark_admin_activated,
}

pub record IssueRequest : Type 0 where
  pub csr_pem : String
  pub owner_id : String
  pub subject_email : String
  pub full_name : String
  pub role : AdminRole

pub record AdminCertificate : Type 0 where
  pub certificate_pem : String
  pub serial_number : String
  pub not_before_unix : ℕ
  pub not_after_unix : ℕ

pub record ActivateBody : Type 0 where
  pub activation_token : String
  pub csr_pem : String

-- What the CA was asked for, and what it answered.
abbrev pub Issued : Type 0
Issued = List (IssueRequest × Result GrpcError AdminCertificate)

-- `caActivationError` of admin-bank.controller.ts
abbrev pub bank_activation_status : GrpcStatus → ℕ × String
bank_activation_status already_exists = (409, "ADMIN_ALREADY_ACTIVE")
bank_activation_status invalid_argument = (400, "INVALID_CSR_FORMAT")
bank_activation_status unavailable = (503, "CA_SERVICE_UNAVAILABLE")
bank_activation_status deadline_exceeded = (503, "CA_SERVICE_UNAVAILABLE")
bank_activation_status _ = (502, "CA_SERVICE_UNAVAILABLE")

abbrev pub bank_grpc_answer : GrpcError → Response
bank_grpc_answer e =
    let mapped = bank_activation_status (grpc_status e.code) in
    failed mapped.0 mapped.1 (message_of e "CA service unavailable")

-- An error without a code.
abbrev pub uncoded : String → GrpcError
uncoded message = record { code = none; details = ""; message = message; meta_code = none }

abbrev pub bank_error_answer : String → Exception → Response
bank_error_answer lost (coded status code message) = failed status code message
bank_error_answer lost (grpc e) = bank_grpc_answer e
bank_error_answer lost redis_error = bank_grpc_answer (uncoded lost)

-- `caActivationError` of ca.controller.ts
abbrev pub ca_error_answer : String → Exception → Response
ca_error_answer lost (coded status code message) = failed status code message
ca_error_answer lost (grpc e) = answer (ca_grpc_error e)
ca_error_answer lost redis_error = answer (ca_grpc_error (uncoded lost))

abbrev pub role_name : AdminRole → String
role_name bank_admin = "bank_admin"
role_name ca_admin = "ca_admin"

abbrev pub request_of : AdminRole → String → AdminIdentity → IssueRequest
request_of role csr_pem identity = record {
  csr_pem = csr_pem;
  owner_id = identity.admin_id;
  subject_email = identity.email;
  full_name = identity.full_name;
  role = role;
}

abbrev pub issued_answer : String → AdminCertificate × AdminIdentity → Response
issued_answer message (issued, active) = succeeded 201 message (
    ("cert_pem", text issued.certificate_pem)
    ∷ ("cert_serial", text issued.serial_number)
    ∷ ("issued_at", number issued.not_before_unix)
    ∷ ("expires_at", number issued.not_after_unix)
    ∷ ("admin_id", text active.admin_id)
    ∷ ("email", text active.email)
    ∷ ("full_name", text active.full_name)
    ∷ ("role", text (role_name active.role))
    ∷ [])

module _ (redis : Redis) (json : IdentityJson) (hash : String → String)
    (ask_ca : Issued → IssueRequest → Result GrpcError AdminCertificate) where
  open redis use {State}

  -- Redis, and what the CA was asked.
  pub record Desk : Type 0 where
    pub store : State
    pub issued : Issued

  abbrev pub at_store : {A : Type 0} → Exec State Exception A → Exec Desk Exception A
  at_store m d = ((m d.store).0, record d { store = (m d.store).1 })

  abbrev pub outcome_of : Result GrpcError AdminCertificate → Outcome Exception AdminCertificate
  outcome_of (ok cert) = returned cert
  outcome_of (err e) = thrown (grpc e)

  -- `issueCaAdminCertificate` and `issueBankAdminCertificate`
  abbrev pub issue_certificate : IssueRequest → Exec Desk Exception AdminCertificate
  issue_certificate request d =
      let reply = ask_ca d.issued request in
      (outcome_of reply, record d { issued = d.issued ++ ((request, reply) ∷ []) })

  -- The rest of the body, once the identity is there.
  unfoldable pub activate_identity :
      AdminRole
      → ℕ
      → String
      → AdminIdentity
      → Exec Desk Exception (AdminCertificate × AdminIdentity)
  activate_identity role now csr_pem identity = do
    issued ← issue_certificate (request_of role csr_pem identity)
    active ← at_store (mark_admin_activated redis json hash identity issued.serial_number now)
    pure (issued, active)

  unfoldable pub activate :
      AdminRole → ℕ → ActivateBody → Exec Desk Exception (AdminCertificate × AdminIdentity)
  unfolding activate_identity
  activate role now body = do
    identity ← at_store (get_pending_admin_by_token redis json hash body.activation_token role now)
    activate_identity role now body.csr_pem identity

  abbrev pub answer_run :
      String
      → (Exception → Response)
      → Outcome Exception (AdminCertificate × AdminIdentity) × Desk
      → Response × Desk
  answer_run message on_error (returned done, d) = (issued_answer message done, d)
  answer_run message on_error (thrown e, d) = (on_error e, d)

  unfoldable pub handle_admin_ca_activate : String → ℕ → ActivateBody → Desk → Response × Desk
  handle_admin_ca_activate lost now body d =
      answer_run "CA Admin certificate issued" (ca_error_answer lost) (activate ca_admin now body d)

  unfoldable pub handle_admin_activate : String → ℕ → ActivateBody → Desk → Response × Desk
  handle_admin_activate lost now body d =
      answer_run "Bank Admin certificate issued" (bank_error_answer lost)
        (activate bank_admin now body d)
