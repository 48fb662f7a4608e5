-- ===== src/Gateway/CaAdmin.antt =====
-- mini-banking-app/api-gateway/src/services/admin-ca.service.ts and, of controller/ca.controller.ts,
-- handleAdminCaCertificateSession: the login of a CA administrator by a certificate. The CA, JWT, the
-- check of a signature, `Number` and the clock are arguments. What is kept is the trail of audit events.
pub mod Vouched
pub mod Roles
pub mod Certificates
use Prim.Native.String
use mini_banking_app.Common.{
  ℕ, ◌+◌, ◌-◌, String, Bool, true, false, not, ◌||◌, Option, none, some, List, [], ◌∷◌, ◌++◌, ◌*◌,
  ltb, ◌==◌, ◌===◌, if◌then◌else◌,
}
use mini_banking_app.Common.Ascii.{to_lower_case, trim, strip_prefix}
use mini_banking_app.Common.Split.{split_on}
use mini_banking_app.Common.Result.{Result, ok, err}
use mini_banking_app.Common.Exec.{Exec, Outcome, returned, thrown, pure, throw, ◌>>=◌, ◌>>◌}
use mini_banking_app.Gateway.Http.{GrpcError, Response, text, number, failed, succeeded}
use mini_banking_app.Gateway.World.{AuditEvent}
use mini_banking_app.Gateway.ErrorHandler.{HttpError, ca_grpc_error}

infixr 60 ◌^◌
abbrev pub ◌^◌ : String → String → String
s ^ t = String.◌++◌ s t

abbrev pub challenge_prefix : String
challenge_prefix = "admin-ca-login"

abbrev pub challenge_max_age_seconds : ℕ
challenge_max_age_seconds = 5 * 60

-- The status and the role of a certificate, as far as they are told apart.
pub data CertStatus : Type 0 where
  status_active status_revoked status_expired status_other : CertStatus

pub data IdentityRole : Type 0 where
  role_ca_admin role_other : IdentityRole

pub record VerifiedCertificate : Type 0 where
  pub status : CertStatus
  pub role : IdentityRole
  pub public_key_pem : String
  pub subject_email : String
  pub owner_id : String

pub record SessionInput : Type 0 where
  pub cert_serial : String
  pub challenge : String
  pub signature : String
  pub request_id : String

-- The claims of the token.
pub record AdminClaims : Type 0 where
  pub sub : String
  pub email : String
  pub role : String
  pub purpose : String
  pub cert_serial : String
  pub owner_id : String
  pub expires_in : ℕ

pub record CaAdminSession : Type 0 where
  pub token : String
  pub email : String
  pub cert_serial : String
  pub owner_id : String
  pub expires_in : ℕ

-- An `Error` with a message, and what `caGrpcError` makes.
pub data LoginError : Type 0 where
  plain : String → LoginError
  mapped : HttpError → LoginError

pub data Integer : Type 0 where
  pos negsuc : ℕ → Integer

-- `Number` of a text where it is an integer; the CA; the signature, decoded, with its length and its
-- check with a key, which throws a message on a key that it cannot read; and the signing of a token.
pub record LoginPlatform : Type 0 where
  pub to_integer : String → Option Integer
  pub verify_certificate : String → Result GrpcError VerifiedCertificate
  pub decoded_length : String → ℕ
  pub verify : String → String → String → Result String Bool
  pub sign : AdminClaims → String

-- `Math.abs(now - issuedAt) > CHALLENGE_MAX_AGE_SECONDS`
abbrev pub too_far : ℕ → Integer → Bool
too_far now (pos issued_at) =
    ltb challenge_max_age_seconds (now - issued_at)
    || ltb challenge_max_age_seconds (issued_at - now)
too_far now (negsuc n) = ltb challenge_max_age_seconds (now + n + 1)

abbrev pub is_active_cert : CertStatus → Bool
is_active_cert status_active = true
is_active_cert _ = false

abbrev pub is_ca_admin : IdentityRole → Bool
is_ca_admin role_ca_admin = true
is_ca_admin role_other = false

abbrev pub unless : Bool → LoginError → Result LoginError (Unit {0}) → Result LoginError (Unit {0})
unless true e rest = err e
unless false e rest = rest

module _ (platform : LoginPlatform) where
  open platform use {to_integer, verify_certificate, decoded_length, verify, sign}

  abbrev pub check_time : ℕ → Option Integer → Result LoginError (Unit {0})
  check_time now none = err (plain "ADMIN_CA_CHALLENGE_INVALID")
  check_time now (some issued_at) =
      unless (too_far now issued_at) (plain "ADMIN_CA_CHALLENGE_EXPIRED") (ok tt)

  abbrev pub check_parts : ℕ → String → List String → Result LoginError (Unit {0})
  check_parts now cert_serial (prefix ∷ serial ∷ request_id ∷ issued_at ∷ []) =
      unless
        (not (prefix === challenge_prefix) || not (serial === cert_serial) || request_id === "")
        (plain "ADMIN_CA_CHALLENGE_INVALID") (check_time now (to_integer issued_at))
  check_parts now cert_serial _ = err (plain "ADMIN_CA_CHALLENGE_INVALID")

  unfoldable pub parse_challenge : ℕ → String → String → Result LoginError (Unit {0})
  parse_challenge now challenge cert_serial = check_parts now cert_serial (split_on b':' challenge)

  -- What the check of the signature gives; what it throws goes on to the handler.
  abbrev pub accept : Result String Bool → Result LoginError (Unit {0})
  accept (err message) = err (plain message)
  accept (ok valid) = unless (not valid) (plain "ADMIN_CA_SIGNATURE_INVALID") (ok tt)

  unfoldable pub verify_signature : String → String → String → Result LoginError (Unit {0})
  verify_signature public_key_pem challenge signature =
      unless (ltb (decoded_length signature) 128) (plain "ADMIN_CA_SIGNATURE_INVALID")
        (accept (verify public_key_pem challenge signature))

  -- The checks of the certificate.
  unfoldable pub check_cert : SessionInput → VerifiedCertificate → Result LoginError (Unit {0})
  unfolding verify_signature
  check_cert input cert =
      unless (not (is_active_cert cert.status)) (plain "ADMIN_CA_CERT_NOT_ACTIVE") (
        unless (not (is_ca_admin cert.role)) (plain "ADMIN_CA_CERT_ROLE_REQUIRED") (
          unless (cert.public_key_pem === "") (plain "ADMIN_CA_CERT_PUBLIC_KEY_MISSING")
            (verify_signature cert.public_key_pem input.challenge input.signature)))

  abbrev pub expires_in : ℕ
  expires_in = 8 * 60 * 60

  abbrev pub claims_of : String → VerifiedCertificate → AdminClaims
  claims_of cert_serial cert = record {
    sub = cert.subject_email;
    email = cert.subject_email;
    role = "admin-ca";
    purpose = "admin-ca";
    cert_serial = cert_serial;
    owner_id = cert.owner_id;
    expires_in = expires_in;
  }

  abbrev pub login_success : SessionInput → String → VerifiedCertificate → AuditEvent
  login_success input cert_serial cert = record {
    action = "admin_ca_login_success";
    serial_number = cert_serial;
    performed_by = "admin-ca:" ^ cert.subject_email;
    reason = "";
    metadata =
        ("email", cert.subject_email)
        ∷ ("owner_id", cert.owner_id)
        ∷ ("request_id", input.request_id)
        ∷ ("method", "certificate")
        ∷ [];
  }

  abbrev pub Trail : Type 0
  Trail = List AuditEvent

  -- `void recordRaAudit(...)`
  abbrev pub record_login : AuditEvent → Exec Trail LoginError (Unit {0})
  record_login event trail = (returned tt, trail ++ (event ∷ []))

  abbrev pub or_throw : {A : Type 0} → Result LoginError A → Exec Trail LoginError A
  or_throw (err e) = throw e
  or_throw (ok a) = pure a

  abbrev pub certificate_of : String → Result LoginError VerifiedCertificate
  certificate_of cert_serial = elim (verify_certificate cert_serial) [
    | err e ↦ err (mapped (ca_grpc_error e))
    | ok cert ↦ ok cert
  ]

  abbrev pub session_of : String → VerifiedCertificate → CaAdminSession
  session_of cert_serial cert = record {
    token = sign (claims_of cert_serial cert);
    email = cert.subject_email;
    cert_serial = cert_serial;
    owner_id = cert.owner_id;
    expires_in = expires_in;
  }

  unfoldable pub create_ca_admin_session : ℕ → SessionInput → Exec Trail LoginError CaAdminSession
  create_ca_admin_session now input =
      let cert_serial = to_lower_case (trim input.cert_serial) in
      do
        or_throw (parse_challenge now input.challenge cert_serial)
        cert ← or_throw (certificate_of cert_serial)
        or_throw (check_cert input cert)
        record_login (login_success input cert_serial cert)
        pure (session_of cert_serial cert)

  abbrev pub error_code : LoginError → String
  error_code (mapped e) = e.error_code
  error_code (plain message) = elim (strip_prefix "ADMIN_CA_" message) [
    | none ↦ "ADMIN_CA_CERT_LOGIN_FAILED"
    | some rest ↦ message
  ]

  abbrev pub error_status : LoginError → ℕ
  error_status (mapped e) = e.status
  error_status (plain message) = 401

  abbrev pub login_failed : SessionInput → String → AuditEvent
  login_failed input code = record {
    action = "admin_ca_login_failed";
    serial_number = input.cert_serial;
    performed_by = "admin-ca:certificate";
    reason = code;
    metadata = ("request_id", input.request_id) ∷ ("method", "certificate") ∷ [];
  }

  abbrev pub session_answer : CaAdminSession → Response
  session_answer session = succeeded 200 "" (
      ("token", text session.token)
      ∷ ("token_type", text "Bearer")
      ∷ ("role", text "admin-ca")
      ∷ ("email", text session.email)
      ∷ ("cert_serial", text session.cert_serial)
      ∷ ("owner_id", text session.owner_id)
      ∷ ("expires_in", number session.expires_in)
      ∷ [])

  abbrev pub answer_login :
      SessionInput → Outcome LoginError CaAdminSession × Trail → Response × Trail
  answer_login input (returned session, trail) = (session_answer session, trail)
  answer_login input (thrown e, trail) = (
    failed (error_status e) (error_code e) "Admin CA certificate login failed",
    trail ++ (login_failed input (error_code e) ∷ []),
  )

  unfoldable pub handle_admin_ca_certificate_session : ℕ → SessionInput → Trail → Response × Trail
  unfolding create_ca_admin_session
  handle_admin_ca_certificate_session now input trail =
      answer_login input (create_ca_admin_session now input trail)
