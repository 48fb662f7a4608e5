-- ===== src/Gateway/CaAdmin/Certificates.antt =====
-- mini-banking-app/api-gateway/src/controller/ca.controller.ts: the list, the detail and the revocation
-- of certificates by an administrator. The CA and `Number` are arguments; the certificate that the CA
-- describes keeps its fields but for its status, and what is 0 or empty where the source answers null.
pub mod Relayed
use mini_banking_app.Common.{
  ℕ, ◌≤◌, ◌≡◌, ◌≢◌, inl, inr, arith, String, Bool, true, not, Option, none, some, List, [], ◌∷◌,
  map, min, ltb, ◌==◌, ◌===◌, if◌then◌else◌, any, eq_iff,
}
use mini_banking_app.Common.Ascii.{to_lower_case, trim}
use mini_banking_app.Common.Result.{Result, ok, err, Result-cases}
use mini_banking_app.Gateway.Http.{GrpcError}
use mini_banking_app.Gateway.ErrorHandler.{HttpError, ca_admin_grpc_error}
use mini_banking_app.Gateway.CaAdmin.{
  CertStatus, status_active, status_revoked, status_expired, status_other, Integer, pos, negsuc,
}

pub record CertificateMetadata : Type 0 where
  pub serial_number : String
  pub cert_type : String
  pub issuer_id : String
  pub issuer_common_name : String
  pub issuer_serial_number : String
  pub owner_id : String
  pub subject_cn : String
  pub subject_email : String
  pub chain_pem : String
  pub chain_fingerprints : List String
  pub is_ca : Bool
  pub key_usage : List String
  pub extended_key_usage : List String
  pub fingerprint_sha256 : String
  pub status : CertStatus
  pub not_before_unix : ℕ
  pub not_after_unix : ℕ
  pub issued_at_unix : ℕ
  pub revoked_at_unix : ℕ
  pub revocation_reason : String

pub record CertificateView : Type 0 where
  pub certificate : CertificateMetadata
  pub status : String
  pub revoked_at : Option ℕ
  pub revocation_reason : Option String

abbrev pub status_from_proto : CertStatus → String
status_from_proto status_active = "active"
status_from_proto status_revoked = "revoked"
status_from_proto status_expired = "expired"
status_from_proto status_other = "unknown"

abbrev pub map_certificate : CertificateMetadata → CertificateView
map_certificate cert = record {
  certificate = cert;
  status = status_from_proto cert.status;
  revoked_at = if cert.revoked_at_unix == 0 then none else some cert.revoked_at_unix;
  revocation_reason = if cert.revocation_reason === "" then none else some cert.revocation_reason;
}

-- The value of a parameter as a number, where it is an integer; a missing one is not asked for.
abbrev pub normalize_limit : Option (Option Integer) → ℕ
normalize_limit (some (some (pos n))) = if ltb n 1 then 20 else min n 100
normalize_limit _ = 20

abbrev pub normalize_offset : Option (Option Integer) → ℕ
normalize_offset (some (some (pos n))) = n
normalize_offset _ = 0

-- The query; a missing parameter is the empty text.
pub record ListQuery : Type 0 where
  pub status : String
  pub limit : Option (Option Integer)
  pub offset : Option (Option Integer)
  pub cert_type : String
  pub issuer_id : String
  pub owner_id : String
  pub email : String
  pub serial : String

pub record ListRequest : Type 0 where
  pub status : String
  pub cert_type : String
  pub issuer_id : String
  pub owner_id : String
  pub subject_email : String
  pub serial_number : String
  pub limit : ℕ
  pub offset : ℕ
  pub performed_by : String

pub record ListResponse (C : Type 0) : Type 0 where
  pub certificates : List C
  pub total : ℕ
  pub limit : ℕ
  pub offset : ℕ

abbrev pub member : List String → String → Bool
member names name = any (λ n. n === name) names

abbrev pub allowed_statuses : List String
allowed_statuses = "" ∷ "active" ∷ "revoked" ∷ "expired" ∷ []

abbrev pub allowed_cert_types : List String
allowed_cert_types = "" ∷ "root_ca" ∷ "intermediate_ca" ∷ "service_tls" ∷ "client" ∷ []

abbrev pub all_as_none : String → String
all_as_none s = let t = to_lower_case (trim s) in if t === "all" then "" else t

abbrev http_error : ℕ → String → String → HttpError
http_error status code message = record { status = status; error_code = code; message = message }

abbrev pub request_of : String → ListQuery → ListRequest
request_of performed_by q = record {
  status = all_as_none q.status;
  cert_type = all_as_none q.cert_type;
  issuer_id = trim q.issuer_id;
  owner_id = trim q.owner_id;
  subject_email = trim q.email;
  serial_number = trim q.serial;
  limit = normalize_limit q.limit;
  offset = normalize_offset q.offset;
  performed_by = performed_by;
}

-- What a handler of these gives: data that is answered with 200, or an error for the error handler.
-- The query's `status` is trimmed and put in lower case before it is compared.
module _ (performed_by : String) where
  abbrev pub relay_list :
      Result GrpcError (ListResponse CertificateMetadata)
      → Result HttpError (ListResponse CertificateView)
  relay_list (err e) = err (ca_admin_grpc_error e)
  relay_list (ok resp) = ok (record {
    certificates = map map_certificate resp.certificates;
    total = resp.total;
    limit = resp.limit;
    offset = resp.offset;
  })

  unfoldable pub handle_admin_list_certificates :
      (ListRequest → Result GrpcError (ListResponse CertificateMetadata))
      → ListQuery
      → Result HttpError (ListResponse CertificateView)
  handle_admin_list_certificates list_certificates q =
      if not (member allowed_statuses (all_as_none q.status))
      then err (
          http_error 400 "INVALID_CERT_STATUS"
            "status must be one of: all, active, revoked, expired")
      else if not (member allowed_cert_types (all_as_none q.cert_type))
      then err (
          http_error 400 "INVALID_CERT_TYPE"
            "cert_type must be one of: all, root_ca, intermediate_ca, service_tls, client")
      else relay_list (list_certificates (request_of performed_by q))

  abbrev pub relay_one :
      Result GrpcError (Option CertificateMetadata) → Result HttpError CertificateView
  relay_one (err e) = err (ca_admin_grpc_error e)
  relay_one (ok none) = err (http_error 404 "CERT_NOT_FOUND" "Certificate not found")
  relay_one (ok (some cert)) = ok (map_certificate cert)

  -- The CA takes the serial number and who asks.
  unfoldable pub handle_admin_get_certificate_detail :
      (String → String → Result GrpcError (Option CertificateMetadata))
      → String
      → Result HttpError CertificateView
  handle_admin_get_certificate_detail get_certificate_detail raw_serial =
      let serial = trim raw_serial in
      if serial === ""
      then err (http_error 400 "CERT_SERIAL_REQUIRED" "Certificate serial is required")
      else relay_one (get_certificate_detail serial performed_by)

  -- The CA takes the serial number, the reason and who asks.
  unfoldable pub handle_admin_revoke_certificate :
      (String → String → String → Result GrpcError (Option CertificateMetadata))
      → String
      → String
      → Result HttpError CertificateView
  handle_admin_revoke_certificate revoke_certificate raw_serial raw_reason =
      let serial = trim raw_serial in
      let reason = trim raw_reason in
      if serial === ""
      then err (http_error 400 "CERT_SERIAL_REQUIRED" "Certificate serial is required")
      else if reason === ""
      then err (http_error 400 "REVOCATION_REASON_REQUIRED" "reason is required")
      else relay_one (revoke_certificate serial reason performed_by)
