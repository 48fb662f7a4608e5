-- ===== src/Gateway/ErrorHandler.antt =====
-- mini-banking-app/api-gateway/src/middleware/errorHandler.ts. The numbers are gRPC's status codes;
-- a missing code is -1 in the source and `none` here.
pub mod Statuses
use mini_banking_app.Common.{
  ℕ, String, Bool, Option, none, some, List, [], ◌∷◌, any, ◌==◌, ◌===◌, if◌then◌else◌, get_or,
}
use mini_banking_app.Gateway.Http.{Response, failed, GrpcError, Exception, redis_error, coded, grpc}

pub record HttpError : Type 0 where
  pub status : ℕ
  pub error_code : String
  pub message : String

-- The names of `status` of @grpc/grpc-js that the source uses.
pub data GrpcStatus : Type 0 where
  invalid_argument deadline_exceeded not_found already_exists permission_denied resource_exhausted
        failed_precondition unavailable unauthenticated other :
      GrpcStatus

unfoldable pub grpc_status : Option ℕ → GrpcStatus
grpc_status none = other
grpc_status (some code) =
    if code == 3
    then invalid_argument
    else if code == 4
    then deadline_exceeded
    else if code == 5
    then not_found
    else if code == 6
    then already_exists
    else if code == 7
    then permission_denied
    else if code == 8
    then resource_exhausted
    else if code == 9
    then failed_precondition
    else if code == 14
    then unavailable
    else if code == 16
    then unauthenticated
    else other

abbrev http_error : ℕ → String → String → HttpError
http_error status error_code message = record {
  status = status;
  error_code = error_code;
  message = message;
}

-- `err?.details || err?.message || fallback`
unfoldable pub message_of : GrpcError → String → String
message_of err fallback =
    if err.details === ""
    then (if err.message === "" then fallback else err.message)
    else err.details

unfoldable pub ca_error : GrpcStatus → String → HttpError
ca_error already_exists msg = http_error 409 "IDENTITY_ALREADY_REGISTERED" msg
ca_error invalid_argument msg = http_error 400 "INVALID_CSR_FORMAT" msg
ca_error not_found msg = http_error 404 "CERT_NOT_FOUND" msg
ca_error permission_denied msg = http_error 403 "CERT_NOT_OWNED" msg
ca_error _ msg = http_error 502 "CA_SERVICE_UNAVAILABLE" msg

unfoldable pub ca_grpc_error : GrpcError → HttpError
unfolding ca_error message_of grpc_status
ca_grpc_error err = ca_error (grpc_status err.code) (message_of err "CA service unavailable")

ca_admin_error : GrpcStatus → String → HttpError
ca_admin_error not_found msg = http_error 404 "CERT_NOT_FOUND" msg
ca_admin_error invalid_argument msg = http_error 400 "INVALID_ADMIN_CA_REQUEST" msg
ca_admin_error already_exists msg = http_error 409 "CERT_ALREADY_REVOKED" msg
ca_admin_error failed_precondition msg = http_error 422 "CERT_TYPE_NOT_REVOKABLE" msg
ca_admin_error _ msg = http_error 502 "CA_SERVICE_UNAVAILABLE" msg

unfoldable pub ca_admin_grpc_error : GrpcError → HttpError
unfolding ca_admin_error message_of grpc_status
ca_admin_grpc_error err =
    ca_admin_error (grpc_status err.code) (message_of err "CA service unavailable")

unfoldable pub as_error : GrpcStatus → String → HttpError
as_error invalid_argument msg = http_error 400 "INVALID_REQUEST" msg
as_error unauthenticated msg = http_error 401 "SIGNATURE_INVALID" msg
as_error permission_denied msg = http_error 409 "REPLAY_DETECTED" msg
as_error not_found msg = http_error 401 "CERT_NOT_FOUND" msg
as_error _ msg = http_error 502 "KDC_UNAVAILABLE" msg

unfoldable pub as_grpc_error : GrpcError → HttpError
unfolding as_error message_of grpc_status
as_grpc_error err = as_error (grpc_status err.code) (message_of err "KDC unavailable")

unfoldable pub tgs_error : GrpcStatus → String → HttpError
tgs_error invalid_argument msg = http_error 400 "INVALID_TGT_FORMAT" msg
tgs_error unauthenticated msg = http_error 401 "TGT_EXPIRED" msg
tgs_error permission_denied msg = http_error 403 "SCOPE_DENIED" msg
tgs_error _ msg = http_error 502 "KDC_UNAVAILABLE" msg

unfoldable pub tgs_grpc_error : GrpcError → HttpError
unfolding tgs_error message_of grpc_status
tgs_grpc_error err = tgs_error (grpc_status err.code) (message_of err "KDC unavailable")

-- The code of the trailing metadata, unless it is empty.
unfoldable pub grpc_meta_code : GrpcError → Option String
grpc_meta_code err = elim err.meta_code [
  | none ↦ none
  | some value ↦ if value === "" then none else some value
]

abbrev pub admin_bank_codes : List String
admin_bank_codes =
    "ADMIN_SESSION_REQUIRED" ∷ "ADMIN_SESSION_INVALID" ∷ "ADMIN_SESSION_EXPIRED"
    ∷ "ADMIN_ROLE_REQUIRED" ∷ "INVALID_PAGINATION" ∷ "INVALID_DATE_RANGE" ∷ "INVALID_FILTER" ∷ []

unfoldable pub admin_bank_code : String → Option String
admin_bank_code message =
    if any (λ code. code === message) admin_bank_codes then some message else none

bank_error : GrpcStatus → Option String → String → HttpError
bank_error invalid_argument domain msg = http_error 400 (get_or domain "BAD_REQUEST") msg
bank_error unauthenticated domain msg = http_error 401 (get_or domain "UNAUTHENTICATED") msg
bank_error permission_denied domain msg = http_error 403 (get_or domain "FORBIDDEN") msg
bank_error not_found domain msg = http_error 404 (get_or domain "NOT_FOUND") msg
bank_error already_exists domain msg = http_error 409 (get_or domain "ALREADY_EXISTS") msg
bank_error failed_precondition domain msg =
    http_error 422 (get_or domain "UNPROCESSABLE_ENTITY") msg
bank_error resource_exhausted domain msg = http_error 429 (get_or domain "RATE_LIMITED") msg
bank_error unavailable domain msg = http_error 503 (get_or domain "SERVICE_UNAVAILABLE") msg
bank_error deadline_exceeded domain msg = http_error 503 (get_or domain "SERVICE_UNAVAILABLE") msg
bank_error other domain msg = http_error 500 (get_or domain "INTERNAL_ERROR") msg

-- `grpcMetaCode(err) ?? adminBankCode(msg)`
unfoldable pub domain_code : GrpcError → Option String
unfolding grpc_meta_code admin_bank_code message_of
domain_code err = elim (grpc_meta_code err) [
  | none ↦ admin_bank_code (message_of err "Bank service error")
  | some code ↦ some code
]

unfoldable pub bank_grpc_error : GrpcError → HttpError
unfolding bank_error grpc_status
bank_grpc_error err =
    bank_error (grpc_status err.code) (domain_code err) (message_of err "Bank service error")

abbrev pub answer : HttpError → Response
answer e = failed e.status e.error_code e.message

unhandled : Response
unhandled = failed 500 "INTERNAL_ERROR" "An unexpected error occurred"

-- A gRPC error without a number for its code is unhandled.
unfoldable pub error_handler : Exception → Response
unfolding unhandled
error_handler redis_error = unhandled
error_handler (coded status error_code message) = failed status error_code message
error_handler (grpc err) = elim err.code [
  | none ↦ unhandled
  | some code ↦ answer (bank_grpc_error err)
]
