-- ===== src/Gateway/ErrorHandler/Statuses.antt =====
-- The statuses and codes that errors are answered with.
use mini_banking_app.Common.{
  ℕ, ◌≤◌, ◌<◌, ◌≡◌, ◌≢◌, ◌⊎◌, ◌↔◌, refl, String, false, Option, some, arith, eq_iff,
}
use mini_banking_app.Gateway.Http.{GrpcError, Exception, redis_error, coded, grpc}
use mini_banking_app.Gateway.ErrorHandler.{
  GrpcStatus, bank_error, ca_grpc_error, ca_error, domain_code, bank_grpc_error, error_handler,
}

abbrev pub IsError : ℕ → Type 0
IsError status = (400 ≤ status) × (status < 600)

bank_error-IsError :
    (s : GrpcStatus) (d : Option String) (m : String) → IsError (bank_error s d m).status
unfolding bank_error
bank_error-IsError s d m = ground arith

pub bank_grpc_error-IsError : (err : GrpcError) → IsError (bank_grpc_error err).status
unfolding bank_grpc_error
bank_grpc_error-IsError err = bank_error-IsError _ _ _

-- Whatever is thrown, the answer is a failure whose status lies from 400 to 599, if a status that the
-- program gave itself does.
pub error_handler-IsError :
    (e : Exception)
    → ((status : ℕ) (code message : String) → e ≡ coded status code message → IsError status)
    → IsError (error_handler e).status × ((error_handler e).success ≡ false)
unfolding error_handler
error_handler-IsError redis_error h = (omega arith, refl)
error_handler-IsError (coded status code message) h = (h status code message refl, refl)
error_handler-IsError (grpc err) h = let known = bank_grpc_error-IsError err in ground arith

-- An error of the Bank blames the client, with a status below 500, exactly when its gRPC code is one
-- of the seven that blame the caller; it is 503 exactly when the Bank was out of reach or too slow;
-- else it is 500.
pub bank_grpc_error_status :
    (err : GrpcError)
    → (((bank_grpc_error err).status < 500) ↔ (
        (err.code ≡ some 3)
        ⊎ (err.code ≡ some 5)
        ⊎ (err.code ≡ some 6)
        ⊎ (err.code ≡ some 7)
        ⊎ (err.code ≡ some 8)
        ⊎ (err.code ≡ some 9)
        ⊎ (err.code ≡ some 16)))
      × (((bank_grpc_error err).status ≡ 503) ↔ ((err.code ≡ some 4) ⊎ (err.code ≡ some 14)))
      × (((bank_grpc_error err).status < 500)
          ⊎ ((bank_grpc_error err).status ≡ 503)
          ⊎ ((bank_grpc_error err).status ≡ 500))
unfolding bank_grpc_error
bank_grpc_error_status err =
    ((λ h. ground arith, λ h. ground arith), (λ h. ground arith, λ h. ground arith), ground arith)

-- The Bank's own code, where it is not empty, is the answer's code at every status.
pub bank_grpc_error-meta_code :
    (err : GrpcError) (code : String)
    → err.meta_code ≡ some code
    → code ≢ ""
    → (bank_grpc_error err).error_code ≡ code
unfolding bank_grpc_error domain_code
bank_grpc_error-meta_code err code e ne = ground (arith, eq_iff code "")

pub ca_grpc_error-IsError : (err : GrpcError) → IsError (ca_grpc_error err).status
unfolding ca_grpc_error ca_error
ca_grpc_error-IsError err = ground arith
