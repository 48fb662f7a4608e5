-- ===== src/Tests/GatewayRuns.antt =====
-- The answers to errors, and the audit events.
use mini_banking_app.Common.{
  ℕ, ◌≤◌, ◌<◌, ◌≡◌, ◌⊎◌, ◌↔◌, refl, String, false, some, List, [], ◌∷◌, map, length, take, drop,
  arith,
}
use mini_banking_app.Common.Ascii.{to_lower_case}
use mini_banking_app.Common.Result.{Result, ok}
use mini_banking_app.Gateway.Http.{GrpcError, grpc}
use mini_banking_app.Gateway.ErrorHandler.{bank_grpc_error, error_handler}
use mini_banking_app.Gateway.ErrorHandler.Statuses.{
  IsError, error_handler-IsError, bank_grpc_error_status,
}
use mini_banking_app.Gateway.Audit.Semantics.{
  RawAuditFields, bank, warning, info, critical, success, denied, enrich_audit,
}
use mini_banking_app.Gateway.Audit.Semantics.Outcomes.{severity_outcome}
use mini_banking_app.Gateway.Audit.Fetch.{fetch_window}
use mini_banking_app.Gateway.Audit.Fetch.Paging.{fetch_window-ends, fetch_window_lem}

abbrev no_funds : GrpcError
no_funds = record {
  code = some 9;
  details = "insufficient";
  message = "";
  meta_code = some "INSUFFICIENT_FUNDS";
}

error_handler-IsError_example :
    IsError (error_handler (grpc no_funds)).status
    × ((error_handler (grpc no_funds)).success ≡ false)
error_handler-IsError_example =
    error_handler-IsError (grpc no_funds) (λ status code message e. ground arith)

bank_grpc_error_status_example :
    (((bank_grpc_error no_funds).status < 500) ↔ (
      (no_funds.code ≡ some 3)
      ⊎ (no_funds.code ≡ some 5)
      ⊎ (no_funds.code ≡ some 6)
      ⊎ (no_funds.code ≡ some 7)
      ⊎ (no_funds.code ≡ some 8)
      ⊎ (no_funds.code ≡ some 9)
      ⊎ (no_funds.code ≡ some 16)))
    × (((bank_grpc_error no_funds).status ≡ 503)
        ↔ ((no_funds.code ≡ some 4) ⊎ (no_funds.code ≡ some 14)))
    × (((bank_grpc_error no_funds).status < 500)
        ⊎ ((bank_grpc_error no_funds).status ≡ 503)
        ⊎ ((bank_grpc_error no_funds).status ≡ 500))
bank_grpc_error_status_example = bank_grpc_error_status no_funds

abbrev event : RawAuditFields
event = record { source = bank; action = "Replay_Detected"; actor = "u1"; reason = ""; target = "" }

severity_outcome_example :
    (((enrich_audit event).severity ≡ warning) → (enrich_audit event).outcome ≡ denied)
    × (((enrich_audit event).severity ≡ info) → (enrich_audit event).outcome ≡ success)
    × ((((enrich_audit event).severity ≡ critical) × ((enrich_audit event).outcome ≡ success))
        ↔ (to_lower_case "Replay_Detected" ≡ "revoked"))
severity_outcome_example = severity_outcome event

abbrev log : List ℕ
log = 4 ∷ 5 ∷ 6 ∷ []

abbrev served : ℕ → ℕ → Result String (List ℕ)
served limit offset = ok (take limit (drop offset log))

fetch_window-ends_example :
    (r : Result String (List ℕ)) × (fetch_window served (λ n. n) 2 ≡ some r)
    × ((events : List ℕ) → r ≡ ok events → length events ≤ 2)
fetch_window-ends_example = fetch_window-ends served (λ n. n) 2

fetch_window_lem_example : fetch_window served (λ n. n) 2 ≡ some (ok (take 2 (map (λ n. n) log)))
fetch_window_lem_example = fetch_window_lem served (λ n. n) 2 log (λ limit offset. refl)
