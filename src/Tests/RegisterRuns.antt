-- ===== src/Tests/RegisterRuns.antt =====
-- Registrations with a token, one whose account is refused and one that is answered 201.
use mini_banking_app.Common.{◌≡◌, refl, String, false, none, some, [], ◌∷◌}
use mini_banking_app.Common.Ascii.{to_lower_case}
use mini_banking_app.Common.Exec.{returned}
use mini_banking_app.Common.Result.{Result, ok, err}
use mini_banking_app.Gateway.Http.{GrpcError, Response, succeeded, text, number}
use mini_banking_app.Gateway.Mock.{mock_redis}
use mini_banking_app.Gateway.Otp.{reg_token_key}
use mini_banking_app.Gateway.ErrorHandler.{bank_grpc_error, domain_code}
use mini_banking_app.Gateway.Register.{
  TokenPayload, JwtError, IssuedCertificate, Services, RegisterBody, RegWorld, handle_register,
  after_verify, with_payload, with_subject, after_check, after_register, after_account, finish,
  roll_back, check_user_email, register_user, create_user_bank_account, revoke_certificate, refuse,
  refuse_error, record_registration_rejected,
}
use mini_banking_app.Gateway.Register.Compensation.{EndsFor, handle_register-Ends}
use mini_banking_app.Gateway.Register.SingleUse.{Uses, handle_register-used, handle_register-Uses}

abbrev payload : TokenPayload
payload = record {
  purpose = some "pki_registration";
  jti = "j1";
  sub = some "A@b.vn";
  owner_id = some "o1";
  exp = some 1600;
}

abbrev verify : String → Result JwtError TokenPayload
verify token = ok payload

abbrev issued : IssuedCertificate
issued = record {
  certificate_pem = "PEM";
  serial_number = "0A";
  not_after_unix = 9000;
  chain_pem = "CHAIN";
}

abbrev unavailable : GrpcError
unavailable = record { code = some 14; details = "down"; message = ""; meta_code = none }

abbrev up : Services
up = record {
  check_user_email = λ calls email. ok false;
  register_user = λ calls request. ok issued;
  create_user_bank_account = λ calls request. ok tt;
  revoke_certificate = λ calls serial. ok tt;
}

abbrev bank_down : Services
bank_down = record up { create_user_bank_account = λ calls request. err unavailable }

abbrev body : RegisterBody
body = record { csr_pem = "CSR"; full_name = "An" }

abbrev start : RegWorld mock_redis
start = record { store = (reg_token_key "j1", some "0", some 600) ∷ []; audits = []; calls = [] }

abbrev refused_world : RegWorld mock_redis
refused_world = (handle_register mock_redis bank_down verify 1000 "Bearer t" body start).1

abbrev enrolled_world : RegWorld mock_redis
enrolled_world = (handle_register mock_redis up verify 1000 "Bearer t" body start).1

abbrev answer : Response
answer = succeeded 201 "X.509 certificate issued" (
    ("cert_pem", text "PEM")
    ∷ ("cert_serial", text "0A")
    ∷ ("issued_at", number 1000)
    ∷ ("expires_at", number 9000)
    ∷ ("chain_pem", text "CHAIN")
    ∷ [])

refused_run :
    (r : Response) × (handle_register mock_redis bank_down verify 1000 "Bearer t" body start
      ≡ (returned r, refused_world))
unfolding handle_register after_verify with_payload with_subject check_user_email after_check
    register_user after_register create_user_bank_account after_account roll_back revoke_certificate
    refuse refuse_error record_registration_rejected to_lower_case bank_grpc_error domain_code
refused_run = (_, refl)

enrolled_run :
    handle_register mock_redis up verify 1000 "Bearer t" body start
    ≡ (returned answer, enrolled_world)
unfolding handle_register after_verify with_payload with_subject check_user_email after_check
    register_user after_register create_user_bank_account after_account finish to_lower_case
enrolled_run = refl

handle_register-Ends_example :
    EndsFor mock_redis bank_down verify 1000 "Bearer t" body [] refused_world.calls
      refused_run.0.status
handle_register-Ends_example =
    handle_register-Ends mock_redis bank_down verify 1000 "Bearer t" body refused_run.0 start
      refused_world refused_run.1

handle_register-Uses_example :
    Uses mock_redis up verify 1000 payload start.store enrolled_world.store
handle_register-Uses_example =
    handle_register-Uses mock_redis up verify 1000 "Bearer t" body payload answer start
      enrolled_world refl enrolled_run refl

abbrev used : RegWorld mock_redis
used = record { store = (reg_token_key "j1", some "1", some 600) ∷ []; audits = []; calls = [] }

handle_register-used_example :
    (r : Response) × (w' : RegWorld mock_redis) × (handle_register mock_redis up verify 1000
        "Bearer t" body used
      ≡ (returned r, w'))
    × (r.status ≡ 401)
    × (w'.calls ≡ [])
handle_register-used_example =
    handle_register-used mock_redis up verify 1000 "Bearer t" body payload used refl refl
      (_, _, refl)
