-- ===== src/Tests/AdminRuns.antt =====
-- The login and the activation of administrators, and the timeline, on services that answer.
use mini_banking_app.Common.{
  ℕ, ◌≡◌, ◌≢◌, ◌⊎◌, ◌↔◌, String, Bool, true, false, Option, none, some, List, [], ◌∷◌, map, length,
}
use mathlib.Core.List.{Perm}
use mini_banking_app.Common.Sort.{IsSorted}
use mini_banking_app.Common.Result.{Result, ok, err}
use mini_banking_app.Gateway.Http.{Response, GrpcError}
use mini_banking_app.Gateway.Mock.{mock_redis}
use mini_banking_app.Gateway.Activation.{
  bank_admin, IdentityJson, Provision, create_pending_admin, pending_identity,
}
use mini_banking_app.Gateway.AdminActivate.{
  IssueRequest, AdminCertificate, ActivateBody, Issued, Desk, activate,
}
use mini_banking_app.Gateway.AdminActivate.Issues.{Activated, activate-Activated}
use mini_banking_app.Gateway.CaAdmin.{
  LoginPlatform, SessionInput, pos, status_active, role_ca_admin,
  handle_admin_ca_certificate_session,
}
use mini_banking_app.Gateway.CaAdmin.Vouched.{Logged, handle_admin_ca_certificate_session-Logged}
use mini_banking_app.Gateway.CaAdmin.Roles.{
  AdminCa, AdminCaTokenPayload, DemoEnv, has_role, bearer_token, StandsFor, Unknown,
  require_admin_role, require_admin_role_sound,
}
use mini_banking_app.Gateway.Timeline.{
  TimelineItem, TimelineServices, ChainReport, row_of, handle_audit_timeline, handle_audit_verify,
}
use mini_banking_app.Gateway.Timeline.Merged.{
  answered, reasons, Broken, handle_audit_timeline-Merged, handle_audit_verify_iff,
}

abbrev login_platform : LoginPlatform
login_platform = record {
  to_integer = λ text. some (pos 1000);
  verify_certificate = λ serial. ok record {
    status = status_active;
    role = role_ca_admin;
    public_key_pem = "PEM";
    subject_email = "a@b.vn";
    owner_id = "id-1";
  };
  decoded_length = λ text. 256;
  verify = λ key challenge signature. ok true;
  sign = λ claims. claims.email;
}

abbrev login : SessionInput
login = record {
  cert_serial = "0a1b2c3d";
  challenge = "admin-ca-login:0a1b2c3d:r1:1000";
  signature = "AA==";
  request_id = "r1";
}

handle_admin_ca_certificate_session-Logged_example :
    Logged login_platform 1100 login []
      (handle_admin_ca_certificate_session login_platform 1100 login [])
handle_admin_ca_certificate_session-Logged_example =
    handle_admin_ca_certificate_session-Logged login_platform 1100 login []

abbrev env : DemoEnv
env = record { admin_sec_demo_token = ""; admin_sec_demo_email = none }

abbrev verify_token : String → Result String AdminCaTokenPayload
verify_token token = ok (record { email = some token; role = some "admin-ca"; sub = none })

abbrev issue_message : String → String
issue_message header = "Authorization must use Bearer token"

abbrev admins : List String
admins = "admin-ca" ∷ []

require_admin_role_sound_example :
    ((token : String) × (admin : AdminCa) × (bearer_token "Bearer t1" ≡ some token)
      × StandsFor env verify_token issue_message admins token admin
      × (((has_role admins admin.role ≡ true)
            × (require_admin_role env verify_token issue_message admins "Bearer t1" ≡ ok admin))
          ⊎ ((has_role admins admin.role ≡ false)
              × ((answer : Response) × (require_admin_role env verify_token issue_message admins
                      "Bearer t1"
                    ≡ err answer)
                  × (answer.status ≡ 403)))))
    ⊎ (Unknown env verify_token issue_message admins "Bearer t1"
        × ((answer : Response) × (require_admin_role env verify_token issue_message admins
                "Bearer t1"
              ≡ err answer)
            × (answer.status ≡ 401)))
require_admin_role_sound_example =
    require_admin_role_sound env verify_token issue_message admins "Bearer t1"

abbrev hash : String → String
hash token = token

abbrev drawn : Provision
drawn = record { token = "t0k3n"; admin_id = "id-1"; now = 1000 }

abbrev json : IdentityJson
json = record {
  stringify = λ i. i.admin_id;
  parse = λ text. some (pending_identity hash bank_admin "a@b.vn" "An" drawn 900);
}

abbrev ask_ca : Issued → IssueRequest → Result GrpcError AdminCertificate
ask_ca before request = ok record {
  certificate_pem = "PEM";
  serial_number = "0A";
  not_before_unix = 1000;
  not_after_unix = 9000;
}

abbrev desk : Desk mock_redis json hash ask_ca
desk = record {
  store = (create_pending_admin mock_redis json hash none bank_admin "a@b.vn" "An" drawn []).1;
  issued = [];
}

abbrev body : ActivateBody
body = record { activation_token = "t0k3n"; csr_pem = "CSR" }

activate-Activated_example :
    Activated mock_redis json hash ask_ca bank_admin 1200 body desk
      (activate mock_redis json hash ask_ca bank_admin 1200 body desk)
activate-Activated_example =
    activate-Activated mock_redis json hash ask_ca bank_admin 1200 body desk

abbrev timeline_services : TimelineServices
timeline_services = record {
  list_ca = λ trace limit. ok (
      record {
        action = "issued";
        performed_by = "ra:register";
        serial_number = "0A";
        reason = "";
        metadata = [];
        performed_at_unix = 20;
      }
      ∷ []);
  list_kdc = λ trace limit. err "down";
  list_bank = λ token trace limit. ok [];
}

abbrev parse_json : String → Option String
parse_json text = none

abbrev is_object : String → Bool
is_object text = true

abbrev iso : ℕ → String
iso n = "T"

abbrev bank_action : ℕ → String
bank_action n = "TRANSFER_COMPLETED"

handle_audit_timeline-Merged_example :
    (in_order : List (TimelineItem String)) × Perm in_order
      (answered parse_json is_object iso bank_action "r1" timeline_services 100 "")
    × IsSorted (λ item. item.ts) in_order
    × ((handle_audit_timeline parse_json is_object iso bank_action "r1" timeline_services 100
          "").items
        ≡ map row_of in_order)
    × ((handle_audit_timeline parse_json is_object iso bank_action "r1" timeline_services 100
          "").count
        ≡ length in_order)
    × ((handle_audit_timeline parse_json is_object iso bank_action "r1" timeline_services 100
          "").sources
        ≡ reasons parse_json is_object iso bank_action "r1" timeline_services 100 "")
handle_audit_timeline-Merged_example =
    handle_audit_timeline-Merged parse_json is_object iso bank_action "r1" timeline_services 100 ""

abbrev broken : Result String ChainReport
broken = ok (record { ok = false; checked = 4; broken_seq = 3; broken_id = "e3"; detail = "hash" })

abbrev bank_report : String → Result String ChainReport
bank_report token = err "down"

abbrev no_token : String
no_token = ""

handle_audit_verify_iff_example :
    ((handle_audit_verify (err "down") broken bank_report no_token).0 ≡ false)
    ↔ (Broken (err "down") ⊎ Broken broken ⊎ ((no_token ≢ "") × Broken (bank_report no_token)))
handle_audit_verify_iff_example = handle_audit_verify_iff (err "down") broken bank_report no_token
