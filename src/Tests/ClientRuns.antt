-- ===== src/Tests/ClientRuns.antt =====
-- Sessions that replace one another, and an exchange with a gateway that repeats the nonce.
use mini_banking_app.Common.{ℕ, ◌≡◌, ◌≢◌, ◌⊎◌, refl, true, false, none, some, List, [], ◌∷◌, ltb}
use mini_banking_app.Common.Result.{ok}
use mini_banking_app.Client.Sessions.{
  balance_read, AsSession, ServiceTicketSession, Tab, set_session, get_session, clear_session,
  set_service_ticket, get_service_ticket, has_valid_service_ticket, has_valid_tgt,
}
use mini_banking_app.Client.Sessions.Zeroing.{IsZeroed, set_session-zeroes}
use mini_banking_app.Client.Sessions.Erasure.{
  Call, log_in, obtain, empty_tab, allocate, call, calls, in_use, calls-IsZeroed,
}
use mini_banking_app.Client.Tgs.{
  Platform, Draws, TgsReply, result_of, reuse, with_session, request_ticket, perform_tgs_exchange,
}
use mini_banking_app.Client.Tgs.Replies.{Answered, perform_tgs_exchange-Answered}

abbrev session : AsSession
session = record {
  client_id = "c1";
  cert_sn = "0A";
  tgt = "TGT";
  session_key = 0;
  tgt_expires_at = 2000;
  operation_id = none;
}

abbrev tab : Tab
tab = record { buffers = λ j. 7 ∷ 7 ∷ []; fresh = 1; current = some session; tickets = [] }

abbrev ticket : ServiceTicketSession
ticket = record {
  scope = balance_read;
  service_id = "bank-service";
  ticket_v = "TV";
  session_key = 1;
  ticket_expires_at = 1900;
  client_id = "c1";
  cert_sn = "0A";
}

abbrev reply : TgsReply
reply = record { k_c_v = "K"; id_v = ""; ticket_v = "TV"; nonce2 = "N"; scope = "balance:read" }

abbrev platform : Platform
platform = record {
  seal = λ key authenticator. authenticator.nonce_req;
  unseal = λ key text. some reply;
  base64_to_bytes = λ text. some (9 ∷ []);
  post_tgs_req = λ request. some (record { encrypted_payload = "P"; ticket_expiry = 1900 });
}

abbrev drawn : Draws
drawn = record { nonce = "N"; request_id = "R"; now_ms = 1000000; now = 1000 }

exchanged :
    (t' : Tab) × (perform_tgs_exchange platform drawn balance_read false tab
      ≡ ok (result_of balance_read ticket, t'))
unfolding perform_tgs_exchange reuse with_session request_ticket has_valid_tgt
    has_valid_service_ticket
exchanged = (_, refl)

set_session-zeroes_example :
    (get_session (set_session (record session { session_key = 1 }) tab)
      ≡ some (record session { session_key = 1 }))
    × IsZeroed ((set_session (record session { session_key = 1 }) tab).buffers 0)
    × ((j : ℕ)
        → j ≢ 0
        → (set_session (record session { session_key = 1 }) tab).buffers j ≡ 7 ∷ 7 ∷ [])
set_session-zeroes_example =
    set_session-zeroes (record session { session_key = 1 }) session tab refl

-- A log-in, a ticket, and a second log-in, which replaces the first.
abbrev two_log_ins : List Call
two_log_ins = log_in (7 ∷ []) session ∷ obtain (8 ∷ []) ticket ∷ log_in (9 ∷ []) session ∷ []

first_handed_out : ltb 0 (calls two_log_ins empty_tab).fresh ≡ true
unfolding calls call allocate set_session clear_session set_service_ticket
first_handed_out = refl

first_idle : in_use 0 (calls two_log_ins empty_tab) ≡ false
unfolding calls call allocate set_session clear_session set_service_ticket
first_idle = refl

calls-IsZeroed_example : IsZeroed ((calls two_log_ins empty_tab).buffers 0)
calls-IsZeroed_example = calls-IsZeroed two_log_ins 0 first_handed_out first_idle

perform_tgs_exchange-Answered_example :
    (t : ServiceTicketSession) × (get_service_ticket balance_read exchanged.0 ≡ some t)
    × (result_of balance_read ticket ≡ result_of balance_read t)
    × (((false ≡ false)
          × (exchanged.0 ≡ tab)
          × (has_valid_service_ticket 1000000 balance_read tab ≡ true))
        ⊎ Answered platform drawn balance_read tab t)
perform_tgs_exchange-Answered_example =
    perform_tgs_exchange-Answered platform drawn balance_read false tab exchanged.0
      (result_of balance_read ticket) exchanged.1
