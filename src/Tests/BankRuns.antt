-- ===== src/Tests/BankRuns.antt =====
-- A transfer and a query of the profile, with a ticket that the tab holds.
use mini_banking_app.Common.{◌≡◌, refl, String, none, some, [], ◌∷◌}
use mini_banking_app.Common.Exec.{returned}
use mini_banking_app.Client.Sessions.{
  transfer_create, ServiceTicketSession, Tab, has_valid_service_ticket,
}
use mini_banking_app.Client.Tgs.{Platform, Draws, perform_tgs_exchange, reuse, with_session}
use mini_banking_app.Client.BankMessages.{
  TransferParams, ApRep, BankPlatform, BankDraws, ensure_ticket,
}
use mini_banking_app.Client.Bank.{perform_transfer, transfer_with}
use mini_banking_app.Client.Bank.Confirmed.{Ticket, Transferred, perform_transfer-Transferred}

abbrev ticket : ServiceTicketSession
ticket = record {
  scope = transfer_create;
  service_id = "bank-service";
  ticket_v = "TV";
  session_key = 0;
  ticket_expires_at = 1900;
  client_id = "c1";
  cert_sn = "0A";
}

abbrev tab : Tab
tab = record {
  buffers = λ j. 7 ∷ [];
  fresh = 1;
  current = none;
  tickets = (transfer_create, ticket) ∷ [];
}

abbrev tgs : Platform
tgs = record {
  seal = λ key authenticator. "A";
  unseal = λ key text. none;
  base64_to_bytes = λ text. none;
  post_tgs_req = λ request. none;
}

abbrev tgs_drawn : Draws
tgs_drawn = record { nonce = "N2"; request_id = "R2"; now_ms = 1000000; now = 1000 }

abbrev rep : ApRep String
rep = record { result = "ok"; nonce = "N3"; tx_id = "tx-1"; profile = "An" }

abbrev platform : BankPlatform String String
platform = record {
  Blob = String;
  wrapped_private_key = some "blob";
  print_authenticator = λ fields. fields.nonce;
  encrypt = λ key text. 1 ∷ 2 ∷ [];
  to_base64 = λ bytes. "B";
  stringify = λ fields. "{}";
  json_string = λ text. text;
  sign_pss = λ blob pin text. some (5 ∷ []);
  post_transfer = λ request. some (record { ap_rep = "AP"; transaction_id = "" });
  post_profile = λ request. some "AP";
  post_history = λ account limit offset request. none;
  open_ap_rep = λ key text. some rep;
}

abbrev drawn : BankDraws
drawn = record { nonce = "N3"; request_id = "R3"; idempotency_key = "I"; ts_3 = 1000 }

abbrev params : TransferParams
params = record {
  from_account_number = "1";
  to_account_number = "2";
  amount = 50000;
  description = "";
  currency = none;
  pin = "1234";
}

transfer_run : perform_transfer tgs tgs_drawn platform drawn params tab ≡ (returned "tx-1", tab)
unfolding perform_transfer transfer_with ensure_ticket perform_tgs_exchange reuse with_session
    has_valid_service_ticket
transfer_run = refl

perform_transfer-Transferred_example :
    (t : ServiceTicketSession) × Ticket tgs tgs_drawn transfer_create tab tab t
    × Transferred tgs tgs_drawn platform drawn params t (tab.buffers t.session_key) "tx-1"
perform_transfer-Transferred_example =
    perform_transfer-Transferred tgs tgs_drawn platform drawn params tab tab "tx-1" transfer_run
