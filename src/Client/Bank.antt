-- ===== src/Client/Bank.antt =====
-- mini-banking-app/frontend/src/services/bank: transfer/transfer.service.ts, ap-authenticator.ts,
-- history/history.service.ts and profile/profile.service.ts. An exchange for a ticket comes first; what
-- it stored stays where something fails later.
pub mod Confirmed
pub mod Canonical
use Prim.Native.Char.{Char, code}
use Prim.Native.String
use mini_banking_app.Common.{
  ℕ, String, Bool, true, false, not, Option, none, some, List, [], ◌∷◌, ◌++◌, map, take, drop, ◌==◌,
  ◌===◌, if◌then◌else◌, get_or,
}
use mini_banking_app.Common.Exec.{Exec, Outcome, returned, thrown, pure, throw, ◌>>=◌, ◌>>◌}
use mini_banking_app.Common.Result.{Result, ok, err}
use mini_banking_app.Client.Sessions.{
  Scope, balance_read, transfer_create, history_read, ServiceTicketSession, Tab, get_service_ticket,
}
use mini_banking_app.Client.Tgs.{Platform, Draws, TgsError, TgsExchangeResult, perform_tgs_exchange}
use mini_banking_app.Client.BankMessages.{
  ◌^◌, Value, text, number, TransferParams, TransferRequest, TransferResponse, QueryRequest, ApRep,
  HistoryResponse, HistoryResult, BankError, no_ticket, no_private_key, bad_pin, gateway_error,
  bad_reply, rejected, nonce_mismatch, no_account, ApFields, BankPlatform, BankDraws, ensure_ticket,
  or_throw,
}

-- What the escapes stand for.
abbrev pub escape_char : Char → String → String
escape_char c rest =
    if code c == b'<'
    then "\\u003c" ^ rest
    else if code c == b'>'
    then "\\u003e" ^ rest
    else if code c == b'&'
    then "\\u0026" ^ rest
    else if code c == 0x2028
    then "\\u2028" ^ rest
    else if code c == 0x2029
    then "\\u2029" ^ rest
    else String.◌∷◌ c rest

-- The loop of `canonicalStringify` over the JSON text.
abbrev pub escape_html : String → String
escape_html String.[] = ""
escape_html (String.◌∷◌ c s) = let rest = escape_html s in escape_char c rest

module _ {P I : Type 0} (tgs : Platform) (tgs_drawn : Draws) (platform : BankPlatform P I)
    (drawn : BankDraws) where
  open platform use {
    Blob, wrapped_private_key, print_authenticator, encrypt, to_base64, stringify, json_string,
    sign_pss, post_transfer, post_profile, post_history, open_ap_rep,
  }

  abbrev pub ap_fields : String → ApFields
  ap_fields client_id = record {
    client_id = client_id;
    nonce = drawn.nonce;
    request_id = drawn.request_id;
    ts_3 = drawn.ts_3;
  }

  -- `buildApAuthenticator`, from the key of the ticket.
  abbrev pub build_ap_authenticator : List ℕ → String → String
  build_ap_authenticator key client_id =
      to_base64 (encrypt key (print_authenticator (ap_fields client_id)))

  abbrev pub check_ap_rep : ApRep P → Exec Tab BankError (ApRep P)
  check_ap_rep rep =
      if not (rep.result === "ok")
      then throw rejected
      else if not (rep.nonce === drawn.nonce)
      then throw nonce_mismatch
      else pure rep

  -- The reply, opened with the key and checked.
  abbrev pub confirm : List ℕ → String → Exec Tab BankError (ApRep P)
  confirm key ap_rep = or_throw bad_reply (open_ap_rep key ap_rep) >>= check_ap_rep

  abbrev pub transfer_fields : TransferParams → List (String × Value)
  transfer_fields params =
      let fields =
        ("from_account_number", text params.from_account_number)
        ∷ ("to_account_number", text params.to_account_number)
        ∷ ("amount", number params.amount)
        ∷ ("currency", text (get_or params.currency "VND"))
        ∷ ("request_id", text drawn.request_id)
        ∷ ("idempotency_key", text drawn.idempotency_key)
        ∷ ("scope", text "transfer:create")
        ∷ [] in
      if params.description === ""
      then fields
      else fields ++ (("description", text params.description) ∷ [])

  -- `canonicalStringify` of the payload.
  abbrev pub canonical : TransferParams → String
  canonical params = escape_html (stringify (transfer_fields params))

  abbrev pub envelope : TransferParams → List ℕ → String
  envelope params signature =
      "{\"payload\":"
      ^ canonical params
      ^ ",\"client_signature\":"
      ^ json_string (to_base64 signature)
      ^ "}"

  abbrev pub transfer_request :
      TransferParams → List ℕ → ServiceTicketSession → List ℕ → TransferRequest
  transfer_request params key ticket signature =
      let embedded = encrypt key (envelope params signature) in
      record {
        ticket_v = ticket.ticket_v;
        authenticator = build_ap_authenticator key ticket.client_id;
        cipher_payload = to_base64 (drop 12 embedded);
        iv = to_base64 (take 12 embedded);
        request_id = drawn.request_id;
      }

  abbrev pub transaction_of : TransferResponse → ApRep P → String
  transaction_of resp rep = if resp.transaction_id === "" then rep.tx_id else resp.transaction_id

  -- With the ticket there.
  unfoldable pub transfer_with :
      TransferParams → ServiceTicketSession → List ℕ → Exec Tab BankError String
  transfer_with params ticket key = do
    blob ← or_throw no_private_key wrapped_private_key
    signature ← or_throw bad_pin (sign_pss blob params.pin (canonical params))
    resp ← or_throw gateway_error (post_transfer (transfer_request params key ticket signature))
    rep ← confirm key resp.ap_rep
    pure (transaction_of resp rep)

  abbrev pub key_of : ServiceTicketSession → Tab → List ℕ
  key_of ticket tab = tab.buffers ticket.session_key

  abbrev pub with_key :
      {A : Type 0} → (List ℕ → Exec Tab BankError A) → ServiceTicketSession → Exec Tab BankError A
  with_key f ticket tab = f (key_of ticket tab) tab

  unfoldable pub perform_transfer : TransferParams → Exec Tab BankError String
  perform_transfer params = do
    ticket ← ensure_ticket tgs tgs_drawn transfer_create
    with_key (transfer_with params ticket) ticket

  abbrev pub query_request : List ℕ → ServiceTicketSession → QueryRequest
  query_request key ticket = record {
    ticket_v = ticket.ticket_v;
    authenticator = build_ap_authenticator key ticket.client_id;
    request_id = drawn.request_id;
  }

  unfoldable pub profile_with : ServiceTicketSession → List ℕ → Exec Tab BankError P
  profile_with ticket key = do
    ap_rep ← or_throw gateway_error (post_profile (query_request key ticket))
    rep ← confirm key ap_rep
    pure rep.profile

  unfoldable pub fetch_profile : Exec Tab BankError P
  fetch_profile = do
    ticket ← ensure_ticket tgs tgs_drawn balance_read
    with_key (profile_with ticket) ticket

  abbrev pub default_limit : ℕ
  default_limit = 50

  abbrev pub result_of : HistoryResponse I → HistoryResult I
  result_of resp = record {
    items = get_or resp.transactions [];
    total = resp.total;
    limit = resp.limit;
    offset = resp.offset;
  }

  unfoldable pub history_with :
      String
      → Option ℕ
      → Option ℕ
      → ServiceTicketSession
      → List ℕ
      → Exec Tab BankError (HistoryResult I)
  history_with account_id limit offset ticket key = do
    resp ← or_throw gateway_error (
        post_history account_id (get_or limit default_limit) (get_or offset 0)
          (query_request key ticket))
    confirm key resp.ap_rep
    pure (result_of resp)

  unfoldable pub fetch_history : String → Option ℕ → Option ℕ → Exec Tab BankError (HistoryResult I)
  fetch_history account_id limit offset = if account_id === "" then throw no_account else (do
    ticket ← ensure_ticket tgs tgs_drawn history_read
    with_key (history_with account_id limit offset ticket) ticket)
