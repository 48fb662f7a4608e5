-- ===== src/Client/Tgs.antt =====
-- mini-banking-app/frontend/src/services/tgs-exchange/tgs-exchange.service.ts. The gateway, AES-GCM,
-- JSON, base64 and what is drawn are arguments.
pub mod Replies
use mini_banking_app.Common.{
  ℕ, ◌+◌, String, Bool, true, false, not, ◌&&◌, Option, none, some, List, ◌==◌, ◌===◌,
  if◌then◌else◌,
}
use mini_banking_app.Common.Result.{Result, ok, err, ◌>>=◌}
use mini_banking_app.Client.Sessions.{
  Scope, balance_read, transfer_create, history_read, bank_admin_read, AsSession,
  ServiceTicketSession, Tab, get_session, has_valid_tgt, set_service_ticket, get_service_ticket,
  has_valid_service_ticket,
}

abbrev pub scope_text : Scope → String
scope_text balance_read = "balance:read"
scope_text transfer_create = "transfer:create"
scope_text history_read = "history:read"
scope_text bank_admin_read = "bank-admin:read"

abbrev pub service_id : String
service_id = "bank-service"

pub record TgsReply : Type 0 where
  pub k_c_v : String
  pub id_v : String
  pub ticket_v : String
  pub nonce2 : String
  pub scope : String

-- What the authenticator says, before it is printed and encrypted.
pub record Authenticator : Type 0 where
  pub client_id : String
  pub ts_3 : ℕ
  pub nonce_req : String
  pub request_id : String
  pub requested_service : String
  pub scope : String

pub record TgsRequest : Type 0 where
  pub service_id : String
  pub tgt_ciphertext : String
  pub authenticator : String
  pub cert_sn : String
  pub nonce : String
  pub requested_scope : String

pub record TgsResponse : Type 0 where
  pub encrypted_payload : String
  pub ticket_expiry : ℕ

pub record TgsExchangeResult : Type 0 where
  pub scope : Scope
  pub service_id : String
  pub ticket_expires_at : ℕ

pub data TgsError : Type 0 where
  no_tgt gateway_error bad_reply nonce_mismatch scope_mismatch bad_key : TgsError

-- `seal` prints, encrypts under a key and encodes; `open` decodes, decrypts and parses.
pub record Platform : Type 0 where
  pub seal : List ℕ → Authenticator → String
  pub unseal : List ℕ → String → Option TgsReply
  pub base64_to_bytes : String → Option (List ℕ)
  pub post_tgs_req : TgsRequest → Option TgsResponse

-- A nonce in base64, a UUID, and the time in milliseconds and in seconds.
pub record Draws : Type 0 where
  pub nonce : String
  pub request_id : String
  pub now_ms : ℕ
  pub now : ℕ

abbrev pub result_of : Scope → ServiceTicketSession → TgsExchangeResult
result_of scope ticket = record {
  scope = scope;
  service_id = ticket.service_id;
  ticket_expires_at = ticket.ticket_expires_at;
}

abbrev pub or_error : {A : Type 0} → TgsError → Option A → Result TgsError A
or_error e none = err e
or_error e (some a) = ok a

-- The new key becomes a buffer of its own.
abbrev pub allocate : List ℕ → Tab → Tab
allocate bytes tab = record tab {
  buffers = λ j. if j == tab.fresh then bytes else tab.buffers j;
  fresh = tab.fresh + 1;
}

module _ (platform : Platform) (drawn : Draws) where
  abbrev pub authenticator_of : Scope → AsSession → Authenticator
  authenticator_of scope session = record {
    client_id = session.client_id;
    ts_3 = drawn.now;
    nonce_req = drawn.nonce;
    request_id = drawn.request_id;
    requested_service = service_id;
    scope = scope_text scope;
  }

  abbrev pub request_of : Scope → AsSession → Tab → TgsRequest
  request_of scope session tab = record {
    service_id = service_id;
    tgt_ciphertext = session.tgt;
    authenticator =
        platform.seal (tab.buffers session.session_key) (authenticator_of scope session);
    cert_sn = session.cert_sn;
    nonce = drawn.nonce;
    requested_scope = scope_text scope;
  }

  abbrev pub check_reply : Scope → TgsReply → Result TgsError TgsReply
  check_reply scope reply =
      if not (reply.nonce2 === drawn.nonce)
      then err nonce_mismatch
      else if not (reply.scope === scope_text scope)
      then err scope_mismatch
      else ok reply

  abbrev pub ticket_of : Scope → AsSession → TgsResponse → TgsReply → ℕ → ServiceTicketSession
  ticket_of scope session resp reply key = record {
    scope = scope;
    service_id = if reply.id_v === "" then service_id else reply.id_v;
    ticket_v = reply.ticket_v;
    session_key = key;
    ticket_expires_at = resp.ticket_expiry;
    client_id = session.client_id;
    cert_sn = session.cert_sn;
  }

  -- The exchange with the gateway.
  unfoldable pub request_ticket :
      Scope → AsSession → Tab → Result TgsError (TgsExchangeResult × Tab)
  request_ticket scope session tab = do
    resp ← or_error gateway_error (platform.post_tgs_req (request_of scope session tab))
    reply ←
        or_error bad_reply
          (platform.unseal (tab.buffers session.session_key) resp.encrypted_payload)
    checked ← check_reply scope reply
    key ← or_error bad_key (platform.base64_to_bytes checked.k_c_v)
    let ticket = ticket_of scope session resp checked tab.fresh
    ok (result_of scope ticket, set_service_ticket ticket (allocate key tab))

  unfoldable pub with_session :
      Scope → Option AsSession → Tab → Result TgsError (TgsExchangeResult × Tab)
  unfolding request_ticket
  with_session scope none tab = err no_tgt
  with_session scope (some session) tab =
      if has_valid_tgt drawn.now_ms tab then request_ticket scope session tab else err no_tgt

  -- `!force && hasValidServiceTicket(scope)`, with the ticket that is there.
  unfoldable pub reuse : Scope → Bool → Tab → Option ServiceTicketSession
  reuse scope force tab =
      if not force && has_valid_service_ticket drawn.now_ms scope tab
      then get_service_ticket scope tab
      else none

  -- An error leaves the sessions as they were.
  unfoldable pub perform_tgs_exchange :
      Scope → Bool → Tab → Result TgsError (TgsExchangeResult × Tab)
  unfolding reuse with_session
  perform_tgs_exchange scope force tab = elim (reuse scope force tab) [
    | some existing ↦ ok (result_of scope existing, tab)
    | none ↦ with_session scope (get_session tab) tab
  ]
