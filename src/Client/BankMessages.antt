-- ===== src/Client/BankMessages.antt =====
-- mini-banking-app/frontend/src/services/bank: what the clients of the Bank send and receive, and what is
-- not theirs: the gateway, AES-GCM, the signature, JSON, base64 and what is drawn. The renaming of a
-- reply's fields to those of the user interface is left out: `P` are the fields of a profile, `I` the items
-- of a history.
use Prim.Native.String
use mini_banking_app.Common.{ℕ, String, false, Option, none, some, List}
use mini_banking_app.Common.Exec.{Exec, Outcome, returned, thrown, pure, throw}
use mini_banking_app.Common.Result.{Result, ok, err}
use mini_banking_app.Client.Sessions.{Scope, ServiceTicketSession, Tab, get_service_ticket}
use mini_banking_app.Client.Tgs.{Platform, Draws, TgsError, TgsExchangeResult, perform_tgs_exchange}

infixr 60 ◌^◌
abbrev pub ◌^◌ : String → String → String
s ^ t = String.◌++◌ s t

-- A value of a payload.
pub data Value : Type 0 where
  text : String → Value
  number : ℕ → Value

pub record TransferParams : Type 0 where
  pub from_account_number : String
  pub to_account_number : String
  pub amount : ℕ
  pub description : String
  pub currency : Option String
  pub pin : String

pub record TransferRequest : Type 0 where
  pub ticket_v : String
  pub authenticator : String
  pub cipher_payload : String
  pub iv : String
  pub request_id : String

pub record TransferResponse : Type 0 where
  pub ap_rep : String
  pub transaction_id : String

-- A query of a profile or of a history, whose account, limit and offset come beside it.
pub record QueryRequest : Type 0 where
  pub ticket_v : String
  pub authenticator : String
  pub request_id : String

-- The reply of the Bank, opened: what it says, with the fields of a profile.
pub record ApRep (P : Type 0) : Type 0 where
  pub result : String
  pub nonce : String
  pub tx_id : String
  pub profile : P

pub record HistoryResponse (I : Type 0) : Type 0 where
  pub ap_rep : String
  pub transactions : Option (List I)
  pub total : ℕ
  pub limit : ℕ
  pub offset : ℕ

pub record HistoryResult (I : Type 0) : Type 0 where
  pub items : List I
  pub total : ℕ
  pub limit : ℕ
  pub offset : ℕ

pub data BankError : Type 0 where
  tgs_error : TgsError → BankError
  no_ticket no_private_key bad_pin gateway_error bad_reply rejected nonce_mismatch no_account :
      BankError

-- What the authenticator says, before it is printed and encrypted.
pub record ApFields : Type 0 where
  pub client_id : String
  pub nonce : String
  pub request_id : String
  pub ts_3 : ℕ

-- `P` are the fields of a profile, `I` the items of a history; `stringify` prints the fields of an object
-- in the order of their names, and `json_string` a text.
pub record BankPlatform (P I : Type 0) : Type 1 where
  pub Blob : Type 0
  pub wrapped_private_key : Option Blob
  pub print_authenticator : ApFields → String
  pub encrypt : List ℕ → String → List ℕ
  pub to_base64 : List ℕ → String
  pub stringify : List (String × Value) → String
  pub json_string : String → String
  pub sign_pss : Blob → String → String → Option (List ℕ)
  pub post_transfer : TransferRequest → Option TransferResponse
  pub post_profile : QueryRequest → Option String
  pub post_history : String → ℕ → ℕ → QueryRequest → Option (HistoryResponse I)
  pub open_ap_rep : List ℕ → String → Option (ApRep P)

-- A nonce in base64, two UUIDs and the time in seconds.
pub record BankDraws : Type 0 where
  pub nonce : String
  pub request_id : String
  pub idempotency_key : String
  pub ts_3 : ℕ

module _ (tgs : Platform) (tgs_drawn : Draws) where
  -- `performTgsExchange(SCOPE, false)` and `getServiceTicket(SCOPE)`
  abbrev pub take_ticket :
      Option ServiceTicketSession → Tab → Outcome BankError ServiceTicketSession × Tab
  take_ticket none tab = (thrown no_ticket, tab)
  take_ticket (some t) tab = (returned t, tab)

  abbrev pub after_exchange :
      Scope
      → Tab
      → Result TgsError (TgsExchangeResult × Tab)
      → Outcome BankError ServiceTicketSession × Tab
  after_exchange scope tab (err e) = (thrown (tgs_error e), tab)
  after_exchange scope tab (ok (r, tab')) = take_ticket (get_service_ticket scope tab') tab'

  unfoldable pub ensure_ticket : Scope → Exec Tab BankError ServiceTicketSession
  ensure_ticket scope tab =
      after_exchange scope tab (perform_tgs_exchange tgs tgs_drawn scope false tab)

abbrev pub or_throw : {A : Type 0} → BankError → Option A → Exec Tab BankError A
or_throw e none = throw e
or_throw e (some a) = pure a
