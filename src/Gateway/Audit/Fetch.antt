-- ===== src/Gateway/Audit/Fetch.antt =====
-- mini-banking-app/api-gateway/src/lib/audit-fetch.ts: all events of a window, page by page. The
-- services that list events, `bankAuditActionToJSON`, `JSON.parse` and the printing of dates are
-- arguments; the window, which the services are called with, is part of what they are.
pub mod Paging
pub mod Request
use Prim.Native.String
use mini_banking_app.Common.{
  ℕ, zero, suc, ◌+◌, ◌*◌, String, Bool, true, false, Option, none, some, List, [], ◌∷◌, ◌++◌, map,
  ltb, ◌===◌, if◌then◌else◌, get_or, length, take,
}
use mini_banking_app.Common.Ascii.{to_lower_case, trim, split_at}
use mini_banking_app.Common.Decimal.{parse_int}
use mini_banking_app.Common.Result.{Result, ok, err}
use mini_banking_app.Gateway.Audit.Semantics.{AuditSource, ca, kdc, bank, find_key, or_text}

pub data Metadata (J : Type 0) : Type 0 where
  fields : List (String × String) → Metadata J
  parsed : J → Metadata J
  raw : String → Metadata J

pub record NormalizedEvent (J : Type 0) : Type 0 where
  pub source : AuditSource
  pub action : String
  pub actor : String
  pub target : String
  pub reason : String
  pub request_id : String
  pub ip : String
  pub scope : String
  pub timestamp : String
  pub ts : ℕ
  pub metadata : Metadata J

-- The events of the three services, as far as they are read.
pub record CaEvent : Type 0 where
  pub action : String
  pub performed_by : String
  pub serial_number : String
  pub reason : String
  pub metadata : List (String × String)
  pub performed_at_unix : ℕ

pub record KdcEvent : Type 0 where
  pub action : String
  pub client_id : String
  pub cert_serial : String
  pub reason : String
  pub request_id : String
  pub ip : String
  pub scope : String
  pub created_at_unix : ℕ
  pub metadata_json : String

pub record BankEvent : Type 0 where
  pub action : ℕ
  pub user_id : String
  pub transaction_id : String
  pub account_id : String
  pub cert_serial : String
  pub reason : String
  pub request_id : String
  pub created_at_unix : ℕ
  pub metadata_json : String

abbrev pub page : ℕ
page = 100

abbrev pub meta_request_id : List (String × String) → String
meta_request_id metadata = get_or (find_key "request_id" metadata) ""

module _ {J : Type 0} (parse_json : String → Option J) where
  abbrev pub safe_json : String → Metadata J
  safe_json text = elim (parse_json text) [ none ↦ raw text | some j ↦ parsed j ]

-- One of the three loops: `list` answers a limit and an offset. `none` is a loop that has not ended
-- when the fuel has.
module _ {E V N : Type 0} (list : ℕ → ℕ → Result E (List V)) (normalize : V → N) (cap : ℕ) where
  -- The rest of a turn, once the page is there; `more` is the next turn.
  abbrev pub push_page :
      (List N → Option (Result E (List N)))
      → List N
      → Result E (List V)
      → Option (Result E (List N))
  push_page more out (err e) = some (err e)
  push_page more out (ok events) =
      let out' = out ++ map normalize events in
      if ltb (length events) page then some (ok (take cap out')) else more out'

  abbrev pub pages : ℕ → ℕ → List N → Option (Result E (List N))
  pages zero offset out = none
  pages (suc fuel) offset out =
      if ltb (length out) cap
      then push_page (pages fuel (offset + page)) out (list page offset)
      else some (ok (take cap out))

  -- Every page but the last one adds `page` events, so this fuel is enough.
  unfoldable pub fetch_window : Option (Result E (List N))
  fetch_window = pages (suc cap) 0 []

module _ {J : Type 0} (parse_json : String → Option J) (iso : ℕ → String)
    (bank_action : ℕ → String) where
  abbrev pub normalize_ca : CaEvent → NormalizedEvent J
  normalize_ca e = record {
    source = ca;
    action = e.action;
    actor = e.performed_by;
    target = e.serial_number;
    reason = e.reason;
    request_id = meta_request_id e.metadata;
    ip = "";
    scope = "";
    timestamp = iso (e.performed_at_unix * 1000);
    ts = e.performed_at_unix;
    metadata = fields e.metadata;
  }

  abbrev pub normalize_kdc : KdcEvent → NormalizedEvent J
  normalize_kdc e = record {
    source = kdc;
    action = e.action;
    actor = e.client_id;
    target = e.cert_serial;
    reason = e.reason;
    request_id = e.request_id;
    ip = e.ip;
    scope = e.scope;
    timestamp = iso (e.created_at_unix * 1000);
    ts = e.created_at_unix;
    metadata = safe_json parse_json e.metadata_json;
  }

  abbrev pub normalize_bank : BankEvent → NormalizedEvent J
  normalize_bank e = record {
    source = bank;
    action = to_lower_case (bank_action e.action);
    actor = e.user_id;
    target = or_text (or_text e.transaction_id e.account_id) e.cert_serial;
    reason = e.reason;
    request_id = e.request_id;
    ip = "";
    scope = "";
    timestamp = iso (e.created_at_unix * 1000);
    ts = e.created_at_unix;
    metadata = safe_json parse_json e.metadata_json;
  }

  module _ {E : Type 0} where
    unfoldable pub fetch_ca_window :
        (ℕ → ℕ → Result E (List CaEvent)) → ℕ → Option (Result E (List (NormalizedEvent J)))
    unfolding fetch_window
    fetch_ca_window list cap = fetch_window list normalize_ca cap

    unfoldable pub fetch_kdc_window :
        (ℕ → ℕ → Result E (List KdcEvent)) → ℕ → Option (Result E (List (NormalizedEvent J)))
    unfolding fetch_window
    fetch_kdc_window list cap = fetch_window list normalize_kdc cap

    unfoldable pub fetch_bank_window :
        (ℕ → ℕ → Result E (List BankEvent)) → ℕ → Option (Result E (List (NormalizedEvent J)))
    unfolding fetch_window
    fetch_bank_window list cap = fetch_window list normalize_bank cap

-- The seconds of a unit of the pattern.
abbrev pub unit_seconds : List (String × ℕ)
unit_seconds = ("s", 1) ∷ ("m", 60) ∷ ("h", 3600) ∷ ("d", 86400) ∷ []
