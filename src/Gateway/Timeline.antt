-- ===== src/Gateway/Timeline.antt =====
-- mini-banking-app/api-gateway/src/controller/admin-timeline.controller.ts: the events of one request
-- across the services, and the check of their hash chains. The services, which may fail with a text,
-- JSON, the printing of dates and what zod and the Bank's cookie give are arguments.
pub mod Merged
use mini_banking_app.Common.{
  ℕ, ◌*◌, String, Bool, true, false, not, ◌&&◌, ◌||◌, Option, none, some, List, [], ◌∷◌, ◌++◌, map,
  ◌===◌, if◌then◌else◌, length,
}
use mini_banking_app.Common.Ascii.{to_lower_case}
use mini_banking_app.Common.Result.{Result, ok, err}
use mini_banking_app.Common.Sort.{sort, by_key}
use mini_banking_app.Gateway.Audit.Semantics.{
  AuditSource, ca, kdc, bank, AuditSemantics, enrich_audit, or_text,
}
use mini_banking_app.Gateway.Audit.Fetch.{CaEvent, KdcEvent, BankEvent, Metadata, safe_json}

pub data TimelineMetadata (J : Type 0) : Type 0 where
  ca_fields : List (String × String) → TimelineMetadata J
  kdc_fields : Option J → String → String → TimelineMetadata J
  bank_fields : Metadata J → TimelineMetadata J

pub record TimelineItem (J : Type 0) : Type 0 where
  pub source : AuditSource
  pub action : String
  pub actor : String
  pub target : String
  pub reason : String
  pub request_id : String
  pub timestamp : String
  pub ts : ℕ
  pub metadata : TimelineMetadata J

-- A row of the answer: an item without its `ts`, with its semantics.
pub record TimelineRow (J : Type 0) : Type 0 where
  pub source : AuditSource
  pub action : String
  pub target : String
  pub reason : String
  pub request_id : String
  pub timestamp : String
  pub metadata : TimelineMetadata J
  pub semantics : AuditSemantics

-- `none` is a source that is included, `some` the reason why it is not.
abbrev pub Sources : Type 0
Sources = List (String × Option String)

pub record Timeline (J : Type 0) : Type 0 where
  pub request_id : String
  pub count : ℕ
  pub sources : Sources
  pub items : List (TimelineRow J)

-- The items and the sources while they grow.
abbrev pub Merged : Type 0 → Type 0
Merged J = List (TimelineItem J) × Sources

module _ {J : Type 0} where
  abbrev pub row_of : TimelineItem J → TimelineRow J
  row_of item = record {
    source = item.source;
    action = item.action;
    target = item.target;
    reason = item.reason;
    request_id = item.request_id;
    timestamp = item.timestamp;
    metadata = item.metadata;
    semantics = enrich_audit (record {
      source = item.source;
      action = item.action;
      actor = item.actor;
      reason = item.reason;
      target = item.target;
    });
  }

  -- One `try`: the items of the events, or the reason of the failure.
  abbrev pub add_source :
      {E : Type 0} → String → (E → TimelineItem J) → Result String (List E) → Merged J → Merged J
  add_source name item (err reason) m = (m.0, m.1 ++ ((name, some reason) ∷ []))
  add_source name item (ok events) m = (m.0 ++ map item events, m.1 ++ ((name, none) ∷ []))

-- The listings of one request, up to a limit; the Bank's takes the token of a session.
pub record TimelineServices : Type 0 where
  pub list_ca : String → ℕ → Result String (List CaEvent)
  pub list_kdc : String → ℕ → Result String (List KdcEvent)
  pub list_bank : String → String → ℕ → Result String (List BankEvent)

module _ {J : Type 0} (parse_json : String → Option J) (is_object : J → Bool) (iso : ℕ → String)
    (bank_action : ℕ → String) (trace_id : String) where
  abbrev pub safe_json_object : String → Option J
  safe_json_object text = elim (parse_json text) [
    | none ↦ none
    | some j ↦ if is_object j then some j else none
  ]

  abbrev pub ca_item : CaEvent → TimelineItem J
  ca_item e = record {
    source = ca;
    action = e.action;
    actor = e.performed_by;
    target = e.serial_number;
    reason = e.reason;
    request_id = trace_id;
    timestamp = iso (e.performed_at_unix * 1000);
    ts = e.performed_at_unix;
    metadata = ca_fields e.metadata;
  }

  abbrev pub kdc_item : KdcEvent → TimelineItem J
  kdc_item e = record {
    source = kdc;
    action = e.action;
    actor = e.client_id;
    target = e.cert_serial;
    reason = e.reason;
    request_id = trace_id;
    timestamp = iso (e.created_at_unix * 1000);
    ts = e.created_at_unix;
    metadata = kdc_fields (safe_json_object e.metadata_json) e.scope e.ip;
  }

  abbrev pub bank_item : BankEvent → TimelineItem J
  bank_item e = record {
    source = bank;
    action = to_lower_case (bank_action e.action);
    actor = e.user_id;
    target = or_text (or_text e.transaction_id e.account_id) e.cert_serial;
    reason = e.reason;
    request_id = trace_id;
    timestamp = iso (e.created_at_unix * 1000);
    ts = e.created_at_unix;
    metadata = bank_fields (safe_json parse_json e.metadata_json);
  }

  abbrev pub merge_bank : TimelineServices → ℕ → String → Merged J → Merged J
  merge_bank services limit token m =
      if token === ""
      then (m.0, m.1 ++ (("bank", some "bank_admin_session_required") ∷ []))
      else add_source "bank" bank_item (services.list_bank token trace_id limit) m

  abbrev pub merged : TimelineServices → ℕ → String → Merged J
  merged services limit token = merge_bank services limit token (
      add_source "kdc" kdc_item (services.list_kdc trace_id limit)
        (add_source "ca" ca_item (services.list_ca trace_id limit) ([], [])))

  -- The answer to a valid query, where the Bank's cookie could be read.
  unfoldable pub handle_audit_timeline : TimelineServices → ℕ → String → Timeline J
  handle_audit_timeline services limit token =
      let m = merged services limit token in
      let rows = map row_of (sort (by_key (λ item. item.ts)) m.0) in
      record { request_id = trace_id; count = length rows; sources = m.1; items = rows }

-- What a service says of its chain of audit events.
pub record ChainReport : Type 0 where
  pub ok : Bool
  pub checked : ℕ
  pub broken_seq : ℕ
  pub broken_id : String
  pub detail : String

-- `{ checked, ok, verified, broken_seq, broken_id, detail }`; what is undefined is `none`.
pub record SourceCheck : Type 0 where
  pub checked : Bool
  pub ok : Option Bool
  pub verified : Option ℕ
  pub broken_seq : Option ℕ
  pub broken_id : Option String
  pub detail : Option String

abbrev pub unchecked : String → SourceCheck
unchecked reason = record {
  checked = false;
  ok = none;
  verified = none;
  broken_seq = none;
  broken_id = none;
  detail = some reason;
}

abbrev pub if_broken : {A : Type 0} → Bool → A → Option A
if_broken true a = none
if_broken false a = some a

abbrev pub check_of : Result String ChainReport → SourceCheck
check_of (err reason) = unchecked reason
check_of (ok report) = record {
  checked = true;
  ok = some report.ok;
  verified = some report.checked;
  broken_seq = if_broken report.ok report.broken_seq;
  broken_id = if_broken report.ok report.broken_id;
  detail = if_broken report.ok report.detail;
}

abbrev pub not_false : Option Bool → Bool
not_false (some false) = false
not_false _ = true

abbrev pub all_ok : List (String × SourceCheck) → Bool
all_ok [] = true
all_ok ((name, r) ∷ rs) = let rest = all_ok rs in (not r.checked || not_false r.ok) && rest

-- The answer: whether all is well, and what each source says.
unfoldable pub handle_audit_verify :
    Result String ChainReport
    → Result String ChainReport
    → (String → Result String ChainReport)
    → String
    → Bool × List (String × SourceCheck)
handle_audit_verify verify_ca verify_kdc verify_bank token =
    let bank_check =
      if token === ""
      then unchecked "bank_admin_session_required"
      else check_of (verify_bank token) in
    let results =
      ("ca", check_of verify_ca) ∷ ("kdc", check_of verify_kdc) ∷ ("bank", bank_check) ∷ [] in
    (all_ok results, results)
