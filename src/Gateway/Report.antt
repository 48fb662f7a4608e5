-- ===== src/Gateway/Report.antt =====
-- mini-banking-app/api-gateway/src/controller/admin-audit-report.controller.ts: the summary and the
-- export of the audit events. The services, what zod gives of a query, and `decodeURIComponent` are
-- arguments. Left out are the printed dates of an answer and the name of the exported file.
pub mod Collected
pub mod Summary
pub mod Csv
pub mod Handlers
use mini_banking_app.Common.{
  ℕ, ◌+◌, ◌*◌, String, Bool, true, false, not, ◌&&◌, Option, none, some, List, [], ◌∷◌, ◌++◌, map,
  ltb, leb, ◌===◌, if◌then◌else◌, get_or, length, take, filter,
}
use mini_banking_app.Common.Result.{Result, ok, err}
use mini_banking_app.Common.Sort.{sort, by_key}
use mini_banking_app.Gateway.Http.{Exception}
use mini_banking_app.Gateway.Audit.Semantics.{
  AuditSource, ca, kdc, bank, Category, listed, inherited_function, inherited_object, key_issuance,
  cert_lifecycle, authentication, resource_access, admin_action, AuditSeverity, info, warning,
  critical, AuditOutcome, success, denied, ActorType, AuditSemantics, enrich_audit, find_key,
  or_text, ◌^◌,
}
use mini_banking_app.Gateway.Audit.Fetch.{
  NormalizedEvent, CaEvent, KdcEvent, BankEvent, fetch_ca_window, fetch_kdc_window,
  fetch_bank_window,
}

abbrev pub summary_cap : ℕ
summary_cap = 2000

abbrev pub export_cap : ℕ
export_cap = 5000

abbrev pub anomaly_threshold : ℕ
anomaly_threshold = 5

-- The fields of the event, and what they mean.
pub record EnrichedEvent (J : Type 0) : Type 0 where
  pub event : NormalizedEvent J
  pub category : Category
  pub severity : AuditSeverity
  pub outcome : AuditOutcome
  pub actor_type : ActorType
  pub actor_display : String
  pub description : String

-- The texts of the source's unions of literals. What is inherited is no category, and its text is the one
-- that V8 gives for it.
abbrev pub source_name : AuditSource → String
source_name ca = "ca"
source_name kdc = "kdc"
source_name bank = "bank"

abbrev pub category_name : Category → String
category_name inherited_function = "function Object() { [native code] }"
category_name inherited_object = "[object Object]"
category_name (listed key_issuance) = "key_issuance"
category_name (listed cert_lifecycle) = "cert_lifecycle"
category_name (listed authentication) = "authentication"
category_name (listed resource_access) = "resource_access"
category_name (listed admin_action) = "admin_action"

abbrev pub severity_name : AuditSeverity → String
severity_name info = "info"
severity_name warning = "warning"
severity_name critical = "critical"

abbrev pub outcome_name : AuditOutcome → String
outcome_name success = "success"
outcome_name denied = "denied"

abbrev pub is_denied_outcome : AuditOutcome → Bool
is_denied_outcome success = false
is_denied_outcome denied = true

module _ {J : Type 0} where
  unfoldable pub enrich : NormalizedEvent J → EnrichedEvent J
  enrich e =
      let s = enrich_audit record {
        source = e.source;
        action = e.action;
        actor = e.actor;
        reason = e.reason;
        target = e.target;
      } in
      record {
        event = e;
        category = s.category;
        severity = s.severity;
        outcome = s.outcome;
        actor_type = s.actor.type;
        actor_display = s.actor.display;
        description = s.description;
      }

  abbrev pub time_of : EnrichedEvent J → ℕ
  time_of e = e.event.ts

-- `source` of a query
pub data Selection : Type 0 where
  all : Selection
  only : AuditSource → Selection

abbrev pub wants : Selection → AuditSource → Bool
wants all source = true
wants (only s) source = source_name s === source_name source

-- The listings of the services in one window; the Bank's takes the token of a session.
pub record AuditServices : Type 1 where
  pub Fault : Type 0
  pub list_ca : ℕ → ℕ → Result Fault (List CaEvent)
  pub list_kdc : ℕ → ℕ → Result Fault (List KdcEvent)
  pub list_bank : String → ℕ → ℕ → Result Fault (List BankEvent)

-- `events` and `sources` while they grow: which sources were asked, and which of them answered.
abbrev pub Gathered : Type 0 → Type 0
Gathered N = List N × List (String × Bool)

module _ {E N : Type 0} where
  -- `try { events.push(...(await fetch)); ok = true } catch { ok = false }`; `none` is a fetch that
  -- has not ended.
  abbrev pub push_events :
      AuditSource → Option (Result E (List N)) → Gathered N → Option (Gathered N)
  push_events source none g = none
  push_events source (some (err e)) g = some (g.0, g.1 ++ ((source_name source, false) ∷ []))
  push_events source (some (ok events)) g =
      some (g.0 ++ events, g.1 ++ ((source_name source, true) ∷ []))

pub record Collection (J : Type 0) : Type 0 where
  pub events : List (EnrichedEvent J)
  pub sources : List (String × Bool)

-- What a run gives: `none` is one that has not ended, `err` one that throws.
abbrev pub Run : Type 0 → Type 0
Run A = Option (Result Exception A)

module _ {A B : Type 0} where
  abbrev pub and_then : Option A → (A → Run B) → Run B
  and_then none f = none
  and_then (some a) f = f a

module _ {J : Type 0} (parse_json : String → Option J) (iso : ℕ → String) (bank_action : ℕ → String)
    (services : AuditServices) (cap : ℕ) (selection : Selection) where
  unfoldable pub collect_ca : Gathered (NormalizedEvent J) → Option (Gathered (NormalizedEvent J))
  collect_ca g =
      if wants selection ca
      then push_events ca (fetch_ca_window parse_json iso bank_action services.list_ca cap) g
      else some g

  unfoldable pub collect_kdc : Gathered (NormalizedEvent J) → Option (Gathered (NormalizedEvent J))
  collect_kdc g =
      if wants selection kdc
      then push_events kdc (fetch_kdc_window parse_json iso bank_action services.list_kdc cap) g
      else some g

  abbrev pub collect_bank_as :
      String → Gathered (NormalizedEvent J) → Option (Gathered (NormalizedEvent J))
  collect_bank_as token g =
      if token === ""
      then some (g.0, g.1 ++ (("bank", false) ∷ []))
      else push_events bank
          (fetch_bank_window parse_json iso bank_action (services.list_bank token) cap) g

  abbrev pub finish : Gathered (NormalizedEvent J) → Collection J
  finish g = record {
    events = map enrich (take cap (sort (by_key (λ e. e.ts)) g.0));
    sources = g.1;
  }

  -- `cookie` is what reading the Bank's cookie gives, or throws.
  abbrev pub collect_bank :
      Result Exception String → Gathered (NormalizedEvent J) → Run (Collection J)
  collect_bank cookie g =
      if wants selection bank
      then elim cookie [
        | err e ↦ some (err e)
        | ok token ↦ and_then (collect_bank_as token g) (λ g'. some (ok (finish g')))
      ]
      else some (ok (finish g))

  unfoldable pub collect : Result Exception String → Run (Collection J)
  unfolding collect_ca collect_kdc
  collect cookie =
      and_then (collect_ca ([], [])) λ g. and_then (collect_kdc g) λ g'. collect_bank cookie g'
