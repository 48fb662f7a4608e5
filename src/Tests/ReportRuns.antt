-- ===== src/Tests/ReportRuns.antt =====
-- Reports over a few audit events: the CA has two, the KDC fails, and the Bank is not asked.
use mini_banking_app.Common.{
  ℕ, ◌+◌, ◌≤◌, ◌<◌, ◌≡◌, ◌⊎◌, refl, String, true, Option, none, some, List, [], ◌∷◌, ◌++◌, map,
  length, take, drop, ◌===◌, All,
}
use mathlib.Core.List.{Perm}
use mini_banking_app.Common.Result.{Result, ok, err}
use mini_banking_app.Common.Sort.{IsSorted}
use mini_banking_app.Gateway.Http.{Exception, redis_error}
use mini_banking_app.Gateway.Audit.Semantics.{
  AuditSeverity, AuditOutcome, actor_of, category_of, severity_of, is_denied, describe,
  enrich_audit,
}
use mini_banking_app.Gateway.Audit.Fetch.{CaEvent, KdcEvent, BankEvent}
use mini_banking_app.Gateway.Audit.Fetch.Request.{read_cookie}
use mini_banking_app.Gateway.Report.{
  EnrichedEvent, enrich, time_of, all, Selection, only, wants, AuditServices, Collection, collect,
  severity_name, category_name, outcome_name, anomaly_threshold, export_cap,
}
use mini_banking_app.Gateway.Report.Collected.{from_all, Given, collect-Earliest}
use mini_banking_app.Gateway.Report.Summary.{count_at, summarize}
use mini_banking_app.Gateway.Report.Summary.Counters.{number_of, has}
use mini_banking_app.Gateway.Report.Summary.Totals.{
  denied_to, summarize-totals, summarize-anomalies,
}
use mini_banking_app.Gateway.Report.Csv.{csv_columns, cells, csv_document}
use mini_banking_app.Gateway.Report.Csv.Reader.{read_csv, read_csv-csv_document}
use mini_banking_app.Gateway.Report.Handlers.{
  ExportQuery, csv_format, csv, found, handle_audit_export, handle_audit_export-csv,
}

abbrev ca_event : String → ℕ → CaEvent
ca_event reason at = record {
  action = "ra_otp_failed";
  performed_by = "ra:otp";
  serial_number = "0A";
  reason = reason;
  metadata = [];
  performed_at_unix = at;
}

abbrev ca_log : List CaEvent
ca_log = ca_event "late, \"twice\"" 30 ∷ ca_event "wrong" 10 ∷ []

abbrev services : AuditServices
services = record {
  Fault = String;
  list_ca = λ limit offset. ok (take limit (drop offset ca_log));
  list_kdc = λ limit offset. err "down";
  list_bank = λ token limit offset. ok [];
}

abbrev parse_json : String → Option String
parse_json text = none

abbrev iso : ℕ → String
iso n = "T"

abbrev bank_action : ℕ → String
bank_action n = "TRANSFER_COMPLETED"

abbrev decode : String → Result Exception String
decode text = ok text

-- The cookie cannot be read, and the Bank is not wanted.
abbrev unread : Result Exception String
unread = err redis_error

abbrev from_the_ca : Selection
from_the_ca = only mini_banking_app.Gateway.Audit.Semantics.ca

collect-Earliest_example :
    ((e : Exception) × (unread ≡ err e)
      × (wants from_the_ca mini_banking_app.Gateway.Audit.Semantics.bank ≡ true)
      × (collect parse_json iso bank_action services 1 from_the_ca unread ≡ some (err e)))
    ⊎ ((token : String) × Given parse_json iso bank_action services 1 from_the_ca token unread
        × ((c : Collection String) × (later : List (EnrichedEvent String)) × (collect parse_json iso
                bank_action services 1 from_the_ca unread
              ≡ some (ok c))
            × Perm
                (c.events ++ later)
                (map enrich (from_all parse_json iso bank_action services 1 from_the_ca token).0)
            × IsSorted time_of (c.events ++ later)
            × (length c.events ≤ 1)
            × (length c.events < 1 → later ≡ [])
            × (c.sources ≡ (from_all parse_json iso bank_action services 1 from_the_ca token).1)))
collect-Earliest_example = collect-Earliest parse_json iso bank_action services 1 from_the_ca unread

abbrev enriched : ℕ → EnrichedEvent String
enriched at = enrich record {
  source = mini_banking_app.Gateway.Audit.Semantics.ca;
  action = "ra_otp_failed";
  actor = "ra:otp";
  target = "0A";
  reason = "wrong, \"twice\"";
  request_id = "r";
  ip = "";
  scope = "";
  timestamp = "T";
  ts = at;
  metadata = mini_banking_app.Gateway.Audit.Fetch.fields [];
}

abbrev collected : Collection String
collected = record {
  events = enriched 1 ∷ enriched 2 ∷ enriched 3 ∷ enriched 4 ∷ enriched 5 ∷ [];
  sources = [];
}

summarize-totals_example :
    ((s : AuditSeverity)
      → count_at (severity_name s) (summarize 60 collected).by_severity
        ≡ number_of (λ e. severity_name e.severity === severity_name s) collected.events)
    × ((k : String)
        → count_at k (summarize 60 collected).by_category
          ≡ number_of (λ e. category_name e.category === k) collected.events)
    × ((o : AuditOutcome)
        → count_at (outcome_name o) (summarize 60 collected).by_outcome
          ≡ number_of (λ e. outcome_name e.outcome === outcome_name o) collected.events)
    × (count_at "info" (summarize 60 collected).by_severity
          + (summarize 60 collected).security_events
        ≡ (summarize 60 collected).total)
    × (count_at "success" (summarize 60 collected).by_outcome
          + count_at "denied" (summarize 60 collected).by_outcome
        ≡ (summarize 60 collected).total)
summarize-totals_example = summarize-totals 60 collected

summarize-anomalies_example :
    All
      (λ entry.
        (entry.1 ≡ number_of (denied_to entry.0) collected.events) × (anomaly_threshold ≤ entry.1))
      (summarize 60 collected).anomalies
    × ((actor : String)
        → anomaly_threshold ≤ number_of (denied_to actor) collected.events
        → has actor (summarize 60 collected).anomalies ≡ true)
summarize-anomalies_example = summarize-anomalies 60 collected

read_csv-csv_document_example :
    read_csv (csv_document collected.events) ≡ csv_columns ∷ map cells collected.events
read_csv-csv_document_example = read_csv-csv_document collected.events

abbrev query : ExportQuery
query = record { source = all; format = csv_format; from = 5; to = 90 }

abbrev services_of : ℕ → ℕ → AuditServices
services_of from to = services

handle_audit_export-csv_example :
    (document : String) × (events : List (EnrichedEvent String)) × (later : List
      (EnrichedEvent String))
    × (handle_audit_export parse_json iso bank_action decode "" services_of (ok query)
        ≡ some (ok (csv document)))
    × (read_csv document ≡ csv_columns ∷ map cells events)
    × Perm
        (events ++ later)
        (map enrich (found parse_json iso bank_action decode "" services_of query ""))
    × IsSorted time_of (events ++ later)
    × (length events ≤ export_cap)
    × (length events < export_cap → later ≡ [])
unfolding read_cookie
handle_audit_export-csv_example =
    handle_audit_export-csv parse_json iso bank_action decode "" services_of query "" refl refl refl
