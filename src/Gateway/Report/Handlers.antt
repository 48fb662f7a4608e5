-- ===== src/Gateway/Report/Handlers.antt =====
-- handleAuditSummary and handleAuditExport. What zod gives of a query is an argument: the message of
-- its first issue, or the query; the services of a window are a function of it.
use mini_banking_app.Common.{
  ℕ, ◌≤◌, ◌<◌, ◌≡◌, refl, inl, String, Bool, false, ◌&&◌, Option, none, some, List, [], ◌∷◌, ◌++◌,
  map, leb, ltb, if◌then◌else◌, length,
}
use mathlib.Core.List.{Perm}
use mini_banking_app.Common.Sort.{IsSorted}
use mini_banking_app.Common.Result.{Result, ok, err}
use mini_banking_app.Gateway.Http.{Exception}
use mini_banking_app.Gateway.Audit.Fetch.{NormalizedEvent}
use mini_banking_app.Gateway.Audit.Fetch.Request.{
  read_cookie, bank_session_cookie, parse_window_seconds,
}
use mini_banking_app.Gateway.Report.{
  EnrichedEvent, enrich, time_of, Collection, collect, AuditServices, Selection, all, Run,
  summary_cap, export_cap,
}
use mini_banking_app.Gateway.Report.Summary.{Summary, summarize}
use mini_banking_app.Gateway.Report.Csv.{csv_document, csv_columns, cells}
use mini_banking_app.Gateway.Report.Csv.Reader.{read_csv, read_csv-csv_document}
use mini_banking_app.Gateway.Report.Collected.{from_all, collect_earliest}

pub data Answer (J : Type 0) : Type 0 where
  invalid_request : String → Answer J
  summary : Summary → Answer J
  csv : String → Answer J
  json : ℕ → Bool → List (EnrichedEvent J) → Answer J

pub data Format : Type 0 where
  json_format csv_format : Format

-- The bounds are in seconds since 1970, and 0 if they are missing.
pub record ExportQuery : Type 0 where
  pub source : Selection
  pub format : Format
  pub from : ℕ
  pub to : ℕ

-- `none` is a run that has not ended, `err` what goes to the error handler.
module _ {J : Type 0} where
  abbrev pub answer_with : (Collection J → Answer J) → Run (Collection J) → Run (Answer J)
  answer_with f none = none
  answer_with f (some (err e)) = some (err e)
  answer_with f (some (ok c)) = some (ok (f c))

  abbrev pub exported : Format → Collection J → Answer J
  exported csv_format c = csv (csv_document c.events)
  exported json_format c = json (length c.events) (leb export_cap (length c.events)) c.events

module _ {J : Type 0} (parse_json : String → Option J) (iso : ℕ → String) (bank_action : ℕ → String)
    (decode : String → Result Exception String) (cookies : String) where
  abbrev pub bank_cookie : Result Exception String
  bank_cookie = read_cookie decode cookies bank_session_cookie

  -- A missing window is the empty text.
  unfoldable pub handle_audit_summary : (ℕ → AuditServices) → Result String String → Run (Answer J)
  handle_audit_summary services (err message) = some (ok (invalid_request message))
  handle_audit_summary services (ok window) =
      let seconds = parse_window_seconds window in
      answer_with (λ c. summary (summarize seconds c))
        (collect parse_json iso bank_action (services seconds) summary_cap all bank_cookie)

  unfoldable pub handle_audit_export :
      (ℕ → ℕ → AuditServices) → Result String ExportQuery → Run (Answer J)
  handle_audit_export services (err message) = some (ok (invalid_request message))
  handle_audit_export services (ok q) =
      let run = answer_with (exported q.format) (
        collect parse_json iso bank_action (services q.from q.to) export_cap q.source
          bank_cookie) in
      if ltb 0 q.from && ltb 0 q.to && ltb q.to q.from
      then some (ok (invalid_request "to must not be before from"))
      else run

  module _ (services : ℕ → ℕ → AuditServices) (q : ExportQuery) (token : String) where
    -- What the wanted sources answered with in the window of the query.
    abbrev pub found : List (NormalizedEvent J)
    found = (from_all parse_json iso bank_action (services q.from q.to) export_cap q.source token).0

    -- The CSV export of a query whose bounds are not both given and in the wrong order, where the Bank's
    -- cookie can be read, is always answered with a document from which a reader, with quotes as in RFC
    -- 4180 and rows that end at a line feed, gets the columns and a row of cells for each exported event.
    -- These events are at most `export_cap`, in the order of time, and the earliest of all those that the
    -- wanted sources answered with; where they are fewer than `export_cap`, they are all of them.
    pub handle_audit_export-csv :
        bank_cookie ≡ ok token
        → (ltb 0 q.from && ltb 0 q.to && ltb q.to q.from) ≡ false
        → q.format ≡ csv_format
        → (document : String) × (events : List (EnrichedEvent J)) × (later : List (EnrichedEvent J))
          × (handle_audit_export services (ok q) ≡ some (ok (csv document)))
          × (read_csv document ≡ csv_columns ∷ map cells events)
          × Perm (events ++ later) (map enrich found)
          × IsSorted time_of (events ++ later)
          × (length events ≤ export_cap)
          × (length events < export_cap → later ≡ [])
    unfolding handle_audit_export
    handle_audit_export-csv cookie in_order format =
        let (c, later, run, all_found, sorted, bounded, whole, _) =
          collect_earliest parse_json iso bank_action (services q.from q.to) export_cap q.source
            token (ok token) (inl refl) in
        (
          csv_document c.events,
          c.events,
          later,
          rw (in_order, cookie, run, format) refl,
          read_csv-csv_document c.events,
          all_found,
          sorted,
          bounded,
          whole,
        )
