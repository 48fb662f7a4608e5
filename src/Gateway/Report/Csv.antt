-- ===== src/Gateway/Report/Csv.antt =====
-- The export, and the cells of its CSV form.
pub mod Reader
use Prim.Native.Char.{Char, code}
use Prim.Native.String
use mini_banking_app.Common.{
  ℕ, ◌<◌, String, Bool, true, false, ◌&&◌, ◌||◌, List, [], ◌∷◌, map, ltb, leb, ◌==◌, if◌then◌else◌,
  length,
}
use mini_banking_app.Common.Split.{join}
use mini_banking_app.Gateway.Audit.Semantics.{◌^◌, ActorType, user, admin, ra, service, system}
use mini_banking_app.Gateway.Report.{
  EnrichedEvent, Collection, source_name, category_name, severity_name, outcome_name, export_cap,
  Selection,
}

abbrev pub actor_type_name : ActorType → String
actor_type_name user = "user"
actor_type_name admin = "admin"
actor_type_name ra = "ra"
actor_type_name service = "service"
actor_type_name system = "system"

abbrev pub csv_columns : List String
csv_columns =
    "timestamp" ∷ "source" ∷ "category" ∷ "severity" ∷ "outcome" ∷ "action" ∷ "actor_type"
    ∷ "actor_display" ∷ "actor" ∷ "target" ∷ "reason" ∷ "request_id" ∷ "ip" ∷ []

-- `[",\n]`
abbrev pub is_special : Char → Bool
is_special c = code c == b'"' || code c == b',' || code c == 10

abbrev pub has_special : String → Bool
has_special String.[] = false
has_special (String.◌∷◌ c s) = is_special c || has_special s

-- `s.replace(/"/g, '""')`
abbrev pub double_quotes : String → String
double_quotes String.[] = ""
double_quotes (String.◌∷◌ c s) =
    let rest = double_quotes s in
    if code c == b'"' then String.◌∷◌ c (String.◌∷◌ c rest) else String.◌∷◌ c rest

abbrev pub csv_cell : String → String
csv_cell s = if has_special s then "\"" ^ (double_quotes s ^ "\"") else s

abbrev pub csv_row : List String → String
csv_row row = join "," (map csv_cell row)

module _ {J : Type 0} where
  -- The cells under the columns.
  abbrev pub cells : EnrichedEvent J → List String
  cells e =
      e.event.timestamp
      ∷ source_name e.event.source
      ∷ category_name e.category
      ∷ severity_name e.severity
      ∷ outcome_name e.outcome
      ∷ e.event.action
      ∷ actor_type_name e.actor_type
      ∷ e.actor_display
      ∷ e.event.actor
      ∷ e.event.target
      ∷ e.event.reason
      ∷ e.event.request_id
      ∷ e.event.ip
      ∷ []

  unfoldable pub csv_document : List (EnrichedEvent J) → String
  csv_document events = join "\n" (join "," csv_columns ∷ map (λ e. csv_row (cells e)) events)
