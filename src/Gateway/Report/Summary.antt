-- ===== src/Gateway/Report/Summary.antt =====
-- The summary of the collected events. Counters are association lists in the order of their first
-- increment; keys that every object of JavaScript has, and keys that read as numbers, which it lists
-- first, are outside of the model.
pub mod Counters
pub mod Totals
use mini_banking_app.Common.{
  ℕ, ◌+◌, ◌*◌, String, Bool, true, false, not, ◌&&◌, Option, none, some, List, [], ◌∷◌, ◌++◌, map,
  ltb, leb, ◌===◌, if◌then◌else◌, get_or, length, take, filter,
}
use mini_banking_app.Common.Sort.{sort, by_key}
use mini_banking_app.Gateway.Audit.Semantics.{find_key, or_text, ◌^◌}
use mini_banking_app.Gateway.Report.{
  EnrichedEvent, Collection, summary_cap, anomaly_threshold, severity_name, category_name,
  outcome_name, is_denied_outcome, source_name,
}

-- `Record<string, number>`
abbrev pub Counts : Type 0
Counts = List (String × ℕ)

-- `m[key] = (m[key] ?? 0) + 1`
abbrev pub increment : Counts → String → Counts
increment [] key = (key, 1) ∷ []
increment ((k, n) ∷ m) key =
    let rest = increment m key in if k === key then (k, n + 1) ∷ m else (k, n) ∷ rest

pub record Tallies : Type 0 where
  pub by_severity : Counts
  pub by_category : Counts
  pub by_outcome : Counts
  pub reason_counts : Counts
  pub denied_by_actor : Counts

abbrev pub no_tallies : Tallies
no_tallies = record {
  by_severity = ("info", 0) ∷ ("warning", 0) ∷ ("critical", 0) ∷ [];
  by_category = [];
  by_outcome = ("success", 0) ∷ ("denied", 0) ∷ [];
  reason_counts = [];
  denied_by_actor = [];
}

pub record Summary : Type 0 where
  pub window_seconds : ℕ
  pub sources : List (String × Bool)
  pub total : ℕ
  pub capped : Bool
  pub by_severity : Counts
  pub by_category : Counts
  pub by_outcome : Counts
  pub security_events : ℕ
  pub top_reasons : Counts
  pub anomalies : Counts

-- `m.key`, of a key that is there
abbrev pub count_at : String → Counts → ℕ
count_at key m = get_or (find_key key m) 0

-- `(a, b) => b[1] - a[1]`
abbrev pub more_first : String × ℕ → String × ℕ → Bool
more_first a b = ltb b.1 a.1

module _ {J : Type 0} where
  abbrev pub denied_event : EnrichedEvent J → Bool
  denied_event e = is_denied_outcome e.outcome

  abbrev pub actor_key : EnrichedEvent J → String
  actor_key e = source_name e.event.source ^ ":" ^ or_text e.event.actor "unknown"

  abbrev pub count_event : Tallies → EnrichedEvent J → Tallies
  count_event t e = record {
    by_severity = increment t.by_severity (severity_name e.severity);
    by_category = increment t.by_category (category_name e.category);
    by_outcome = increment t.by_outcome (outcome_name e.outcome);
    reason_counts =
        if denied_event e && not (e.event.reason === "")
        then increment t.reason_counts e.event.reason
        else t.reason_counts;
    denied_by_actor =
        if denied_event e then increment t.denied_by_actor (actor_key e) else t.denied_by_actor;
  }

  abbrev pub tally : Tallies → List (EnrichedEvent J) → Tallies
  tally t [] = t
  tally t (e ∷ events) = tally (count_event t e) events

  unfoldable pub summarize : ℕ → Collection J → Summary
  summarize window c =
      let t = tally no_tallies c.events in
      record {
        window_seconds = window;
        sources = c.sources;
        total = length c.events;
        capped = leb summary_cap (length c.events);
        by_severity = t.by_severity;
        by_category = t.by_category;
        by_outcome = t.by_outcome;
        security_events = count_at "warning" t.by_severity + count_at "critical" t.by_severity;
        top_reasons = take 10 (sort more_first t.reason_counts);
        anomalies = sort more_first (filter (λ a. leb anomaly_threshold a.1) t.denied_by_actor);
      }
