-- ===== src/Gateway/Report/Summary/Totals.antt =====
-- The numbers of a summary are those of its events.
use mini_banking_app.Common.{
  ℕ, ◌+◌, ◌≤◌, ◌≡◌, refl, sym, ◌∙◌, arith, String, Bool, true, false, not, ◌&&◌, List, [], ◌∷◌,
  ◌===◌, if◌then◌else◌, length, leb, filter, All, map-All, leb→le,
}
use mini_banking_app.Common.Sort.{sort-All}
use mini_banking_app.Gateway.Audit.Semantics.{
  info, warning, critical, AuditSeverity, success, denied, AuditOutcome,
}
use mini_banking_app.Gateway.Report.{
  EnrichedEvent, Collection, severity_name, category_name, outcome_name, anomaly_threshold,
}
use mini_banking_app.Gateway.Report.Summary.{
  Tallies, no_tallies, count_at, increment, denied_event, actor_key, count_event, tally, summarize,
  more_first,
}
use mini_banking_app.Gateway.Report.Summary.Counters.{
  number_of, count_at-increment, has, Distinct, increment-Distinct, entries, filter-All, has-filter,
  has-sort,
}

one_severity :
    (s : AuditSeverity)
    → (if severity_name s === "info" then 1 else 0)
        + (if severity_name s === "warning" then 1 else 0)
        + (if severity_name s === "critical" then 1 else 0)
      ≡ 1
one_severity info = refl
one_severity warning = refl
one_severity critical = refl

one_outcome :
    (o : AuditOutcome)
    → (if outcome_name o === "success" then 1 else 0)
        + (if outcome_name o === "denied" then 1 else 0)
      ≡ 1
one_outcome success = refl
one_outcome denied = refl

module _ {J : Type 0} where
  abbrev pub reasoned : String → EnrichedEvent J → Bool
  reasoned k e = denied_event e && not (e.event.reason === "") && (e.event.reason === k)

  abbrev pub denied_to : String → EnrichedEvent J → Bool
  denied_to k e = denied_event e && (actor_key e === k)

  by_severity_lem :
      (k : String) (t : Tallies) (events : List (EnrichedEvent J))
      → count_at k (tally t events).by_severity
        ≡ count_at k t.by_severity + number_of (λ e. severity_name e.severity === k) events
  by_severity_lem k t [] = omega arith
  by_severity_lem k t (e ∷ events) =
      let step = count_at-increment (severity_name e.severity) k t.by_severity in
      let rest = by_severity_lem k (count_event t e) events in omega arith

  by_category_lem :
      (k : String) (t : Tallies) (events : List (EnrichedEvent J))
      → count_at k (tally t events).by_category
        ≡ count_at k t.by_category + number_of (λ e. category_name e.category === k) events
  by_category_lem k t [] = omega arith
  by_category_lem k t (e ∷ events) =
      let step = count_at-increment (category_name e.category) k t.by_category in
      let rest = by_category_lem k (count_event t e) events in omega arith

  by_outcome_lem :
      (k : String) (t : Tallies) (events : List (EnrichedEvent J))
      → count_at k (tally t events).by_outcome
        ≡ count_at k t.by_outcome + number_of (λ e. outcome_name e.outcome === k) events
  by_outcome_lem k t [] = omega arith
  by_outcome_lem k t (e ∷ events) =
      let step = count_at-increment (outcome_name e.outcome) k t.by_outcome in
      let rest = by_outcome_lem k (count_event t e) events in omega arith

  denied_by_actor_lem :
      (k : String) (t : Tallies) (events : List (EnrichedEvent J))
      → count_at k (tally t events).denied_by_actor
        ≡ count_at k t.denied_by_actor + number_of (denied_to k) events
  denied_by_actor_lem k t [] = omega arith
  denied_by_actor_lem k t (e ∷ events) =
      let step = count_at-increment (actor_key e) k t.denied_by_actor in
      let rest = denied_by_actor_lem k (count_event t e) events in ground arith

  denied_by_actor-Distinct :
      (t : Tallies) (events : List (EnrichedEvent J))
      → Distinct t.denied_by_actor
      → Distinct (tally t events).denied_by_actor
  denied_by_actor-Distinct t [] h = h
  denied_by_actor-Distinct t (e ∷ events) h =
      denied_by_actor-Distinct (count_event t e) events (kept (denied_event e))
    where
      kept :
          (b : Bool)
          → Distinct (if b then increment t.denied_by_actor (actor_key e) else t.denied_by_actor)
      kept true = increment-Distinct (actor_key e) t.denied_by_actor h
      kept false = h

  abbrev with_severity : String → List (EnrichedEvent J) → ℕ
  with_severity k events = number_of (λ e. severity_name e.severity === k) events

  severities :
      (events : List (EnrichedEvent J))
      → with_severity "info" events
          + with_severity "warning" events
          + with_severity "critical" events
        ≡ length events
  severities [] = refl
  severities (e ∷ events) =
      let rest = severities events in let one = one_severity e.severity in omega arith

  outcomes :
      (events : List (EnrichedEvent J))
      → number_of (λ e. outcome_name e.outcome === "success") events
          + number_of (λ e. outcome_name e.outcome === "denied") events
        ≡ length events
  outcomes [] = refl
  outcomes (e ∷ events) =
      let rest = outcomes events in let one = one_outcome e.outcome in omega arith

  module _ (window : ℕ) (c : Collection J) where
    -- The numbers of a summary by severity, category and outcome are how many of the collected events
    -- have each; the three severities make up all events, as the two outcomes do; and the security
    -- events are those that are not of severity info.
    pub summarize-totals :
        ((s : AuditSeverity)
          → count_at (severity_name s) (summarize window c).by_severity
            ≡ number_of (λ e. severity_name e.severity === severity_name s) c.events)
        × ((k : String)
            → count_at k (summarize window c).by_category
              ≡ number_of (λ e. category_name e.category === k) c.events)
        × ((o : AuditOutcome)
            → count_at (outcome_name o) (summarize window c).by_outcome
              ≡ number_of (λ e. outcome_name e.outcome === outcome_name o) c.events)
        × (count_at "info" (summarize window c).by_severity + (summarize window c).security_events
            ≡ (summarize window c).total)
        × (count_at "success" (summarize window c).by_outcome
              + count_at "denied" (summarize window c).by_outcome
            ≡ (summarize window c).total)
    unfolding summarize
    summarize-totals = (
      by_severity,
      (λ k. let h = by_category_lem k no_tallies c.events in omega arith),
      by_outcome,
      (let i = by_severity info in
          let w = by_severity warning in
          let r = by_severity critical in let sum = severities c.events in omega arith),
      (let s = by_outcome success in
          let d = by_outcome denied in let sum = outcomes c.events in omega arith),
    )
      where
        by_severity :
            (s : AuditSeverity)
            → count_at (severity_name s) (tally no_tallies c.events).by_severity
              ≡ number_of (λ e. severity_name e.severity === severity_name s) c.events
        by_severity info = let h = by_severity_lem "info" no_tallies c.events in omega arith
        by_severity warning = let h = by_severity_lem "warning" no_tallies c.events in omega arith
        by_severity critical = let h = by_severity_lem "critical" no_tallies c.events in omega arith

        by_outcome :
            (o : AuditOutcome)
            → count_at (outcome_name o) (tally no_tallies c.events).by_outcome
              ≡ number_of (λ e. outcome_name e.outcome === outcome_name o) c.events
        by_outcome success = let h = by_outcome_lem "success" no_tallies c.events in omega arith
        by_outcome denied = let h = by_outcome_lem "denied" no_tallies c.events in omega arith

    -- The anomalies of a summary are the actors to whom at least `anomaly_threshold` of the collected
    -- events were denied, each with the number of these events: every entry is one, and every such
    -- actor has an entry.
    pub summarize-anomalies :
        All
          (λ entry.
            (entry.1 ≡ number_of (denied_to entry.0) c.events) × (anomaly_threshold ≤ entry.1))
          (summarize window c).anomalies
        × ((actor : String)
            → anomaly_threshold ≤ number_of (denied_to actor) c.events
            → has actor (summarize window c).anomalies ≡ true)
    unfolding summarize
    summarize-anomalies =
        let counts = (tally no_tallies c.events).denied_by_actor in
        let right : (k : String) → count_at k counts ≡ number_of (denied_to k) c.events =
          λ k. let h = denied_by_actor_lem k no_tallies c.events in omega arith in
        (
          sort-All more_first _ _ (
              map-All (λ entry h. (sym h.0 ∙ right entry.0, leb→le anomaly_threshold entry.1 h.1)) _
                (filter-All (λ a. leb anomaly_threshold a.1) _ counts
                  (entries counts (denied_by_actor-Distinct no_tallies c.events tt)))),
          (λ actor h.
              has-sort more_first actor (filter (λ a. leb anomaly_threshold a.1) counts)
              ∙ has-filter actor anomaly_threshold counts (rw (right actor) h) (omega arith)),
        )
