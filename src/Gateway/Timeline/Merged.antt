-- ===== src/Gateway/Timeline/Merged.antt =====
-- What a timeline holds, and when the chains are reported as well.
use mini_banking_app.Common.{
  ℕ, ◌≡◌, ◌≢◌, ◌⊎◌, ◌↔◌, refl, inl, inr, arith, String, Bool, false, Option, none, some, List, [],
  ◌∷◌, ◌++◌, map, length, length-map, Bool-cases, ◌===◌, if◌then◌else◌, not, ◌||◌, eq_iff,
}
use mathlib.Core.List.{Perm, append-nil, append_assoc}
use mini_banking_app.Common.Result.{Result, ok, err}
use mini_banking_app.Common.Sort.{sort, by_key, sort-perm, IsSorted, sort-IsSorted}
use mini_banking_app.Gateway.Audit.Fetch.{BankEvent}
use mini_banking_app.Gateway.Timeline.{
  TimelineItem, row_of, Merged, Sources, add_source, merge_bank, TimelineServices, merged,
  handle_audit_timeline, ca_item, kdc_item, bank_item, ChainReport, handle_audit_verify, check_of,
  not_false,
}

-- The events of an answer, and the reason where it is none.
module _ {E : Type 0} where
  abbrev pub events_of : Result String (List E) → List E
  events_of (ok events) = events
  events_of (err reason) = []

  abbrev pub reason_of : Result String (List E) → Option String
  reason_of (ok events) = none
  reason_of (err reason) = some reason

module _ {J E : Type 0} where
  add_source_lem :
      (name : String) (item : E → TimelineItem J) (r : Result String (List E)) (m : Merged J)
      → add_source name item r m
        ≡ (m.0 ++ map item (events_of r), m.1 ++ ((name, reason_of r) ∷ []))
  add_source_lem name item (err reason) m = rw append-nil refl
  add_source_lem name item (ok events) m = refl

module _ {J : Type 0} (parse_json : String → Option J) (is_object : J → Bool) (iso : ℕ → String)
    (bank_action : ℕ → String) (trace_id : String) (services : TimelineServices) (limit : ℕ)
    (token : String) where
  -- The Bank is asked with the token of its session, and not at all without one.
  abbrev pub bank_answer : Result String (List BankEvent)
  bank_answer =
      if token === ""
      then err "bank_admin_session_required"
      else services.list_bank token trace_id limit

  -- What the sources answered with for this request, as items.
  abbrev pub answered : List (TimelineItem J)
  answered =
      map (ca_item parse_json is_object iso bank_action trace_id)
        (events_of (services.list_ca trace_id limit))
      ++ (map (kdc_item parse_json is_object iso bank_action trace_id)
            (events_of (services.list_kdc trace_id limit))
          ++ map (bank_item parse_json is_object iso bank_action trace_id) (events_of bank_answer))

  abbrev pub reasons : Sources
  reasons =
      ("ca", reason_of (services.list_ca trace_id limit))
      ∷ ("kdc", reason_of (services.list_kdc trace_id limit))
      ∷ ("bank", reason_of bank_answer)
      ∷ []

  merge_bank_lem :
      (m : Merged J)
      → merge_bank parse_json is_object iso bank_action trace_id services limit token m ≡ (
        m.0
            ++ map
                (bank_item parse_json is_object iso bank_action trace_id)
                (events_of bank_answer),
        m.1 ++ (("bank", reason_of bank_answer) ∷ []),
      )
  merge_bank_lem m = elim (Bool-cases (token === "")) [
    | inl missing ↦ rw (missing, append-nil) refl
    | inr there ↦
        let added =
          add_source_lem "bank" (bank_item parse_json is_object iso bank_action trace_id)
            (services.list_bank token trace_id limit) m in
        rw (there, added) refl
  ]

  merged_lem :
      merged parse_json is_object iso bank_action trace_id services limit token
      ≡ (answered, reasons)
  merged_lem =
      let from_ca =
        add_source_lem "ca" (ca_item parse_json is_object iso bank_action trace_id)
          (services.list_ca trace_id limit) ([], []) in
      let from_kdc =
        add_source_lem "kdc" (kdc_item parse_json is_object iso bank_action trace_id)
          (services.list_kdc trace_id limit) in
      rw (merge_bank_lem, from_kdc, from_ca, append_assoc) refl

  -- A timeline has one row for every event that the CA, the KDC and the Bank answered with for the request,
  -- in the order of time, and no other; it counts them, and gives for each source the reason why it was
  -- left out, if it was. The Bank is left out without a session.
  pub handle_audit_timeline-Merged :
      (in_order : List (TimelineItem J)) × Perm in_order answered
      × IsSorted (λ item. item.ts) in_order
      × ((handle_audit_timeline parse_json is_object iso bank_action trace_id services limit
            token).items
          ≡ map row_of in_order)
      × ((handle_audit_timeline parse_json is_object iso bank_action trace_id services limit
            token).count
          ≡ length in_order)
      × ((handle_audit_timeline parse_json is_object iso bank_action trace_id services limit
            token).sources
          ≡ reasons)
  unfolding handle_audit_timeline
  handle_audit_timeline-Merged =
      let in_order = sort (by_key (λ item. item.ts)) answered in
      (
        in_order,
        sort-perm (by_key (λ item. item.ts)) answered,
        sort-IsSorted (λ item. item.ts) answered,
        rw merged_lem refl,
        rw merged_lem (length-map row_of in_order),
        rw merged_lem refl,
      )

-- A service that answered that its chain is broken.
abbrev pub Broken : Result String ChainReport → Type 0
Broken r = (report : ChainReport) × (r ≡ ok report) × (report.ok ≡ false)

abbrev is_well : Result String ChainReport → Bool
is_well r = not (check_of r).checked || not_false (check_of r).ok

is_well-Broken : (r : Result String ChainReport) → (is_well r ≡ false) ↔ Broken r
is_well-Broken (err reason) =
    ((λ h. absurd (ground arith)), (λ (report, e, broken). absurd (ground arith)))
is_well-Broken (ok report) = elim (Bool-cases report.ok) [
  | inl e ↦ ((λ h. absurd (ground arith)), (λ (report', e', broken). absurd (ground arith)))
  | inr e ↦ ((λ h. (report, refl, e)), (λ b. ground arith))
]

-- The check of the chains answers that something is wrong exactly where a service that was asked
-- answered that its chain is broken: the CA and the KDC are always asked, the Bank where a session is
-- there. A service that fails does not count.
pub handle_audit_verify_iff :
    (verify_ca verify_kdc : Result String ChainReport)
    (verify_bank : String → Result String ChainReport) (token : String)
    → ((handle_audit_verify verify_ca verify_kdc verify_bank token).0 ≡ false)
      ↔ (Broken verify_ca ⊎ Broken verify_kdc ⊎ ((token ≢ "") × Broken (verify_bank token)))
unfolding handle_audit_verify
handle_audit_verify_iff verify_ca verify_kdc verify_bank token =
    let from_ca = is_well-Broken verify_ca in
    let from_kdc = is_well-Broken verify_kdc in
    let from_bank = is_well-Broken (verify_bank token) in
    elim (Bool-cases (is_well verify_ca)) [
      | inr e ↦ ((λ h. inl (from_ca.0 e)), (λ b. ground arith))
      | inl e ↦ elim (Bool-cases (is_well verify_kdc)) [
        | inr e₁ ↦ ((λ h. inr (inl (from_kdc.0 e₁))), (λ b. ground arith))
        | inl e₁ ↦ elim (Bool-cases (token === "")) [
          | inl none_there ↦ (
            (λ h. absurd (ground arith)),
            (λ b. elim b [
              | inl broken ↦ let bad = from_ca.1 broken in absurd (ground arith)
              | inr (inl broken) ↦ let bad = from_kdc.1 broken in absurd (ground arith)
              | inr (inr (there, broken)) ↦ absurd (there ((eq_iff token "").0 none_there))
            ]),
          )
          | inr there ↦ (
            (λ h. inr (inr (ground (arith, eq_iff token ""), from_bank.0 (ground arith)))),
            (λ b. elim b [
              | inl broken ↦ let bad = from_ca.1 broken in absurd (ground arith)
              | inr (inl broken) ↦ let bad = from_kdc.1 broken in absurd (ground arith)
              | inr (inr (some_token, broken)) ↦ let bad = from_bank.1 broken in ground arith
            ]),
          )
        ]
      ]
    ]
