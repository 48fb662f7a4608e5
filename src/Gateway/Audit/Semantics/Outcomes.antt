-- ===== src/Gateway/Audit/Semantics/Outcomes.antt =====
-- How severity, outcome and category go together, and that actors have names.
use Prim.Native.String
use mini_banking_app.Common.{
  ◌≡◌, ◌≢◌, ◌↔◌, ◌⊎◌, refl, inl, inr, String, Option, none, some, arith, eq_iff, ◌===◌, Bool-cases,
  Option-cases,
}
use text.Mathlib.TextLemmas.{append-ne-nil_of_right_ne-nil, cons≢nil}
use mini_banking_app.Common.Ascii.{to_lower_case, trim, split_at}
use mini_banking_app.Gateway.Audit.Semantics.{
  ca, kdc, bank, RawAuditFields, AuditActor, AuditSource, info, warning, critical, success, denied,
  is_denied, severity_of, category_of, unnamed_actor, prefixed_actor, colon_actor, or_text,
  actor_of, enrich_audit, listed, find_key, category_by_action, fallback_category,
}

-- What succeeded is never a warning and what was denied is never mere information; among the critical
-- events the revocation of a certificate, and no other, is one that succeeded.
pub severity_outcome :
    (raw : RawAuditFields)
    → (((enrich_audit raw).severity ≡ warning) → (enrich_audit raw).outcome ≡ denied)
      × (((enrich_audit raw).severity ≡ info) → (enrich_audit raw).outcome ≡ success)
      × ((((enrich_audit raw).severity ≡ critical) × ((enrich_audit raw).outcome ≡ success))
          ↔ (to_lower_case raw.action ≡ "revoked"))
unfolding enrich_audit severity_of is_denied
severity_outcome raw =
    let revoked = eq_iff (to_lower_case raw.action) "revoked" in
    (λ h. ground arith, λ h. ground arith, (λ h. ground arith, λ h. ground arith))

Named : String → AuditActor → Type 0
Named a actor = (actor.id ≡ a) × (actor.display ≢ "")

unnamed_actor-Named : (source : AuditSource) → Named "" (unnamed_actor source)
unfolding Named
unnamed_actor-Named ca = (refl, λ e. cons≢nil e)
unnamed_actor-Named kdc = (refl, λ e. cons≢nil e)
unnamed_actor-Named bank = (refl, λ e. cons≢nil e)

prefixed_actor-Named :
    (a prefix suffix : String) → a ≢ "" → Named a (prefixed_actor a prefix suffix)
unfolding Named
prefixed_actor-Named a prefix suffix ne =
    let given = eq_iff suffix "" in
    let shown : String.◌++◌ "RA (" (String.◌++◌ (or_text suffix "gateway") ")") ≢ "" =
      append-ne-nil_of_right_ne-nil "RA ("
        (append-ne-nil_of_right_ne-nil (or_text suffix "gateway") (λ e. cons≢nil e)) in
    (ground arith, ground arith)

colon_actor-Named : (a : String) (o : Option (String × String)) → a ≢ "" → Named a (colon_actor a o)
unfolding Named
colon_actor-Named a none ne = (refl, ne)
colon_actor-Named a (some (prefix, suffix)) ne = prefixed_actor-Named a prefix suffix ne

-- An actor that is given keeps its name as its identifier, and whoever acts has a name to show.
pub actor_of_named :
    (source : AuditSource) (actor : String)
    → ((actor_of source actor).id ≡ trim actor) × ((actor_of source actor).display ≢ "")
unfolding actor_of Named
actor_of_named source actor =
    let empty = eq_iff (trim actor) "" in
    elim (Bool-cases (trim actor === "")) [
      | inl e ↦ let all = unnamed_actor-Named source in ground arith
      | inr e ↦
          let all = colon_actor-Named (trim actor) (split_at b':' (trim actor)) (ground arith) in
          ground arith
    ]

-- The category of an event depends on its source only where its action is in no table: for a given
-- action, either all sources have the same category, or each has its own domain's.
pub category_of_source :
    (action : String)
    → ((source source' : AuditSource) → category_of source action ≡ category_of source' action)
      ⊎ ((source : AuditSource) → category_of source action ≡ listed (fallback_category source))
unfolding category_of
category_of_source action = elim (Bool-cases (action === "constructor")) [
  | inl e ↦ inl (λ s s'. rw e refl)
  | inr e ↦ elim (Bool-cases (action === "__proto__")) [
    | inl e' ↦ inl (λ s s'. rw (e, e') refl)
    | inr e' ↦ elim (Option-cases (find_key action category_by_action)) [
      | inl e'' ↦ inr (λ s. rw (e, e', e'') refl)
      | inr (c, e'') ↦ inl (λ s s'. rw (e, e', e'') refl)
    ]
  ]
]
