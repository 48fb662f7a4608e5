-- ===== src/Gateway/Audit/Semantics.antt =====
-- mini-banking-app/api-gateway/src/lib/audit-semantics.ts: what an audit event means. An optional
-- field that is missing is the empty text, which the code treats alike.
pub mod Outcomes
use Prim.Native.String
use mini_banking_app.Common.{
  ◌≡◌, String, Bool, true, false, ◌||◌, Option, none, some, List, [], ◌∷◌, ◌===◌, if◌then◌else◌,
  any, get_or,
}
use mini_banking_app.Common.Ascii.{to_lower_case, trim, ends_with, split_at}

infixr 60 ◌^◌
abbrev pub ◌^◌ : String → String → String
s ^ t = String.◌++◌ s t

pub data AuditSource : Type 0 where
  ca kdc bank : AuditSource

pub data AuditCategory : Type 0 where
  key_issuance cert_lifecycle authentication resource_access admin_action : AuditCategory

pub data AuditSeverity : Type 0 where
  info warning critical : AuditSeverity

pub data AuditOutcome : Type 0 where
  success denied : AuditOutcome

pub data ActorType : Type 0 where
  user admin ra service system : ActorType

pub record RawAuditFields : Type 0 where
  pub source : AuditSource
  pub action : String
  pub actor : String
  pub reason : String
  pub target : String

pub record AuditActor : Type 0 where
  pub type : ActorType
  pub id : String
  pub display : String

-- What a look-up in an object of JavaScript finds: a category that is listed, or what every object
-- inherits, its constructor and its prototype.
pub data Category : Type 0 where
  listed : AuditCategory → Category
  inherited_function inherited_object : Category

pub record AuditSemantics : Type 0 where
  pub category : Category
  pub severity : AuditSeverity
  pub outcome : AuditOutcome
  pub actor : AuditActor
  pub description : String

-- A look-up in a table of the source.
module _ {A : Type 0} where
  abbrev pub find_key : String → List (String × A) → Option A
  find_key key [] = none
  find_key key ((k, a) ∷ table) =
      let later = find_key key table in if key === k then some a else later

abbrev pub includes : List String → String → Bool
includes names name = any (λ n. name === n) names

abbrev pub category_by_action : List (String × AuditCategory)
category_by_action =
    ("issued", cert_lifecycle)
    ∷ ("verify_certificate", cert_lifecycle)
    ∷ ("issuer_provisioned", cert_lifecycle)
    ∷ ("chain_verified", cert_lifecycle)
    ∷ ("ra_registration_approved", cert_lifecycle)
    ∷ ("ra_registration_rejected", cert_lifecycle)
    ∷ ("looked_up", admin_action)
    ∷ ("revoked", admin_action)
    ∷ ("ra_otp_requested", authentication)
    ∷ ("ra_otp_verified", authentication)
    ∷ ("ra_otp_failed", authentication)
    ∷ ("admin_ca_login_success", authentication)
    ∷ ("admin_ca_login_failed", authentication)
    ∷ ("as_ticket_issued", key_issuance)
    ∷ ("as_rejected", key_issuance)
    ∷ ("tgs_ticket_issued", key_issuance)
    ∷ ("tgs_rejected", key_issuance)
    ∷ ("transfer_completed", resource_access)
    ∷ ("transfer_rejected", resource_access)
    ∷ ("replay_detected", resource_access)
    ∷ ("invalid_signature", resource_access)
    ∷ ("certificate_rejected", resource_access)
    ∷ ("forbidden_ownership", resource_access)
    ∷ ("insufficient_funds", resource_access)
    ∷ []

abbrev pub fallback_category : AuditSource → AuditCategory
fallback_category ca = cert_lifecycle
fallback_category kdc = key_issuance
fallback_category bank = resource_access

-- An action is in lower case, in which two of the inherited names can be written.
unfoldable pub category_of : AuditSource → String → Category
category_of source action =
    if action === "constructor"
    then inherited_function
    else if action === "__proto__"
    then inherited_object
    else listed (get_or (find_key action category_by_action) (fallback_category source))

abbrev pub critical_actions : List String
critical_actions = "revoked" ∷ "certificate_rejected" ∷ "replay_detected" ∷ "invalid_signature" ∷ []

abbrev pub denied_actions : List String
denied_actions =
    "forbidden_ownership" ∷ "insufficient_funds" ∷ "replay_detected" ∷ "invalid_signature"
    ∷ "certificate_rejected" ∷ []

unfoldable pub is_denied : String → Bool
is_denied action =
    if action === "revoked"
    then false
    else if ends_with action "_rejected" || ends_with action "_failed"
    then true
    else includes denied_actions action

unfoldable pub severity_of : String → AuditSeverity
unfolding is_denied
severity_of action =
    if includes critical_actions action
    then critical
    else if is_denied action
    then warning
    else info

-- `a || b` on texts
abbrev pub or_text : String → String → String
or_text a b = if a === "" then b else a

abbrev pub unnamed_actor : AuditSource → AuditActor
unnamed_actor kdc = record { type = user; id = ""; display = "unknown client" }
unnamed_actor bank = record { type = user; id = ""; display = "unknown user" }
unnamed_actor ca = record { type = system; id = ""; display = "system" }

abbrev pub raw_actor : String → AuditActor
raw_actor a = record { type = user; id = a; display = a }

-- `a` has a colon, with these texts before and after it.
abbrev pub prefixed_actor : String → String → String → AuditActor
prefixed_actor a prefix suffix =
    if prefix === "ra"
    then record { type = ra; id = a; display = "RA (" ^ or_text suffix "gateway" ^ ")" }
    else if prefix === "admin-ca" || prefix === "admin" || prefix === "bank_admin"
    then record { type = admin; id = a; display = or_text suffix a }
    else if prefix === "system" || prefix === "service" || prefix === "legacy"
    then record { type = service; id = a; display = or_text suffix a }
    else raw_actor a

abbrev pub colon_actor : String → Option (String × String) → AuditActor
colon_actor a none = raw_actor a
colon_actor a (some (prefix, suffix)) = prefixed_actor a prefix suffix

unfoldable pub actor_of : AuditSource → String → AuditActor
actor_of source actor =
    let a = trim actor in if a === "" then unnamed_actor source else colon_actor a (split_at b':' a)

abbrev pub wrapped : String → String → String → String
wrapped before text after = if text === "" then "" else before ^ text ^ after

abbrev pub descriptions : String → String → String → List (String × String)
descriptions who target reason =
    ("issued", who ^ " issued certificate" ^ target)
    ∷ ("revoked", who ^ " revoked certificate" ^ target ^ reason)
    ∷ ("looked_up", who ^ " viewed certificate" ^ target)
    ∷ ("verify_certificate", "certificate" ^ target ^ " was verified")
    ∷ ("chain_verified", "certificate chain" ^ target ^ " was verified")
    ∷ ("issuer_provisioned", "issuer" ^ target ^ " was provisioned")
    ∷ ("ra_otp_requested", "OTP challenge issued for registration")
    ∷ ("ra_otp_verified", "email ownership verified for registration")
    ∷ ("ra_otp_failed", "OTP verification failed" ^ reason)
    ∷ ("ra_registration_approved", "registration approved, certificate" ^ target ^ " issued")
    ∷ ("ra_registration_rejected", "registration rejected" ^ reason)
    ∷ ("admin_ca_login_success", who ^ " signed in to Admin CA")
    ∷ ("admin_ca_login_failed", "Admin CA sign-in failed" ^ reason)
    ∷ ("as_ticket_issued", who ^ " was granted a TGT (AS exchange)")
    ∷ ("as_rejected", "AS exchange denied" ^ reason)
    ∷ ("tgs_ticket_issued", who ^ " was granted a service ticket" ^ target)
    ∷ ("tgs_rejected", "TGS exchange denied" ^ reason)
    ∷ ("transfer_completed", who ^ " completed a transfer" ^ target)
    ∷ ("transfer_rejected", "transfer rejected" ^ reason)
    ∷ ("replay_detected", "replay attack detected" ^ reason)
    ∷ ("invalid_signature", "invalid payload signature" ^ reason)
    ∷ ("certificate_rejected", "certificate rejected" ^ reason)
    ∷ ("forbidden_ownership", "ownership check failed" ^ reason)
    ∷ ("insufficient_funds", "transfer failed: insufficient funds")
    ∷ []

unfoldable pub describe : RawAuditFields → AuditActor → String
describe raw actor =
    let reason = wrapped " (" raw.reason ")" in
    get_or (find_key raw.action (descriptions actor.display (wrapped " " raw.target "") reason))
      (raw.action ^ reason)

unfoldable pub enrich_audit : RawAuditFields → AuditSemantics
unfolding category_of severity_of is_denied actor_of describe
enrich_audit raw =
    let action = to_lower_case raw.action in
    let actor = actor_of raw.source raw.actor in
    record {
      category = category_of raw.source action;
      severity = severity_of action;
      outcome = if is_denied action then denied else success;
      actor = actor;
      description = describe (record raw { action = action }) actor;
    }
