-- ===== src/Gateway/World.antt =====
-- What the gateway's handlers change: Redis, the queue of mails, and the trail of audit events that
-- they hand to the CA (`recordRaAudit` of services/ca.service.ts, which swallows its own failures;
-- the request's id in an event is left out).
use mini_banking_app.Common.{String, List, [], ◌∷◌, ◌++◌}
use mini_banking_app.Common.Exec.{Exec, returned}
use mini_banking_app.Gateway.Http.{Exception}
use mini_banking_app.Gateway.Redis.{Redis}

pub record AuditEvent : Type 0 where
  pub action : String
  pub serial_number : String
  pub performed_by : String
  pub reason : String
  pub metadata : List (String × String)

-- A job of the mail queue.
pub record Mail : Type 0 where
  pub to : String
  pub otp : String

module _ (redis : Redis) where
  open redis use {State}

  pub record World : Type 0 where
    pub store : State
    pub audits : List AuditEvent
    pub mails : List Mail

module _ (redis : Redis) {A : Type 0} where
  open redis use {State}

  abbrev pub on_store : Exec State Exception A → Exec (World redis) Exception A
  on_store m w = ((m w.store).0, record w { store = (m w.store).1 })

module _ (redis : Redis) where
  abbrev pub record_ra_audit : AuditEvent → Exec (World redis) Exception (Unit {0})
  record_ra_audit event w = (returned tt, record w { audits = w.audits ++ (event ∷ []) })

  abbrev pub enqueue : Mail → Exec (World redis) Exception (Unit {0})
  enqueue mail w = (returned tt, record w { mails = w.mails ++ (mail ∷ []) })
