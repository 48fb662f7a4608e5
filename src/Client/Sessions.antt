-- ===== src/Client/Sessions.antt =====
-- mini-banking-app/frontend/src/services/as-exchange/session.ts and tgs-exchange/session.ts. A session
-- key is a buffer, which sessions refer to by its number: two sessions may share one.
pub mod Zeroing
pub mod Erasure
use mini_banking_app.Common.{
  ℕ, ◌*◌, String, Bool, true, false, not, ◌&&◌, Option, none, some, List, [], ◌∷◌, map, ltb, ◌==◌,
  if◌then◌else◌,
}

pub data Scope : Type 0 where
  balance_read transfer_create history_read bank_admin_read : Scope

abbrev pub same_scope : Scope → Scope → Bool
same_scope balance_read balance_read = true
same_scope transfer_create transfer_create = true
same_scope history_read history_read = true
same_scope bank_admin_read bank_admin_read = true
same_scope _ _ = false

pub record AsSession : Type 0 where
  pub client_id : String
  pub cert_sn : String
  pub tgt : String
  pub session_key : ℕ
  pub tgt_expires_at : ℕ
  pub operation_id : Option String

pub record ServiceTicketSession : Type 0 where
  pub scope : Scope
  pub service_id : String
  pub ticket_v : String
  pub session_key : ℕ
  pub ticket_expires_at : ℕ
  pub client_id : String
  pub cert_sn : String

-- The buffers by their numbers.
abbrev pub Buffers : Type 0
Buffers = ℕ → List ℕ

-- What the two modules hold, and the buffers; `fresh` is the number of the next buffer.
pub record Tab : Type 0 where
  pub buffers : Buffers
  pub fresh : ℕ
  pub current : Option AsSession
  pub tickets : List (Scope × ServiceTicketSession)

-- `key.fill(0)`
abbrev pub fill_zero : ℕ → Buffers → Buffers
fill_zero key buffers j = if j == key then map (λ byte. 0) (buffers j) else buffers j

unfoldable pub clear_session : Tab → Tab
clear_session tab = elim tab.current [
  | none ↦ tab
  | some session ↦ record tab {
    buffers = fill_zero session.session_key tab.buffers;
    current = none;
  }
]

unfoldable pub set_session : AsSession → Tab → Tab
unfolding clear_session
set_session session tab = record (clear_session tab) { current = some session }

abbrev pub get_session : Tab → Option AsSession
get_session tab = tab.current

-- `now` is in milliseconds.
unfoldable pub has_valid_tgt : ℕ → Tab → Bool
has_valid_tgt now tab = elim tab.current [
  | none ↦ false
  | some session ↦ ltb now (session.tgt_expires_at * 1000)
]

-- `tickets.get` and `tickets.set`
abbrev pub find_ticket : Scope → List (Scope × ServiceTicketSession) → Option ServiceTicketSession
find_ticket scope [] = none
find_ticket scope ((s, t) ∷ tickets) =
    let later = find_ticket scope tickets in if same_scope s scope then some t else later

abbrev pub put_ticket :
    Scope
    → ServiceTicketSession
    → List (Scope × ServiceTicketSession)
    → List (Scope × ServiceTicketSession)
put_ticket scope ticket [] = (scope, ticket) ∷ []
put_ticket scope ticket ((s, t) ∷ tickets) =
    let later = put_ticket scope ticket tickets in
    if same_scope s scope then (s, ticket) ∷ tickets else (s, t) ∷ later

unfoldable pub zero_old : Option ServiceTicketSession → Buffers → Buffers
zero_old none buffers = buffers
zero_old (some old) buffers = fill_zero old.session_key buffers

unfoldable pub set_service_ticket : ServiceTicketSession → Tab → Tab
unfolding zero_old
set_service_ticket ticket tab = record tab {
  buffers = zero_old (find_ticket ticket.scope tab.tickets) tab.buffers;
  tickets = put_ticket ticket.scope ticket tab.tickets;
}

abbrev pub get_service_ticket : Scope → Tab → Option ServiceTicketSession
get_service_ticket scope tab = find_ticket scope tab.tickets

unfoldable pub has_valid_service_ticket : ℕ → Scope → Tab → Bool
has_valid_service_ticket now scope tab = elim (get_service_ticket scope tab) [
  | none ↦ false
  | some t ↦ ltb now (t.ticket_expires_at * 1000)
]

abbrev pub zero_all : List (Scope × ServiceTicketSession) → Buffers → Buffers
zero_all [] buffers = buffers
zero_all ((s, t) ∷ tickets) buffers = zero_all tickets (fill_zero t.session_key buffers)

unfoldable pub clear_service_tickets : Tab → Tab
clear_service_tickets tab = record tab { buffers = zero_all tab.tickets tab.buffers; tickets = [] }
