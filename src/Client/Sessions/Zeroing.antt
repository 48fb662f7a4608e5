-- ===== src/Client/Sessions/Zeroing.antt =====
-- Old session keys are overwritten.
use mini_banking_app.Common.{
  ℕ, ◌≡◌, ◌≢◌, refl, inl, inr, true, false, none, some, List, [], ◌∷◌, All, map, arith, ◌==◌,
  Bool-cases, if◌then◌else◌,
}
use mini_banking_app.Client.Sessions.{
  Scope, balance_read, transfer_create, history_read, bank_admin_read, same_scope, AsSession,
  ServiceTicketSession, Tab, Buffers, fill_zero, clear_session, set_session, get_session,
  find_ticket, put_ticket, set_service_ticket, get_service_ticket, zero_all, clear_service_tickets,
}

-- All bytes of a buffer are zero.
abbrev pub IsZeroed : List ℕ → Type 0
IsZeroed bytes = All (λ byte. byte ≡ 0) bytes

map-IsZeroed : (bytes : List ℕ) → IsZeroed (map (λ byte. 0) bytes)
map-IsZeroed [] = tt
map-IsZeroed (b ∷ bytes) = (refl, map-IsZeroed bytes)

pub fill_zero_at : (key : ℕ) (buffers : Buffers) → IsZeroed (fill_zero key buffers key)
fill_zero_at key buffers =
    let same : (key == key) ≡ true = ground arith in rw same (map-IsZeroed (buffers key))

pub fill_zero_keeps :
    (key j : ℕ) (buffers : Buffers) → IsZeroed (buffers j) → IsZeroed (fill_zero key buffers j)
fill_zero_keeps key j buffers h = elim (Bool-cases (j == key)) [
  | inl same ↦ rw same (map-IsZeroed (buffers j))
  | inr other ↦ rw other h
]

fill_zero_other : (key j : ℕ) (buffers : Buffers) → j ≢ key → fill_zero key buffers j ≡ buffers j
fill_zero_other key j buffers h = ground arith

-- A session that replaces another one is there, and the key of the other one is zeroed; buffers other
-- than that key are as they were, the new session's key too unless it is the same buffer.
pub set_session-zeroes :
    (session old : AsSession) (tab : Tab)
    → tab.current ≡ some old
    → (get_session (set_session session tab) ≡ some session)
      × IsZeroed ((set_session session tab).buffers old.session_key)
      × ((j : ℕ) → j ≢ old.session_key → (set_session session tab).buffers j ≡ tab.buffers j)
unfolding set_session clear_session
set_session-zeroes session old tab h =
    let cleared : (set_session session tab).buffers ≡ fill_zero old.session_key tab.buffers =
      ground arith in
    (
      refl,
      rw cleared (fill_zero_at old.session_key tab.buffers),
      λ j other. rw cleared (fill_zero_other old.session_key j tab.buffers other),
    )

pub same_scope_refl : (s : Scope) → same_scope s s ≡ true
same_scope_refl balance_read = refl
same_scope_refl transfer_create = refl
same_scope_refl history_read = refl
same_scope_refl bank_admin_read = refl

eq_of_same_scope : (s t : Scope) → same_scope s t ≡ true → s ≡ t
eq_of_same_scope balance_read balance_read h = refl
eq_of_same_scope transfer_create transfer_create h = refl
eq_of_same_scope history_read history_read h = refl
eq_of_same_scope bank_admin_read bank_admin_read h = refl
eq_of_same_scope s t h = absurd (ground arith)

pub zero_all-keeps :
    (tickets : List (Scope × ServiceTicketSession)) (j : ℕ) (buffers : Buffers)
    → IsZeroed (buffers j)
    → IsZeroed (zero_all tickets buffers j)
zero_all-keeps [] j buffers h = h
zero_all-keeps ((s, t) ∷ tickets) j buffers h =
    zero_all-keeps tickets j (fill_zero t.session_key buffers)
      (fill_zero_keeps t.session_key j buffers h)

zero_all-All :
    (tickets : List (Scope × ServiceTicketSession)) (buffers : Buffers)
    → All (λ entry. IsZeroed (zero_all tickets buffers entry.1.session_key)) tickets
zero_all-All [] buffers = tt
zero_all-All ((s, t) ∷ tickets) buffers = (
  zero_all-keeps tickets t.session_key (fill_zero t.session_key buffers)
      (fill_zero_at t.session_key buffers),
  zero_all-All tickets (fill_zero t.session_key buffers),
)

same_scope_trans : (s t u : Scope) → same_scope s t ≡ true → same_scope s u ≡ same_scope t u
same_scope_trans s t u h = rw (eq_of_same_scope s t h)

apart_of : (s t u : Scope) → same_scope s t ≡ false → same_scope s u ≡ true → same_scope t u ≡ false
apart_of s t u h e =
    let all = eq_of_same_scope t u in
    let same = eq_of_same_scope s u e in let here = same_scope_refl s in ground arith

pub find_ticket-put_ticket :
    (s scope : Scope) (ticket : ServiceTicketSession)
    (tickets : List (Scope × ServiceTicketSession))
    → find_ticket scope (put_ticket s ticket tickets)
      ≡ (if same_scope s scope then some ticket else find_ticket scope tickets)
find_ticket-put_ticket s scope ticket [] = refl
find_ticket-put_ticket s scope ticket ((s', t) ∷ tickets) =
    let ih = find_ticket-put_ticket s scope ticket tickets in
    let same = same_scope_trans s' s scope in
    elim (Bool-cases (same_scope s' s)) [
      | inl e ↦ ground arith
      | inr e ↦
          let apart : (same_scope s' scope ≡ true) → same_scope s scope ≡ false =
            λ e'. apart_of s' s scope e e' in
          ground arith
    ]

-- When the tickets are cleared none is left, and the key of each one that was there is zeroed.
clear_service_tickets-zeroes :
    (tab : Tab)
    → ((scope : Scope) → get_service_ticket scope (clear_service_tickets tab) ≡ none)
      × All
          (λ entry. IsZeroed ((clear_service_tickets tab).buffers entry.1.session_key))
          tab.tickets
unfolding clear_service_tickets
clear_service_tickets-zeroes tab = (λ scope. refl, zero_all-All tab.tickets tab.buffers)

-- A ticket that is stored is the one of its scope from then on, and the other scopes keep theirs.
pub set_service_ticket_lem :
    (ticket : ServiceTicketSession) (scope : Scope) (tab : Tab)
    → get_service_ticket scope (set_service_ticket ticket tab)
      ≡ (if same_scope ticket.scope scope then some ticket else get_service_ticket scope tab)
unfolding set_service_ticket
set_service_ticket_lem ticket scope tab =
    find_ticket-put_ticket ticket.scope scope ticket tab.tickets
