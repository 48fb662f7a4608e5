-- ===== src/Client/Sessions/Erasure.antt =====
-- A tab over a sequence of calls, each new session with a key of its own: which keys stay readable.
use mini_banking_app.Common.{
  ℕ, ◌+◌, ◌≡◌, ◌⊎◌, refl, inl, inr, Bool, true, false, ◌||◌, Option, none, some, List, [], ◌∷◌,
  arith, ltb, ◌==◌, Bool-cases, Option-cases, if◌then◌else◌,
}
use mini_banking_app.Client.Sessions.{
  Scope, same_scope, AsSession, ServiceTicketSession, Tab, Buffers, fill_zero, clear_session,
  set_session, find_ticket, put_ticket, zero_old, set_service_ticket, zero_all,
  clear_service_tickets,
}
use mini_banking_app.Client.Sessions.Zeroing.{
  IsZeroed, fill_zero_at, fill_zero_keeps, zero_all-keeps,
}

-- A call of the two modules; the key of a new session or ticket is a new buffer with these bytes.
pub data Call : Type 0 where
  log_in : List ℕ → AsSession → Call
  log_out : Call
  obtain : List ℕ → ServiceTicketSession → Call
  drop_tickets : Call

abbrev pub empty_tab : Tab
empty_tab = record { buffers = λ _. []; fresh = 0; current = none; tickets = [] }

unfoldable pub allocate : List ℕ → Tab → Tab
allocate bytes tab = record tab {
  buffers = λ j. if j == tab.fresh then bytes else tab.buffers j;
  fresh = tab.fresh + 1;
}

unfoldable pub call : Call → Tab → Tab
unfolding allocate
call (log_in bytes session) tab =
    set_session (record session { session_key = tab.fresh }) (allocate bytes tab)
call log_out tab = clear_session tab
call (obtain bytes ticket) tab =
    set_service_ticket (record ticket { session_key = tab.fresh }) (allocate bytes tab)
call drop_tickets tab = clear_service_tickets tab

unfoldable pub calls : List Call → Tab → Tab
unfolding call
calls [] tab = tab
calls (c ∷ cs) tab = calls cs (call c tab)

abbrev pub session_uses : ℕ → Option AsSession → Bool
session_uses j none = false
session_uses j (some session) = session.session_key == j

abbrev pub tickets_use : ℕ → List (Scope × ServiceTicketSession) → Bool
tickets_use j [] = false
tickets_use j ((s, t) ∷ tickets) = (t.session_key == j) || tickets_use j tickets

-- The buffer is the key of the session or of a ticket.
abbrev pub in_use : ℕ → Tab → Bool
in_use j tab = session_uses j tab.current || tickets_use j tab.tickets

-- Unless the buffer is a key, it is overwritten.
abbrev IsKept : ℕ → Tab → Type 0
IsKept j tab = in_use j tab ≡ false → IsZeroed (tab.buffers j)

-- Every buffer that was handed out and is no longer a key is overwritten.
abbrev IsErased : Tab → Type 0
IsErased tab = (j : ℕ) → ltb j tab.fresh ≡ true → in_use j tab ≡ false → IsZeroed (tab.buffers j)

zero_all-uses :
    (j : ℕ) (tickets : List (Scope × ServiceTicketSession)) (buffers : Buffers)
    → tickets_use j tickets ≡ true
    → IsZeroed (zero_all tickets buffers j)
zero_all-uses j [] buffers h = absurd (ground arith)
zero_all-uses j ((s, t) ∷ tickets) buffers h = elim (Bool-cases (t.session_key == j)) [
  | inl same ↦
      let e : j ≡ t.session_key = ground arith in
      zero_all-keeps tickets j (fill_zero t.session_key buffers)
        (rw e (fill_zero_at t.session_key buffers))
  | inr other ↦ zero_all-uses j tickets (fill_zero t.session_key buffers) (ground arith)
]

put_ticket-uses :
    (j : ℕ) (s : Scope) (ticket : ServiceTicketSession)
    (tickets : List (Scope × ServiceTicketSession)) (buffers : Buffers)
    → tickets_use j (put_ticket s ticket tickets) ≡ false
    → (tickets_use j tickets ≡ false) ⊎ IsZeroed (zero_old (find_ticket s tickets) buffers j)
unfolding zero_old
put_ticket-uses j s ticket [] buffers h = inl refl
put_ticket-uses j s ticket ((s', t) ∷ tickets) buffers h = elim (Bool-cases (same_scope s' s)) [
  | inl found ↦ elim (Bool-cases (t.session_key == j)) [
    | inl same ↦
        let e : j ≡ t.session_key = ground arith in
        inr (rw found (rw e (fill_zero_at t.session_key buffers)))
    | inr other ↦ inl (ground arith)
  ]
  | inr missed ↦
      let rest : tickets_use j (put_ticket s ticket tickets) ≡ false = ground arith in
      elim (put_ticket-uses j s ticket tickets buffers rest) [
        | inl none_left ↦ inl (ground arith)
        | inr zeroed ↦ inr (rw missed zeroed)
      ]
]

zero_old-keeps :
    (old : Option ServiceTicketSession) (j : ℕ) (buffers : Buffers)
    → IsZeroed (buffers j)
    → IsZeroed (zero_old old buffers j)
unfolding zero_old
zero_old-keeps none j buffers h = h
zero_old-keeps (some ticket) j buffers h = fill_zero_keeps ticket.session_key j buffers h

clear_session-IsKept : (j : ℕ) (tab : Tab) → IsKept j tab → IsKept j (clear_session tab)
unfolding clear_session
clear_session-IsKept j tab h idle = elim (Option-cases tab.current) [
  | inl e ↦
      let same : (clear_session tab).buffers ≡ tab.buffers = rw e in
      let free : in_use j tab ≡ false = ground arith in rw same (h free)
  | inr (session, e) ↦
      let cleared : (clear_session tab).buffers ≡ fill_zero session.session_key tab.buffers =
        rw e in
      elim (Bool-cases (session.session_key == j)) [
        | inl same ↦
            let here : j ≡ session.session_key = ground arith in
            rw cleared (rw here (fill_zero_at session.session_key tab.buffers))
        | inr other ↦
            let free : in_use j tab ≡ false = ground arith in
            rw cleared (fill_zero_keeps session.session_key j tab.buffers (h free))
      ]
]

set_session-IsKept :
    (j : ℕ) (session : AsSession) (tab : Tab) → IsKept j tab → IsKept j (set_session session tab)
unfolding set_session clear_session
set_session-IsKept j session tab h idle =
    let free : in_use j (clear_session tab) ≡ false = ground arith in
    clear_session-IsKept j tab h free

set_service_ticket-IsKept :
    (j : ℕ) (ticket : ServiceTicketSession) (tab : Tab)
    → IsKept j tab
    → IsKept j (set_service_ticket ticket tab)
unfolding set_service_ticket
set_service_ticket-IsKept j ticket tab h idle =
    let put : tickets_use j (put_ticket ticket.scope ticket tab.tickets) ≡ false = ground arith in
    elim (put_ticket-uses j ticket.scope ticket tab.tickets tab.buffers put) [
      | inl unused ↦
          let free : in_use j tab ≡ false = ground arith in
          zero_old-keeps (find_ticket ticket.scope tab.tickets) j tab.buffers (h free)
      | inr zeroed ↦ zeroed
    ]

clear_service_tickets-IsKept :
    (j : ℕ) (tab : Tab) → IsKept j tab → IsKept j (clear_service_tickets tab)
unfolding clear_service_tickets
clear_service_tickets-IsKept j tab h idle = elim (Bool-cases (tickets_use j tab.tickets)) [
  | inl used ↦ zero_all-uses j tab.tickets tab.buffers used
  | inr unused ↦
      let free : in_use j tab ≡ false = ground arith in
      zero_all-keeps tab.tickets j tab.buffers (h free)
]

allocate-IsKept :
    (j : ℕ) (bytes : List ℕ) (tab : Tab)
    → ltb j tab.fresh ≡ true
    → IsKept j tab
    → IsKept j (allocate bytes tab)
unfolding allocate
allocate-IsKept j bytes tab old h idle =
    let other : (j == tab.fresh) ≡ false = ground arith in rw other (h idle)

clear_session-fresh : (tab : Tab) → (clear_session tab).fresh ≡ tab.fresh
unfolding clear_session
clear_session-fresh tab = elim (Option-cases tab.current) [ inl e ↦ rw e | inr (session, e) ↦ rw e ]

tickets_use-put_ticket :
    (j : ℕ) (s : Scope) (ticket : ServiceTicketSession)
    (tickets : List (Scope × ServiceTicketSession))
    → tickets_use j (put_ticket s ticket tickets) ≡ false
    → (ticket.session_key == j) ≡ false
tickets_use-put_ticket j s ticket [] h = ground arith
tickets_use-put_ticket j s ticket ((s', t) ∷ tickets) h = elim (Bool-cases (same_scope s' s)) [
  | inl found ↦ ground arith
  | inr missed ↦ tickets_use-put_ticket j s ticket tickets (ground arith)
]

call-IsErased : (c : Call) (tab : Tab) → IsErased tab → IsErased (call c tab)
unfolding call allocate set_session clear_session set_service_ticket clear_service_tickets
call-IsErased (log_in bytes session) tab h j old idle =
    let size = clear_session-fresh (allocate bytes tab) in
    let before : ltb j tab.fresh ≡ true = ground arith in
    set_session-IsKept j (record session { session_key = tab.fresh }) (allocate bytes tab)
      (allocate-IsKept j bytes tab before (h j before)) idle
call-IsErased log_out tab h j old idle =
    let size = clear_session-fresh tab in
    let before : ltb j tab.fresh ≡ true = ground arith in
    clear_session-IsKept j tab (h j before) idle
call-IsErased (obtain bytes ticket) tab h j old idle =
    let put = record ticket { session_key = tab.fresh } in
    let other : (tab.fresh == j) ≡ false =
      tickets_use-put_ticket j ticket.scope put tab.tickets (ground arith) in
    let before : ltb j tab.fresh ≡ true = ground arith in
    set_service_ticket-IsKept j put (allocate bytes tab)
      (allocate-IsKept j bytes tab before (h j before)) idle
call-IsErased drop_tickets tab h j old idle = clear_service_tickets-IsKept j tab (h j old) idle

calls-keep : (cs : List Call) (tab : Tab) → IsErased tab → IsErased (calls cs tab)
unfolding calls
calls-keep [] tab h = h
calls-keep (c ∷ cs) tab h = calls-keep cs (call c tab) (call-IsErased c tab h)

-- Take any sequence of calls from an empty tab, in which each new session or ticket has a key of its
-- own. Every key that was handed out, and is neither the key of the session nor of a ticket that is
-- held, is overwritten by zeros.
pub calls-IsZeroed :
    (cs : List Call) (j : ℕ)
    → ltb j (calls cs empty_tab).fresh ≡ true
    → in_use j (calls cs empty_tab) ≡ false
    → IsZeroed ((calls cs empty_tab).buffers j)
calls-IsZeroed cs = calls-keep cs empty_tab (λ j old idle. absurd (ground arith))
