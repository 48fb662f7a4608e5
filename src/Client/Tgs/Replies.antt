-- ===== src/Client/Tgs/Replies.antt =====
-- What an exchange that succeeds has checked.
use mini_banking_app.Common.{
  ◌≡◌, ◌⊎◌, refl, inl, inr, Bool, true, false, some, arith, eq_iff, Bool-cases, Option-cases,
}
use mini_banking_app.Common.Result.{ok, Result-cases}
use mini_banking_app.Client.Sessions.{
  Scope, AsSession, ServiceTicketSession, Tab, get_session, has_valid_tgt, has_valid_service_ticket,
  get_service_ticket,
}
use mini_banking_app.Client.Sessions.Zeroing.{set_service_ticket_lem, same_scope_refl}
use mini_banking_app.Client.Tgs.{
  Platform, Draws, TgsReply, TgsResponse, TgsExchangeResult, scope_text, result_of, allocate,
  request_of, ticket_of, check_reply, request_ticket, with_session, reuse, perform_tgs_exchange,
}

module _ (platform : Platform) (drawn : Draws) where
  -- The gateway answered a request that was sealed with the session's key, with a reply under the same
  -- key that repeats the nonce and names the scope.
  pub record Answered (scope : Scope) (tab : Tab) (t : ServiceTicketSession) : Type 0 where
    pub session : AsSession
    pub response : TgsResponse
    pub reply : TgsReply
    pub logged_in : get_session tab ≡ some session
    pub in_time : has_valid_tgt drawn.now_ms tab ≡ true
    pub posted : platform.post_tgs_req (request_of platform drawn scope session tab) ≡ some response
    pub opened :
        platform.unseal (tab.buffers session.session_key) response.encrypted_payload ≡ some reply
    pub same_nonce : reply.nonce2 ≡ drawn.nonce
    pub right_scope : reply.scope ≡ scope_text scope
    pub ticket : t ≡ ticket_of platform drawn scope session response reply tab.fresh

  check_reply-ok :
      (scope : Scope) (reply checked : TgsReply)
      → check_reply platform drawn scope reply ≡ ok checked
      → (checked ≡ reply) × (reply.nonce2 ≡ drawn.nonce) × (reply.scope ≡ scope_text scope)
  check_reply-ok scope reply checked h =
      let nonces = eq_iff reply.nonce2 drawn.nonce in
      let scopes = eq_iff reply.scope (scope_text scope) in
      (ground arith, ground arith, ground arith)

  request_ticket-Answered :
      (scope : Scope) (session : AsSession) (tab tab' : Tab) (r : TgsExchangeResult)
      → get_session tab ≡ some session
      → has_valid_tgt drawn.now_ms tab ≡ true
      → request_ticket platform drawn scope session tab ≡ ok (r, tab')
      → (t : ServiceTicketSession) × (get_service_ticket scope tab' ≡ some t)
        × (r ≡ result_of scope t)
        × Answered scope tab t
  unfolding request_ticket
  request_ticket-Answered scope session tab tab' r here valid h =
      elim (Option-cases (platform.post_tgs_req (request_of platform drawn scope session tab))) [
        | inl e₁ ↦ absurd (ground arith)
        | inr (resp, e₁) ↦
            elim (Option-cases
              (platform.unseal (tab.buffers session.session_key) resp.encrypted_payload)) [
                | inl e₂ ↦ absurd (ground arith)
                | inr (reply, e₂) ↦ elim (Result-cases (check_reply platform drawn scope reply)) [
                  | inr (x, e₃) ↦ absurd (ground arith)
                  | inl (checked, e₃) ↦
                      let (same, nonce_ok, scope_ok) = check_reply-ok scope reply checked e₃ in
                      elim (Option-cases (platform.base64_to_bytes checked.k_c_v)) [
                        | inl e₄ ↦ absurd (ground arith)
                        | inr (key, e₄) ↦
                            let t = ticket_of platform drawn scope session resp reply tab.fresh in
                            let stored = set_service_ticket_lem t scope (allocate key tab) in
                            let own = same_scope_refl scope in
                            (
                              t,
                              ground arith,
                              ground arith,
                              record {
                                session = session;
                                response = resp;
                                reply = reply;
                                logged_in = here;
                                in_time = valid;
                                posted = e₁;
                                opened = e₂;
                                same_nonce = nonce_ok;
                                right_scope = scope_ok;
                                ticket = refl;
                              },
                            )
                      ]
                ]
              ]
      ]

  -- An exchange that succeeds gives the ticket that is then stored for the scope. Either that ticket was
  -- there before, none was forced, and it had not expired; or the TGT had not expired and the gateway's
  -- reply, opened with the session key, repeated the nonce of this request and named its scope.
  pub perform_tgs_exchange-Answered :
      (scope : Scope) (force : Bool) (tab tab' : Tab) (r : TgsExchangeResult)
      → perform_tgs_exchange platform drawn scope force tab ≡ ok (r, tab')
      → (t : ServiceTicketSession) × (get_service_ticket scope tab' ≡ some t)
        × (r ≡ result_of scope t)
        × (((force ≡ false)
              × (tab' ≡ tab)
              × (has_valid_service_ticket drawn.now_ms scope tab ≡ true))
            ⊎ Answered scope tab t)
  unfolding perform_tgs_exchange with_session reuse
  perform_tgs_exchange-Answered scope force tab tab' r h =
      elim (Option-cases (reuse platform drawn scope force tab)) [
        | inr (t, e) ↦
            (t, ground arith, ground arith, inl (ground arith, ground arith, ground arith))
        | inl e ↦ elim (Option-cases (get_session tab)) [
          | inl nobody ↦ absurd (ground arith)
          | inr (session, here) ↦ elim (Bool-cases (has_valid_tgt drawn.now_ms tab)) [
            | inr late ↦ absurd (ground arith)
            | inl valid ↦
                let (t, stored, same, answered) =
                  request_ticket-Answered scope session tab tab' r here valid (ground arith) in
                (t, stored, same, inr answered)
          ]
        ]
      ]
