-- ===== src/Client/Bank/Confirmed.antt =====
-- What the clients of the Bank have checked when they give a result.
use mathlib.Core.Path.{subst}
use mini_banking_app.Common.{
  ℕ, ◌≡◌, ◌⊎◌, sym, inl, inr, arith, String, true, false, some, List, eq_iff, Option-cases,
}
use mini_banking_app.Common.Exec.{returned, run-cases}
use mini_banking_app.Common.Result.{Result-cases}
use mini_banking_app.Client.Sessions.{
  Scope, balance_read, transfer_create, ServiceTicketSession, Tab, get_service_ticket,
  has_valid_service_ticket,
}
use mini_banking_app.Client.Tgs.{Platform, Draws, perform_tgs_exchange}
use mini_banking_app.Client.Tgs.Replies.{Answered, perform_tgs_exchange-Answered}
use mini_banking_app.Client.BankMessages.{
  TransferParams, TransferResponse, ApRep, BankPlatform, BankDraws, ensure_ticket,
}
use mini_banking_app.Client.Bank.{
  canonical, transfer_request, query_request, transaction_of, confirm, transfer_with,
  perform_transfer, profile_with, fetch_profile,
}

-- A ticket of the scope, which the tab now holds: it was there and had not expired, or the KDC gave it in
-- reply to a request of this session.
pub record Ticket (tgs : Platform) (tgs_drawn : Draws) (scope : Scope) (tab tab' : Tab)
    (t : ServiceTicketSession) : Type 0 where
  pub stored : get_service_ticket scope tab' ≡ some t
  pub valid :
      ((tab' ≡ tab) × (has_valid_service_ticket tgs_drawn.now_ms scope tab ≡ true))
      ⊎ Answered tgs tgs_drawn scope tab t

ensure_ticket-Ticket :
    (tgs : Platform) (tgs_drawn : Draws) (scope : Scope) (tab tab' : Tab) (t : ServiceTicketSession)
    → ensure_ticket tgs tgs_drawn scope tab ≡ (returned t, tab')
    → Ticket tgs tgs_drawn scope tab tab' t
unfolding ensure_ticket
ensure_ticket-Ticket tgs tgs_drawn scope tab tab' t h =
    elim (Result-cases (perform_tgs_exchange tgs tgs_drawn scope false tab)) [
      | inr (e, h₁) ↦ absurd (ground arith)
      | inl ((r, s), h₁) ↦
          let (t', stored, same, how) =
            perform_tgs_exchange-Answered tgs tgs_drawn scope false tab s r h₁ in
          let same_tab : s ≡ tab' = ground arith in
          let same_ticket : t' ≡ t = ground arith in
          record {
            stored = rw (same_tab, same_ticket) at stored;
            valid = elim how [
              | inl (_, kept, there) ↦ inl (rw same_tab at kept, there)
              | inr answered ↦ inr (subst (Answered tgs tgs_drawn scope tab) same_ticket answered)
            ];
          }
    ]

module _ {P I : Type 0} (tgs : Platform) (tgs_drawn : Draws) (platform : BankPlatform P I)
    (drawn : BankDraws) where
  open platform use {
    Blob, wrapped_private_key, sign_pss, post_transfer, post_profile, post_history, open_ap_rep,
  }

  -- The Bank's reply opens with the key, says ok and repeats the nonce.
  pub record Confirmed (key : List ℕ) (ap_rep : String) (rep : ApRep P) : Type 0 where
    pub opened : open_ap_rep key ap_rep ≡ some rep
    pub is_ok : rep.result ≡ "ok"
    pub same_nonce : rep.nonce ≡ drawn.nonce

  confirm-Confirmed :
      (key : List ℕ) (ap_rep : String) (rep : ApRep P) (tab tab' : Tab)
      → confirm tgs tgs_drawn platform drawn key ap_rep tab ≡ (returned rep, tab')
      → Confirmed key ap_rep rep × (tab' ≡ tab)
  confirm-Confirmed key ap_rep rep tab tab' h = elim (Option-cases (open_ap_rep key ap_rep)) [
    | inl e ↦ absurd (ground arith)
    | inr (rep', e) ↦ (
      record {
        opened = ground (arith, eq_iff rep'.result "ok", eq_iff rep'.nonce drawn.nonce);
        is_ok = ground (arith, eq_iff rep'.result "ok", eq_iff rep'.nonce drawn.nonce);
        same_nonce = ground (arith, eq_iff rep'.result "ok", eq_iff rep'.nonce drawn.nonce);
      },
      ground arith,
    )
  ]

  -- What stands behind a transaction: the payload's canonical text was signed with the stored key, the
  -- gateway answered the request that carries both, and the Bank's reply confirms it.
  pub record Transferred (params : TransferParams) (t : ServiceTicketSession) (key : List ℕ)
      (tx : String) : Type 0 where
    pub blob : Blob
    pub signature : List ℕ
    pub response : TransferResponse
    pub rep : ApRep P
    pub own_key : wrapped_private_key ≡ some blob
    pub signed :
        sign_pss blob params.pin (canonical tgs tgs_drawn platform drawn params) ≡ some signature
    pub posted :
        post_transfer (transfer_request tgs tgs_drawn platform drawn params key t signature)
        ≡ some response
    pub confirmed : Confirmed key response.ap_rep rep
    pub transaction : tx ≡ transaction_of tgs tgs_drawn platform drawn response rep

  transfer_with-Transferred :
      (params : TransferParams) (t : ServiceTicketSession) (key : List ℕ) (tx : String)
      (tab tab' : Tab)
      → transfer_with tgs tgs_drawn platform drawn params t key tab ≡ (returned tx, tab')
      → Transferred params t key tx × (tab' ≡ tab)
  unfolding transfer_with
  transfer_with-Transferred params t key tx tab tab' h = elim (Option-cases wrapped_private_key) [
    | inl e ↦ absurd (ground arith)
    | inr (blob, e) ↦
        elim (Option-cases
          (sign_pss blob params.pin (canonical tgs tgs_drawn platform drawn params))) [
            | inl e₁ ↦ absurd (ground arith)
            | inr (signature, e₁) ↦
                elim (Option-cases (
                  post_transfer
                    (transfer_request tgs tgs_drawn platform drawn params key t signature))) [
                      | inl e₂ ↦ absurd (ground arith)
                      | inr (resp, e₂) ↦
                          elim (run-cases
                            (confirm tgs tgs_drawn platform drawn key resp.ap_rep tab)) [
                              | inr (x, s, e₃) ↦ absurd (ground arith)
                              | inl (rep, s, e₃) ↦
                                  let (confirmed, kept) =
                                    confirm-Confirmed key resp.ap_rep rep tab s e₃ in
                                  (
                                    record {
                                      blob = blob;
                                      signature = signature;
                                      response = resp;
                                      rep = rep;
                                      own_key = e;
                                      signed = e₁;
                                      posted = e₂;
                                      confirmed = confirmed;
                                      transaction = ground arith;
                                    },
                                    ground arith,
                                  )
                            ]
                    ]
          ]
  ]

  -- A transfer that gives a transaction used a ticket for transfers that the tab holds, valid before or
  -- given by the KDC just now; the canonical text of the payload was signed with the stored key; the
  -- gateway answered the request with that text and its signature; and the Bank's reply, opened with the
  -- ticket's key, says ok and repeats the nonce of the request. The transaction is the one answered.
  pub perform_transfer-Transferred :
      (params : TransferParams) (tab tab' : Tab) (tx : String)
      → perform_transfer tgs tgs_drawn platform drawn params tab ≡ (returned tx, tab')
      → (t : ServiceTicketSession) × Ticket tgs tgs_drawn transfer_create tab tab' t
        × Transferred params t (tab'.buffers t.session_key) tx
  unfolding perform_transfer
  perform_transfer-Transferred params tab tab' tx h =
      elim (run-cases (ensure_ticket tgs tgs_drawn transfer_create tab)) [
        | inr (x, s, e) ↦ absurd (ground arith)
        | inl (t, s, e) ↦
            let (done, kept) =
              transfer_with-Transferred params t (s.buffers t.session_key) tx s tab'
                (ground arith) in
            let ticket = ensure_ticket-Ticket tgs tgs_drawn transfer_create tab s t e in
            (
              t,
              subst (λ u. Ticket tgs tgs_drawn transfer_create tab u t) (sym kept) ticket,
              subst (λ (u : Tab). Transferred params t (u.buffers t.session_key) tx) (sym kept)
                  done,
            )
      ]

  profile_with-Confirmed :
      (t : ServiceTicketSession) (key : List ℕ) (profile : P) (tab tab' : Tab)
      → profile_with tgs tgs_drawn platform drawn t key tab ≡ (returned profile, tab')
      → (ap_rep : String) × (rep : ApRep P) × (post_profile
            (query_request tgs tgs_drawn platform drawn key t)
          ≡ some ap_rep)
        × Confirmed key ap_rep rep
        × (profile ≡ rep.profile)
        × (tab' ≡ tab)
  unfolding profile_with
  profile_with-Confirmed t key profile tab tab' h =
      elim (Option-cases (post_profile (query_request tgs tgs_drawn platform drawn key t))) [
        | inl e ↦ absurd (ground arith)
        | inr (ap_rep, e) ↦ elim (run-cases (confirm tgs tgs_drawn platform drawn key ap_rep tab)) [
          | inr (x, s, e₁) ↦ absurd (ground arith)
          | inl (rep, s, e₁) ↦
              let (confirmed, kept) = confirm-Confirmed key ap_rep rep tab s e₁ in
              (ap_rep, rep, e, confirmed, ground arith, ground arith)
        ]
      ]

  -- A profile that is shown comes from a reply to a request under a ticket for balances that the tab holds,
  -- valid before or given by the KDC just now; the reply opened with the ticket's key, says ok and repeats
  -- the nonce of this request.
  pub fetch_profile-Confirmed :
      (profile : P) (tab tab' : Tab)
      → fetch_profile tgs tgs_drawn platform drawn tab ≡ (returned profile, tab')
      → (t : ServiceTicketSession) × (ap_rep : String) × (rep : ApRep P) × Ticket tgs tgs_drawn
          balance_read tab tab' t
        × (post_profile (query_request tgs tgs_drawn platform drawn (tab'.buffers t.session_key) t)
            ≡ some ap_rep)
        × Confirmed (tab'.buffers t.session_key) ap_rep rep
        × (profile ≡ rep.profile)
  unfolding fetch_profile
  fetch_profile-Confirmed profile tab tab' h =
      elim (run-cases (ensure_ticket tgs tgs_drawn balance_read tab)) [
        | inr (x, s, e) ↦ absurd (ground arith)
        | inl (t, s, e) ↦
            let (ap_rep, rep, posted, confirmed, same, kept) =
              profile_with-Confirmed t (s.buffers t.session_key) profile s tab' (ground arith) in
            let ticket = ensure_ticket-Ticket tgs tgs_drawn balance_read tab s t e in
            (
              t,
              ap_rep,
              rep,
              subst (λ u. Ticket tgs tgs_drawn balance_read tab u t) (sym kept) ticket,
              subst
                  (λ (u : Tab).
                    post_profile
                      (query_request tgs tgs_drawn platform drawn (u.buffers t.session_key) t)
                    ≡ some ap_rep)
                  (sym kept) posted,
              subst (λ (u : Tab). Confirmed (u.buffers t.session_key) ap_rep rep) (sym kept)
                  confirmed,
              same,
            )
      ]
