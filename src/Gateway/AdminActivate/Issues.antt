-- ===== src/Gateway/AdminActivate/Issues.antt =====
-- For whom a certificate of an administrator is issued.
use mini_banking_app.Common.{ℕ, ◌≡◌, inl, inr, arith, String, [], ◌∷◌, ◌++◌}
use mini_banking_app.Common.Exec.{returned, thrown, run-cases, Outcome}
use mini_banking_app.Common.Result.{Result, ok, Result-cases}
use mini_banking_app.Gateway.Http.{Exception, coded, grpc, GrpcError}
use mini_banking_app.Gateway.Redis.{Redis}
use mini_banking_app.Gateway.Activation.{
  AdminRole, AdminIdentity, IdentityJson, get_pending_admin_by_token, mark_admin_activated,
}
use mini_banking_app.Gateway.Activation.Lifecycle.{
  Activable, Found, get_pending_admin_by_token-Activable,
}
use mini_banking_app.Gateway.Activation.Provisions.{Reads, mark_admin_activated-get}
use mini_banking_app.Gateway.AdminActivate.{
  IssueRequest, AdminCertificate, ActivateBody, Issued, Desk, request_of, activate_identity,
  activate,
}

module _ (redis : Redis) (json : IdentityJson) (hash : String → String)
    (ask_ca : Issued → IssueRequest → Result GrpcError AdminCertificate) (role : AdminRole)
    (now : ℕ) (body : ActivateBody) where
  open redis use {elapse}

  abbrev pub D : Type 0
  D = Desk redis json hash ask_ca

  -- What the look-up of the token gives.
  abbrev pub looked_up : D → Outcome Exception AdminIdentity
  looked_up d =
      (get_pending_admin_by_token redis json hash body.activation_token role now d.store).0

  -- What an activation did: without a good token the CA is not asked; with one it is asked once, for the
  -- identity of the token; and if all succeeds, the token is refused from then on.
  pub data Activated (d : D) (run : Outcome Exception (AdminCertificate × AdminIdentity) × D)
      : Type 0 where
    refused :
        (e : Exception)
        → looked_up d ≡ thrown e
        → run.0 ≡ thrown e
        → run.1.issued ≡ d.issued
        → Activated d run
    not_finished :
        (identity : AdminIdentity) (e : Exception)
        → looked_up d ≡ returned identity
        → Found redis json hash role (hash body.activation_token) identity d.store
        → Activable redis json hash role now (hash body.activation_token) identity
        → run.0 ≡ thrown e
        → run.1.issued
          ≡ d.issued
            ++ ((
              request_of role body.csr_pem identity,
              ask_ca d.issued (request_of role body.csr_pem identity),
            )
                ∷ [])
        → Activated d run
    finished :
        (identity active : AdminIdentity) (cert : AdminCertificate)
        → looked_up d ≡ returned identity
        → Found redis json hash role (hash body.activation_token) identity d.store
        → Activable redis json hash role now (hash body.activation_token) identity
        → ask_ca d.issued (request_of role body.csr_pem identity) ≡ ok cert
        → run.0 ≡ returned (cert, active)
        → run.1.issued ≡ d.issued ++ ((request_of role body.csr_pem identity, ok cert) ∷ [])
        → ((n later : ℕ)
            → Reads redis json hash
            → (get_pending_admin_by_token redis json hash body.activation_token identity.role later
                (elapse n run.1.store)).0
              ≡ thrown
                  (coded 401 "ADMIN_ACTIVATION_INVALID" "Activation token is invalid or expired"))
        → Activated d run

  -- Both activations of administrators: if the look-up of the token throws, the activation throws the same
  -- and the CA is not asked. Otherwise the token leads, in Redis, to a pending identity of the role that
  -- is in time, and the CA is asked once, for that identity's number, address and name; and where a
  -- certificate is answered, the token is refused at any later time, as long as Redis answers the look-up.
  pub activate-Activated : (d : D) → Activated d (activate redis json hash ask_ca role now body d)
  unfolding activate activate_identity
  activate-Activated d =
      elim (run-cases
        (get_pending_admin_by_token redis json hash body.activation_token role now d.store)) [
          | inr (e, s, h) ↦ refused e (ground arith) (ground arith) (ground arith)
          | inl (identity, s, h) ↦
              let request = request_of role body.csr_pem identity in
              let (found, good) =
                get_pending_admin_by_token-Activable redis json hash body.activation_token role now
                  identity d.store s h in
              elim (Result-cases (ask_ca d.issued request)) [
                | inr (e, h₁) ↦
                    not_finished identity (grpc e) (ground arith) found good (ground arith)
                      (ground arith)
                | inl (cert, h₁) ↦
                    elim (run-cases
                      (mark_admin_activated redis json hash identity cert.serial_number now s)) [
                        | inr (e, s', h₂) ↦
                            not_finished identity e (ground arith) found good (ground arith)
                              (ground arith)
                        | inl (active, s', h₂) ↦
                            let stored : (activate redis json hash ask_ca role now body d).1.store
                                ≡ s' =
                              ground arith in
                            finished identity active cert (ground arith) found good h₁
                              (ground arith) (ground arith)
                              (λ n later up. rw stored (
                                mark_admin_activated-get redis json hash identity active
                                  cert.serial_number body.activation_token now later n s s' up
                                  good.hash_matches h₂))
                      ]
              ]
        ]
