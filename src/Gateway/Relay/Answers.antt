-- ===== src/Gateway/Relay/Answers.antt =====
-- A request that is handed on succeeds exactly when the service answers it.
use mini_banking_app.Common.{
  ℕ, ◌≡◌, ◌⊎◌, inl, inr, String, true, false, List, [], ◌∷◌, arith, Option-cases,
}
use mini_banking_app.Common.Result.{Result, ok, err, Result-cases}
use mini_banking_app.Gateway.Http.{GrpcError, Response, Field, text, number, grpc}
use mini_banking_app.Gateway.ErrorHandler.{
  as_error, as_grpc_error, tgs_error, tgs_grpc_error, error_handler,
}
use mini_banking_app.Gateway.ErrorHandler.Statuses.{IsError, error_handler-IsError}
use mini_banking_app.Gateway.Relay.{
  AsBody, TgsBody, AsFields, TgsFields, AsResponse, TgsResponse, TransferBody, TransferFields,
  TransferReply, BalanceFields, BalanceReply, QueryBody, handle_profile, handle_request_tgt,
  handle_request_tgs, handle_transfer,
}

as_grpc_error-IsError : (e : GrpcError) → IsError (as_grpc_error e).status
unfolding as_grpc_error as_error
as_grpc_error-IsError e = ground arith

tgs_grpc_error-IsError : (e : GrpcError) → IsError (tgs_grpc_error e).status
unfolding tgs_grpc_error tgs_error
tgs_grpc_error-IsError e = ground arith

-- Either a service answered and the gateway's answer is a success with status 200 that carries what is
-- made of the reply, or it failed and the answer is a failure with a status from 400 to 599 that carries
-- nothing.
module _ {E A : Type 0} where
  abbrev pub Carried : (A → List (String × Field)) → Result E A → Response → Type 0
  Carried made answer r =
      ((reply : A) × (answer ≡ ok reply)
        × (r.status ≡ 200)
        × (r.success ≡ true)
        × (r.payload ≡ made reply))
      ⊎ ((e : E) × (answer ≡ err e) × IsError r.status × (r.success ≡ false) × (r.payload ≡ []))

module _ {AsRequest TgsRequest : Type 0} (to_base64 : List ℕ → String)
    (as_from_json : AsFields → AsRequest) (tgs_from_json : TgsFields → TgsRequest) where
  -- What the KDC is sent for a body: the client as the owner, and the signature of the
  -- pre-authentication as the signature; the sealed TGT as the TGT, and the scope that is requested.
  abbrev pub as_sent : AsBody → AsRequest
  as_sent body = as_from_json (record {
    owner_id = body.client_id;
    cert_sn = body.cert_sn;
    nonce = body.nonce;
    timestamp = body.timestamp;
    signature = body.pre_auth_signature;
  })

  abbrev pub tgs_sent : TgsBody → TgsRequest
  tgs_sent body = tgs_from_json (record {
    tgt = body.tgt_ciphertext;
    authenticator = body.authenticator;
    cert_sn = body.cert_sn;
    scope = body.requested_scope;
    service_id = body.service_id;
    nonce = body.nonce;
  })

  -- A request for a TGT is a success exactly when the KDC answers what it is sent for the body, renamed
  -- to the names of the protocol, and then it carries the reply in base64 and the expiry of the TGT; else
  -- it is a failure with a status from 400 to 599 that carries nothing. A request for a service ticket
  -- likewise, with the expiry of the ticket.
  pub kdc_requests-Relayed :
      (request_tgt : AsRequest → Result GrpcError AsResponse)
      (request_service_ticket : TgsRequest → Result GrpcError TgsResponse) (as_body : AsBody)
      (tgs_body : TgsBody)
      → Carried
          (λ reply.
            ("encrypted_payload", text (to_base64 reply.as_rep))
            ∷ ("tgt_expiry", number reply.tgt_expires_at_unix)
            ∷ [])
          (request_tgt (as_sent as_body))
          (handle_request_tgt to_base64 as_from_json request_tgt as_body)
        × Carried
            (λ reply.
              ("encrypted_payload", text (to_base64 reply.tgs_rep))
              ∷ ("ticket_expiry", number reply.ticket_expires_at_unix)
              ∷ [])
            (request_service_ticket (tgs_sent tgs_body))
            (handle_request_tgs to_base64 tgs_from_json request_service_ticket tgs_body)
  unfolding handle_request_tgt handle_request_tgs
  kdc_requests-Relayed request_tgt request_service_ticket as_body tgs_body = (
    elim (Result-cases (request_tgt (as_sent as_body))) [
      | inl (reply, e) ↦ inl (reply, e, ground arith, ground arith, ground arith)
      | inr (x, e) ↦
          let bad = as_grpc_error-IsError x in inr (x, e, ground arith, ground arith, ground arith)
    ],
    elim (Result-cases (request_service_ticket (tgs_sent tgs_body))) [
      | inl (reply, e) ↦ inl (reply, e, ground arith, ground arith, ground arith)
      | inr (x, e) ↦
          let bad = tgs_grpc_error-IsError x in inr (x, e, ground arith, ground arith, ground arith)
    ],
  )

grpc-IsError :
    (e : GrpcError)
    → IsError (error_handler (grpc e)).status
      × ((error_handler (grpc e)).success ≡ false)
      × ((error_handler (grpc e)).payload ≡ [])
unfolding error_handler
grpc-IsError e =
    let bad = error_handler-IsError (grpc e) (λ status code message same. absurd (ground arith)) in
    elim (Option-cases e.code) [
      | inl none_there ↦ (bad.0, bad.1, ground arith)
      | inr (code, known) ↦ (bad.0, bad.1, ground arith)
    ]

module _ (from_base64 : String → List ℕ) (to_base64 : List ℕ → String) where
  -- What the Bank is sent: the four parts of a transfer, decoded, and for a profile the ticket and the
  -- authenticator, decoded, and no account.
  abbrev pub transfer_sent : TransferBody → TransferFields
  transfer_sent body = record {
    ticket_v = from_base64 body.ticket_v;
    authenticator = from_base64 body.authenticator;
    cipher_payload = from_base64 body.cipher_payload;
    iv = from_base64 body.iv;
  }

  abbrev pub profile_sent : QueryBody → BalanceFields
  profile_sent query = record {
    ticket_v = from_base64 query.ticket_v;
    authenticator = from_base64 query.authenticator;
    account_id = "";
  }

  -- A transfer succeeds when the Bank answers the four parts of the body, decoded, and then carries the
  -- Bank's reply in base64 and the number of the transaction; when the Bank does not answer, it fails with
  -- a status from 400 to 599 and carries nothing. A profile likewise, for the decoded ticket and
  -- authenticator and no account, with the reply and the account.
  pub bank_requests-Relayed :
      (transfer_money : TransferFields → Result GrpcError TransferReply)
      (get_balance : BalanceFields → Result GrpcError BalanceReply) (body : TransferBody)
      (query : QueryBody)
      → Carried
          (λ reply.
            ("ap_rep", text (to_base64 reply.ap_rep))
            ∷ ("transaction_id", text reply.transaction_id)
            ∷ [])
          (transfer_money (transfer_sent body))
          (handle_transfer from_base64 to_base64 transfer_money body)
        × Carried
            (λ reply.
              ("ap_rep", text (to_base64 reply.ap_rep))
              ∷ ("account_id", text reply.account_id)
              ∷ [])
            (get_balance (profile_sent query))
            (handle_profile from_base64 to_base64 get_balance query)
  unfolding handle_transfer handle_profile
  bank_requests-Relayed transfer_money get_balance body query = (
    elim (Result-cases (transfer_money (transfer_sent body))) [
      | inl (reply, e) ↦ inl (reply, e, ground arith, ground arith, ground arith)
      | inr (x, e) ↦
          let bad = grpc-IsError x in inr (x, e, ground arith, ground arith, ground arith)
    ],
    elim (Result-cases (get_balance (profile_sent query))) [
      | inl (reply, e) ↦ inl (reply, e, ground arith, ground arith, ground arith)
      | inr (x, e) ↦
          let bad = grpc-IsError x in inr (x, e, ground arith, ground arith, ground arith)
    ],
  )
