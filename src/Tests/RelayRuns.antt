-- ===== src/Tests/RelayRuns.antt =====
-- A KDC and a Bank of which one answers and one does not.
use mini_banking_app.Common.{ℕ, String, none, some, List, [], ◌∷◌}
use mini_banking_app.Common.Result.{Result, ok, err}
use mini_banking_app.Gateway.Http.{GrpcError, text, number}
use mini_banking_app.Gateway.Relay.{
  AsBody, TgsBody, AsFields, TgsFields, AsResponse, TgsResponse, TransferBody, QueryBody,
  TransferFields, TransferReply, BalanceFields, BalanceReply, handle_request_tgt,
  handle_request_tgs, handle_transfer, handle_profile,
}
use mini_banking_app.Gateway.Relay.Answers.{
  Carried, as_sent, tgs_sent, transfer_sent, profile_sent, kdc_requests-Relayed,
  bank_requests-Relayed,
}

abbrev down : GrpcError
down = record { code = some 14; details = "down"; message = ""; meta_code = none }

abbrev tgt : AsFields → Result GrpcError AsResponse
tgt fields = ok (record { as_rep = 1 ∷ 2 ∷ []; tgt_expires_at_unix = 2000 })

abbrev ticket : TgsFields → Result GrpcError TgsResponse
ticket fields = err down

abbrev as_body : AsBody
as_body = record {
  client_id = "o1";
  nonce = "N";
  timestamp = 1000;
  cert_sn = "0A";
  pre_auth_signature = "S";
}

abbrev tgs_body : TgsBody
tgs_body = record {
  service_id = "bank-service";
  tgt_ciphertext = "T";
  authenticator = "A";
  cert_sn = "0A";
  nonce = "N";
  requested_scope = "balance:read";
}

abbrev in_base64 : List ℕ → String
in_base64 bytes = "B"

kdc_requests-Relayed_example :
    Carried
      (λ reply.
        ("encrypted_payload", text (in_base64 reply.as_rep))
        ∷ ("tgt_expiry", number reply.tgt_expires_at_unix)
        ∷ [])
      (tgt (as_sent in_base64 (λ x. x) (λ x. x) as_body))
      (handle_request_tgt in_base64 (λ x. x) tgt as_body)
    × Carried
        (λ reply.
          ("encrypted_payload", text (in_base64 reply.tgs_rep))
          ∷ ("ticket_expiry", number reply.ticket_expires_at_unix)
          ∷ [])
        (ticket (tgs_sent in_base64 (λ x. x) (λ x. x) tgs_body))
        (handle_request_tgs in_base64 (λ x. x) ticket tgs_body)
kdc_requests-Relayed_example =
    kdc_requests-Relayed in_base64 (λ x. x) (λ x. x) tgt ticket as_body tgs_body

abbrev decode : String → List ℕ
decode encoded = 1 ∷ []

abbrev transfer : TransferFields → Result GrpcError TransferReply
transfer fields = ok (record { ap_rep = fields.iv; transaction_id = "t1" })

abbrev balance : BalanceFields → Result GrpcError BalanceReply
balance fields = err down

abbrev body : TransferBody
body = record { ticket_v = "T"; authenticator = "A"; cipher_payload = "C"; iv = "I" }

abbrev query : QueryBody
query = record { ticket_v = "T"; authenticator = "A" }

bank_requests-Relayed_example :
    Carried
      (λ reply.
        ("ap_rep", text (in_base64 reply.ap_rep))
        ∷ ("transaction_id", text reply.transaction_id)
        ∷ [])
      (transfer (transfer_sent decode in_base64 body))
      (handle_transfer decode in_base64 transfer body)
    × Carried
        (λ reply.
          ("ap_rep", text (in_base64 reply.ap_rep)) ∷ ("account_id", text reply.account_id) ∷ [])
        (balance (profile_sent decode in_base64 query))
        (handle_profile decode in_base64 balance query)
bank_requests-Relayed_example = bank_requests-Relayed decode in_base64 transfer balance body query
