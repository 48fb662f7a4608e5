-- ===== src/Gateway/Relay.antt =====
-- mini-banking-app/api-gateway/src/controller/kdc.controller.ts and bank.controller.ts: requests that
-- the gateway hands on. The gRPC services, `fromJSON` of the generated code with its messages to the KDC,
-- and base64 are arguments; the header `Cache-Control` of two answers is left out, and the list of transactions.
pub mod Answers
use mini_banking_app.Common.{ℕ, String, Option, List, [], ◌∷◌, get_or}
use mini_banking_app.Common.Result.{Result, ok, err}
use mini_banking_app.Gateway.Http.{grpc, GrpcError, Response, text, number, failed, succeeded}
use mini_banking_app.Gateway.ErrorHandler.{HttpError, as_grpc_error, tgs_grpc_error, error_handler}

-- `req.body` of a request for a TGT, and of one for a service ticket.
pub record AsBody : Type 0 where
  pub client_id : String
  pub nonce : String
  pub timestamp : ℕ
  pub cert_sn : String
  pub pre_auth_signature : String

pub record TgsBody : Type 0 where
  pub service_id : String
  pub tgt_ciphertext : String
  pub authenticator : String
  pub cert_sn : String
  pub nonce : String
  pub requested_scope : String

-- What `fromJSON` is given, with the names of the protocol.
pub record AsFields : Type 0 where
  pub owner_id : String
  pub cert_sn : String
  pub nonce : String
  pub timestamp : ℕ
  pub signature : String

pub record TgsFields : Type 0 where
  pub tgt : String
  pub authenticator : String
  pub cert_sn : String
  pub scope : String
  pub service_id : String
  pub nonce : String

-- What the KDC answers, in bytes, and when the ticket in it expires.
pub record AsResponse : Type 0 where
  pub as_rep : List ℕ
  pub tgt_expires_at_unix : ℕ

pub record TgsResponse : Type 0 where
  pub tgs_rep : List ℕ
  pub ticket_expires_at_unix : ℕ

abbrev pub refused : HttpError → Response
refused e = failed e.status e.error_code e.message

module _ {Request : Type 0} (to_base64 : List ℕ → String) where
  unfoldable pub handle_request_tgt :
      (AsFields → Request) → (Request → Result GrpcError AsResponse) → AsBody → Response
  handle_request_tgt from_json request_tgt body =
      elim (request_tgt (
        from_json (record {
          owner_id = body.client_id;
          cert_sn = body.cert_sn;
          nonce = body.nonce;
          timestamp = body.timestamp;
          signature = body.pre_auth_signature;
        }))) [
          | ok resp ↦ succeeded 200 "AS_REP generated" (
              ("encrypted_payload", text (to_base64 resp.as_rep))
              ∷ ("tgt_expiry", number resp.tgt_expires_at_unix)
              ∷ [])
          | err e ↦ refused (as_grpc_error e)
        ]

  unfoldable pub handle_request_tgs :
      (TgsFields → Request) → (Request → Result GrpcError TgsResponse) → TgsBody → Response
  handle_request_tgs from_json request_service_ticket body =
      elim (request_service_ticket (
        from_json (record {
          tgt = body.tgt_ciphertext;
          authenticator = body.authenticator;
          cert_sn = body.cert_sn;
          scope = body.requested_scope;
          service_id = body.service_id;
          nonce = body.nonce;
        }))) [
          | ok resp ↦ succeeded 200 "TGS_REP generated" (
              ("encrypted_payload", text (to_base64 resp.tgs_rep))
              ∷ ("ticket_expiry", number resp.ticket_expires_at_unix)
              ∷ [])
          | err e ↦ refused (tgs_grpc_error e)
        ]

-- The sealed parts of a transfer, and of a query of an account, in base64.
pub record TransferBody : Type 0 where
  pub ticket_v : String
  pub authenticator : String
  pub cipher_payload : String
  pub iv : String

pub record QueryBody : Type 0 where
  pub ticket_v : String
  pub authenticator : String

pub record TransferFields : Type 0 where
  pub ticket_v : List ℕ
  pub authenticator : List ℕ
  pub cipher_payload : List ℕ
  pub iv : List ℕ

pub record BalanceFields : Type 0 where
  pub ticket_v : List ℕ
  pub authenticator : List ℕ
  pub account_id : String

pub record TransferReply : Type 0 where
  pub ap_rep : List ℕ
  pub transaction_id : String

pub record BalanceReply : Type 0 where
  pub ap_rep : List ℕ
  pub account_id : String

module _ (from_base64 : String → List ℕ) (to_base64 : List ℕ → String) where
  unfoldable pub handle_transfer :
      (TransferFields → Result GrpcError TransferReply) → TransferBody → Response
  handle_transfer transfer_money body =
      elim (transfer_money (record {
        ticket_v = from_base64 body.ticket_v;
        authenticator = from_base64 body.authenticator;
        cipher_payload = from_base64 body.cipher_payload;
        iv = from_base64 body.iv;
      })) [
        | ok reply ↦ succeeded 200 "" (
            ("ap_rep", text (to_base64 reply.ap_rep))
            ∷ ("transaction_id", text reply.transaction_id)
            ∷ [])
        | err e ↦ error_handler (grpc e)
      ]

  -- The profile is the balance of the account that the ticket names: the request names none.
  unfoldable pub handle_profile :
      (BalanceFields → Result GrpcError BalanceReply) → QueryBody → Response
  handle_profile get_balance body =
      elim (get_balance (record {
        ticket_v = from_base64 body.ticket_v;
        authenticator = from_base64 body.authenticator;
        account_id = "";
      })) [
        | ok reply ↦
            succeeded 200 "" (
              ("ap_rep", text (to_base64 reply.ap_rep))
              ∷ ("account_id", text reply.account_id)
              ∷ [])
        | err e ↦ error_handler (grpc e)
      ]
