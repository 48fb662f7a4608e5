-- ===== src/Client/As.antt =====
-- mini-banking-app/frontend/src/services/as-exchange/as-exchange.service.ts. The store of the browser,
-- the gateway, the key service, JSON and base64 are arguments; the chain of the KDC's certificate and
-- the owner in the client's certificate are those of Pki/Certificate and Pki/OwnerId.
pub mod Authentic
use mini_banking_app.Common.{
  ℕ, String, Bool, true, false, not, Option, none, some, List, [], ◌∷◌, ◌===◌, if◌then◌else◌,
}
use mini_banking_app.Common.Result.{Result, ok, err, ◌>>=◌, ◌>>◌}
use mini_banking_app.Pki.Asn1.{Bytes}
use mini_banking_app.Pki.Chain.{WebCrypto, VerifiedLeaf}
use mini_banking_app.Pki.Names.{Browser, CertError}
use mini_banking_app.Pki.Certificate.{verify_pem_chain}
use mini_banking_app.Pki.OwnerId.{OwnerError, Codecs, extract_owner_id_from_certificate}
use mini_banking_app.Client.Sessions.{AsSession, Tab, set_session}
use mini_banking_app.Client.Tgs.{allocate}

abbrev pub kdc_signer_cn : String
kdc_signer_cn = "kdc-service"

pub record StoredCertificate : Type 0 where
  pub certificate_pem : String
  pub serial_number : String

-- What the request says, before it is printed and signed.
pub record AsPayload : Type 0 where
  pub cert_sn : String
  pub owner_id : String
  pub nonce : String
  pub timestamp : ℕ

pub record AsRequest : Type 0 where
  pub client_id : String
  pub cert_sn : String
  pub nonce : String
  pub timestamp : ℕ
  pub pre_auth_signature : String

pub record AsResponse : Type 0 where
  pub encrypted_payload : String
  pub tgt_expiry : ℕ

-- The reply of the KDC; a missing chain is the empty text.
pub record AsReply : Type 0 where
  pub kdc_signature : String
  pub encrypted_key : String
  pub encrypted_payload : String
  pub kdc_cert_chain : String

pub record AsRepPayload : Type 0 where
  pub k_c_tgs : String
  pub tgt : String
  pub nonce_1 : String

pub record AsExchangeResult : Type 0 where
  pub client_id : String
  pub cert_sn : String
  pub tgt_expires_at : ℕ

pub data AsError : Type 0 where
  no_certificate no_private_key bad_pin gateway_error bad_reply cannot_open bad_payload no_chain
        wrong_signer bad_signature nonce_mismatch bad_key :
      AsError
  owner_error : OwnerError → AsError
  chain_error : CertError → AsError

-- The wrapped private key is used with a PIN: `sign` unwraps it and signs, `unseal` unwraps it, opens
-- the AES key under the label AS_REP and with that the payload. `verify_pss` decodes the signature first.
pub record AsPlatform (crypto : WebCrypto) : Type 1 where
  pub Blob : Type 0
  pub stored_certificate : Option StoredCertificate
  pub wrapped_private_key : Option Blob
  pub print_payload : AsPayload → Bytes
  pub sign : Blob → String → Bytes → Option String
  pub post_as_req : AsRequest → Option AsResponse
  pub parse_reply : String → Option AsReply
  pub unseal : Blob → String → AsReply → Option Bytes
  pub parse_payload : Bytes → Option AsRepPayload
  pub verify_pss : crypto.Key → String → Bytes → Bool
  pub base64_to_bytes : String → Option Bytes
  pub root_ca_pem : String

pub record AsDraws : Type 0 where
  pub nonce : String
  pub timestamp : ℕ
  pub now_ms : ℕ

abbrev pub or_fail : {A : Type 0} → AsError → Option A → Result AsError A
or_fail e none = err e
or_fail e (some a) = ok a

-- `if (!holds) throw e`
abbrev pub require : Bool → AsError → Result AsError (Unit {0})
require true e = ok tt
require false e = err e

abbrev pub owner : {A : Type 0} → Result OwnerError A → Result AsError A
owner (err e) = err (owner_error e)
owner (ok a) = ok a

abbrev pub chain : {A : Type 0} → Result CertError A → Result AsError A
chain (err e) = err (chain_error e)
chain (ok a) = ok a

module _ (browser : Browser) (codecs : Codecs) (crypto : WebCrypto) (platform : AsPlatform crypto)
    (pin : String) (operation_id : Option String) (drawn : AsDraws) where
  open platform use {
    Blob, stored_certificate, wrapped_private_key, print_payload, sign, post_as_req, parse_reply,
    unseal, parse_payload, verify_pss, base64_to_bytes, root_ca_pem,
  }

  -- The checks of the KDC's signature, on the bytes that were decrypted.
  unfoldable pub check_signer : AsReply → Bytes → Result AsError (VerifiedLeaf crypto)
  check_signer reply plaintext = do
    require (not (reply.kdc_cert_chain === "")) no_chain
    leaf ← chain (verify_pem_chain browser crypto drawn.now_ms root_ca_pem reply.kdc_cert_chain [])
    require (leaf.subject_cn === kdc_signer_cn) wrong_signer
    require (verify_pss leaf.public_key_pss reply.kdc_signature plaintext) bad_signature
    ok leaf

  abbrev pub payload_of : String → String → AsPayload
  payload_of client_id cert_sn = record {
    cert_sn = cert_sn;
    owner_id = client_id;
    nonce = drawn.nonce;
    timestamp = drawn.timestamp;
  }

  abbrev pub request_of : String → String → String → AsRequest
  request_of client_id cert_sn signature = record {
    client_id = client_id;
    cert_sn = cert_sn;
    nonce = drawn.nonce;
    timestamp = drawn.timestamp;
    pre_auth_signature = signature;
  }

  abbrev pub session_of : String → String → AsRepPayload → AsResponse → ℕ → AsSession
  session_of client_id cert_sn payload resp key = record {
    client_id = client_id;
    cert_sn = cert_sn;
    tgt = payload.tgt;
    session_key = key;
    tgt_expires_at = resp.tgt_expiry;
    operation_id = operation_id;
  }

  -- From the reply of the gateway on; the new key is a buffer of its own.
  unfoldable pub accept_reply :
      Blob → String → String → AsResponse → Tab → Result AsError (AsExchangeResult × Tab)
  unfolding check_signer
  accept_reply blob client_id cert_sn resp tab = do
    reply ← or_fail bad_reply (parse_reply resp.encrypted_payload)
    plaintext ← or_fail cannot_open (unseal blob pin reply)
    payload ← or_fail bad_payload (parse_payload plaintext)
    check_signer reply plaintext
    require (payload.nonce_1 === drawn.nonce) nonce_mismatch
    key ← or_fail bad_key (base64_to_bytes payload.k_c_tgs)
    ok (
      record { client_id = client_id; cert_sn = cert_sn; tgt_expires_at = resp.tgt_expiry },
      set_session (session_of client_id cert_sn payload resp tab.fresh) (allocate key tab),
    )

  -- An error leaves the sessions as they were.
  unfoldable pub perform_as_exchange : Tab → Result AsError (AsExchangeResult × Tab)
  unfolding accept_reply
  perform_as_exchange tab = do
    cert ← or_fail no_certificate stored_certificate
    blob ← or_fail no_private_key wrapped_private_key
    client_id ← owner (extract_owner_id_from_certificate codecs cert.certificate_pem)
    signature ←
        or_fail bad_pin (sign blob pin (print_payload (payload_of client_id cert.serial_number)))
    resp ← or_fail gateway_error (post_as_req (request_of client_id cert.serial_number signature))
    accept_reply blob client_id cert.serial_number resp tab
