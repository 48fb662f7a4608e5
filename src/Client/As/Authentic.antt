-- ===== src/Client/As/Authentic.antt =====
-- What an AS exchange that succeeds has checked.
use mini_banking_app.Common.{
  ◌≡◌, refl, inl, inr, String, true, some, Option, [], arith, eq_iff, Bool-cases, Option-cases,
  ◌===◌,
}
use mini_banking_app.Common.Result.{ok, Result-cases}
use mini_banking_app.Pki.Asn1.{Bytes}
use mini_banking_app.Pki.Chain.{WebCrypto, VerifiedLeaf}
use mini_banking_app.Pki.Names.{Browser}
use mini_banking_app.Pki.Certificate.{verify_pem_chain}
use mini_banking_app.Pki.OwnerId.{Codecs, extract_owner_id_from_certificate}
use mini_banking_app.Client.Sessions.{AsSession, Tab, get_session, set_session}
use mini_banking_app.Client.As.{
  StoredCertificate, AsPlatform, AsDraws, AsReply, AsResponse, AsRepPayload, AsExchangeResult,
  kdc_signer_cn, check_signer, payload_of, request_of, session_of, accept_reply,
  perform_as_exchange,
}

module _ (browser : Browser) (codecs : Codecs) (crypto : WebCrypto) (platform : AsPlatform crypto)
    (pin : String) (operation_id : Option String) (drawn : AsDraws) where
  open platform use {
    Blob, stored_certificate, wrapped_private_key, print_payload, sign, post_as_req, parse_reply,
    unseal, parse_payload, verify_pss, base64_to_bytes, root_ca_pem,
  }

  -- The reply was signed by a KDC whose chain is accepted under the root, over the decrypted bytes.
  pub record Signed (reply : AsReply) (plaintext : Bytes) : Type 0 where
    pub signer : VerifiedLeaf crypto
    pub chain :
        verify_pem_chain browser crypto drawn.now_ms root_ca_pem reply.kdc_cert_chain [] ≡ ok signer
    pub cn : signer.subject_cn ≡ kdc_signer_cn
    pub verified : verify_pss signer.public_key_pss reply.kdc_signature plaintext ≡ true

  check_signer-Signed :
      (reply : AsReply) (plaintext : Bytes) (leaf : VerifiedLeaf crypto)
      → check_signer browser codecs crypto platform pin operation_id drawn reply plaintext ≡ ok leaf
      → Signed reply plaintext
  unfolding check_signer
  check_signer-Signed reply plaintext leaf h = elim (Bool-cases (reply.kdc_cert_chain === "")) [
    | inl e ↦ absurd (ground arith)
    | inr e ↦
        elim (Result-cases
          (verify_pem_chain browser crypto drawn.now_ms root_ca_pem reply.kdc_cert_chain [])) [
            | inr (x, e₁) ↦ absurd (ground arith)
            | inl (signer, e₁) ↦ record {
              signer = signer;
              chain = e₁;
              cn = ground (arith, eq_iff signer.subject_cn kdc_signer_cn);
              verified = ground arith;
            }
          ]
  ]

  -- What stands behind a session: the request was signed with the stored key and names the owner in the
  -- stored certificate, and the gateway's reply to it is signed by the KDC and repeats the nonce.
  pub record Authentic (tab : Tab) (session : AsSession) : Type 0 where
    pub cert : StoredCertificate
    pub blob : Blob
    pub client_id : String
    pub signature : String
    pub response : AsResponse
    pub reply : AsReply
    pub plaintext : Bytes
    pub payload : AsRepPayload
    pub stored : stored_certificate ≡ some cert
    pub own_key : wrapped_private_key ≡ some blob
    pub own_id : extract_owner_id_from_certificate codecs cert.certificate_pem ≡ ok client_id
    pub signed_request :
        sign blob pin (
          print_payload (
            payload_of browser codecs crypto platform pin operation_id drawn client_id
              cert.serial_number))
        ≡ some signature
    pub posted :
        post_as_req (
          request_of browser codecs crypto platform pin operation_id drawn client_id
            cert.serial_number signature)
        ≡ some response
    pub parsed : parse_reply response.encrypted_payload ≡ some reply
    pub opened : unseal blob pin reply ≡ some plaintext
    pub read : parse_payload plaintext ≡ some payload
    pub signed : Signed reply plaintext
    pub same_nonce : payload.nonce_1 ≡ drawn.nonce
    pub made :
        session
        ≡ session_of browser codecs crypto platform pin operation_id drawn client_id
            cert.serial_number payload response tab.fresh

  accept_reply-lem :
      (blob : Blob) (client_id cert_sn : String) (resp : AsResponse) (tab tab' : Tab)
      (r : AsExchangeResult)
      → accept_reply browser codecs crypto platform pin operation_id drawn blob client_id cert_sn
          resp tab
        ≡ ok (r, tab')
      → (reply : AsReply) × (plaintext : Bytes) × (payload : AsRepPayload) × (parse_reply
            resp.encrypted_payload
          ≡ some reply)
        × (unseal blob pin reply ≡ some plaintext)
        × (parse_payload plaintext ≡ some payload)
        × Signed reply plaintext
        × (payload.nonce_1 ≡ drawn.nonce)
        × (get_session tab'
            ≡ some (
                session_of browser codecs crypto platform pin operation_id drawn client_id cert_sn
                  payload resp tab.fresh))
  unfolding accept_reply set_session
  accept_reply-lem blob client_id cert_sn resp tab tab' r h =
      elim (Option-cases (parse_reply resp.encrypted_payload)) [
        | inl e ↦ absurd (ground arith)
        | inr (reply, e) ↦ elim (Option-cases (unseal blob pin reply)) [
          | inl e₁ ↦ absurd (ground arith)
          | inr (plaintext, e₁) ↦ elim (Option-cases (parse_payload plaintext)) [
            | inl e₂ ↦ absurd (ground arith)
            | inr (payload, e₂) ↦
                elim (Result-cases (
                  check_signer browser codecs crypto platform pin operation_id drawn reply
                    plaintext)) [
                      | inr (x, e₃) ↦ absurd (ground arith)
                      | inl (leaf, e₃) ↦ elim (Option-cases (base64_to_bytes payload.k_c_tgs)) [
                        | inl e₄ ↦ absurd (ground arith)
                        | inr (key, e₄) ↦ (
                          reply,
                          plaintext,
                          payload,
                          e,
                          e₁,
                          e₂,
                          check_signer-Signed reply plaintext leaf e₃,
                          ground (arith, eq_iff payload.nonce_1 drawn.nonce),
                          ground arith,
                        )
                      ]
                    ]
          ]
        ]
      ]

  -- An exchange that succeeds leaves a session, and what stands behind it: the stored certificate names
  -- its owner, who signed the request with the stored key; the reply to that request opened with the same
  -- key; the decrypted bytes carry a signature that verifies under the key of a certificate with the
  -- common name kdc-service, whose chain is accepted up to the root; and they repeat the nonce drawn.
  pub perform_as_exchange-Authentic :
      (tab tab' : Tab) (r : AsExchangeResult)
      → perform_as_exchange browser codecs crypto platform pin operation_id drawn tab ≡ ok (r, tab')
      → (session : AsSession) × (get_session tab' ≡ some session) × Authentic tab session
  unfolding perform_as_exchange
  perform_as_exchange-Authentic tab tab' r h = elim (Option-cases stored_certificate) [
    | inl e ↦ absurd (ground arith)
    | inr (cert, e) ↦ elim (Option-cases wrapped_private_key) [
      | inl e₁ ↦ absurd (ground arith)
      | inr (blob, e₁) ↦
          elim (Result-cases (extract_owner_id_from_certificate codecs cert.certificate_pem)) [
            | inr (x, e₂) ↦ absurd (ground arith)
            | inl (client_id, e₂) ↦ from_owner cert blob client_id e e₁ e₂
          ]
    ]
  ]
    where
      from_owner :
          (cert : StoredCertificate) (blob : Blob) (client_id : String)
          → stored_certificate ≡ some cert
          → wrapped_private_key ≡ some blob
          → extract_owner_id_from_certificate codecs cert.certificate_pem ≡ ok client_id
          → (session : AsSession) × (get_session tab' ≡ some session) × Authentic tab session
      from_owner cert blob client_id e e₁ e₂ =
          elim (Option-cases (
            sign blob pin (
              print_payload (
                payload_of browser codecs crypto platform pin operation_id drawn client_id
                  cert.serial_number)))) [
                    | inl e₃ ↦ absurd (ground arith)
                    | inr (signature, e₃) ↦
                        elim (Option-cases (
                          post_as_req (
                            request_of browser codecs crypto platform pin operation_id drawn
                              client_id cert.serial_number signature))) [
                                | inl e₄ ↦ absurd (ground arith)
                                | inr (resp, e₄) ↦
                                    let (
                                      reply, plaintext, payload, e₅, e₆, e₇, signed, same, there,
                                    ) =
                                      accept_reply-lem blob client_id cert.serial_number resp tab
                                        tab' r (ground arith) in
                                    (
                                      _,
                                      there,
                                      record {
                                        cert = cert;
                                        blob = blob;
                                        client_id = client_id;
                                        signature = signature;
                                        response = resp;
                                        reply = reply;
                                        plaintext = plaintext;
                                        payload = payload;
                                        stored = e;
                                        own_key = e₁;
                                        own_id = e₂;
                                        signed_request = e₃;
                                        posted = e₄;
                                        parsed = e₅;
                                        opened = e₆;
                                        read = e₇;
                                        signed = signed;
                                        same_nonce = same;
                                        made = refl;
                                      },
                                    )
                              ]
                  ]
