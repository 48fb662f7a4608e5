-- ===== src/Gateway/CaAdmin/Certificates/Relayed.antt =====
-- What an answer to a revocation or a list of certificates says of the CA (Certificates.antt).
use mini_banking_app.Common.{
  ◌≤◌, ◌≡◌, ◌≢◌, inl, inr, arith, String, true, Option, none, some, map, eq_iff,
}
use mini_banking_app.Common.Ascii.{trim}
use mini_banking_app.Common.Result.{Result, ok, Result-cases}
use mini_banking_app.Gateway.Http.{GrpcError}
use mini_banking_app.Gateway.CaAdmin.{Integer, pos, negsuc}
use mini_banking_app.Gateway.CaAdmin.Certificates.{
  CertificateMetadata, CertificateView, ListQuery, ListRequest, ListResponse, allowed_cert_types,
  allowed_statuses, handle_admin_list_certificates, handle_admin_revoke_certificate,
  map_certificate, member, normalize_limit, request_of,
}

module _ (performed_by : String) where
  -- What is answered to a revocation is a certificate as the CA gave it back for the trimmed serial number
  -- and reason, neither of them empty; and a list is what the CA gave for a request whose limit lies
  -- between 1 and 100 and whose status and type are among the allowed.
  certificates-Relayed :
      (revoke_certificate : String
        → String
        → String
        → Result GrpcError (Option CertificateMetadata))
      (list_certificates : ListRequest → Result GrpcError (ListResponse CertificateMetadata))
      (serial reason : String) (q : ListQuery)
      → ((view : CertificateView)
          → handle_admin_revoke_certificate performed_by revoke_certificate serial reason ≡ ok view
          → (trim serial ≢ "")
            × (trim reason ≢ "")
            × ((cert : CertificateMetadata) × (revoke_certificate
                    (trim serial)
                    (trim reason)
                    performed_by
                  ≡ ok (some cert))
                × (view ≡ map_certificate cert)))
        × ((page : ListResponse CertificateView)
            → handle_admin_list_certificates performed_by list_certificates q ≡ ok page
            → (resp : ListResponse CertificateMetadata) × (req : ListRequest) × (list_certificates
                  req
                ≡ ok resp)
              × (1 ≤ req.limit)
              × (req.limit ≤ 100)
              × (member allowed_statuses req.status ≡ true)
              × (member allowed_cert_types req.cert_type ≡ true)
              × (page.certificates ≡ map map_certificate resp.certificates))
  unfolding handle_admin_revoke_certificate handle_admin_list_certificates
  certificates-Relayed revoke_certificate list_certificates serial reason q = (revoked, listed)
    where
      revoked :
          (view : CertificateView)
          → handle_admin_revoke_certificate performed_by revoke_certificate serial reason ≡ ok view
          → (trim serial ≢ "")
            × (trim reason ≢ "")
            × ((cert : CertificateMetadata) × (revoke_certificate
                    (trim serial)
                    (trim reason)
                    performed_by
                  ≡ ok (some cert))
                × (view ≡ map_certificate cert))
      revoked view h =
          elim (Result-cases (revoke_certificate (trim serial) (trim reason) performed_by)) [
            | inr (x, e) ↦ absurd (ground arith)
            | inl (none, e) ↦ absurd (ground arith)
            | inl (some cert, e) ↦ (
              ground (arith, eq_iff (trim serial) ""),
              ground (arith, eq_iff (trim reason) ""),
              (cert, e, ground arith),
            )
          ]

      limit-between :
          (o : Option (Option Integer)) → (1 ≤ normalize_limit o) × (normalize_limit o ≤ 100)
      limit-between none = (omega arith, omega arith)
      limit-between (some none) = (omega arith, omega arith)
      limit-between (some (some (negsuc n))) = (omega arith, omega arith)
      limit-between (some (some (pos n))) = (ground arith, ground arith)

      listed :
          (page : ListResponse CertificateView)
          → handle_admin_list_certificates performed_by list_certificates q ≡ ok page
          → (resp : ListResponse CertificateMetadata) × (req : ListRequest) × (list_certificates req
              ≡ ok resp)
            × (1 ≤ req.limit)
            × (req.limit ≤ 100)
            × (member allowed_statuses req.status ≡ true)
            × (member allowed_cert_types req.cert_type ≡ true)
            × (page.certificates ≡ map map_certificate resp.certificates)
      listed page h = elim (Result-cases (list_certificates (request_of performed_by q))) [
        | inr (x, e) ↦ absurd (ground arith)
        | inl (resp, e) ↦
            let (low, high) = limit-between q.limit in
            (
              resp,
              request_of performed_by q,
              e,
              low,
              high,
              ground arith,
              ground arith,
              ground arith,
            )
      ]
