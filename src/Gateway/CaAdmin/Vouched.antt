-- ===== src/Gateway/CaAdmin/Vouched.antt =====
-- Who gets a session of the CA administration, and what each login leaves in the trail.
use mini_banking_app.Common.{
  ℕ, ◌+◌, ◌*◌, ◌≤◌, ◌≡◌, ◌≢◌, refl, inl, inr, arith, String, Bool, true, false, some, List, [], ◌∷◌,
  ◌++◌, eq_iff, Option-cases,
}
use mini_banking_app.Common.Ascii.{to_lower_case, trim}
use mini_banking_app.Common.Split.{split_on}
use mini_banking_app.Common.Result.{Result, ok, err, Result-cases}
use mini_banking_app.Gateway.Http.{Response}
use mini_banking_app.Gateway.World.{AuditEvent}
use mini_banking_app.Gateway.CaAdmin.{
  SessionInput, VerifiedCertificate, LoginPlatform, Integer, pos, negsuc, status_active,
  role_ca_admin, challenge_prefix, too_far, check_parts, parse_challenge, accept, verify_signature,
  check_cert, certificate_of, create_ca_admin_session, session_of, session_answer, login_success,
  login_failed, error_code, handle_admin_ca_certificate_session,
}

-- At most five minutes, of 60 seconds, lie between the two times.
abbrev pub IsWithin : ℕ → Integer → Type 0
IsWithin now (pos issued_at) = (now ≤ issued_at + 5 * 60) × (issued_at ≤ now + 5 * 60)
IsWithin now (negsuc n) = now + n + 1 ≤ 5 * 60

too_far-IsWithin : (now : ℕ) (time : Integer) → too_far now time ≡ false → IsWithin now time
too_far-IsWithin now (pos issued_at) h = (ground arith, ground arith)
too_far-IsWithin now (negsuc n) h = ground arith

module _ (platform : LoginPlatform) (now : ℕ) (input : SessionInput) where
  -- The certificate is an active one of a CA administrator, and its key verifies the signature over a
  -- challenge that names the certificate and a time at most five minutes from now.
  pub record Vouched (cert_serial : String) (cert : VerifiedCertificate) : Type 0 where
    pub request_id : String
    pub issued_at : String
    pub time : Integer
    pub challenge :
        split_on b':' input.challenge ≡ challenge_prefix ∷ cert_serial ∷ request_id ∷ issued_at ∷ []
    pub named : request_id ≢ ""
    pub is_time : platform.to_integer issued_at ≡ some time
    pub fresh : IsWithin now time
    pub found : platform.verify_certificate cert_serial ≡ ok cert
    pub is_active : cert.status ≡ status_active
    pub is_admin : cert.role ≡ role_ca_admin
    pub long : 128 ≤ platform.decoded_length input.signature
    pub signed : platform.verify cert.public_key_pem input.challenge input.signature ≡ ok true

  check_parts-ok :
      (serial : String) (parts : List String)
      → check_parts platform now serial parts ≡ ok tt
      → (request_id : String) × (issued_at : String) × (time : Integer) × (parts
          ≡ challenge_prefix ∷ serial ∷ request_id ∷ issued_at ∷ [])
        × (request_id ≢ "")
        × (platform.to_integer issued_at ≡ some time)
        × IsWithin now time
  check_parts-ok serial [] h = absurd (ground arith)
  check_parts-ok serial (a ∷ []) h = absurd (ground arith)
  check_parts-ok serial (a ∷ b ∷ []) h = absurd (ground arith)
  check_parts-ok serial (a ∷ b ∷ c ∷ []) h = absurd (ground arith)
  check_parts-ok serial (a ∷ b ∷ c ∷ d ∷ e ∷ more) h = absurd (ground arith)
  check_parts-ok serial (a ∷ b ∷ c ∷ d ∷ []) h = elim (Option-cases (platform.to_integer d)) [
    | inl no_time ↦ absurd (ground arith)
    | inr (time, is_time) ↦
        let prefix : a ≡ challenge_prefix = ground (arith, eq_iff a challenge_prefix) in
        let named : b ≡ serial = ground (arith, eq_iff b serial) in
        (
          c,
          d,
          time,
          rw (prefix, named) refl,
          ground (arith, eq_iff c ""),
          is_time,
          too_far-IsWithin now time (ground arith),
        )
  ]

  accept-ok : (r : Result String Bool) → accept platform r ≡ ok tt → r ≡ ok true
  accept-ok (err message) h = absurd (ground arith)
  accept-ok (ok true) h = refl
  accept-ok (ok false) h = absurd (ground arith)

  check_cert-ok :
      (cert : VerifiedCertificate)
      → check_cert platform input cert ≡ ok tt
      → (cert.status ≡ status_active)
        × (cert.role ≡ role_ca_admin)
        × (128 ≤ platform.decoded_length input.signature)
        × (platform.verify cert.public_key_pem input.challenge input.signature ≡ ok true)
  unfolding check_cert verify_signature
  check_cert-ok cert h =
      let signed =
        accept-ok (platform.verify cert.public_key_pem input.challenge input.signature) in
      (ground arith, ground arith, ground arith, ground arith)

  abbrev pub serial : String
  serial = to_lower_case (trim input.cert_serial)

  -- What a login answers and leaves in the trail: a session of a vouched certificate and the event of its
  -- success, or an error and the event of the failure with its code.
  pub data Logged (trail : List AuditEvent) (answer : Response × List AuditEvent) : Type 0 where
    succeeded :
        (cert : VerifiedCertificate)
        → Vouched serial cert
        → answer ≡ (
          session_answer platform (session_of platform serial cert),
          trail ++ (login_success platform input serial cert ∷ []),
        )
        → Logged trail answer
    refused :
        (code : String)
        → answer.0.success ≡ false
        → answer.0.error_code ≡ code
        → answer.1 ≡ trail ++ (login_failed platform input code ∷ [])
        → Logged trail answer

  -- A login by certificate either fails, with one event in the trail that carries the code of the answer,
  -- or gives a token, with one event of success: then the CA knows the certificate as active and as one of
  -- a CA administrator, and its key verifies a signature of at least 128 bytes over a challenge of four
  -- parts that names this certificate, some request, and a time within five minutes of now.
  pub handle_admin_ca_certificate_session-Logged :
      (trail : List AuditEvent)
      → Logged trail (handle_admin_ca_certificate_session platform now input trail)
  unfolding handle_admin_ca_certificate_session create_ca_admin_session parse_challenge
  handle_admin_ca_certificate_session-Logged trail =
      elim (Result-cases (check_parts platform now serial (split_on b':' input.challenge))) [
        | inr (e, h) ↦ refused (error_code platform e) (ground arith) (ground arith) (ground arith)
        | inl (u, h) ↦ elim (Result-cases (certificate_of platform serial)) [
          | inr (e, h₁) ↦
              refused (error_code platform e) (ground arith) (ground arith) (ground arith)
          | inl (cert, h₁) ↦ elim (Result-cases (check_cert platform input cert)) [
            | inr (e, h₂) ↦
                refused (error_code platform e) (ground arith) (ground arith) (ground arith)
            | inl (u', h₂) ↦
                let (r, i, t, parts, named, is_time, fresh) =
                  check_parts-ok serial (split_on b':' input.challenge) (ground arith) in
                let (is_active, is_admin, long, signed) = check_cert-ok cert (ground arith) in
                succeeded cert
                  (record {
                    request_id = r;
                    issued_at = i;
                    time = t;
                    challenge = parts;
                    named = named;
                    is_time = is_time;
                    fresh = fresh;
                    found = ground arith;
                    is_active = is_active;
                    is_admin = is_admin;
                    long = long;
                    signed = signed;
                  })
                  (ground arith)
          ]
        ]
      ]
