-- ===== src/Pki/Chain/Trust.antt =====
-- Which chains `verifyChainToRoot` accepts.
use mini_banking_app.Common.{
  ℕ, ◌≤◌, ◌≡◌, ◌⊎◌, ◌↔◌, refl, inl, inr, Bool, true, false, some, List, [], ◌∷◌, arith, eq_iff,
  Option-cases,
}
use mini_banking_app.Common.Result.{ok}
use mini_banking_app.Pki.Chain.{
  ParsedCert, WebCrypto, VerifiedLeaf, verify_with, verify_signed_by, assert_validity_window,
  issuer_of, verify_links, verify_chain_to_root, oid_sha256_rsa,
}

module _ (crypto : WebCrypto) where
  open crypto use {Key, import_pkcs1, import_pss, verify}

  -- `now` lies between the two dates.
  pub record InWindow (now : ℕ) (cert : ParsedCert) : Type 0 where
    pub begun : cert.not_before ≤ now
    pub lasting : now ≤ cert.not_after

  -- The issuer's key verifies the child's signature over its signed part, and the names match.
  pub record SignedBy (child issuer : ParsedCert) : Type 0 where
    pub algorithm : child.sig_alg_oid ≡ oid_sha256_rsa
    pub names : child.issuer_name ≡ issuer.subject_name
    pub key : Key
    pub imported : import_pkcs1 issuer.spki_raw ≡ some key
    pub signed : verify key child.signature child.tbs_raw ≡ true

  -- Each certificate is in its window, is a CA unless it is the leaf, and is signed by the next
  -- one, the last by the root.
  abbrev pub Linked : ℕ → ParsedCert → Bool → List ParsedCert → Type 0
  Linked now root first [] = Unit
  Linked now root first (cert ∷ rest) =
      InWindow now cert
      × ((first ≡ true) ⊎ (cert.is_ca ≡ true))
      × SignedBy cert (issuer_of crypto root rest)
      × Linked now root false rest

  window_iff :
      (now : ℕ) (cert : ParsedCert)
      → (assert_validity_window crypto cert now ≡ ok tt) ↔ InWindow now cert
  unfolding assert_validity_window
  window_iff now cert = (λ h. ground arith, λ h. ground arith)

  signed_sound :
      (child issuer : ParsedCert)
      → verify_signed_by crypto child issuer ≡ ok tt
      → SignedBy child issuer
  unfolding verify_signed_by
  signed_sound child issuer h = elim (Option-cases (import_pkcs1 issuer.spki_raw)) [
    | inl e ↦ absurd (ground arith)
    | inr (key, e) ↦ record {
      algorithm = ground (arith, eq_iff child.sig_alg_oid oid_sha256_rsa);
      names = ground (arith, eq_iff child.issuer_name issuer.subject_name);
      key = key;
      imported = e;
      signed = ground arith;
    }
  ]

  signed_complete :
      (child issuer : ParsedCert)
      → SignedBy child issuer
      → verify_signed_by crypto child issuer ≡ ok tt
  unfolding verify_signed_by
  signed_complete child issuer s = rw (
    (eq_iff child.sig_alg_oid oid_sha256_rsa).1 s.algorithm,
    (eq_iff child.issuer_name issuer.subject_name).1 s.names,
    s.imported,
    verify_with,
    s.signed,
  )

  links_sound :
      (now : ℕ) (root : ParsedCert) (first : Bool) (certs : List ParsedCert)
      → verify_links crypto now root first certs ≡ ok tt
      → Linked now root first certs
  unfolding verify_links
  links_sound now root first [] h = tt
  links_sound now root first (cert ∷ rest) h = (
    (window_iff now cert).0 (ground arith),
    ground arith,
    signed_sound cert (issuer_of crypto root rest) (ground arith),
    links_sound now root false rest (ground arith),
  )

  links_complete :
      (now : ℕ) (root : ParsedCert) (first : Bool) (certs : List ParsedCert)
      → Linked now root first certs
      → verify_links crypto now root first certs ≡ ok tt
  unfolding verify_links
  links_complete now root first [] h = refl
  links_complete now root first (cert ∷ rest) (window, authority, signed, h) = ground (
    arith,
    (window_iff now cert).1 window,
    signed_complete cert (issuer_of crypto root rest) signed,
    links_complete now root false rest h,
  )

  -- The leaf is accepted, with its key and its name.
  pub record Accepted (now : ℕ) (root leaf : ParsedCert) (rest : List ParsedCert)
      (v : VerifiedLeaf crypto) : Type 0 where
    pub links : Linked now root true (leaf ∷ rest)
    pub anchor : InWindow now root
    pub key : import_pss leaf.spki_raw ≡ some v.public_key_pss
    pub name : v.subject_cn ≡ leaf.subject_cn
    pub spki : v.public_key_spki ≡ leaf.spki_raw

  -- `verifyChainToRoot` returns a leaf exactly when every certificate is within its dates, every one
  -- but the leaf is a CA, each is signed by the next one and the last by the root, the root is within
  -- its dates, and the returned name and keys are the leaf's own.
  pub verify_chain_to_root_iff :
      (now : ℕ) (root leaf : ParsedCert) (rest : List ParsedCert) (v : VerifiedLeaf crypto)
      → (verify_chain_to_root crypto now root (leaf ∷ rest) ≡ ok v) ↔ Accepted now root leaf rest v
  unfolding verify_chain_to_root
  verify_chain_to_root_iff now root leaf rest v = (sound, complete)
    where
      sound :
          verify_chain_to_root crypto now root (leaf ∷ rest) ≡ ok v → Accepted now root leaf rest v
      sound h = record {
        links = links_sound now root true (leaf ∷ rest) (ground arith);
        anchor = (window_iff now root).0 (ground arith);
        key = ground arith;
        name = ground arith;
        spki = ground arith;
      }

      complete :
          Accepted now root leaf rest v → verify_chain_to_root crypto now root (leaf ∷ rest) ≡ ok v
      complete a = ground (
        arith,
        links_complete now root true (leaf ∷ rest) a.links,
        (window_iff now root).1 a.anchor,
        a.key,
        a.name,
        a.spki,
      )
