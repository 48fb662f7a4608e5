-- ===== src/Pki/Chain.antt =====
-- mini-banking-app/frontend/src/services/chain-verify.ts: the chain from a leaf to the root. The
-- certificates are parsed; a `Date` is its milliseconds since 1970. WebCrypto is a parameter.
pub mod Trust
use mini_banking_app.Common.{
  ℕ, ◌≡◌, String, Bool, true, false, not, ◌&&◌, Option, none, some, List, [], ◌∷◌, ltb, ◌===◌,
  if◌then◌else◌,
}
use mini_banking_app.Common.Result.{Result, ok, err, ◌>>=◌, ◌>>◌}
use mini_banking_app.Pki.Asn1.{Bytes}

pub record ParsedCert : Type 0 where
  pub tbs_raw : Bytes
  pub sig_alg_oid : String
  pub signature : Bytes
  pub issuer_name : String
  pub subject_name : String
  pub spki_raw : Bytes
  pub not_before : ℕ
  pub not_after : ℕ
  pub subject_cn : String
  pub is_ca : Bool

pub data ChainError : Type 0 where
  no_leaf not_yet_valid expired not_a_ca unsupported_algorithm wrong_issuer bad_key bad_signature :
      ChainError

abbrev pub oid_sha256_rsa : String
oid_sha256_rsa = "1.2.840.113549.1.1.11"

-- `crypto.subtle`: `importKey` of an SPKI for RSASSA-PKCS1-v1_5 and for RSA-PSS, which throws on a
-- malformed key, and `verify` of the first kind.
pub record WebCrypto : Type 1 where
  pub Key : Type 0
  pub import_pkcs1 : Bytes → Option Key
  pub import_pss : Bytes → Option Key
  pub verify : Key → Bytes → Bytes → Bool

module _ (crypto : WebCrypto) where
  open crypto use {Key, import_pkcs1, import_pss, verify}

  pub record VerifiedLeaf : Type 0 where
    pub subject_cn : String
    pub public_key_pss : Key
    pub public_key_spki : Bytes

  unfoldable pub verify_with : ParsedCert → Option Key → Result ChainError (Unit {0})
  verify_with child none = err bad_key
  verify_with child (some key) =
      if verify key child.signature child.tbs_raw then ok tt else err bad_signature

  unfoldable pub verify_signed_by : ParsedCert → ParsedCert → Result ChainError (Unit {0})
  unfolding verify_with
  verify_signed_by child issuer =
      if not (child.sig_alg_oid === oid_sha256_rsa)
      then err unsupported_algorithm
      else if not (child.issuer_name === issuer.subject_name)
      then err wrong_issuer
      else verify_with child (import_pkcs1 issuer.spki_raw)

  unfoldable pub assert_validity_window : ParsedCert → ℕ → Result ChainError (Unit {0})
  assert_validity_window cert now =
      if ltb now cert.not_before
      then err not_yet_valid
      else if ltb cert.not_after now
      then err expired
      else ok tt

  -- `i + 1 < certs.length ? certs[i + 1] : root`
  abbrev pub issuer_of : ParsedCert → List ParsedCert → ParsedCert
  issuer_of root [] = root
  issuer_of root (next ∷ rest) = next

  -- The loop over the links; the flag says that `i` is 0.
  unfoldable pub verify_links :
      ℕ → ParsedCert → Bool → List ParsedCert → Result ChainError (Unit {0})
  verify_links now root first [] = ok tt
  verify_links now root first (cert ∷ rest) = do
    assert_validity_window cert now
    if not first && not cert.is_ca then err not_a_ca else ok tt
    verify_signed_by cert (issuer_of root rest)
    verify_links now root false rest

  unfoldable pub leaf_key : ParsedCert → Option Key → Result ChainError VerifiedLeaf
  leaf_key leaf none = err bad_key
  leaf_key leaf (some key) = ok (record {
    subject_cn = leaf.subject_cn;
    public_key_pss = key;
    public_key_spki = leaf.spki_raw;
  })

  -- `verifyChainToRoot`, from the parsed blocks.
  unfoldable pub verify_chain_to_root :
      ℕ → ParsedCert → List ParsedCert → Result ChainError VerifiedLeaf
  unfolding leaf_key
  verify_chain_to_root now root [] = err no_leaf
  verify_chain_to_root now root (leaf ∷ rest) = do
    verify_links now root true (leaf ∷ rest)
    assert_validity_window root now
    leaf_key leaf (import_pss leaf.spki_raw)
