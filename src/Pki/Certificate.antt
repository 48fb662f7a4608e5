-- ===== src/Pki/Certificate.antt =====
-- mini-banking-app/frontend/src/services/chain-verify.ts: the parser of one certificate, and
-- `verifyChainToRoot` from PEM texts.
pub mod Signed
use mini_banking_app.Common.{
  ℕ, zero, suc, ◌+◌, ◌*◌, String, Bool, true, false, not, ◌&&◌, ◌||◌, Option, none, some, List, [],
  ◌∷◌, ◌++◌, map, length, get_elem?, drop, ltb, leb, ◌==◌, ◌===◌, if◌then◌else◌,
}
use mini_banking_app.Common.Result.{Result, ok, err, ◌>>=◌, ◌>>◌}
use mini_banking_app.Pki.Asn1.{Bytes}
use mini_banking_app.Pki.Der.{Tlv, subarray, read_tlv, children}
use mini_banking_app.Pki.Chain.{
  ParsedCert, ChainError, WebCrypto, VerifiedLeaf, verify_chain_to_root,
}
use mini_banking_app.Pki.Pem.{pem_blocks}
use mini_banking_app.Pki.Names.{
  CertError, missing, bad_base64, no_certificate, chain_error, oid_basic_constraints, tag_boolean,
  tag_oid, tag_sequence, tag_extensions, der, present, oid_of, Browser, canonical, parse_asn1_time,
  parse_name,
}

-- `buf[i] !== 0`, which holds past the end.
abbrev pub is_nonzero : Option ℕ → Bool
is_nonzero none = true
is_nonzero (some b) = not (b == 0)

abbrev pub ca_flag : Bytes → List Tlv → Bool
ca_flag buf [] = false
ca_flag buf (flag ∷ more) =
    if flag.tag == tag_boolean then is_nonzero (get_elem? buf flag.content_start) else false

abbrev pub last_of : Tlv → List Tlv → Tlv
last_of t [] = t
last_of t (t' ∷ ts) = last_of t' ts

-- The value of the extension, an octet string around a sequence.
abbrev pub read_constraints : Bytes → Tlv → Result CertError Bool
read_constraints buf octet = do
  inner ← der (read_tlv buf octet.content_start)
  flags ← if not (inner.tag == tag_sequence) then ok [] else der (children buf inner)
  ok (ca_flag buf flags)

-- What an extension says: `none` if it is another one.
abbrev pub read_extension : Bytes → List Tlv → Result CertError (Option Bool)
read_extension buf (key ∷ value ∷ more) =
    if not (key.tag == tag_oid)
    then ok none
    else oid_of buf key >>= λ oid.
        if not (oid === oid_basic_constraints)
        then ok none
        else read_constraints buf (last_of value more) >>= λ flag. ok (some flag)
read_extension buf _ = ok none

abbrev pub or_later : Option Bool → Result CertError Bool → Result CertError Bool
or_later (some flag) later = ok flag
or_later none later = later

abbrev pub read_extensions : Bytes → List Tlv → Result CertError Bool
read_extensions buf [] = ok false
read_extensions buf (ext ∷ exts) = do
  parts ← der (children buf ext)
  flag ← read_extension buf parts
  or_later flag (read_extensions buf exts)

abbrev pub in_first : Bytes → List Tlv → Result CertError Bool
in_first buf [] = ok false
in_first buf (seq ∷ more) = der (children buf seq) >>= λ exts. read_extensions buf exts

unfoldable pub parse_basic_constraints_ca : Bytes → Option Tlv → Result CertError Bool
parse_basic_constraints_ca buf none = ok false
parse_basic_constraints_ca buf (some extensions) =
    der (children buf extensions) >>= λ kids. in_first buf kids

-- The element of a list at an index, which the source takes to be there.
abbrev pub kid : ℕ → List Tlv → Result CertError Tlv
kid i kids = present (get_elem? kids i)

abbrev pub find_tag : ℕ → List Tlv → Option Tlv
find_tag tag [] = none
find_tag tag (t ∷ ts) = let later = find_tag tag ts in if t.tag == tag then some t else later

-- The parts of a certificate's signed part, which begins with a version or with the serial number.
pub record TbsParts : Type 0 where
  pub issuer : Tlv
  pub validity : Tlv
  pub subject : Tlv
  pub spki : Tlv
  pub extensions : Option Tlv

-- The parts from the issuer on, which is at `idx`.
abbrev pub parts_from : ℕ → List Tlv → Result CertError TbsParts
parts_from idx kids = do
  issuer ← kid idx kids
  validity ← kid (idx + 1) kids
  subject ← kid (idx + 2) kids
  spki ← kid (idx + 3) kids
  ok (record {
    issuer = issuer;
    validity = validity;
    subject = subject;
    spki = spki;
    extensions = find_tag tag_extensions (drop (idx + 4) kids);
  })

abbrev pub tbs_parts : List Tlv → Result CertError TbsParts
tbs_parts kids = kid 0 kids >>= λ first. parts_from (if first.tag == 0xa0 then 3 else 2) kids

module _ (browser : Browser) where
  -- The fields, from the elements.
  unfoldable pub read_fields : Bytes → Tlv → String → Tlv → TbsParts → Result CertError ParsedCert
  read_fields buf tbs sig_alg_oid sig_bit parts = do
    dates ← der (children buf parts.validity)
    begins ← kid 0 dates
    not_before ← parse_asn1_time browser begins buf
    ends ← kid 1 dates
    not_after ← parse_asn1_time browser ends buf
    issuer ← parse_name browser buf parts.issuer
    subject ← parse_name browser buf parts.subject
    is_ca ← parse_basic_constraints_ca buf parts.extensions
    ok (record {
      tbs_raw = tbs.raw;
      sig_alg_oid = sig_alg_oid;
      signature = subarray buf (sig_bit.content_start + 1) sig_bit.end;
      issuer_name = canonical issuer;
      subject_name = canonical subject;
      spki_raw = parts.spki.raw;
      not_before = not_before;
      not_after = not_after;
      subject_cn = subject.cn;
      is_ca = is_ca;
    })

  abbrev pub sig_alg_oid_of : Bytes → Tlv → Result CertError String
  sig_alg_oid_of buf sig_alg = do
    algorithms ← der (children buf sig_alg)
    algorithm ← kid 0 algorithms
    oid_of buf algorithm

  unfoldable pub parse_cert : Bytes → Result CertError ParsedCert
  parse_cert buf = do
    cert ← der (read_tlv buf 0)
    kids ← der (children buf cert)
    tbs ← kid 0 kids
    sig_alg ← kid 1 kids
    sig_bit ← kid 2 kids
    sig_alg_oid ← sig_alg_oid_of buf sig_alg
    tbs_kids ← der (children buf tbs)
    parts ← tbs_parts tbs_kids
    read_fields buf tbs sig_alg_oid sig_bit parts

  abbrev pub parse_certs : List Bytes → Result CertError (List ParsedCert)
  parse_certs [] = ok []
  parse_certs (buf ∷ bufs) = do cert ← parse_cert buf; certs ← parse_certs bufs; ok (cert ∷ certs)

  abbrev pub base64_bytes : String → Result CertError Bytes
  base64_bytes text = elim (browser.atob text) [ none ↦ err bad_base64 | some bytes ↦ ok bytes ]

  -- The root of trust, from its PEM text, which is parsed once.
  abbrev pub first_cert : List Bytes → Result CertError ParsedCert
  first_cert [] = err no_certificate
  first_cert (buf ∷ more) = parse_cert buf

  unfoldable pub anchor : String → Result CertError ParsedCert
  anchor root_pem = pem_blocks base64_bytes root_pem >>= first_cert

  abbrev pub all_blocks : List String → Result CertError (List Bytes)
  all_blocks [] = ok []
  all_blocks (pem ∷ pems) = do
    some_blocks ← pem_blocks base64_bytes pem
    more ← all_blocks pems
    ok (some_blocks ++ more)

  abbrev pub chained : {A : Type 0} → Result ChainError A → Result CertError A
  chained (err e) = err (chain_error e)
  chained (ok a) = ok a

  -- `verifyChainToRoot`, from the PEM texts of the root, of the leaf with what may follow it, and of
  -- further certificates.
  unfoldable pub verify_pem_chain :
      (crypto : WebCrypto)
      → ℕ
      → String
      → String
      → List String
      → Result CertError (VerifiedLeaf crypto)
  verify_pem_chain crypto now root_pem leaf_pem intermediate_pems = do
    leaf_blocks ← pem_blocks base64_bytes leaf_pem
    if length leaf_blocks == 0 then err no_certificate else ok tt
    blocks ← all_blocks intermediate_pems
    certs ← parse_certs (leaf_blocks ++ blocks)
    root ← anchor root_pem
    chained (verify_chain_to_root crypto now root certs)
