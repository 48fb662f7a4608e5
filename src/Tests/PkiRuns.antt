-- ===== src/Tests/PkiRuns.antt =====
-- The DER reader on bytes that the encoder wrote, and a chain of two certificates.
use mini_banking_app.Common.{ℕ, ◌≡◌, ◌≢◌, ◌↔◌, true, false, some, List, [], ◌∷◌, ◌++◌, map, arith}
use mini_banking_app.Common.Result.{ok, err, ◌>>=◌}
use mini_banking_app.Pki.Asn1.{Bytes, tlv, concat, encode_length, length_bytes}
use mini_banking_app.Pki.Builder.{sequence}
use mini_banking_app.Pki.Der.{Tlv, no_progress, out_of_fuel, read_tlv, children}
use mini_banking_app.Pki.Der.ReadTlv.{found, read_tlv-tlv}
use mini_banking_app.Pki.Der.Children.{encode, children-ends, children-sequence}
use mini_banking_app.Pki.Chain.{
  ParsedCert, WebCrypto, VerifiedLeaf, verify_chain_to_root, oid_sha256_rsa,
}
use mini_banking_app.Pki.Chain.Trust.{Accepted, verify_chain_to_root_iff}

abbrev items : List (ℕ × Bytes)
items = (2, 7 ∷ []) ∷ (4, 1 ∷ 2 ∷ []) ∷ []

read_tlv-tlv_example :
    read_tlv ((9 ∷ []) ++ (tlv 2 (7 ∷ 8 ∷ []) ++ [])) 1 ≡ ok (found 2 1 (tlv 2 (7 ∷ 8 ∷ [])) 2)
read_tlv-tlv_example = read_tlv-tlv (9 ∷ []) [] 2 (7 ∷ 8 ∷ []) (ground arith)

abbrev seven : Tlv
seven = record { tag = 2; content_start = 2; end = 3; raw = 2 ∷ 1 ∷ 7 ∷ [] }

children-ends_example :
    (children (2 ∷ 1 ∷ 7 ∷ []) seven ≢ err no_progress)
    × (children (2 ∷ 1 ∷ 7 ∷ []) seven ≢ err out_of_fuel)
children-ends_example = children-ends (2 ∷ 1 ∷ 7 ∷ []) seven

children-sequence_example :
    (nodes : List Tlv) × ((read_tlv (sequence (map encode items) ++ []) 0
        >>= children (sequence (map encode items) ++ []))
      ≡ ok nodes)
    × (map (λ (t : Tlv). t.raw) nodes ≡ map encode items)
    × (map (λ (t : Tlv). t.tag) nodes ≡ map (λ (item : ℕ × Bytes). item.0) items)
unfolding tlv concat encode_length length_bytes
children-sequence_example =
    children-sequence items [] (omega arith, (omega arith, tt)) (ground arith)

abbrev web_crypto : WebCrypto
web_crypto = record {
  Key = Bytes;
  import_pkcs1 = λ spki. some spki;
  import_pss = λ spki. some spki;
  verify = λ key signature signed. true;
}

abbrev root : ParsedCert
root = record {
  tbs_raw = 1 ∷ [];
  sig_alg_oid = oid_sha256_rsa;
  signature = [];
  issuer_name = "CN=Root";
  subject_name = "CN=Root";
  spki_raw = 5 ∷ [];
  not_before = 0;
  not_after = 100;
  subject_cn = "Root";
  is_ca = true;
}

abbrev leaf : ParsedCert
leaf = record root {
  subject_name = "CN=kdc-service";
  spki_raw = 6 ∷ [];
  subject_cn = "kdc-service";
  is_ca = false;
}

abbrev verified : VerifiedLeaf web_crypto
verified = record { subject_cn = "kdc-service"; public_key_pss = 6 ∷ []; public_key_spki = 6 ∷ [] }

verify_chain_to_root_iff_example :
    (verify_chain_to_root web_crypto 50 root (leaf ∷ []) ≡ ok verified)
    ↔ Accepted web_crypto 50 root leaf [] verified
verify_chain_to_root_iff_example = verify_chain_to_root_iff web_crypto 50 root leaf [] verified
