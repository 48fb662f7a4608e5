-- ===== src/Tests/CertificateRuns.antt =====
-- A certificate that signs itself, whose owner is named in it, and an exchange with a KDC that holds it.
use mini_banking_app.Common.{
  ℕ, ◌<◌, ◌≡◌, ◌≢◌, refl, String, false, none, some, List, [], ◌∷◌, ◌++◌, length, leb, ◌==◌, ◌===◌,
  if◌then◌else◌,
}
use mini_banking_app.Common.Decimal.{to_string}
use mini_banking_app.Common.Ascii.{to_lower_case, trim, collapse_spaces}
use mini_banking_app.Common.Result.{ok, err}
use mini_banking_app.Pki.Asn1.{Bytes, tlv, concat, encode_length, length_bytes}
use mini_banking_app.Pki.Der.{
  read_tlv, finish_tlv, read_length, children, children_from, decode_oid, oid_arcs, out_of_fuel,
}
use mini_banking_app.Pki.Chain.{
  ParsedCert, WebCrypto, VerifiedLeaf, verify_chain_to_root, verify_links, verify_signed_by,
  verify_with, assert_validity_window, leaf_key,
}
use mini_banking_app.Pki.Chain.Trust.{Accepted}
use mini_banking_app.Pki.Pem.{pem_blocks}
use mini_banking_app.Pki.Names.{Browser, oid_of, parse_asn1_time, parse_name}
use mini_banking_app.Pki.Certificate.{
  parse_cert, read_fields, parse_basic_constraints_ca, anchor, base64_bytes, verify_pem_chain,
}
use mini_banking_app.Pki.Certificate.Signed.{InBytes, verify_pem_chain-Accepted}
use mini_banking_app.Pki.Nodes.{
  read_node, nodes_from, read_children, find_from, find_extension_value, is_open,
  decode_oid_checked,
}
use mini_banking_app.Pki.Nodes.Reader.{as_node, readers-agree}
use mini_banking_app.Pki.Nodes.Search.{find_extension_value-ends}
use mini_banking_app.Pki.OwnerId.{
  Codecs, san_oid, pem_to_der, parse_subject_alt_name, owner_id_from_uris,
  extract_owner_id_from_certificate,
}
use mini_banking_app.Client.Sessions.{AsSession, Tab, get_session, set_session}
use mini_banking_app.Client.Tgs.{allocate}
use mini_banking_app.Client.As.{
  AsPlatform, AsDraws, AsExchangeResult, perform_as_exchange, accept_reply, check_signer,
}
use mini_banking_app.Client.As.Authentic.{Authentic, perform_as_exchange-Authentic}

abbrev name_bytes : Bytes
name_bytes = tlv 0x30 (tlv 0x31 (tlv 0x30 (tlv 6 (0x55 ∷ 4 ∷ 3 ∷ []) ++ tlv 0x0c (7 ∷ []))))

abbrev time_bytes : Bytes
time_bytes = tlv 0x17 (1 ∷ 1 ∷ [])

abbrev alg_bytes : Bytes
alg_bytes = tlv 0x30 (tlv 6 (0x2a ∷ 0x86 ∷ 0x48 ∷ 0x86 ∷ 0xf7 ∷ 0x0d ∷ 1 ∷ 1 ∷ 0x0b ∷ []))

abbrev cert_bytes : Bytes
cert_bytes = tlv 0x30 (
    tlv 0x30 (
      tlv 2 (1 ∷ [])
      ++ alg_bytes
      ++ name_bytes
      ++ tlv 0x30 (time_bytes ++ time_bytes)
      ++ name_bytes
      ++ tlv 0x30 [])
    ++ alg_bytes
    ++ tlv 3 (0 ∷ 9 ∷ []))

-- Texts of one byte are the name, others the time.
abbrev browser : Browser
browser = record {
  decode = λ bytes. if length bytes == 1 then "kdc-service" else "250101000000Z";
  date_utc = λ year rest. 5;
  atob = λ text. some cert_bytes;
}

abbrev web_crypto : WebCrypto
web_crypto = record {
  Key = Bytes;
  import_pkcs1 = λ spki. some spki;
  import_pss = λ spki. some spki;
  verify = λ key signature bytes. leb 1 (length bytes);
}

abbrev pem : String
pem = "-----BEGIN CERTIFICATE-----\nAAAA\n-----END CERTIFICATE-----\n"

abbrev leaf : VerifiedLeaf web_crypto
leaf = record {
  subject_cn = "kdc-service";
  public_key_pss = 0x30 ∷ 0 ∷ [];
  public_key_spki = 0x30 ∷ 0 ∷ [];
}

chain_run : verify_pem_chain browser web_crypto 5 pem pem [] ≡ ok leaf
unfolding verify_pem_chain anchor pem_blocks parse_cert read_fields parse_basic_constraints_ca
    parse_asn1_time parse_name oid_of read_tlv finish_tlv read_length children children_from
    decode_oid oid_arcs tlv concat encode_length length_bytes to_string to_lower_case trim
    collapse_spaces verify_chain_to_root verify_links verify_signed_by verify_with
    assert_validity_window leaf_key
chain_run = refl

verify_pem_chain-Accepted_example :
    (block : Bytes) × (blocks : List Bytes) × (cert : ParsedCert) × (rest : List ParsedCert)
    × (root : ParsedCert) × (pem_blocks (base64_bytes browser) pem ≡ ok (block ∷ blocks))
    × (parse_cert browser block ≡ ok cert)
    × (anchor browser pem ≡ ok root)
    × Accepted web_crypto 5 root cert rest leaf
    × InBytes browser block cert
verify_pem_chain-Accepted_example =
    verify_pem_chain-Accepted browser web_crypto 5 pem pem [] leaf chain_run

readers-agree_example :
    (read_node (2 ∷ 1 ∷ 7 ∷ []) 0 ≡ as_node (2 ∷ 1 ∷ 7 ∷ []) (read_tlv (2 ∷ 1 ∷ 7 ∷ []) 0))
    × ((first : ℕ) (rest : Bytes)
        → first < 120
        → is_open first rest ≡ false
        → decode_oid_checked (first ∷ rest) ≡ decode_oid (first ∷ rest))
readers-agree_example = readers-agree (2 ∷ 1 ∷ 7 ∷ []) 0

find_extension_value-ends_example :
    find_extension_value (0x30 ∷ 2 ∷ 5 ∷ 0 ∷ []) san_oid ≢ err out_of_fuel
find_extension_value-ends_example = find_extension_value-ends (0x30 ∷ 2 ∷ 5 ∷ 0 ∷ []) san_oid

-- The client's certificate: an extension with one URI.
abbrev owner_bytes : Bytes
owner_bytes = tlv 0x30 (tlv 6 (0x55 ∷ 0x1d ∷ 0x11 ∷ []) ++ tlv 4 (tlv 0x30 (tlv 0x86 (1 ∷ []))))

abbrev codecs : Codecs
codecs = record {
  decode = λ bytes. "urn:mini-banking:owner:c1";
  atob = λ text. some owner_bytes;
  decode_uri = λ text. some text;
}

abbrev as_platform : AsPlatform web_crypto
as_platform = record {
  Blob = String;
  stored_certificate = some (record { certificate_pem = pem; serial_number = "0A" });
  wrapped_private_key = some "blob";
  print_payload = λ payload. payload.timestamp ∷ [];
  sign = λ blob pin bytes. if pin === "1234" then some "sig" else none;
  post_as_req = λ request. some (record { encrypted_payload = "P"; tgt_expiry = 2000 });
  parse_reply = λ text. some record {
    kdc_signature = "S";
    encrypted_key = "K";
    encrypted_payload = "E";
    kdc_cert_chain = pem;
  };
  unseal = λ blob pin reply. some (3 ∷ []);
  parse_payload = λ bytes. some (record { k_c_tgs = "K"; tgt = "TGT"; nonce_1 = "N" });
  verify_pss = λ key signature bytes. leb 1 (length bytes);
  base64_to_bytes = λ text. some (9 ∷ 9 ∷ []);
  root_ca_pem = pem;
}

abbrev as_drawn : AsDraws
as_drawn = record { nonce = "N"; timestamp = 1000; now_ms = 5 }

abbrev empty_tab : Tab
empty_tab = record { buffers = λ j. []; fresh = 0; current = none; tickets = [] }

abbrev as_result : AsExchangeResult
as_result = record { client_id = "c1"; cert_sn = "0A"; tgt_expires_at = 2000 }

owner_run : extract_owner_id_from_certificate codecs pem ≡ ok "c1"
unfolding extract_owner_id_from_certificate pem_to_der parse_subject_alt_name owner_id_from_uris
    find_extension_value find_from read_children nodes_from read_node read_length tlv concat
    encode_length length_bytes
owner_run = refl

abbrev as_session : AsSession
as_session = record {
  client_id = "c1";
  cert_sn = "0A";
  tgt = "TGT";
  session_key = 0;
  tgt_expires_at = 2000;
  operation_id = none;
}

abbrev as_tab : Tab
as_tab = set_session as_session (allocate (9 ∷ 9 ∷ []) empty_tab)

as_run :
    perform_as_exchange browser codecs web_crypto as_platform "1234" none as_drawn empty_tab
    ≡ ok (as_result, as_tab)
unfolding perform_as_exchange accept_reply check_signer
as_run = rw (owner_run, chain_run) refl

perform_as_exchange-Authentic_example :
    (session : AsSession) × (get_session as_tab ≡ some session)
    × Authentic browser codecs web_crypto as_platform "1234" none as_drawn empty_tab session
perform_as_exchange-Authentic_example =
    perform_as_exchange-Authentic browser codecs web_crypto as_platform "1234" none as_drawn
      empty_tab as_tab as_result as_run
