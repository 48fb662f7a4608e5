-- ===== src/Pki/OwnerId.antt =====
-- mini-banking-app/frontend/src/services/as-exchange/cert.parser.ts: the alternative names of a
-- certificate, and its owner. `TextDecoder`, `atob` and `decodeURIComponent` are arguments.
use mini_banking_app.Common.{
  ℕ, String, Bool, true, false, not, ◌||◌, Option, none, some, List, [], ◌∷◌, ◌++◌, map, ◌==◌,
  ◌===◌, if◌then◌else◌,
}
use mini_banking_app.Common.Ascii.{strip_prefix, remove_spaces}
use mini_banking_app.Common.Decimal.{to_string}
use mini_banking_app.Common.Split.{join, find_text, remove_first}
use mini_banking_app.Common.Result.{Result, ok, err, ◌>>=◌, ◌>>◌}
use mini_banking_app.Pki.Asn1.{Bytes}
use mini_banking_app.Pki.Der.{DerError}
use mini_banking_app.Pki.Pem.{begin_marker, end_marker}
use mini_banking_app.Pki.Nodes.{Node, read_node, read_children, find_extension_value}

pub data OwnerError : Type 0 where
  der_error : DerError → OwnerError
  bad_tag bad_pem bad_base64 bad_uri no_owner : OwnerError

abbrev pub tag_email : ℕ
tag_email = 0x81

abbrev pub tag_dns : ℕ
tag_dns = 0x82

abbrev pub tag_uri : ℕ
tag_uri = 0x86

abbrev pub tag_ip : ℕ
tag_ip = 0x87

abbrev pub san_oid : Bytes
san_oid = 0x55 ∷ 0x1d ∷ 0x11 ∷ []

abbrev pub owner_uri_prefix : String
owner_uri_prefix = "urn:mini-banking:owner:"

pub record SubjectAltName : Type 0 where
  pub emails : List String
  pub dns_names : List String
  pub uris : List String
  pub ip_addresses : List String

abbrev pub no_names : SubjectAltName
no_names = record { emails = []; dns_names = []; uris = []; ip_addresses = [] }

abbrev pub der : {A : Type 0} → Result DerError A → Result OwnerError A
der (err e) = err (der_error e)
der (ok a) = ok a

-- The text decoder, `atob` and `decodeURIComponent`.
pub record Codecs : Type 0 where
  pub decode : Bytes → String
  pub atob : String → Option Bytes
  pub decode_uri : String → Option String

module _ (codecs : Codecs) where
  abbrev pub add_name : SubjectAltName → Node → SubjectAltName
  add_name names name =
      let value = codecs.decode name.content in
      if name.tag == tag_email
      then record names { emails = names.emails ++ (value ∷ []) }
      else if name.tag == tag_dns
      then record names { dns_names = names.dns_names ++ (value ∷ []) }
      else if name.tag == tag_uri
      then record names { uris = names.uris ++ (value ∷ []) }
      else if name.tag == tag_ip
      then record names {
        ip_addresses = names.ip_addresses ++ (join "." (map to_string name.content) ∷ []);
      }
      else names

  abbrev pub add_names : SubjectAltName → List Node → SubjectAltName
  add_names names [] = names
  add_names names (n ∷ ns) = add_names (add_name names n) ns

  abbrev pub names_in : Option Bytes → Result OwnerError SubjectAltName
  names_in none = ok no_names
  names_in (some extension) = do
    sequence ← der (read_node extension 0)
    if sequence.tag == 0x30 then ok tt else err bad_tag
    names ← der (read_children sequence.content)
    ok (add_names no_names names)

  unfoldable pub parse_subject_alt_name : Bytes → Result OwnerError SubjectAltName
  parse_subject_alt_name bytes = der (find_extension_value bytes san_oid) >>= names_in

  -- What follows the prefix in the first URI that has it.
  abbrev pub owner_part : List String → Option String
  owner_part [] = none
  owner_part (uri ∷ uris) =
      let later = owner_part uris in
      elim (strip_prefix owner_uri_prefix uri) [ none ↦ later | some encoded ↦ some encoded ]

  -- `null` is the empty text.
  abbrev pub decoded_owner : Option String → Result OwnerError String
  decoded_owner none = ok ""
  decoded_owner (some encoded) =
      if encoded === ""
      then ok ""
      else elim (codecs.decode_uri encoded) [ none ↦ err bad_uri | some owner ↦ ok owner ]

  unfoldable pub owner_id_from_uris : List String → Result OwnerError String
  owner_id_from_uris uris = decoded_owner (owner_part uris)

  abbrev pub includes_text : String → String → Bool
  includes_text part s = elim (find_text part s) [ none ↦ false | some parts ↦ true ]

  unfoldable pub pem_to_der : String → Result OwnerError Bytes
  pem_to_der pem =
      let body = remove_spaces (remove_first end_marker (remove_first begin_marker pem)) in
      if not (includes_text begin_marker pem) || not (includes_text end_marker pem)
      then err bad_pem
      else if body === ""
      then err bad_pem
      else elim (codecs.atob body) [ none ↦ err bad_base64 | some bytes ↦ ok bytes ]

  unfoldable pub extract_owner_id_from_certificate : String → Result OwnerError String
  extract_owner_id_from_certificate pem = do
    bytes ← pem_to_der pem
    names ← parse_subject_alt_name bytes
    owner ← owner_id_from_uris names.uris
    if owner === "" then err no_owner else ok owner
