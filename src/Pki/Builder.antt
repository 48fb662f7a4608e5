-- ===== src/Pki/Builder.antt =====
-- The builders `der` of mini-banking-app/frontend/src/services/pki-registration/asn1.ts. The text
-- builders are given the encoded text.
use mini_banking_app.Common.{ℕ, ◌%◌, List, [], ◌∷◌}
use mini_banking_app.Pki.Asn1.{
  Bytes, tag_integer, tag_bit_string, tag_octet_string, tag_null, tag_oid, tag_utf8_string,
  tag_ia5_string, tag_sequence, tag_set, tag_context_constructed_0, tag_context_primitive_1, concat,
  tlv,
}

unfoldable pub sequence : List Bytes → Bytes
sequence items = tlv tag_sequence (concat items)

unfoldable pub set : List Bytes → Bytes
set items = tlv tag_set (concat items)

unfoldable pub integer : ℕ → Bytes
integer value = tlv tag_integer ((value % 256) ∷ [])

unfoldable pub oid : Bytes → Bytes
oid content = tlv tag_oid content

unfoldable pub null : Bytes
null = tlv tag_null []

unfoldable pub octet_string : Bytes → Bytes
octet_string content = tlv tag_octet_string content

unfoldable pub utf8_string : Bytes → Bytes
utf8_string s = tlv tag_utf8_string s

unfoldable pub ia5_string : Bytes → Bytes
ia5_string s = tlv tag_ia5_string s

unfoldable pub rfc822_name : Bytes → Bytes
rfc822_name s = tlv tag_context_primitive_1 s

unfoldable pub bit_string : Bytes → Bytes
bit_string content = tlv tag_bit_string (concat ((0 ∷ []) ∷ content ∷ []))

unfoldable pub context_0 : Bytes → Bytes
context_0 content = tlv tag_context_constructed_0 content

unfoldable pub raw : Bytes → Bytes
raw bytes = bytes
