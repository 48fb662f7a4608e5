-- ===== src/Pki/Asn1.antt =====
-- mini-banking-app/frontend/src/services/pki-registration/asn1.ts: the DER encoder. A `Uint8Array`
-- is the list of its bytes.
use mini_banking_app.Common.{
  ℕ, zero, suc, ◌+◌, ◌/◌, ◌%◌, List, [], ◌∷◌, ◌++◌, length, ltb, ◌==◌, if◌then◌else◌,
}

abbrev pub Bytes : Type 0
Bytes = List ℕ

-- The tags of `TAG`.
abbrev pub tag_integer : ℕ
tag_integer = 0x02

abbrev pub tag_bit_string : ℕ
tag_bit_string = 0x03

abbrev pub tag_octet_string : ℕ
tag_octet_string = 0x04

abbrev pub tag_null : ℕ
tag_null = 0x05

abbrev pub tag_oid : ℕ
tag_oid = 0x06

abbrev pub tag_utf8_string : ℕ
tag_utf8_string = 0x0c

abbrev pub tag_ia5_string : ℕ
tag_ia5_string = 0x16

abbrev pub tag_sequence : ℕ
tag_sequence = 0x30

abbrev pub tag_set : ℕ
tag_set = 0x31

abbrev pub tag_context_constructed_0 : ℕ
tag_context_constructed_0 = 0xa0

abbrev pub tag_context_primitive_1 : ℕ
tag_context_primitive_1 = 0x81

unfoldable pub concat : List Bytes → Bytes
concat [] = []
concat (p ∷ parts) = p ++ concat parts

-- The loop of `encodeLength`, on fuel: `n & 0xff` in front, then `n >>= 8`. Below 2³¹ the shift is
-- the division.
unfoldable pub length_bytes : ℕ → ℕ → Bytes → Bytes
length_bytes zero n bytes = bytes
length_bytes (suc f) n bytes =
    let more = length_bytes f (n / 256) ((n % 256) ∷ bytes) in if n == 0 then bytes else more

-- `0x80 | k` is `128 + k`, for the at most 4 length bytes.
unfoldable pub encode_length : ℕ → Bytes
encode_length len =
    if ltb len 0x80
    then len ∷ []
    else (let bytes = length_bytes len len [] in (128 + length bytes) ∷ bytes)

unfoldable pub tlv : ℕ → Bytes → Bytes
unfolding concat
tlv tag content = concat ((tag ∷ []) ∷ encode_length (length content) ∷ content ∷ [])
