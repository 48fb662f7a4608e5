-- ===== src/Pki/Nodes.antt =====
-- mini-banking-app/frontend/src/services/as-exchange/cert.parser.ts: the second reader of DER, whose
-- elements hold their content, and the search for an extension.
pub mod Reader
pub mod Search
use Prim.Native.String
use mini_banking_app.Common.{
  ℕ, zero, suc, ◌+◌, ◌*◌, ◌/◌, ◌%◌, ◌-◌, String, Bool, true, false, not, ◌&&◌, ◌||◌, Option, none,
  some, List, [], ◌∷◌, ◌++◌, map, length, min, ltb, leb, ◌==◌, ◌===◌, if◌then◌else◌,
}
use mini_banking_app.Common.Ascii.{strip_prefix, remove_spaces}
use mini_banking_app.Common.Decimal.{to_string}
use mini_banking_app.Common.Split.{join, find_text, remove_first}
use mini_banking_app.Common.Result.{Result, ok, err, ◌>>=◌, ◌>>◌}
use mini_banking_app.Pki.Asn1.{Bytes}
use mini_banking_app.Pki.Der.{
  DerError, truncated, bad_length, past_buffer, no_progress, empty_oid, out_of_fuel, at, subarray,
  read_length, oid_arcs,
}
use mini_banking_app.Pki.Pem.{begin_marker, end_marker}

pub record Node : Type 0 where
  pub tag : ℕ
  pub content : Bytes
  pub end : ℕ

abbrev pub tag_octet_string : ℕ
tag_octet_string = 0x04

abbrev pub finish_node : Bytes → ℕ → ℕ → ℕ → Result DerError Node
finish_node buf off i len =
    if ltb (length buf) (i + len)
    then err past_buffer
    else ok (record { tag = at buf off; content = subarray buf i (i + len); end = i + len })

-- `readTlv` of this file.
unfoldable pub read_node : Bytes → ℕ → Result DerError Node
read_node buf off =
    let i = off + 2 in
    let len = at buf (off + 1) in
    let n = len % 128 in
    if ltb (length buf) (off + 2)
    then err truncated
    else if leb 128 len
    then (if n == 0 || ltb 4 n || ltb (length buf) (i + n)
        then err bad_length
        else finish_node buf off (i + n) (read_length buf n i 0))
    else finish_node buf off i len

-- The loop of `readChildren`, on fuel.
unfoldable pub nodes_from : ℕ → Bytes → ℕ → Result DerError (List Node)
nodes_from zero content off = if ltb off (length content) then err out_of_fuel else ok []
nodes_from (suc f) content off =
    let rest = λ (node : Node). nodes_from f content node.end >>= λ more. ok (node ∷ more) in
    if ltb off (length content)
    then (read_node content off >>= λ node. if leb node.end off then err no_progress else rest node)
    else ok []

unfoldable pub read_children : Bytes → Result DerError (List Node)
read_children content = nodes_from (length content) content 0

-- `bytesEqual`
abbrev pub bytes_equal : Bytes → Bytes → Bool
bytes_equal [] [] = true
bytes_equal (a ∷ more) (b ∷ bs) = let rest = bytes_equal more bs in a == b && rest
bytes_equal _ _ = false

abbrev pub is_open : ℕ → Bytes → Bool
is_open b [] = leb 128 b
is_open b (b' ∷ bs) = is_open b' bs

-- The arcs of `decodeOid` of this file; `is_open` tests the last byte.
unfoldable pub decode_oid_checked : Bytes → Result DerError (List ℕ)
decode_oid_checked [] = err empty_oid
decode_oid_checked (first ∷ rest) =
    if is_open first rest
    then err truncated
    else ok
        (min 2 (first / 40) ∷ (if ltb first 80 then first % 40 else first - 80) ∷ oid_arcs 0 rest)

-- `(tag & 0x20) !== 0`
abbrev pub is_constructed : ℕ → Bool
is_constructed tag = (tag / 32) % 2 == 1

abbrev pub find_octets : List Node → Option Bytes
find_octets [] = none
find_octets (n ∷ ns) =
    let later = find_octets ns in if n.tag == tag_octet_string then some n.content else later

-- The value, where these are the parts of an extension with that identifier.
abbrev pub value_in : Bytes → List Node → Option Bytes
value_in oid (key ∷ value ∷ more) =
    if key.tag == 0x06 && bytes_equal key.content oid
    then find_octets (key ∷ value ∷ more)
    else none
value_in oid _ = none

abbrev pub value_of : Bytes → Node → Result DerError (Option Bytes)
value_of oid node =
    if node.tag == 0x30
    then (read_children node.content >>= λ parts. ok (value_in oid parts))
    else ok none

-- `found`, or what is found later.
abbrev pub or_else : Option Bytes → Result DerError (Option Bytes) → Result DerError (Option Bytes)
or_else (some found) later = ok (some found)
or_else none later = later

-- The search, on fuel.
unfoldable pub find_from : ℕ → Bytes → Bytes → ℕ → Result DerError (Option Bytes)
find_from zero bytes oid off = err out_of_fuel
find_from (suc f) bytes oid off =
    let inner = λ (node : Node).
      if is_constructed node.tag then find_from f node.content oid 0 else ok none in
    let later = λ (node : Node). find_from f bytes oid node.end in
    if ltb off (length bytes)
    then (read_node bytes off >>= λ node. value_of oid node >>= λ direct.
        or_else direct (inner node >>= λ nested. or_else nested (later node)))
    else ok none

-- Each turn, and each search inside an element, leaves out two bytes at least.
unfoldable pub find_extension_value : Bytes → Bytes → Result DerError (Option Bytes)
find_extension_value bytes oid = find_from (suc (length bytes)) bytes oid 0
