-- ===== src/Pki/Names.antt =====
-- mini-banking-app/frontend/src/services/chain-verify.ts: the times and the names of a certificate.
-- `TextDecoder`, `atob` and `Date.UTC` are arguments. A missing element, which makes the source throw
-- a TypeError, is an error here. Case and space are those of ASCII.
use Prim.Native.String
use mini_banking_app.Common.{
  ℕ, zero, suc, ◌+◌, ◌*◌, String, not, ◌&&◌, Option, none, some, List, [], ◌∷◌, ◌++◌, map, leb,
  ◌==◌, ◌===◌, if◌then◌else◌,
}
use mini_banking_app.Common.Ascii.{trim, to_lower_case, collapse_spaces, digit_value}
use mini_banking_app.Common.Decimal.{is_digit, to_string}
use mini_banking_app.Common.Split.{join}
use mini_banking_app.Common.Result.{Result, ok, err, ◌>>=◌}
use mini_banking_app.Pki.Asn1.{Bytes}
use mini_banking_app.Pki.Der.{DerError, Tlv, subarray, children, decode_oid}
use mini_banking_app.Pki.Chain.{ChainError}

infixr 60 ◌^◌
abbrev ◌^◌ : String → String → String
s ^ t = String.◌++◌ s t

pub data CertError : Type 0 where
  der_error : DerError → CertError
  missing bad_time bad_base64 no_certificate : CertError
  chain_error : ChainError → CertError

abbrev pub oid_basic_constraints : String
oid_basic_constraints = "2.5.29.19"

abbrev pub oid_cn : String
oid_cn = "2.5.4.3"

abbrev pub tag_boolean : ℕ
tag_boolean = 0x01

abbrev pub tag_oid : ℕ
tag_oid = 0x06

abbrev pub tag_sequence : ℕ
tag_sequence = 0x30

abbrev pub tag_extensions : ℕ
tag_extensions = 0xa3

abbrev pub der : {A : Type 0} → Result DerError A → Result CertError A
der (err e) = err (der_error e)
der (ok a) = ok a

abbrev pub present : {A : Type 0} → Option A → Result CertError A
present none = err missing
present (some a) = ok a

abbrev pub content_of : Bytes → Tlv → Bytes
content_of buf node = subarray buf node.content_start node.end

unfoldable pub oid_of : Bytes → Tlv → Result CertError String
oid_of buf node =
    der (decode_oid (content_of buf node)) >>= λ arcs. ok (join "." (map to_string arcs))

-- `n` pairs of digits, then `Z` and the end.
abbrev pub digit_pairs : ℕ → String → Option (List ℕ)
digit_pairs zero s = if s === "Z" then some [] else none
digit_pairs (suc n) (String.◌∷◌ a (String.◌∷◌ b s)) =
    let more = digit_pairs n s in
    if is_digit a && is_digit b
    then elim more [
      | none ↦ none
      | some values ↦ some ((digit_value a * 10 + digit_value b) ∷ values)
    ]
    else none
digit_pairs (suc n) _ = none

abbrev pub full_year : ℕ → ℕ
full_year yy = if leb 50 yy then 1900 + yy else 2000 + yy

-- The text decoder, `Date.UTC` of a year and a list of the month, the day, the hour, the minute and the
-- second, and `atob`.
pub record Browser : Type 0 where
  pub decode : Bytes → String
  pub date_utc : ℕ → List ℕ → ℕ
  pub atob : String → Option Bytes

-- The texts of a name, and its first common name.
pub record Name : Type 0 where
  pub parts : List String
  pub cn : String

abbrev pub add_attribute : Name → String → String → Name
add_attribute name oid value = record {
  parts = name.parts ++ ((oid ^ "=" ^ collapse_spaces (to_lower_case (trim value))) ∷ []);
  cn = if oid === oid_cn && name.cn === "" then value else name.cn;
}

abbrev pub canonical : Name → String
canonical name = join "," name.parts

module _ (browser : Browser) where
  open browser use {decode, date_utc, atob}

  abbrev pub utc_time : Option (List ℕ) → Result CertError ℕ
  utc_time (some (yy ∷ rest)) = ok (date_utc (full_year yy) rest)
  utc_time _ = err bad_time

  abbrev pub generalized_time : Option (List ℕ) → Result CertError ℕ
  generalized_time (some (century ∷ yy ∷ rest)) = ok (date_utc (century * 100 + yy) rest)
  generalized_time _ = err bad_time

  unfoldable pub parse_asn1_time : Tlv → Bytes → Result CertError ℕ
  parse_asn1_time node buf =
      let raw = decode (content_of buf node) in
      if node.tag == 0x17
      then utc_time (digit_pairs 6 raw)
      else if node.tag == 0x18
      then generalized_time (digit_pairs 7 raw)
      else err bad_time

  abbrev pub read_attribute : Bytes → Name → List Tlv → Result CertError Name
  read_attribute buf name (key ∷ value ∷ more) =
      if not (key.tag == tag_oid)
      then ok name
      else oid_of buf key >>= λ oid. ok (add_attribute name oid (decode (content_of buf value)))
  read_attribute buf name _ = ok name

  abbrev pub read_attributes : Bytes → Name → List Tlv → Result CertError Name
  read_attributes buf name [] = ok name
  read_attributes buf name (atv ∷ atvs) = do
    pair ← der (children buf atv)
    name' ← read_attribute buf name pair
    read_attributes buf name' atvs

  abbrev pub read_rdns : Bytes → Name → List Tlv → Result CertError Name
  read_rdns buf name [] = ok name
  read_rdns buf name (rdn ∷ rdns) = do
    atvs ← der (children buf rdn)
    name' ← read_attributes buf name atvs
    read_rdns buf name' rdns

  unfoldable pub parse_name : Bytes → Tlv → Result CertError Name
  parse_name buf name = do
    rdns ← der (children buf name)
    read_rdns buf (record { parts = []; cn = "" }) rdns
