-- ===== src/Pki/Der.antt =====
-- mini-banking-app/frontend/src/services/chain-verify.ts: the reader of DER elements. An index past
-- the end of a buffer never decides a result, since each read stands behind a bound.
pub mod ReadTlv
pub mod Children
use mini_banking_app.Common.{
  ℕ, zero, suc, ◌+◌, ◌-◌, ◌*◌, ◌/◌, ◌%◌, Bool, ◌||◌, List, [], ◌∷◌, ◌++◌, length, take, drop,
  get_elem?, get_or, ltb, leb, ◌==◌, if◌then◌else◌,
}
use mini_banking_app.Common.Result.{Result, ok, err, ◌>>=◌}
use mini_banking_app.Pki.Asn1.{Bytes}

pub data DerError : Type 0 where
  truncated bad_length past_buffer no_progress empty_oid out_of_fuel : DerError

pub record Tlv : Type 0 where
  pub tag : ℕ
  pub content_start : ℕ
  pub end : ℕ
  pub raw : Bytes

-- `buf[i]`
abbrev pub at : Bytes → ℕ → ℕ
at buf i = get_or (get_elem? buf i) 0

-- `buf.subarray(from, to)`
abbrev pub subarray : Bytes → ℕ → ℕ → Bytes
subarray buf from to = take (to - from) (drop from buf)

-- The loop `for (let k = 0; k < n; k++) len = len * 256 + buf[i++]`.
unfoldable pub read_length : Bytes → ℕ → ℕ → ℕ → ℕ
read_length buf zero i len = len
read_length buf (suc n) i len = read_length buf n (i + 1) (len * 256 + at buf i)

-- The tail of `readTlv`, once the length is known.
unfoldable pub finish_tlv : Bytes → ℕ → ℕ → ℕ → Result DerError Tlv
finish_tlv buf off i len =
    if ltb (length buf) (i + len)
    then err past_buffer
    else ok (record {
      tag = at buf off;
      content_start = i;
      end = i + len;
      raw = subarray buf off (i + len);
    })

-- On a byte, `len & 0x80` tests `128 ≤ len` and `len & 0x7f` is `len % 128`.
unfoldable pub read_tlv : Bytes → ℕ → Result DerError Tlv
unfolding finish_tlv
read_tlv buf off =
    let i = off + 2 in
    let len = at buf (off + 1) in
    let n = len % 128 in
    if ltb (length buf) (off + 2)
    then err truncated
    else if leb 128 len
    then (if n == 0 || ltb 4 n || ltb (length buf) (i + n)
        then err bad_length
        else finish_tlv buf off (i + n) (read_length buf n i 0))
    else finish_tlv buf off i len

-- The loop of `children`, on fuel.
unfoldable pub children_from : ℕ → Bytes → ℕ → ℕ → Result DerError (List Tlv)
children_from zero buf off stop = if ltb off stop then err out_of_fuel else ok []
children_from (suc f) buf off stop =
    let rest = λ (node : Tlv). children_from f buf node.end stop >>= λ more. ok (node ∷ more) in
    if ltb off stop
    then (read_tlv buf off >>= λ node. if leb node.end off then err no_progress else rest node)
    else ok []

-- Each round reads at least one byte, so the parent's size is fuel enough.
unfoldable pub children : Bytes → Tlv → Result DerError (List Tlv)
children buf parent = children_from parent.end buf parent.content_start parent.end

-- The loop of `decodeOid`: base 128, the high bit set on all but the last byte of an arc.
unfoldable pub oid_arcs : ℕ → Bytes → List ℕ
oid_arcs value [] = []
oid_arcs value (b ∷ bs) =
    let next = value * 128 + b % 128 in
    let closed = next ∷ oid_arcs 0 bs in
    let longer = oid_arcs next bs in if ltb b 128 then closed else longer

-- The arcs that `decodeOid` joins by dots.
unfoldable pub decode_oid : Bytes → Result DerError (List ℕ)
unfolding oid_arcs
decode_oid [] = err empty_oid
decode_oid (first ∷ rest) = ok ((first / 40) ∷ (first % 40) ∷ oid_arcs 0 rest)
