-- ===== src/Pki/Nodes/Reader.antt =====
-- The two readers of DER in the client agree.
use mini_banking_app.Common.{
  ℕ, ◌<◌, ◌≡◌, refl, arith, false, ◌∷◌, ltb, if◌then◌else◌, min, ◌/◌, ◌%◌, ◌-◌,
}
use mini_banking_app.Common.Result.{Result, ok, err}
use mini_banking_app.Pki.Asn1.{Bytes}
use mini_banking_app.Pki.Der.{DerError, Tlv, subarray, read_tlv, decode_oid}
use mini_banking_app.Pki.Nodes.{Node, read_node, decode_oid_checked, is_open}

-- An element of the one reader, as the other one gives it.
abbrev pub as_node : Bytes → Result DerError Tlv → Result DerError Node
as_node buf (err e) = err e
as_node buf (ok t) =
    ok (record { tag = t.tag; content = subarray buf t.content_start t.end; end = t.end })

pub read_node_lem : (buf : Bytes) (off : ℕ) → read_node buf off ≡ as_node buf (read_tlv buf off)
unfolding read_node read_tlv
read_node_lem buf off = ground arith

-- The two readers of the client accept the same elements at every offset, with the same tag, content
-- and end, and fail alike. An object identifier whose first byte is below 120 and whose last byte ends
-- an arc has the same arcs for both.
pub readers-agree :
    (buf : Bytes) (off : ℕ)
    → (read_node buf off ≡ as_node buf (read_tlv buf off))
      × ((first : ℕ) (rest : Bytes)
          → first < 120
          → is_open first rest ≡ false
          → decode_oid_checked (first ∷ rest) ≡ decode_oid (first ∷ rest))
unfolding decode_oid_checked decode_oid
readers-agree buf off = (
  read_node_lem buf off,
  (λ first rest small closed.
      let high : min 2 (first / 40) ≡ first / 40 = omega arith in
      let low : (if ltb first 80 then first % 40 else first - 80) ≡ first % 40 = ground arith in
      rw (closed, high, low) refl),
)
