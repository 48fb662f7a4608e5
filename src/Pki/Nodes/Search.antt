-- ===== src/Pki/Nodes/Search.antt =====
-- The search for an extension ends.
use mini_banking_app.Common.{
  ℕ, zero, suc, ◌+◌, ◌-◌, ◌<◌, ◌≤◌, ◌≡◌, ◌≢◌, refl, ap, inl, inr, arith, Bool, true, false, Option,
  none, some, length, length-take, length-drop, ltb, Bool-cases, drop, if◌then◌else◌,
}
use mini_banking_app.Common.Result.{Result, ok, err, ◌>>=◌, Result-cases}
use mini_banking_app.Pki.Asn1.{Bytes}
use mini_banking_app.Pki.Der.{DerError, subarray, read_tlv, out_of_fuel}
use mini_banking_app.Pki.Der.Children.{read_tlv-IsInside}
use mini_banking_app.Pki.Nodes.{
  Node, read_node, nodes_from, read_children, is_constructed, value_of, or_else, find_from,
  find_extension_value,
}
use mini_banking_app.Pki.Nodes.Reader.{read_node_lem}

read_node-ne : (buf : Bytes) (off : ℕ) → read_node buf off ≢ err out_of_fuel
unfolding read_node
read_node-ne buf off = ground arith

-- An element that is read ends in the buffer, and is at least two bytes longer than its content.
read_node-shorter :
    (buf : Bytes) (off : ℕ) (n : Node)
    → read_node buf off ≡ ok n
    → (off + 2 ≤ n.end) × (n.end ≤ length buf) × (off + 2 + length n.content ≤ n.end)
read_node-shorter buf off n h = elim (Result-cases (read_tlv buf off)) [
  | inr (x, e) ↦ let same = read_node_lem buf off in absurd (ground arith)
  | inl (t, e) ↦
      let same = read_node_lem buf off in
      let inside = read_tlv-IsInside buf off t e in
      let (h₁, h₂, h₃) : (off + 2 ≤ t.content_start)
          × (t.content_start ≤ t.end)
          × (t.end ≤ length buf) =
        (inside.header, inside.content, inside.buffer) in
      let size₁ = length-take (t.end - t.content_start) (drop t.content_start buf) in
      let size₂ = length-drop t.content_start buf in
      let at_end : n.end ≡ t.end = ground arith in
      let content : n.content ≡ subarray buf t.content_start t.end = ground arith in
      let size : length n.content ≡ length (subarray buf t.content_start t.end) =
        ap length content in
      (omega arith, omega arith, omega arith)
]

nodes_from-ne :
    (f : ℕ) (buf : Bytes) (off : ℕ) → length buf ≤ off + f → nodes_from f buf off ≢ err out_of_fuel
unfolding nodes_from
nodes_from-ne zero buf off h = ground arith
nodes_from-ne (suc f) buf off h = elim (Result-cases (read_node buf off)) [
  | inr (x, e) ↦ let other = read_node-ne buf off in rw e (ground arith)
  | inl (n, e) ↦
      let (after, _, _) = read_node-shorter buf off n e in
      let ih = nodes_from-ne f buf n.end (omega arith) in rw e (ground arith)
]

value_of-ne : (oid : Bytes) (n : Node) → value_of oid n ≢ err out_of_fuel
unfolding read_children
value_of-ne oid n =
    let parts = nodes_from-ne (length n.content) n.content 0 (omega arith) in
    elim (Result-cases (nodes_from (length n.content) n.content 0)) [
      | inr (x, e) ↦ ground arith
      | inl (ns, e) ↦ ground arith
    ]

or_else-ne :
    (found : Option Bytes) (later : Result DerError (Option Bytes))
    → later ≢ err out_of_fuel
    → or_else found later ≢ err out_of_fuel
or_else-ne none later h = h
or_else-ne (some v) later h = ground arith

then-ne :
    {A B : Type 0} (m : Result DerError A) (f : A → Result DerError B)
    → m ≢ err out_of_fuel
    → ((a : A) → m ≡ ok a → f a ≢ err out_of_fuel)
    → (m >>= f) ≢ err out_of_fuel
then-ne (ok a) f h k = k a refl
then-ne (err e) f h k = λ e. h (ground arith)

find_from-ne :
    (f : ℕ) (bytes oid : Bytes) (off : ℕ)
    → 0 < f
    → length bytes < off + f
    → find_from f bytes oid off ≢ err out_of_fuel
unfolding find_from
find_from-ne zero bytes oid off pos h = absurd (omega arith)
find_from-ne (suc f) bytes oid off pos h = elim (Bool-cases (ltb off (length bytes))) [
  | inr past ↦ rw past (ground arith)
  | inl within ↦ rw within (
      then-ne (read_node bytes off) _ (read_node-ne bytes off) λ node e.
        let (after, before, shorter) = read_node-shorter bytes off node e in
        let later = find_from-ne f bytes oid node.end (omega arith) (omega arith) in
        let nested = find_from-ne f node.content oid 0 (omega arith) (omega arith) in
        then-ne (value_of oid node) _ (value_of-ne oid node) λ direct _. or_else-ne direct _ (
          then-ne _ _ (inner (is_constructed node.tag) node nested)
            λ found _. or_else-ne found _ later))
]
  where
    inner :
        (b : Bool) (node : Node)
        → find_from f node.content oid 0 ≢ err out_of_fuel
        → (if b then find_from f node.content oid 0 else ok none) ≢ err out_of_fuel
    inner true node h = h
    inner false node h = ground arith

-- The search for an extension in a certificate ends, whatever the bytes and the identifier.
pub find_extension_value-ends :
    (bytes oid : Bytes) → find_extension_value bytes oid ≢ err out_of_fuel
unfolding find_extension_value
find_extension_value-ends bytes oid =
    find_from-ne (suc (length bytes)) bytes oid 0 (omega arith) (omega arith)
