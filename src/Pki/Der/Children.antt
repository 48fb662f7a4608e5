-- ===== src/Pki/Der/Children.antt =====
-- What `readTlv` and `children` guarantee on every buffer, and on what the encoder wrote.
use mathlib.Core.List.{append_assoc}
use mini_banking_app.Common.{
  ℕ, zero, suc, ◌+◌, ◌-◌, ◌^◌, ◌≤◌, ◌<◌, ◌≡◌, ◌≢◌, refl, ap, inl, inr, List, [], ◌∷◌, ◌++◌, map,
  arith, length, length-append, All,
}
use mini_banking_app.Common.Result.{ok, err, ◌>>=◌, Result-cases}
use mini_banking_app.Pki.Asn1.{Bytes, tag_sequence, concat, encode_length, tlv}
use mini_banking_app.Pki.Builder.{sequence}
use mini_banking_app.Pki.Der.{
  no_progress, out_of_fuel, Tlv, subarray, read_tlv, children_from, children,
}
use mini_banking_app.Pki.Der.ReadTlv.{found, tlv_lem, read_tlv-tlv}

-- An element that is read lies in the buffer behind its header, and `raw` is its bytes.
pub record IsInside (buf : Bytes) (off : ℕ) (t : Tlv) : Type 0 where
  pub header : off + 2 ≤ t.content_start
  pub content : t.content_start ≤ t.end
  pub buffer : t.end ≤ length buf
  pub bytes : t.raw ≡ subarray buf off t.end

-- Whatever the bytes and the offset, an element that is read lies inside the buffer: its header
-- takes two bytes at least, its content ends in the buffer, and `raw` is the bytes from the offset
-- to that end.
pub read_tlv-IsInside :
    (buf : Bytes) (off : ℕ) (t : Tlv) → read_tlv buf off ≡ ok t → IsInside buf off t
unfolding read_tlv
read_tlv-IsInside buf off t h = ground arith

read_tlv-ne :
    (buf : Bytes) (off : ℕ)
    → (read_tlv buf off ≢ err no_progress) × (read_tlv buf off ≢ err out_of_fuel)
unfolding read_tlv
read_tlv-ne buf off = (ground arith, ground arith)

children_from-ends :
    (f : ℕ) (buf : Bytes) (off stop : ℕ)
    → stop ≤ off + f
    → (children_from f buf off stop ≢ err no_progress)
      × (children_from f buf off stop ≢ err out_of_fuel)
unfolding children_from
children_from-ends zero buf off stop h = (ground arith, ground arith)
children_from-ends (suc f) buf off stop h = elim (Result-cases (read_tlv buf off)) [
  | inl (t, e) ↦
      let inside = read_tlv-IsInside buf off t e in
      let ih = children_from-ends f buf t.end stop (omega arith) in rw e (ground arith)
  | inr (x, e) ↦ let (np, nf) = read_tlv-ne buf off in rw e (ground arith)
]

-- The loop over the children of an element ends: it neither runs out of rounds nor reaches the
-- source's check that a round made no progress.
pub children-ends :
    (buf : Bytes) (parent : Tlv)
    → (children buf parent ≢ err no_progress) × (children buf parent ≢ err out_of_fuel)
unfolding children
children-ends buf parent =
    children_from-ends parent.end buf parent.content_start parent.end (omega arith)

abbrev pub encode : ℕ × Bytes → Bytes
encode item = tlv item.0 item.1

abbrev pub Fits : ℕ × Bytes → Type 0
Fits item = length item.1 < 2 ^ 31

-- The nodes of elements that stand one behind another from an offset on.
nodes_at : ℕ → List (ℕ × Bytes) → List Tlv
nodes_at off [] = []
nodes_at off (item ∷ items) =
    found item.0 off (encode item) (length item.1) ∷ nodes_at (off + length (encode item)) items

length-tlv_pos : (tag : ℕ) (content : Bytes) → 0 < length (tlv tag content)
length-tlv_pos tag content = rw tlv_lem (omega arith)

children_from-concat :
    (items : List (ℕ × Bytes)) (f : ℕ) (pre post : Bytes) (stop : ℕ)
    → All Fits items
    → stop ≡ length pre + length (concat (map encode items))
    → stop ≤ length pre + f
    → children_from f (pre ++ (concat (map encode items) ++ post)) (length pre) stop
      ≡ ok (nodes_at (length pre) items)
unfolding children_from nodes_at concat
children_from-concat [] zero pre post stop h e b = ground arith
children_from-concat [] (suc f) pre post stop h e b = ground arith
children_from-concat ((tag, content) ∷ items) zero pre post stop h e b = absurd (
    omega (
      arith,
      length-tlv_pos tag content,
      length-append {0} (tlv tag content) (concat (map encode items)),
    ))
children_from-concat ((tag, content) ∷ items) (suc f) pre post stop (fits, h) e b =
    let raw = tlv tag content in
    let more = concat (map encode items) in
    let shape : pre ++ ((raw ++ more) ++ post) ≡ pre ++ (raw ++ (more ++ post)) =
      simp append_assoc in
    let pos = length-tlv_pos tag content in
    let size : length (pre ++ raw) ≡ length pre + length raw = length-append pre raw in
    let total : length (raw ++ more) ≡ length raw + length more = length-append raw more in
    let ih = children_from-concat items f (pre ++ raw) post stop h (omega arith) (omega arith) in
    let later = rw (append_assoc pre raw (more ++ post), size) at ih in
    rw (shape, read_tlv-tlv pre (more ++ post) tag content fits) (ground arith)

map-raw-nodes_at :
    (off : ℕ) (items : List (ℕ × Bytes))
    → map (λ (t : Tlv). t.raw) (nodes_at off items) ≡ map encode items
unfolding nodes_at
map-raw-nodes_at off [] = refl
map-raw-nodes_at off (item ∷ items) =
    ap (λ l. encode item ∷ l) (map-raw-nodes_at (off + length (encode item)) items)

map-tag-nodes_at :
    (off : ℕ) (items : List (ℕ × Bytes))
    → map (λ (t : Tlv). t.tag) (nodes_at off items) ≡ map (λ (item : ℕ × Bytes). item.0) items
unfolding nodes_at
map-tag-nodes_at off [] = refl
map-tag-nodes_at off (item ∷ items) =
    ap (λ l. item.0 ∷ l) (map-tag-nodes_at (off + length (encode item)) items)

sequence_loop :
    (items : List (ℕ × Bytes)) (post : Bytes) (start stop : ℕ)
    → All Fits items
    → start ≡ 1 + length (encode_length (length (concat (map encode items))))
    → stop ≡ start + length (concat (map encode items))
    → children_from stop (tlv tag_sequence (concat (map encode items)) ++ post) start stop
      ≡ ok (nodes_at start items)
sequence_loop items post start stop h e e' =
    let content = concat (map encode items) in
    let header = tag_sequence ∷ encode_length (length content) in
    let begins : start ≡ length header = omega arith in
    let loop = children_from-concat items stop header post stop h (omega arith) (omega arith) in
    rw (tlv_lem, begins) (rw (← append_assoc (encode_length (length content)) content post) at loop)

-- A sequence that the encoder wrote at the head of a buffer is read back: the reader finds the
-- sequence, its children are the items with their tags and bytes, in order. Each item, and the
-- sequence, is smaller than 2³¹ bytes.
pub children-sequence :
    (items : List (ℕ × Bytes)) (post : Bytes)
    → All Fits items
    → length (concat (map encode items)) < 2 ^ 31
    → (nodes : List Tlv) × ((read_tlv (sequence (map encode items) ++ post) 0
          >>= children (sequence (map encode items) ++ post))
        ≡ ok nodes)
      × (map (λ (t : Tlv). t.raw) nodes ≡ map encode items)
      × (map (λ (t : Tlv). t.tag) nodes ≡ map (λ (item : ℕ × Bytes). item.0) items)
unfolding sequence children
children-sequence items post h fits =
    let content = concat (map encode items) in
    let start = 1 + length (encode_length (length content)) in
    let size : length (tlv tag_sequence content) ≡ start + length content =
      rw tlv_lem (omega (arith, length-append (encode_length (length content)) content)) in
    let read = read_tlv-tlv [] post tag_sequence content fits in
    let e : 0 + length (tlv tag_sequence content) - length content ≡ start = omega arith in
    let stop = 0 + length (tlv tag_sequence content) in
    let loop = sequence_loop items post start stop h refl (omega arith) in
    (
      nodes_at start items,
      rw (read, e) loop,
      map-raw-nodes_at start items,
      map-tag-nodes_at start items,
    )
