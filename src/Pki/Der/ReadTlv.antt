-- ===== src/Pki/Der/ReadTlv.antt =====
-- `readTlv` against the encoder of asn1.ts.
use native.Mathlib.Nat.{pow-suc}
use mathlib.Core.List.{append_assoc, append-nil}
use mini_banking_app.Common.{
  ℕ, zero, suc, ◌+◌, ◌-◌, ◌*◌, ◌/◌, ◌%◌, ◌^◌, ◌≤◌, ◌<◌, ◌≡◌, refl, ap, ◌∙◌, inl, inr, [], ◌∷◌, ◌++◌,
  arith, length, length-append, get_elem?-append_right, drop-append, take-append, ltb, ◌==◌,
  Bool-cases,
}
use mini_banking_app.Common.Result.{ok}
use mini_banking_app.Pki.Asn1.{Bytes, length_bytes, encode_length, tlv}
use mini_banking_app.Pki.Der.{Tlv, at, subarray, read_length, finish_tlv, read_tlv}

-- The number that a big-endian string of bytes stands for, after the number `n`.
abbrev be_value : ℕ → Bytes → ℕ
be_value n [] = n
be_value n (b ∷ bs) = be_value (n * 256 + b) bs

be_value-length_bytes :
    (f n : ℕ) (bytes : Bytes) → n ≤ f → be_value 0 (length_bytes f n bytes) ≡ be_value n bytes
unfolding length_bytes
be_value-length_bytes zero n bytes h = ap (λ (k : ℕ). be_value k bytes) (omega arith)
be_value-length_bytes (suc f) n bytes h = elim (Bool-cases (n == 0)) [
  | inl z ↦ rw z (ap (λ (k : ℕ). be_value k bytes) (ground arith))
  | inr p ↦ rw p (
      be_value-length_bytes f (n / 256) ((n % 256) ∷ bytes) (ground arith)
      ∙ ap (λ (k : ℕ). be_value k bytes) (omega arith))
]

length-length_bytes :
    (k f n : ℕ) (bytes : Bytes) → n < 256 ^ k → length (length_bytes f n bytes) ≤ k + length bytes
unfolding length_bytes
length-length_bytes k zero n bytes h = omega arith
length-length_bytes zero (suc f) n bytes h = ground arith
length-length_bytes (suc k) (suc f) n bytes h =
    ground (arith, pow-suc 256 k, length-length_bytes k f (n / 256) ((n % 256) ∷ bytes))

length-length_bytes_ge : (f n : ℕ) (bytes : Bytes) → length bytes ≤ length (length_bytes f n bytes)
unfolding length_bytes
length-length_bytes_ge zero n bytes = omega arith
length-length_bytes_ge (suc f) n bytes =
    ground (arith, length-length_bytes_ge f (n / 256) ((n % 256) ∷ bytes))

length-length_bytes_pos : (n : ℕ) → 0 < n → 0 < length (length_bytes n n [])
unfolding length_bytes
length-length_bytes_pos zero h = absurd (omega arith)
length-length_bytes_pos (suc n) h =
    ground (arith, length-length_bytes_ge n (suc n / 256) ((suc n % 256) ∷ []))

at-append : (pre ys : Bytes) (k : ℕ) → at (pre ++ ys) (length pre + k) ≡ at ys k
at-append pre ys k = rw (get_elem?-append_right pre ys k)

at-append_head : (pre : Bytes) (b : ℕ) (ys : Bytes) → at (pre ++ (b ∷ ys)) (length pre) ≡ b
at-append_head pre b ys =
    let e : length pre ≡ length pre + 0 = omega arith in
    ap (at (pre ++ (b ∷ ys))) e ∙ at-append pre (b ∷ ys) 0

read_length-be_value :
    (pre bs post : Bytes) (n : ℕ)
    → read_length (pre ++ (bs ++ post)) (length bs) (length pre) n ≡ be_value n bs
unfolding read_length
read_length-be_value pre [] post n = refl
read_length-be_value pre (b ∷ bs) post n =
    let size : length (pre ++ (b ∷ [])) ≡ length pre + 1 = length-append pre (b ∷ []) in
    let ih = read_length-be_value (pre ++ (b ∷ [])) bs post (n * 256 + b) in
    ap (λ v. read_length (pre ++ (b ∷ (bs ++ post))) (length bs) (length pre + 1) (n * 256 + v))
      (at-append_head pre b (bs ++ post))
    ∙ (rw (append_assoc pre (b ∷ []) (bs ++ post), size) at ih)

subarray-append :
    (pre raw post : Bytes) (e : ℕ)
    → e ≡ length pre + length raw
    → subarray (pre ++ (raw ++ post)) (length pre) e ≡ raw
subarray-append pre raw post e h =
    let size : e - length pre ≡ length raw = omega arith in
    rw (size, drop-append) (take-append raw post)

-- What `readTlv` finds, where the element `raw` with its content `size` bytes long begins.
abbrev pub found : ℕ → ℕ → Bytes → ℕ → Tlv
found tag off raw size = record {
  tag = tag;
  content_start = off + length raw - size;
  end = off + length raw;
  raw = raw;
}

pub tlv_lem :
    (tag : ℕ) (content : Bytes)
    → tlv tag content ≡ tag ∷ (encode_length (length content) ++ content)
unfolding tlv
tlv_lem tag content = rw append-nil

module _ (pre post : Bytes) (tag : ℕ) (content : Bytes) where
  abbrev element : Bytes
  element = tag ∷ (encode_length (length content) ++ content)

  abbrev buffer : Bytes
  buffer = pre ++ (element ++ post)

  length-buffer :
      length buffer
      ≡ length pre + 1 + length (encode_length (length content)) + length content + length post
  length-buffer = omega (
    arith,
    length-append {0} pre (element ++ post),
    length-append {0} element post,
    length-append {0} (encode_length (length content)) content,
  )

  finish_tlv_lem :
      (i : ℕ)
      → i ≡ length pre + 1 + length (encode_length (length content))
      → finish_tlv buffer (length pre) i (length content)
        ≡ ok (found tag (length pre) element (length content))
  unfolding finish_tlv
  finish_tlv_lem i h = ground (
    arith,
    length-buffer,
    at-append_head pre tag (encode_length (length content) ++ content ++ post),
    subarray-append pre element post (i + length content),
    length-append {0} (encode_length (length content)) content,
  )

  module _ (b : ℕ) (bs : Bytes) (header : encode_length (length content) ≡ b ∷ bs) where
    second_byte : at buffer (length pre + 1) ≡ b
    second_byte =
        at-append pre (element ++ post) 1 ∙ ap (λ l. at ((tag ∷ (l ++ content)) ++ post) 1) header

    reshape : buffer ≡ (pre ++ (tag ∷ b ∷ [])) ++ (bs ++ (content ++ post))
    reshape = rw header (simp append_assoc)

    read_length_lem : read_length buffer (length bs) (length pre + 2) 0 ≡ be_value 0 bs
    read_length_lem =
        let size : length (pre ++ (tag ∷ b ∷ [])) ≡ length pre + 2 =
          length-append pre (tag ∷ b ∷ []) in
        let read = read_length-be_value (pre ++ (tag ∷ b ∷ [])) bs (content ++ post) 0 in
        rw (reshape, ← size) read

  read_tlv_short :
      length content < 128
      → read_tlv buffer (length pre) ≡ ok (found tag (length pre) element (length content))
  unfolding read_tlv
  read_tlv_short small =
      let header : encode_length (length content) ≡ length content ∷ [] =
        unfold encode_length in ground arith in
      ground (
        arith,
        length-buffer,
        second_byte (length content) [] header,
        ap length header,
        finish_tlv_lem (length pre + 2) (omega (arith, ap length header)),
      )

  read_tlv_long :
      128 ≤ length content
      → length content < 256 ^ 4
      → read_tlv buffer (length pre) ≡ ok (found tag (length pre) element (length content))
  unfolding read_tlv
  read_tlv_long big fits =
      let bs = length_bytes (length content) (length content) [] in
      let header : encode_length (length content) ≡ (128 + length bs) ∷ bs =
        unfold encode_length in ground arith in
      let value : be_value 0 bs ≡ length content =
        be_value-length_bytes (length content) (length content) [] (omega arith) in
      ground (
        arith,
        length-buffer,
        second_byte (128 + length bs) bs header,
        ap length header,
        value,
        read_length_lem (128 + length bs) bs header,
        length-length_bytes 4 (length content) (length content) [] fits,
        length-length_bytes_pos (length content) (omega arith),
        finish_tlv_lem (length pre + 2 + length bs) (omega (arith, ap length header)),
      )

-- An element whose content has fewer than 2^31 bytes, as the encoder wrote it, is read back, wherever it
-- stands in a buffer.
pub read_tlv-tlv :
    (pre post : Bytes) (tag : ℕ) (content : Bytes)
    → length content < 2 ^ 31
    → read_tlv (pre ++ (tlv tag content ++ post)) (length pre)
      ≡ ok (found tag (length pre) (tlv tag content) (length content))
read_tlv-tlv pre post tag content h = rw tlv_lem (elim (Bool-cases (ltb (length content) 128)) [
  | inl small ↦ read_tlv_short pre post tag content (ground arith)
  | inr big ↦ read_tlv_long pre post tag content (ground arith) (omega arith)
])
