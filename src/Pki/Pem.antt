-- ===== src/Pki/Pem.antt =====
-- mini-banking-app/frontend/src/services/chain-verify.ts, pemBlocks: the texts between the markers of
-- a PEM file. `scan` walks the text once; a marker is left by counting its characters.
use mini_banking_app.Common.{
  ℕ, zero, suc, String, Option, none, some, List, [], ◌∷◌, ◌===◌, if◌then◌else◌,
}
use mini_banking_app.Common.Ascii.{strip_prefix, remove_spaces}
use mini_banking_app.Common.Result.{Result, ok, ◌>>=◌}
use mini_banking_app.Pki.Asn1.{Bytes}

abbrev pub begin_marker : String
begin_marker = "-----BEGIN CERTIFICATE-----"

abbrev pub end_marker : String
end_marker = "-----END CERTIFICATE-----"

pub data Place : Type 0 where
  outside inside : Place

-- What a character is: part of no block, the start of a block, part of one, or the end of one.
pub data Reading : Type 0 where
  pass open_block body close_block : Reading

-- The place and the characters to leave out after this character, with what it is.
abbrev pub read_at : Place → String → Place × ℕ × Reading
read_at outside s = elim (strip_prefix begin_marker s) [
  | none ↦ (outside, 0, pass)
  | some rest ↦ (inside, 26, open_block)
]
read_at inside s = elim (strip_prefix end_marker s) [
  | none ↦ (inside, 0, body)
  | some rest ↦ (outside, 24, close_block)
]

-- The block being read, if it is closed, and the blocks after it.
abbrev pub Blocks : Type 0
Blocks = Option String × List String

abbrev pub grow : Reading → (String → String) → Blocks → Blocks
grow pass put b = b
grow open_block put (none, bs) = (none, bs)
grow open_block put (some b, bs) = (none, b ∷ bs)
grow body put (none, bs) = (none, bs)
grow body put (some b, bs) = (some (put b), bs)
grow close_block put (b, bs) = (some "", bs)

abbrev pub scan : Place → ℕ → String → Blocks
scan place skip String.[] = (none, [])
scan place (suc skip) (String.◌∷◌ c s) = scan place skip s
scan place zero (String.◌∷◌ c s) =
    let now = read_at place (String.◌∷◌ c s) in
    let rest = scan now.0 now.1 s in grow now.2 (λ b. String.◌∷◌ c b) rest

module _ {E : Type 0} (atob : String → Result E Bytes) where
  abbrev pub decode_blocks : List String → Result E (List Bytes)
  decode_blocks [] = ok []
  decode_blocks (text ∷ texts) =
      let base64 = remove_spaces text in
      let later = decode_blocks texts in
      if base64 === "" then later else atob base64 >>= λ der. later >>= λ ders. ok (der ∷ ders)

  unfoldable pub pem_blocks : String → Result E (List Bytes)
  pem_blocks pem = decode_blocks (scan outside 0 pem).1
