-- ===== src/Pki/Certificate/Signed.antt =====
-- What an accepted chain of PEM texts says of the bytes of its leaf.
use mathlib.Core.Path.{subst}
use mini_banking_app.Common.{
  ℕ, zero, suc, ◌+◌, ◌≤◌, ◌≡◌, sym, inl, inr, arith, String, ◌==◌, if◌then◌else◌, Option, none,
  some, List, [], ◌∷◌, ◌++◌, get_elem?, All,
}
use mini_banking_app.Common.Result.{ok, Result-cases}
use mini_banking_app.Pki.Asn1.{Bytes}
use mini_banking_app.Pki.Der.{Tlv, read_tlv, children_from, children}
use mini_banking_app.Pki.Der.Children.{IsInside, read_tlv-IsInside}
use mini_banking_app.Pki.Chain.{ParsedCert, WebCrypto, VerifiedLeaf, verify_chain_to_root}
use mini_banking_app.Pki.Chain.Trust.{Accepted, verify_chain_to_root_iff}
use mini_banking_app.Pki.Names.{Browser, present}
use mini_banking_app.Pki.Certificate.{
  kid, TbsParts, parts_from, tbs_parts, sig_alg_oid_of, read_fields, parse_cert, parse_certs,
  anchor, base64_bytes, all_blocks, verify_pem_chain,
}
use mini_banking_app.Pki.Pem.{pem_blocks}

-- An element that begins at `lo` or later, and lies in the buffer.
abbrev pub IsPart : Bytes → ℕ → Tlv → Type 0
IsPart buf lo t = (off : ℕ) × (lo ≤ off) × IsInside buf off t

later-IsPart :
    (buf : Bytes) (a b : ℕ) (ts : List Tlv) → a ≤ b → All (IsPart buf b) ts → All (IsPart buf a) ts
later-IsPart buf a b [] h all = tt
later-IsPart buf a b (t ∷ ts) h ((off, low, inside), all) =
    ((off, omega arith, inside), later-IsPart buf a b ts h all)

children_from-IsPart :
    (f : ℕ) (buf : Bytes) (off stop : ℕ) (ts : List Tlv)
    → children_from f buf off stop ≡ ok ts
    → All (IsPart buf off) ts
unfolding children_from
children_from-IsPart zero buf off stop [] h = tt
children_from-IsPart zero buf off stop (t ∷ ts) h = absurd (ground arith)
children_from-IsPart (suc f) buf off stop [] h = tt
children_from-IsPart (suc f) buf off stop (t ∷ ts) h = elim (Result-cases (read_tlv buf off)) [
  | inr (x, e) ↦ absurd (ground arith)
  | inl (t', e) ↦ elim (Result-cases (children_from f buf t'.end stop)) [
    | inr (x, e') ↦ absurd (ground arith)
    | inl (more, e') ↦
        let inside = read_tlv-IsInside buf off t' e in
        let same : t' ≡ t = ground arith in
        let rest : more ≡ ts = ground arith in
        (
          (off, omega arith, rw (sym same) inside),
          later-IsPart buf off t'.end ts (omega arith)
              (children_from-IsPart f buf t'.end stop ts (ground arith)),
        )
  ]
]

children-IsPart :
    (buf : Bytes) (parent : Tlv) (ts : List Tlv)
    → children buf parent ≡ ok ts
    → All (IsPart buf parent.content_start) ts
unfolding children
children-IsPart buf parent ts h =
    children_from-IsPart parent.end buf parent.content_start parent.end ts h

get_elem?-All {ℓ κ} :
    {A : Type ℓ} (P : A → Type κ) (i : ℕ) (xs : List A) (x : A)
    → get_elem? xs i ≡ some x
    → All P xs
    → P x
get_elem?-All P i [] x h all = absurd (ground arith)
get_elem?-All P zero (y ∷ ys) x h all = let e : y ≡ x = ground arith in subst P e all.0
get_elem?-All P (suc i) (y ∷ ys) x h all = get_elem?-All P i ys x h all.1

present-ok : {A : Type 0} (o : Option A) (a : A) → present o ≡ ok a → o ≡ some a
present-ok none a h = absurd (ground arith)
present-ok (some b) a h = ground arith

kid-IsPart :
    (buf : Bytes) (parent : Tlv) (i : ℕ) (ts : List Tlv) (t : Tlv)
    → children buf parent ≡ ok ts
    → kid i ts ≡ ok t
    → IsPart buf parent.content_start t
kid-IsPart buf parent i ts t h k =
    get_elem?-All (IsPart buf parent.content_start) i ts t (present-ok (get_elem? ts i) t k)
      (children-IsPart buf parent ts h)

parts_from-spki :
    (idx : ℕ) (ts : List Tlv) (parts : TbsParts)
    → parts_from idx ts ≡ ok parts
    → kid (idx + 3) ts ≡ ok parts.spki
parts_from-spki idx ts parts h = elim (Result-cases (kid idx ts)) [
  | inr (x, e) ↦ absurd (ground arith)
  | inl (issuer, e) ↦ elim (Result-cases (kid (idx + 1) ts)) [
    | inr (x, e₁) ↦ absurd (ground arith)
    | inl (validity, e₁) ↦ elim (Result-cases (kid (idx + 2) ts)) [
      | inr (x, e₂) ↦ absurd (ground arith)
      | inl (subject, e₂) ↦ elim (Result-cases (kid (idx + 3) ts)) [
        | inr (x, e₃) ↦ absurd (ground arith)
        | inl (spki, e₃) ↦ ground arith
      ]
    ]
  ]
]

tbs_parts-spki :
    (ts : List Tlv) (parts : TbsParts)
    → tbs_parts ts ≡ ok parts
    → (i : ℕ) × (kid i ts ≡ ok parts.spki)
tbs_parts-spki ts parts h = elim (Result-cases (kid 0 ts)) [
  | inr (x, e) ↦ absurd (ground arith)
  | inl (first, e) ↦
      let idx : ℕ = if first.tag == 0xa0 then 3 else 2 in
      (idx + 3, parts_from-spki idx ts parts (ground arith))
]

module _ (browser : Browser) where
  read_fields-raw :
      (buf : Bytes) (tbs : Tlv) (oid : String) (sig_bit : Tlv) (parts : TbsParts) (c : ParsedCert)
      → read_fields browser buf tbs oid sig_bit parts ≡ ok c
      → (c.tbs_raw ≡ tbs.raw) × (c.spki_raw ≡ parts.spki.raw)
  unfolding read_fields
  read_fields-raw buf tbs oid sig_bit parts c h = (ground arith, ground arith)

  -- The bytes that a certificate's signature is over, and its key, in the certificate's own bytes. The
  -- key does not begin before the content of the signed part.
  pub record InBytes (buf : Bytes) (c : ParsedCert) : Type 0 where
    pub tbs : Tlv
    pub spki : Tlv
    pub signed_bytes : c.tbs_raw ≡ tbs.raw
    pub key_bytes : c.spki_raw ≡ spki.raw
    pub signed_part : IsPart buf 2 tbs
    pub key_part : IsPart buf tbs.content_start spki

  parse_cert-InBytes :
      (buf : Bytes) (c : ParsedCert) → parse_cert browser buf ≡ ok c → InBytes buf c
  unfolding parse_cert
  parse_cert-InBytes buf c h = elim (Result-cases (read_tlv buf 0)) [
    | inr (x, e) ↦ absurd (ground arith)
    | inl (cert, e) ↦ elim (Result-cases (children buf cert)) [
      | inr (x, e₁) ↦ absurd (ground arith)
      | inl (kids, e₁) ↦ elim (Result-cases (kid 0 kids)) [
        | inr (x, e₂) ↦ absurd (ground arith)
        | inl (tbs, e₂) ↦ from_tbs cert kids tbs e e₁ e₂
      ]
    ]
  ]
    where
      from_tbs :
          (cert : Tlv) (kids : List Tlv) (tbs : Tlv)
          → read_tlv buf 0 ≡ ok cert
          → children buf cert ≡ ok kids
          → kid 0 kids ≡ ok tbs
          → InBytes buf c
      from_tbs cert kids tbs e e₁ e₂ = elim (Result-cases (kid 1 kids)) [
        | inr (x, e₃) ↦ absurd (ground arith)
        | inl (sig_alg, e₃) ↦ elim (Result-cases (kid 2 kids)) [
          | inr (x, e₄) ↦ absurd (ground arith)
          | inl (sig_bit, e₄) ↦ elim (Result-cases (sig_alg_oid_of browser buf sig_alg)) [
            | inr (x, e₅) ↦ absurd (ground arith)
            | inl (oid, e₅) ↦ elim (Result-cases (children buf tbs)) [
              | inr (x, e₆) ↦ absurd (ground arith)
              | inl (tbs_kids, e₆) ↦ elim (Result-cases (tbs_parts tbs_kids)) [
                | inr (x, e₇) ↦ absurd (ground arith)
                | inl (parts, e₇) ↦
                    let (raw, key) = read_fields-raw buf tbs oid sig_bit parts c (ground arith) in
                    let (i, at) = tbs_parts-spki tbs_kids parts e₇ in
                    let (off, low, inside) = kid-IsPart buf cert 0 kids tbs e₁ e₂ in
                    let opened = read_tlv-IsInside buf 0 cert e in
                    let begins = opened.header in
                    record {
                      tbs = tbs;
                      spki = parts.spki;
                      signed_bytes = raw;
                      key_bytes = key;
                      signed_part = (off, omega arith, inside);
                      key_part = kid-IsPart buf tbs i tbs_kids parts.spki e₆ at;
                    }
              ]
            ]
          ]
        ]
      ]

  -- Where the chain of PEM texts is accepted, the first certificate is parsed from the first block of the
  -- first text and the root from the root's text; the chain is accepted as `verifyChainToRoot` accepts
  -- parsed certificates, with the leaf's name and key; and both the bytes that the leaf's signature is
  -- over and its key are consecutive bytes of that first block.
  pub verify_pem_chain-Accepted :
      (crypto : WebCrypto) (now : ℕ) (root_pem leaf_pem : String) (intermediate_pems : List String)
      (v : VerifiedLeaf crypto)
      → verify_pem_chain browser crypto now root_pem leaf_pem intermediate_pems ≡ ok v
      → (block : Bytes) × (blocks : List Bytes) × (leaf : ParsedCert) × (rest : List ParsedCert)
        × (root : ParsedCert) × (pem_blocks (base64_bytes browser) leaf_pem ≡ ok (block ∷ blocks))
        × (parse_cert browser block ≡ ok leaf)
        × (anchor browser root_pem ≡ ok root)
        × Accepted crypto now root leaf rest v
        × InBytes block leaf
  unfolding verify_pem_chain
  verify_pem_chain-Accepted crypto now root_pem leaf_pem intermediate_pems v h =
      elim (Result-cases (pem_blocks (base64_bytes browser) leaf_pem)) [
        | inr (x, e) ↦ absurd (ground arith)
        | inl ([], e) ↦ absurd (ground arith)
        | inl (block ∷ blocks, e) ↦ elim (Result-cases (all_blocks browser intermediate_pems)) [
          | inr (x, e₁) ↦ absurd (ground arith)
          | inl (more, e₁) ↦ elim (Result-cases (parse_cert browser block)) [
            | inr (x, e₂) ↦ absurd (ground arith)
            | inl (leaf, e₂) ↦ elim (Result-cases (parse_certs browser (blocks ++ more))) [
              | inr (x, e₃) ↦ absurd (ground arith)
              | inl (rest, e₃) ↦ elim (Result-cases (anchor browser root_pem)) [
                | inr (x, e₄) ↦ absurd (ground arith)
                | inl (root, e₄) ↦
                    elim (Result-cases (verify_chain_to_root crypto now root (leaf ∷ rest))) [
                      | inr (x, e₅) ↦ absurd (ground arith)
                      | inl (v', e₅) ↦
                          let same : v' ≡ v = ground arith in
                          (
                            block,
                            blocks,
                            leaf,
                            rest,
                            root,
                            e,
                            e₂,
                            e₄,
                            subst (Accepted crypto now root leaf rest) same
                                ((verify_chain_to_root_iff crypto now root leaf rest v').0 e₅),
                            parse_cert-InBytes block leaf e₂,
                          )
                    ]
              ]
            ]
          ]
        ]
      ]
