-- ===== src/Gateway/Report/Collected.antt =====
-- What `collect` gives: the earliest of all events that the sources answered with.
use mini_banking_app.Common.{
  ℕ, zero, suc, ◌≤◌, ◌<◌, ◌≡◌, refl, sym, ap, ◌∙◌, ◌⊎◌, inl, inr, arith, String, Bool, true, false,
  ◌&&◌, Option, none, some, List, [], ◌∷◌, ◌++◌, map, ◌===◌, if◌then◌else◌, length, take, drop,
  take-append-drop, length-map, All, length-take, map-append, Bool-cases,
}
use mathlib.Core.List.{Perm, append-nil}
use mathlib.Core.List.Perm
use mini_banking_app.Gateway.Http.{Exception}
use mini_banking_app.Common.Result.{Result, ok, err}
use mini_banking_app.Common.Sort.{sort, by_key, sort-perm, IsSorted, sort-IsSorted}
use mini_banking_app.Gateway.Audit.Semantics.{AuditSource, ca, kdc, bank}
use mini_banking_app.Gateway.Audit.Fetch.{
  NormalizedEvent, fetch_ca_window, fetch_kdc_window, fetch_bank_window,
}
use mini_banking_app.Gateway.Audit.Fetch.Paging.{fetch_window-ends}
use mini_banking_app.Gateway.Report.{
  EnrichedEvent, enrich, time_of, source_name, Selection, wants, AuditServices, Gathered,
  push_events, Collection, collect_ca, collect_kdc, collect_bank, collect, finish,
}

-- What one source adds, where it is wanted: its events if it answers, and whether it did.
module _ {E N : Type 0} where
  abbrev pub part : AuditSource → Bool → Option (Result E (List N)) → Gathered N
  part source false r = ([], [])
  part source true none = ([], [])
  part source true (some (err e)) = ([], (source_name source, false) ∷ [])
  part source true (some (ok events)) = (events, (source_name source, true) ∷ [])

module _ {N : Type 0} where
  abbrev pub joined : Gathered N → Gathered N → Gathered N
  joined g h = (g.0 ++ h.0, g.1 ++ h.1)

module _ {E N : Type 0} where
  gather :
      (source : AuditSource) (wanted : Bool) (fetch : Option (Result E (List N))) (g : Gathered N)
      → (r : Result E (List N)) × (fetch ≡ some r)
      → (if wanted then push_events source fetch g else some g)
        ≡ some (joined g (part source wanted fetch))
  gather source false fetch g ended = rw (append-nil, append-nil) refl
  gather source true fetch g (ok events, h) = rw h refl
  gather source true fetch g (err e, h) = rw (h, append-nil) refl

drop-short {ℓ} : {A : Type ℓ} (n : ℕ) (xs : List A) → length (take n xs) < n → drop n xs ≡ []
drop-short zero xs h = absurd (omega arith)
drop-short (suc n) [] h = refl
drop-short (suc n) (x ∷ xs) h = drop-short n xs (omega arith)

module _ {J : Type 0} where
  map-All-time :
      (f : NormalizedEvent J → EnrichedEvent J) (t : ℕ) (xs : List (NormalizedEvent J))
      → ((e : NormalizedEvent J) → time_of (f e) ≡ e.ts)
      → All (λ e. t ≤ e.ts) xs
      → All (λ e. t ≤ time_of e) (map f xs)
  map-All-time f t [] same h = tt
  map-All-time f t (x ∷ xs) same h = (rw (same x) h.0, map-All-time f t xs same h.1)

  map-IsSorted :
      (f : NormalizedEvent J → EnrichedEvent J) (xs : List (NormalizedEvent J))
      → ((e : NormalizedEvent J) → time_of (f e) ≡ e.ts)
      → IsSorted (λ e. e.ts) xs
      → IsSorted time_of (map f xs)
  map-IsSorted f [] same h = tt
  map-IsSorted f (x ∷ xs) same h =
      (rw (same x) (map-All-time f x.ts xs same h.0), map-IsSorted f xs same h.1)

module _ {J : Type 0} (parse_json : String → Option J) (iso : ℕ → String) (bank_action : ℕ → String)
    (services : AuditServices) (cap : ℕ) (selection : Selection) (token : String) where
  abbrev pub from_ca : Gathered (NormalizedEvent J)
  from_ca =
      part ca (wants selection ca) (fetch_ca_window parse_json iso bank_action services.list_ca cap)

  abbrev pub from_kdc : Gathered (NormalizedEvent J)
  from_kdc =
      part kdc (wants selection kdc)
        (fetch_kdc_window parse_json iso bank_action services.list_kdc cap)

  -- Without a token the Bank counts as a source that did not answer.
  abbrev pub from_bank : Gathered (NormalizedEvent J)
  from_bank =
      if wants selection bank && token === ""
      then ([], ("bank", false) ∷ [])
      else part bank (wants selection bank)
          (fetch_bank_window parse_json iso bank_action (services.list_bank token) cap)

  abbrev pub from_all : Gathered (NormalizedEvent J)
  from_all = joined (joined from_ca from_kdc) from_bank

  ca_ends :
      (n : ℕ)
      → (r : Result services.Fault (List (NormalizedEvent J))) × (fetch_ca_window parse_json iso
            bank_action services.list_ca n
          ≡ some r)
  unfolding fetch_ca_window
  ca_ends n = let (r, e, _) = fetch_window-ends services.list_ca _ n in (r, e)

  collect_ca_lem :
      collect_ca parse_json iso bank_action services cap selection ([], []) ≡ some from_ca
  unfolding collect_ca
  collect_ca_lem =
      gather ca (wants selection ca)
        (fetch_ca_window parse_json iso bank_action services.list_ca cap) ([], []) (ca_ends cap)

  kdc_ends :
      (n : ℕ)
      → (r : Result services.Fault (List (NormalizedEvent J))) × (fetch_kdc_window parse_json iso
            bank_action services.list_kdc n
          ≡ some r)
  unfolding fetch_kdc_window
  kdc_ends n = let (r, e, _) = fetch_window-ends services.list_kdc _ n in (r, e)

  collect_kdc_lem :
      (g : Gathered (NormalizedEvent J))
      → collect_kdc parse_json iso bank_action services cap selection g ≡ some (joined g from_kdc)
  unfolding collect_kdc
  collect_kdc_lem g =
      gather kdc (wants selection kdc)
        (fetch_kdc_window parse_json iso bank_action services.list_kdc cap) g (kdc_ends cap)

  bank_ends :
      (n : ℕ)
      → (r : Result services.Fault (List (NormalizedEvent J))) × (fetch_bank_window parse_json iso
            bank_action
            (services.list_bank token)
            n
          ≡ some r)
  unfolding fetch_bank_window
  bank_ends n = let (r, e, _) = fetch_window-ends (services.list_bank token) _ n in (r, e)

  -- The cookie gives the token, or it is not read.
  abbrev pub Given : Result Exception String → Type 0
  Given cookie = (cookie ≡ ok token) ⊎ (wants selection bank ≡ false)

  collect_bank_lem :
      (cookie : Result Exception String) (g : Gathered (NormalizedEvent J))
      → Given cookie
      → collect_bank parse_json iso bank_action services cap selection cookie g
        ≡ some (ok (finish parse_json iso bank_action services cap selection (joined g from_bank)))
  collect_bank_lem cookie g given = elim (Bool-cases (wants selection bank)) [
    | inr e ↦ rw (e, append-nil, append-nil) refl
    | inl e ↦ elim given [
      | inr unread ↦ absurd (ground arith)
      | inl read ↦ elim (Bool-cases (token === "")) [
        | inl none_given ↦ rw (e, read, none_given, append-nil) refl
        | inr some_given ↦
            let pushed =
              gather bank true
                (fetch_bank_window parse_json iso bank_action (services.list_bank token) cap) g
                (bank_ends cap) in
            rw (e, read, some_given, pushed) refl
      ]
    ]
  ]

  collect_lem :
      (cookie : Result Exception String)
      → Given cookie
      → collect parse_json iso bank_action services cap selection cookie
        ≡ some (ok (finish parse_json iso bank_action services cap selection from_all))
  unfolding collect
  collect_lem cookie given =
      rw (collect_ca_lem, collect_kdc_lem, collect_bank_lem cookie (joined from_ca from_kdc) given)
        refl

  collect_unread :
      (e : Exception)
      → wants selection bank ≡ true
      → collect parse_json iso bank_action services cap selection (err e) ≡ some (err e)
  unfolding collect
  collect_unread e wanted = rw (collect_ca_lem, collect_kdc_lem, wanted) refl

  -- All that the sources gave, in the order of time.
  in_order : List (NormalizedEvent J)
  in_order = sort (by_key (λ e. e.ts)) from_all.0

  pub collect_earliest :
      (cookie : Result Exception String)
      → Given cookie
      → (c : Collection J) × (later : List (EnrichedEvent J)) × (collect parse_json iso bank_action
            services cap selection cookie
          ≡ some (ok c))
        × Perm (c.events ++ later) (map enrich from_all.0)
        × IsSorted time_of (c.events ++ later)
        × (length c.events ≤ cap)
        × (length c.events < cap → later ≡ [])
        × (c.sources ≡ from_all.1)
  unfolding in_order enrich
  collect_earliest cookie given =
      let c : Collection J = finish parse_json iso bank_action services cap selection from_all in
      let later : List (EnrichedEvent J) = map enrich (drop cap in_order) in
      let whole : c.events ++ later ≡ map enrich in_order =
        sym (map-append enrich (take cap in_order) (drop cap in_order))
        ∙ ap (map enrich) (take-append-drop cap in_order) in
      let size = length-map enrich (take cap in_order) in
      let most = length-take cap in_order in
      (
        c,
        later,
        collect_lem cookie given,
        rw whole (Perm.map enrich (sort-perm (by_key (λ e. e.ts)) from_all.0)),
        rw whole (map-IsSorted enrich in_order (λ e. refl) (sort-IsSorted (λ e. e.ts) from_all.0)),
        ground arith,
        (λ fewer. ap (map enrich) (drop-short cap in_order (ground arith))),
        refl,
      )

module _ {J : Type 0} (parse_json : String → Option J) (iso : ℕ → String) (bank_action : ℕ → String)
    (services : AuditServices) (cap : ℕ) (selection : Selection) where
  -- The collection always ends. It throws only what reading the Bank's cookie throws, and only where the
  -- Bank is wanted. Else it has, for the token in the cookie if the Bank is wanted, at most `cap` events,
  -- which are in the order of time and the earliest of all that the wanted sources answered with: the
  -- others, if any, are not earlier than any of them, and there are none where fewer than `cap` events
  -- are collected. A source that fails adds no event and is marked so.
  pub collect-Earliest :
      (cookie : Result Exception String)
      → ((e : Exception) × (cookie ≡ err e)
          × (wants selection bank ≡ true)
          × (collect parse_json iso bank_action services cap selection cookie ≡ some (err e)))
        ⊎ ((token : String) × Given parse_json iso bank_action services cap selection token cookie
            × ((c : Collection J) × (later : List (EnrichedEvent J)) × (collect parse_json iso
                    bank_action services cap selection cookie
                  ≡ some (ok c))
                × Perm (c.events ++ later) (
                    map enrich (from_all parse_json iso bank_action services cap selection token).0)
                × IsSorted time_of (c.events ++ later)
                × (length c.events ≤ cap)
                × (length c.events < cap → later ≡ [])
                × (c.sources
                    ≡ (from_all parse_json iso bank_action services cap selection token).1)))
  collect-Earliest (ok token) = inr (
    token,
    inl refl,
    collect_earliest parse_json iso bank_action services cap selection token (ok token) (inl refl),
  )
  collect-Earliest (err e) = elim (Bool-cases (wants selection bank)) [
    | inl wanted ↦ inl (
      e,
      refl,
      wanted,
      collect_unread parse_json iso bank_action services cap selection "" e wanted,
    )
    | inr other ↦ inr (
      "",
      inr other,
      collect_earliest parse_json iso bank_action services cap selection "" (err e) (inr other),
    )
  ]
