-- ===== src/Gateway/Audit/Fetch/Paging.antt =====
-- The loop over the pages ends, and gives the first events of the log.
use mini_banking_app.Common.{
  ℕ, zero, suc, ◌+◌, ◌≤◌, ◌<◌, ◌≡◌, refl, inl, inr, some, arith, List, [], ◌++◌, map, ltb, length,
  take, drop, length-append, length-map, length-take, length-drop, map-take, take-add, take-take,
  take-all, map-append, Bool-cases,
}
use mini_banking_app.Common.Result.{Result, ok, err, Result-cases}
use mini_banking_app.Gateway.Audit.Fetch.{page, pages, fetch_window}

-- A service that answers a limit and an offset with that part of its log.
module _ {E V : Type 0} where
  abbrev pub Serves : (ℕ → ℕ → Result E (List V)) → List V → Type 0
  Serves list log = (limit offset : ℕ) → list limit offset ≡ ok (take limit (drop offset log))

module _ {E V N : Type 0} (list : ℕ → ℕ → Result E (List V)) (normalize : V → N) (cap : ℕ) where
  pages-ends :
      (fuel offset : ℕ) (out : List N)
      → 0 < fuel
      → cap < fuel + length out
      → (r : Result E (List N)) × (pages list normalize cap fuel offset out ≡ some r)
  pages-ends zero offset out pos h = absurd (omega arith)
  pages-ends (suc fuel) offset out pos h = elim (Bool-cases (ltb (length out) cap)) [
    | inr full ↦ (ok (take cap out), rw full refl)
    | inl space ↦ elim (Result-cases (list page offset)) [
      | inr (e, failed) ↦ (err e, ground arith)
      | inl (events, answered) ↦
          let out' = out ++ map normalize events in
          elim (Bool-cases (ltb (length events) page)) [
            | inl last ↦ (ok (take cap out'), ground arith)
            | inr more ↦
                let size₁ = length-append out (map normalize events) in
                let size₂ = length-map normalize events in
                let (r, e) = pages-ends fuel (offset + page) out' (ground arith) (ground arith) in
                (r, ground arith)
          ]
    ]
  ]

  pages-length :
      (fuel offset : ℕ) (out events : List N)
      → pages list normalize cap fuel offset out ≡ some (ok events)
      → length events ≤ cap
  pages-length zero offset out events h = absurd (ground arith)
  pages-length (suc fuel) offset out events h = elim (Bool-cases (ltb (length out) cap)) [
    | inr full ↦ let size = length-take cap out in ground arith
    | inl space ↦ elim (Result-cases (list page offset)) [
      | inr (e, failed) ↦ absurd (ground arith)
      | inl (some_events, answered) ↦
          let out' = out ++ map normalize some_events in
          elim (Bool-cases (ltb (length some_events) page)) [
            | inl last ↦ let size = length-take cap out' in ground arith
            | inr more ↦ pages-length fuel (offset + page) out' events (ground arith)
          ]
    ]
  ]

  -- Whatever the service answers, the fetch ends, and what it gives is no longer than the cap.
  pub fetch_window-ends :
      (r : Result E (List N)) × (fetch_window list normalize cap ≡ some r)
      × ((events : List N) → r ≡ ok events → length events ≤ cap)
  unfolding fetch_window
  fetch_window-ends =
      let (r, e) = pages-ends (suc cap) 0 [] (omega arith) (omega arith) in
      (r, e, λ events given. pages-length (suc cap) 0 [] events (ground arith))

  module _ (log : List V) (serves : Serves list log) where
    joined :
        (offset : ℕ) (out : List N)
        → out ≡ map normalize (take offset log)
        → out ++ map normalize (take page (drop offset log))
          ≡ map normalize (take (offset + page) log)
    joined offset out h = rw (h, take-add offset page log, map-append) refl

    pages_lem :
        (fuel offset : ℕ) (out : List N) (r : Result E (List N))
        → out ≡ map normalize (take offset log)
        → pages list normalize cap fuel offset out ≡ some r
        → r ≡ ok (take cap (map normalize log))
    pages_lem zero offset out r h run = absurd (ground arith)
    pages_lem (suc fuel) offset out r h run = elim (Bool-cases (ltb (length out) cap)) [
      | inr full ↦
          let same = map-take normalize offset log in
          let size = length-take offset (map normalize log) in
          let kept : cap ≤ offset = ground arith in
          let cut = take-take cap offset (map normalize log) kept in ground arith
      | inl space ↦
          let answered = serves page offset in
          let events = take page (drop offset log) in
          elim (Bool-cases (ltb (length events) page)) [
            | inl last ↦
                let size₁ = length-take page (drop offset log) in
                let size₂ = length-drop offset log in
                let whole = take-all (offset + page) log (ground arith) in
                let joined' = joined offset out h in ground arith
            | inr more ↦
                pages_lem fuel (offset + page) (out ++ map normalize events) r (joined offset out h)
                  (ground arith)
          ]
    ]

    -- Where a service serves a log, the fetch gives the first events of it, as many as the cap, in
    -- their order.
    pub fetch_window_lem :
        fetch_window list normalize cap ≡ some (ok (take cap (map normalize log)))
    unfolding fetch_window
    fetch_window_lem =
        let (r, e, bounded) = fetch_window-ends in
        let right = pages_lem (suc cap) 0 [] r refl e in ground arith
