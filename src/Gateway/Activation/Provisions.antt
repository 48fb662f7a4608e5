-- ===== src/Gateway/Activation/Provisions.antt =====
-- Provisions that are found, activated and discarded.
use mini_banking_app.Common.{
  ℕ, ◌+◌, ◌<◌, ◌≡◌, refl, inl, inr, String, true, false, Option, none, some, arith, ◌===◌, eq_refl,
  eq_iff, ap, sym, ◌∙◌,
}
use mini_banking_app.Common.Ascii.{to_lower_case, trim}
use mini_banking_app.Common.Exec.{returned, thrown, run-cases}
use mini_banking_app.Gateway.Http.{coded}
use mini_banking_app.Gateway.Redis.{Redis}
use mini_banking_app.Gateway.Activation.{
  AdminRole, active, AdminIdentity, IdentityJson, Provision, Pending, create_pending_admin,
  activation_ttl_seconds, identity_key, activation_key, same_role, store_pending, pending_identity,
  check_identity, decode_identity, read_identity, find_identity, get_pending_admin_by_token,
  mark_admin_activated, discard_pending_admin,
}
use mini_banking_app.Gateway.Activation.Lifecycle.{Activable, keys_ne, same_role_refl}

module _ (redis : Redis) (json : IdentityJson) (hash : String → String) where
  open redis use {State, lookup, left, get, set, set_ex, del, elapse}

  -- An identity that is printed is not empty and is read back.
  abbrev pub RoundTrips : AdminIdentity → Type 0
  RoundTrips i = (json.parse (json.stringify i) ≡ some i) × ((json.stringify i === "") ≡ false)

  -- Redis answers a read.
  abbrev pub Reads : Type 0
  Reads =
      (k : String) (s : State) → (v : Option String) × (s' : State) × (get k s ≡ (returned v, s'))

  reads_lem :
      (k : String) (s : State)
      → Reads
      → (s' : State) × (get k s ≡ (returned (lookup s k), s'))
        × ((j : String) → lookup s' j ≡ lookup s j)
  reads_lem k s up =
      let (v, s', e) = up k s in
      let found = redis.get_lem k s s' v e in
      (s', ground arith, λ j. let kept = redis.lookup-get k j s in ground arith)

  check_identity-returns :
      (role : AdminRole) (now : ℕ) (token_hash : String) (i : AdminIdentity) (s : State)
      → Activable redis json hash role now token_hash i
      → (check_identity redis json hash role now token_hash i s).0 ≡ returned i
  unfolding check_identity
  check_identity-returns role now token_hash i s good =
      let hashes = eq_iff i.activation_token_hash token_hash in
      let h1 = good.hash_matches in
      let h2 = good.is_pending in
      let h3 = good.in_time in
      let h4 : same_role i.role role ≡ true = rw good.right_role (same_role_refl role) in
      ground arith

  get_pending_admin_by_token-returns :
      (raw_token : String) (role : AdminRole) (now : ℕ) (i : AdminIdentity) (admin_id : String)
      (s : State)
      → Reads
      → lookup s (activation_key role (hash raw_token)) ≡ some admin_id
      → (admin_id === "") ≡ false
      → lookup s (identity_key role admin_id) ≡ some (json.stringify i)
      → RoundTrips i
      → Activable redis json hash role now (hash raw_token) i
      → (get_pending_admin_by_token redis json hash raw_token role now s).0 ≡ returned i
  unfolding get_pending_admin_by_token find_identity read_identity decode_identity
  get_pending_admin_by_token-returns raw_token role now i admin_id s up pointed named stored
        (parsed, full) good =
      let (s₁, e₁, kept₁) = reads_lem (activation_key role (hash raw_token)) s up in
      let (s₂, e₂, kept₂) = reads_lem (identity_key role admin_id) s₁ up in
      let kept = kept₁ (identity_key role admin_id) in
      let checked = check_identity-returns role now (hash raw_token) i s₂ good in ground arith

  store_pending-lookup :
      (i : AdminIdentity) (t : ℕ) (s s' : State)
      → store_pending redis json hash i t s ≡ (returned tt, s')
      → (lookup s' (activation_key i.role i.activation_token_hash) ≡ some i.admin_id)
        × (lookup s' (identity_key i.role i.admin_id) ≡ some (json.stringify i))
        × (left s' (activation_key i.role i.activation_token_hash) ≡ some t)
        × (left s' (identity_key i.role i.admin_id) ≡ none)
  unfolding store_pending
  store_pending-lookup i t s s' h =
      let id_key = identity_key i.role i.admin_id in
      let act_key = activation_key i.role i.activation_token_hash in
      elim (run-cases (set id_key (json.stringify i) s)) [
        | inl (u, s₁, e) ↦
            let e' : set_ex act_key i.admin_id t s₁ ≡ (returned tt, s') = ground arith in
            let a = redis.lookup-set id_key id_key (json.stringify i) s s₁ e in
            let b = redis.lookup-set_ex act_key id_key i.admin_id t s₁ s' e' in
            let c = redis.lookup-set_ex act_key act_key i.admin_id t s₁ s' e' in
            let d = redis.left-set id_key id_key (json.stringify i) s s₁ e in
            let d' = redis.left-set_ex act_key id_key i.admin_id t s₁ s' e' in
            let d'' = redis.left-set_ex act_key act_key i.admin_id t s₁ s' e' in
            let same₁ = eq_refl id_key in
            let same₂ = eq_refl act_key in
            let apart = keys_ne i.role i.role i.activation_token_hash i.admin_id in
            (ground arith, ground arith, ground arith, ground arith)
        | inr (x, s₁, e) ↦ absurd (ground arith)
      ]

  -- An administrator that is provisioned can be found by the token that was handed out for as many
  -- seconds as the activation is valid, as long as Redis answers and nothing else is written in between;
  -- what is found is the identity that was provisioned. Its identifier is not empty and its JSON is read
  -- back.
  pub create_pending_admin-get :
      (configured : Option ℕ) (role : AdminRole) (email name : String) (drawn : Provision)
      (p : Pending) (n : ℕ) (s s' : State)
      → Reads
      → (drawn.admin_id === "") ≡ false
      → RoundTrips p.identity
      → create_pending_admin redis json hash configured role email name drawn s ≡ (returned p, s')
      → n < activation_ttl_seconds configured
      → (get_pending_admin_by_token redis json hash p.activation_token role
          (drawn.now + n)
          (elapse n s')).0
        ≡ returned p.identity
  unfolding create_pending_admin store_pending get_pending_admin_by_token find_identity
      read_identity decode_identity check_identity pending_identity
  create_pending_admin-get configured role email name drawn p n s s' up named (parsed, full) h
        early =
      let ttl = activation_ttl_seconds configured in
      let i = pending_identity hash role (to_lower_case (trim email)) (trim name) drawn ttl in
      let act_key = activation_key role (hash drawn.token) in
      let id_key = identity_key role drawn.admin_id in
      elim (run-cases (store_pending redis json hash i ttl s)) [
        | inl (u, t, e) ↦
            let same_p : p.identity ≡ i = ground arith in
            let same_t : p.activation_token ≡ drawn.token = ground arith in
            let same_s : t ≡ s' = ground arith in
            let (pointed, stored, act_left, id_left) = store_pending-lookup i ttl s t e in
            let kept = redis.lookup-elapse_kept n act_key t (rw act_left early) in
            let kept' = redis.lookup-elapse_kept n id_key t (rw id_left tt) in
            let found =
              get_pending_admin_by_token-returns drawn.token role (drawn.now + n) i drawn.admin_id
                (elapse n t) up (kept ∙ pointed) named (kept' ∙ stored) (ground arith, ground arith)
                (record {
                  hash_matches = refl;
                  is_pending = refl;
                  in_time = omega arith;
                  right_role = refl;
                }) in
            ground arith
        | inr (x, t, e) ↦ absurd (ground arith)
      ]

  -- A token is good once: as soon as its administrator is activated, and for however long after, it
  -- is refused as invalid, as long as Redis answers.
  pub mark_admin_activated-get :
      (identity done : AdminIdentity) (serial raw_token : String) (now now' n : ℕ) (s s' : State)
      → Reads
      → identity.activation_token_hash ≡ hash raw_token
      → mark_admin_activated redis json hash identity serial now s ≡ (returned done, s')
      → (get_pending_admin_by_token redis json hash raw_token identity.role now' (elapse n s')).0
        ≡ thrown (coded 401 "ADMIN_ACTIVATION_INVALID" "Activation token is invalid or expired")
  unfolding mark_admin_activated get_pending_admin_by_token find_identity
  mark_admin_activated-get identity done serial raw_token now now' n s s' up token h =
      let act_key = activation_key identity.role identity.activation_token_hash in
      let key_same : activation_key identity.role (hash raw_token) ≡ act_key =
        ap (activation_key identity.role) (sym token) in
      let done_identity = record identity {
        status = active;
        cert_serial = some serial;
        activated_at = some now;
      } in
      elim (run-cases
        (set (identity_key identity.role identity.admin_id) (json.stringify done_identity) s)) [
          | inl (u, t, e) ↦ elim (run-cases (del act_key t)) [
            | inl (u', t', e') ↦
                let same_s : t' ≡ s' = ground arith in
                let gone = redis.lookup-del act_key act_key t t' e' in
                let same = eq_refl act_key in
                let later = redis.lookup-elapse n act_key s' in
                let (s₁, e₁, kept₁) = reads_lem act_key (elapse n s') up in
                let none_there : lookup (elapse n s') act_key ≡ none = ground arith in ground arith
            | inr (x, t', e') ↦ absurd (ground arith)
          ]
          | inr (x, t, e) ↦ absurd (ground arith)
        ]

  -- A provision that is discarded cannot be activated: its token is refused as invalid, then and for
  -- however long after, as long as Redis answers.
  pub discard_pending_admin-get :
      (p : Pending) (now n : ℕ) (s s' : State)
      → Reads
      → discard_pending_admin redis json hash p s ≡ (returned tt, s')
      → (get_pending_admin_by_token redis json hash p.activation_token p.identity.role now
          (elapse n s')).0
        ≡ thrown (coded 401 "ADMIN_ACTIVATION_INVALID" "Activation token is invalid or expired")
  unfolding discard_pending_admin get_pending_admin_by_token find_identity
  discard_pending_admin-get p now n s s' up h =
      let act_key = activation_key p.identity.role (hash p.activation_token) in
      elim (run-cases (del (identity_key p.identity.role p.identity.admin_id) s)) [
        | inr (x, t, e) ↦ absurd (ground arith)
        | inl (u, t, e) ↦
            let e' : del act_key t ≡ (returned tt, s') = ground arith in
            let gone = redis.lookup-del act_key act_key t s' e' in
            let same = eq_refl act_key in
            let later = redis.lookup-elapse n act_key s' in
            let (s₁, e₁, kept₁) = reads_lem act_key (elapse n s') up in
            let none_there : lookup (elapse n s') act_key ≡ none = ground arith in ground arith
      ]
