-- ===== src/Gateway/Activation/Lifecycle.antt =====
-- What makes an activation token good.
use mini_banking_app.Common.{
  ℕ, ◌≤◌, ◌<◌, ◌≡◌, refl, inl, inr, String, true, false, Option, none, some, arith, ◌===◌, eq_iff,
  Bool-cases, ap, sym, ◌∙◌,
}
use mini_banking_app.Common.Ascii.{prefix_ne}
use mini_banking_app.Common.Exec.{returned, run-cases}
use mini_banking_app.Gateway.Redis.{Redis}
use mini_banking_app.Gateway.Activation.{
  AdminRole, bank_admin, ca_admin, AdminStatus, pending_activation, active, AdminIdentity,
  IdentityJson, missing_identity, activation_ttl_seconds, identity_key, activation_key, is_active,
  same_role, check_identity, decode_identity, read_identity, find_identity,
  get_pending_admin_by_token,
}

-- Whatever the setting says, an activation stays open for a minute at least and a day at most.
pub activation_ttl_seconds-between :
    (configured : Option ℕ)
    → (60 ≤ activation_ttl_seconds configured) × (activation_ttl_seconds configured ≤ 86400)
unfolding activation_ttl_seconds
activation_ttl_seconds-between none = (omega arith, omega arith)
activation_ttl_seconds-between (some n) = ground arith

-- The identity key and the activation key are never the same.
pub keys_ne :
    (role role' : AdminRole) (a b : String)
    → (activation_key role a === identity_key role' b) ≡ false
keys_ne bank_admin bank_admin a b =
    prefix_ne "admin:bank:activation:" "admin:bank:identity:" a b (ground arith)
keys_ne bank_admin ca_admin a b =
    prefix_ne "admin:bank:activation:" "admin:ca:identity:" a b (ground arith)
keys_ne ca_admin bank_admin a b =
    prefix_ne "admin:ca:activation:" "admin:bank:identity:" a b (ground arith)
keys_ne ca_admin ca_admin a b =
    prefix_ne "admin:ca:activation:" "admin:ca:identity:" a b (ground arith)

pub same_role_refl : (role : AdminRole) → same_role role role ≡ true
same_role_refl bank_admin = refl
same_role_refl ca_admin = refl

eq_of_same_role : (r s : AdminRole) → same_role r s ≡ true → r ≡ s
eq_of_same_role bank_admin bank_admin h = refl
eq_of_same_role ca_admin ca_admin h = refl
eq_of_same_role bank_admin ca_admin h = absurd (ground arith)
eq_of_same_role ca_admin bank_admin h = absurd (ground arith)

pending_of_not_active : (s : AdminStatus) → is_active s ≡ false → s ≡ pending_activation
pending_of_not_active pending_activation h = refl
pending_of_not_active active h = absurd (ground arith)

module _ (redis : Redis) (json : IdentityJson) (hash : String → String) where
  open redis use {State, lookup, get, set, set_ex, del, elapse}

  -- What makes an identity good for a token.
  pub record Activable (role : AdminRole) (now : ℕ) (token_hash : String) (identity : AdminIdentity)
      : Type 0 where
    pub hash_matches : identity.activation_token_hash ≡ token_hash
    pub is_pending : identity.status ≡ pending_activation
    pub in_time : now < identity.activation_expires_at
    pub right_role : identity.role ≡ role

  check_identity-Activable :
      (role : AdminRole) (now : ℕ) (token_hash : String) (identity i : AdminIdentity) (s s' : State)
      → check_identity redis json hash role now token_hash identity s ≡ (returned i, s')
      → (i ≡ identity) × (s' ≡ s) × Activable role now token_hash i
  unfolding check_identity
  check_identity-Activable role now token_hash identity i s s' h =
      let hashes = eq_iff identity.activation_token_hash token_hash in
      let roles = eq_of_same_role identity.role role in
      let waits = pending_of_not_active identity.status in
      elim (run-cases (del (activation_key role token_hash) s)) [
        | inl (u, t, e) ↦ (
          ground arith,
          ground arith,
          record {
            hash_matches = ground arith;
            is_pending = ground arith;
            in_time = ground arith;
            right_role = ground arith;
          },
        )
        | inr (x, t, e) ↦ (
          ground arith,
          ground arith,
          record {
            hash_matches = ground arith;
            is_pending = ground arith;
            in_time = ground arith;
            right_role = ground arith;
          },
        )
      ]

  -- What a token led to in the store.
  pub record Found (role : AdminRole) (token_hash : String) (i : AdminIdentity) (s : State)
      : Type 0 where
    pub admin_id : String
    pub encoded : String
    pub pointed : lookup s (activation_key role token_hash) ≡ some admin_id
    pub stored : lookup s (identity_key role admin_id) ≡ some encoded
    pub decoded : json.parse encoded ≡ some i

  decode_identity-Activable :
      (role : AdminRole) (now : ℕ) (token_hash : String) (o : Option AdminIdentity)
      (i : AdminIdentity) (s s' : State)
      → decode_identity redis json hash role now token_hash o s ≡ (returned i, s')
      → (o ≡ some i) × Activable role now token_hash i
  unfolding decode_identity
  decode_identity-Activable role now token_hash none i s s' h = absurd (ground arith)
  decode_identity-Activable role now token_hash (some identity) i s s' h =
      let (same, kept, good) = check_identity-Activable role now token_hash identity i s s' h in
      (ap some (sym same), good)

  read_identity-Activable :
      (role : AdminRole) (now : ℕ) (token_hash : String) (o : Option String) (i : AdminIdentity)
      (s s' : State)
      → read_identity redis json hash role now token_hash o s ≡ (returned i, s')
      → (encoded : String) × (o ≡ some encoded)
        × (json.parse encoded ≡ some i)
        × Activable role now token_hash i
  unfolding read_identity missing_identity
  read_identity-Activable role now token_hash none i s s' h =
      elim (run-cases (del (activation_key role token_hash) s)) [
        | inl (u, t, e) ↦ absurd (ground arith)
        | inr (x, t, e) ↦ absurd (ground arith)
      ]
  read_identity-Activable role now token_hash (some encoded) i s s' h =
      elim (Bool-cases (encoded === "")) [
        | inl empty ↦ elim (run-cases (del (activation_key role token_hash) s)) [
          | inl (u, t, e) ↦ absurd (ground arith)
          | inr (x, t, e) ↦ absurd (ground arith)
        ]
        | inr full ↦
            let (parsed, good) =
              decode_identity-Activable role now token_hash (json.parse encoded) i s s'
                (rw full at h) in
            (encoded, refl, parsed, good)
      ]

  find_identity-Activable :
      (role : AdminRole) (now : ℕ) (token_hash : String) (o : Option String) (i : AdminIdentity)
      (s s' : State)
      → find_identity redis json hash role now token_hash o s ≡ (returned i, s')
      → (admin_id encoded : String) × (o ≡ some admin_id)
        × (lookup s (identity_key role admin_id) ≡ some encoded)
        × (json.parse encoded ≡ some i)
        × Activable role now token_hash i
  unfolding find_identity
  find_identity-Activable role now token_hash none i s s' h = absurd (ground arith)
  find_identity-Activable role now token_hash (some admin_id) i s s' h =
      elim (Bool-cases (admin_id === "")) [
        | inl empty ↦ absurd (ground arith)
        | inr full ↦ elim (run-cases (get (identity_key role admin_id) s)) [
          | inl (v, t, e) ↦
              let (encoded, there, parsed, good) =
                read_identity-Activable role now token_hash v i t s' (ground arith) in
              (
                admin_id,
                encoded,
                refl,
                sym (redis.get_lem (identity_key role admin_id) s t v e) ∙ there,
                parsed,
                good,
              )
          | inr (x, t, e) ↦ absurd (ground arith)
        ]
      ]

  -- A token that is accepted for a role leads, through the store, to an identity of that role that is
  -- still pending, whose activation has not expired, and that holds the hash of this very token.
  pub get_pending_admin_by_token-Activable :
      (raw_token : String) (role : AdminRole) (now : ℕ) (i : AdminIdentity) (s s' : State)
      → get_pending_admin_by_token redis json hash raw_token role now s ≡ (returned i, s')
      → Found role (hash raw_token) i s × Activable role now (hash raw_token) i
  unfolding get_pending_admin_by_token
  get_pending_admin_by_token-Activable raw_token role now i s s' h =
      let key = activation_key role (hash raw_token) in
      elim (run-cases (get key s)) [
        | inl (v, t, e) ↦
            let (admin_id, encoded, pointed, stored, parsed, good) =
              find_identity-Activable role now (hash raw_token) v i t s' (ground arith) in
            let kept : lookup t (identity_key role admin_id)
                ≡ lookup s (identity_key role admin_id) =
              rw e at (redis.lookup-get key (identity_key role admin_id) s) in
            (
              record {
                admin_id = admin_id;
                encoded = encoded;
                pointed = sym (redis.get_lem key s t v e) ∙ pointed;
                stored = sym kept ∙ stored;
                decoded = parsed;
              },
              good,
            )
        | inr (x, t, e) ↦ absurd (ground arith)
      ]
