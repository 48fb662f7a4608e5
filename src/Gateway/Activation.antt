-- ===== src/Gateway/Activation.antt =====
-- mini-banking-app/api-gateway/src/services/admin-activation.service.ts, with the identities of
-- models/bank-admin.ts. Random values, the clock, SHA-256 and the JSON of an identity are arguments;
-- a MULTI is its commands in order.
pub mod Lifecycle
pub mod Provisions
use Prim.Native.String
use text.Mathlib.Text.{find?}
use mini_banking_app.Common.{
  ℕ, ◌+◌, ◌≡◌, String, Bool, true, false, not, ◌||◌, Option, none, some, ltb, leb, ◌==◌, ◌===◌,
  if◌then◌else◌,
}
use mini_banking_app.Common.Ascii.{to_lower_case, trim, split_at}
use mini_banking_app.Common.Exec.{Exec, pure, throw, ◌>>=◌, ◌>>◌}
use mini_banking_app.Gateway.Http.{Exception, coded}
use mini_banking_app.Gateway.Redis.{Redis}

-- The roles that an administrator can have.
pub data AdminRole : Type 0 where
  bank_admin ca_admin : AdminRole

pub data AdminStatus : Type 0 where
  pending_activation active : AdminStatus

pub record AdminIdentity : Type 0 where
  pub admin_id : String
  pub email : String
  pub full_name : String
  pub role : AdminRole
  pub status : AdminStatus
  pub activation_token_hash : String
  pub activation_expires_at : ℕ
  pub cert_serial : Option String
  pub created_at : ℕ
  pub activated_at : Option ℕ

-- `JSON.stringify` and `JSON.parse` on identities; `none` is a text that is refused.
pub record IdentityJson : Type 0 where
  pub stringify : AdminIdentity → String
  pub parse : String → Option AdminIdentity

-- What a provision draws: the token, the identifier and the time in seconds.
pub record Provision : Type 0 where
  pub token : String
  pub admin_id : String
  pub now : ℕ

abbrev pub default_activation_ttl_seconds : ℕ
default_activation_ttl_seconds = 900

-- `none` is a setting that is no integer.
unfoldable pub activation_ttl_seconds : Option ℕ → ℕ
activation_ttl_seconds none = default_activation_ttl_seconds
activation_ttl_seconds (some configured) =
    if ltb configured 60 || ltb 86400 configured then default_activation_ttl_seconds else configured

abbrev pub label_of : AdminRole → String
label_of ca_admin = "CA Admin"
label_of bank_admin = "Bank Admin"

abbrev pub identity_key : AdminRole → String → String
identity_key ca_admin admin_id = String.◌++◌ "admin:ca:identity:" admin_id
identity_key bank_admin admin_id = String.◌++◌ "admin:bank:identity:" admin_id

abbrev pub activation_key : AdminRole → String → String
activation_key ca_admin token_hash = String.◌++◌ "admin:ca:activation:" token_hash
activation_key bank_admin token_hash = String.◌++◌ "admin:bank:activation:" token_hash

abbrev pub is_active : AdminStatus → Bool
is_active active = true
is_active pending_activation = false

abbrev pub same_role : AdminRole → AdminRole → Bool
same_role bank_admin bank_admin = true
same_role ca_admin ca_admin = true
same_role _ _ = false

unfoldable pub has_at : String → Bool
has_at email = elim (split_at b'@' email) [ none ↦ false | some parts ↦ true ]

pub record Pending : Type 0 where
  pub identity : AdminIdentity
  pub activation_token : String
  pub expires_in : ℕ

unfoldable pub pending_identity :
    (String → String) → AdminRole → String → String → Provision → ℕ → AdminIdentity
pending_identity hash role email full_name drawn expires_in = record {
  admin_id = drawn.admin_id;
  email = email;
  full_name = full_name;
  role = role;
  status = pending_activation;
  activation_token_hash = hash drawn.token;
  activation_expires_at = drawn.now + expires_in;
  cert_serial = none;
  created_at = drawn.now;
  activated_at = none;
}

abbrev invalid : String → ℕ → Exception
invalid message status = coded status "ADMIN_ACTIVATION_INVALID" message

module _ (redis : Redis) (json : IdentityJson) (hash : String → String) where
  open redis use {State, get, set, set_ex, del}

  -- The MULTI of `createPendingAdmin`.
  unfoldable pub store_pending : AdminIdentity → ℕ → Exec State Exception (Unit {0})
  store_pending identity expires_in = do
    set (identity_key identity.role identity.admin_id) (json.stringify identity)
    set_ex (activation_key identity.role identity.activation_token_hash) identity.admin_id
        expires_in

  unfoldable pub create_pending_admin :
      Option ℕ → AdminRole → String → String → Provision → Exec State Exception Pending
  unfolding has_at store_pending pending_identity activation_ttl_seconds
  create_pending_admin configured role raw_email raw_name drawn =
      let email = to_lower_case (trim raw_email) in
      let full_name = trim raw_name in
      let expires_in = activation_ttl_seconds configured in
      let identity = pending_identity hash role email full_name drawn expires_in in
      if email === "" || not (has_at email)
      then throw (
          coded 400 "INVALID_ADMIN_EMAIL"
            (String.◌++◌ "A valid " (String.◌++◌ (label_of role) " email is required")))
      else if full_name === ""
      then throw
          (coded 400 "INVALID_ADMIN_NAME" (String.◌++◌ (label_of role) " full name is required"))
      else do
        store_pending identity expires_in
        pure (record {
          identity = identity;
          activation_token = drawn.token;
          expires_in = expires_in;
        })

  unfoldable pub discard_pending_admin : Pending → Exec State Exception (Unit {0})
  discard_pending_admin provision = do
    del (identity_key provision.identity.role provision.identity.admin_id)
    del (activation_key provision.identity.role (hash provision.activation_token))

  -- The checks on the identity that was read.
  unfoldable pub check_identity :
      AdminRole → ℕ → String → AdminIdentity → Exec State Exception AdminIdentity
  check_identity role now token_hash identity =
      if not (identity.activation_token_hash === token_hash)
      then throw (invalid "Activation token does not match the Admin identity" 401)
      else if is_active identity.status
      then throw
          (coded 409 "ADMIN_ALREADY_ACTIVE" (String.◌++◌ (label_of role) " is already active"))
      else if leb identity.activation_expires_at now
      then (do
        del (activation_key role token_hash)
        throw (coded 401 "ADMIN_ACTIVATION_EXPIRED" "Activation token has expired"))
      else if not (same_role identity.role role)
      then throw (invalid (String.◌++◌ "Pending identity is not a " (label_of role)) 403)
      else pure identity

  unfoldable pub decode_identity :
      AdminRole → ℕ → String → Option AdminIdentity → Exec State Exception AdminIdentity
  unfolding check_identity
  decode_identity role now token_hash none =
      throw (invalid "Pending Admin identity is corrupted" 401)
  decode_identity role now token_hash (some identity) = check_identity role now token_hash identity

  unfoldable pub missing_identity : AdminRole → String → Exec State Exception AdminIdentity
  missing_identity role token_hash = do
    del (activation_key role token_hash)
    throw (invalid "Pending Admin identity was not found" 401)

  unfoldable pub read_identity :
      AdminRole → ℕ → String → Option String → Exec State Exception AdminIdentity
  unfolding decode_identity missing_identity
  read_identity role now token_hash none = missing_identity role token_hash
  read_identity role now token_hash (some encoded) =
      if encoded === ""
      then missing_identity role token_hash
      else decode_identity role now token_hash (json.parse encoded)

  unfoldable pub find_identity :
      AdminRole → ℕ → String → Option String → Exec State Exception AdminIdentity
  unfolding read_identity
  find_identity role now token_hash none =
      throw (invalid "Activation token is invalid or expired" 401)
  find_identity role now token_hash (some admin_id) =
      if admin_id === ""
      then throw (invalid "Activation token is invalid or expired" 401)
      else do encoded ← get (identity_key role admin_id); read_identity role now token_hash encoded

  unfoldable pub get_pending_admin_by_token :
      String → AdminRole → ℕ → Exec State Exception AdminIdentity
  unfolding find_identity
  get_pending_admin_by_token raw_token role now = do
    admin_id ← get (activation_key role (hash raw_token))
    find_identity role now (hash raw_token) admin_id

  unfoldable pub mark_admin_activated :
      AdminIdentity → String → ℕ → Exec State Exception AdminIdentity
  mark_admin_activated identity cert_serial now =
      let done = record identity {
        status = active;
        cert_serial = some cert_serial;
        activated_at = some now;
      } in
      do
        set (identity_key done.role done.admin_id) (json.stringify done)
        del (activation_key done.role done.activation_token_hash)
        pure done
