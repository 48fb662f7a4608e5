-- ===== src/Tests/ActivationRuns.antt =====
-- The activation of an administrator, on a Redis that holds a list of entries. Identities are printed
-- as their identifiers, which only one of them is read back from.
use mini_banking_app.Common.{◌≡◌, refl, String, none, some, [], arith, ◌===◌, if◌then◌else◌}
use mini_banking_app.Common.Ascii.{to_lower_case, trim, split_at}
use mini_banking_app.Common.Exec.{returned, thrown}
use mini_banking_app.Gateway.Http.{coded}
use mini_banking_app.Gateway.Mock.{Entries, mock_redis}
use mini_banking_app.Gateway.Activation.{
  bank_admin, AdminIdentity, IdentityJson, Provision, Pending, create_pending_admin,
  pending_identity, get_pending_admin_by_token, mark_admin_activated, discard_pending_admin,
  activation_ttl_seconds, store_pending, find_identity, read_identity, decode_identity,
  check_identity, has_at, active,
}
use mini_banking_app.Gateway.Activation.Lifecycle.{
  Activable, Found, get_pending_admin_by_token-Activable,
}
use mini_banking_app.Gateway.Activation.Provisions.{
  create_pending_admin-get, mark_admin_activated-get, discard_pending_admin-get,
}

abbrev hash : String → String
hash token = token

abbrev drawn : Provision
drawn = record { token = "t0k3n"; admin_id = "id-1"; now = 1000 }

abbrev identity : AdminIdentity
identity = pending_identity hash bank_admin "a@b.vn" "An" drawn 900

abbrev json : IdentityJson
json = record {
  stringify = λ i. i.admin_id;
  parse = λ text. if text === "id-1" then some identity else none;
}

abbrev provision : Pending
provision = record { identity = identity; activation_token = "t0k3n"; expires_in = 900 }

abbrev created : Entries
created = (create_pending_admin mock_redis json hash none bank_admin " A@b.vn" "An " drawn []).1

abbrev activated : Entries
activated = (mark_admin_activated mock_redis json hash identity "0A" 1500 created).1

abbrev done : AdminIdentity
done = record identity { status = active; cert_serial = some "0A"; activated_at = some 1500 }

created_run :
    create_pending_admin mock_redis json hash none bank_admin " A@b.vn" "An " drawn []
    ≡ (returned provision, created)
unfolding create_pending_admin store_pending pending_identity activation_ttl_seconds has_at
    to_lower_case trim split_at
created_run = refl

found_run :
    get_pending_admin_by_token mock_redis json hash "t0k3n" bank_admin 1200 created
    ≡ (returned identity, created)
unfolding get_pending_admin_by_token find_identity read_identity decode_identity check_identity
    create_pending_admin store_pending pending_identity activation_ttl_seconds has_at to_lower_case
    trim split_at
found_run = refl

activated_run :
    mark_admin_activated mock_redis json hash identity "0A" 1500 created
    ≡ (returned done, activated)
unfolding mark_admin_activated
activated_run = refl

get_pending_admin_by_token-Activable_example :
    Found mock_redis json hash bank_admin "t0k3n" identity created
    × Activable mock_redis json hash bank_admin 1200 "t0k3n" identity
get_pending_admin_by_token-Activable_example =
    get_pending_admin_by_token-Activable mock_redis json hash "t0k3n" bank_admin 1200 identity
      created created found_run

create_pending_admin-get_example :
    (get_pending_admin_by_token mock_redis json hash "t0k3n" bank_admin 1899 created).0
    ≡ returned identity
unfolding activation_ttl_seconds pending_identity
create_pending_admin-get_example =
    create_pending_admin-get mock_redis json hash none bank_admin " A@b.vn" "An " drawn provision
      899 [] created (λ k s. (_, _, refl)) refl (refl, refl) created_run (omega arith)

mark_admin_activated-get_example :
    (get_pending_admin_by_token mock_redis json hash "t0k3n" bank_admin 1600 activated).0
    ≡ thrown (coded 401 "ADMIN_ACTIVATION_INVALID" "Activation token is invalid or expired")
unfolding pending_identity
mark_admin_activated-get_example =
    mark_admin_activated-get mock_redis json hash identity done "0A" "t0k3n" 1500 1600 0 created
      activated (λ k s. (_, _, refl)) refl activated_run

abbrev discarded : Entries
discarded = (discard_pending_admin mock_redis json hash provision created).1

discarded_run :
    discard_pending_admin mock_redis json hash provision created ≡ (returned tt, discarded)
unfolding discard_pending_admin
discarded_run = refl

discard_pending_admin-get_example :
    (get_pending_admin_by_token mock_redis json hash "t0k3n" bank_admin 1200 discarded).0
    ≡ thrown (coded 401 "ADMIN_ACTIVATION_INVALID" "Activation token is invalid or expired")
unfolding pending_identity
discard_pending_admin-get_example =
    discard_pending_admin-get mock_redis json hash provision 1200 0 created discarded
      (λ k s. (_, _, refl)) discarded_run
