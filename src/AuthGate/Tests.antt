-- ===== src/AuthGate/Tests.antt =====
-- Requests at the gate, and the theorems of this part at one.
use constrainable.Base.{
  ℕ, ◌≡◌, ◌≢◌, refl, String, true, Option, some, none, [], ◌∷◌, str_eq, split_first, ok,
  if◌then◌else◌,
}
use constrainable.Schema.{User, Role, is_admin}
use constrainable.Database.Users
use constrainable.Server.{Server}
use constrainable.Invites.{Auth}
use constrainable.Membership.{find_user, set_user_role}
use constrainable.AuthGate.{
  Claims, read_session_cookie, gate, passed, unauthorized, to_login, require_admin,
}
use constrainable.AuthGate.Admission.{require_admin-gate, demoted-require_admin}
use constrainable.Samples.{server}

abbrev root : User
root = record {
  id = 1;
  email = "root@x.org";
  password_hash = "01:02";
  role = Role.admin;
  node_id = none;
  authmod_salt = none;
  authmod_verifier = none;
  dashboard_notice = none;
  announcement = none;
  created_at = 0;
}

abbrev ann : User
ann = record root { id = 2; email = "ann@x.org" }

abbrev jwt_verify : String → Option Claims
jwt_verify token =
    if str_eq token "t1"
    then some (record { uid = some 1; role = some Role.admin; exp = some 9 })
    else if str_eq token "t2"
    then some (record { uid = some 2; role = some Role.admin; exp = some 9 })
    else none

abbrev root_auth : Auth
root_auth = record { user_id = 1; role = Role.admin }

abbrev served : Server
served = record server {
  db = record server.db { users = record { rows = root ∷ ann ∷ []; next_id = 3 } };
}

stranger : (gate jwt_verify none "/api/users?x=1" (root ∷ [])).1 ≡ unauthorized
unfolding gate split_first
stranger = refl

public_page : (gate jwt_verify none "/e/contest" (root ∷ [])).1 ≡ passed
unfolding gate split_first
public_page = refl

page : (gate jwt_verify none "/dashboard" (root ∷ [])).1 ≡ to_login "/dashboard"
unfolding gate split_first
page = refl

allowed : require_admin (gate jwt_verify (some "t1") "/api/users" (root ∷ [])).0 ≡ ok root_auth
unfolding gate require_admin Users.find_by_id
allowed = refl

require_admin-gate_example :
    (token : String) × (◌≡◌ {A = Option String} (some "t1") (some token))
    × ((uid : ℕ) × (read_session_cookie jwt_verify token ≡ some uid)
        × ((u : User) × (Users.find_by_id uid (root ∷ []) ≡ some u)
            × (u.id ≡ root_auth.user_id)
            × (is_admin u.role ≡ true)))
require_admin-gate_example =
    require_admin-gate jwt_verify (some "t1") (root ∷ []) "/api/users" {a = root_auth} allowed

ann_there : find_user 2 served ≡ some ann
unfolding find_user
ann_there = refl

still :
    require_admin
      (gate jwt_verify
        (some "t1")
        "/api/users"
        (set_user_role 2 Role.user served).1.db.users.rows).0
    ≡ ok root_auth
unfolding gate require_admin Users.find_by_id set_user_role
still = refl

demoted-require_admin_example : root_auth.user_id ≢ 2
demoted-require_admin_example =
    demoted-require_admin jwt_verify (some "t1") "/api/users" 2 served {u = ann} {a = root_auth}
      ann_there refl still
