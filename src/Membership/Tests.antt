-- ===== src/Membership/Tests.antt =====
-- The groups of a user set.
use constrainable.Database.Groups
use constrainable.Base.{write_error, refl, ◌≡◌, none, [], ◌∷◌}
use constrainable.Schema.{User, Role}
use constrainable.Server.{Server}
use constrainable.Membership.{set_user_groups}
use constrainable.Samples.{server}

abbrev bob : User
bob = record {
  id = 20;
  email = "bob@x.org";
  password_hash = "00:00";
  role = Role.user;
  node_id = none;
  authmod_salt = none;
  authmod_verifier = none;
  dashboard_notice = none;
  announcement = none;
  created_at = 0;
}

abbrev with_bob : Server
with_bob = record server {
  db = record server.db {
    users = record { rows = bob ∷ []; next_id = 21 };
    user_groups =
        record { user_id = 20; group_id = 3 } ∷ record { user_id = 21; group_id = 3 } ∷ [];
  };
}

-- Groups that are not there: the user loses the groups of before, and the call is answered with 500.
emptied :
    ((set_user_groups 20 (5 ∷ 6 ∷ []) with_bob).0 ≡ write_error)
    × ((set_user_groups 20 (5 ∷ 6 ∷ []) with_bob).1.db.user_groups
        ≡ record { user_id = 21; group_id = 3 } ∷ [])
unfolding set_user_groups Groups.are_groups
emptied = (refl, refl)
