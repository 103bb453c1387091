-- ===== src/Database/Users.antt =====
-- app/server/repositories/users.repository.ts
use constrainable.Base.{
  ℕ, String, Bool, not, Option, some, List, find?, filter, length, ltb, ◌==◌, ◌||◌, ◌&&◌, str_eq,
  Table, updated, deleted, inserted, sort_by,
}
use constrainable.Schema.{User, Role, is_admin}

unfoldable pub find_by_id : ℕ → List User → Option User
find_by_id i us = find? (λ u. u.id == i) us

unfoldable pub find_by_email : String → List User → Option User
find_by_email email us = find? (λ u. str_eq u.email email) us

-- orderBy(desc(createdAt), desc(id))
abbrev pub newer : User → User → Bool
newer a b = ltb b.created_at a.created_at || ((a.created_at == b.created_at) && ltb b.id a.id)

unfoldable pub find_all : List User → List User
find_all us = sort_by newer us

-- isEmpty
unfoldable pub is_empty : List User → Bool
is_empty us = length us == 0

unfoldable pub insert : (ℕ → User) → Table User → Table User
insert mk t = inserted mk t

unfoldable pub remove : ℕ → Table User → Table User
remove i t = deleted (λ u. u.id == i) t

abbrev pub has_role : Role → User → Bool
has_role Role.admin u = is_admin u.role
has_role Role.user u = not (is_admin u.role)

unfoldable pub count_by_role : Role → List User → ℕ
count_by_role role us = length (filter (has_role role) us)

unfoldable pub update_role : ℕ → Role → Table User → Table User
update_role i role t = updated (λ u. u.id == i) (λ u. record u { role = role }) t

unfoldable pub update_node : ℕ → Option String → Table User → Table User
update_node i node t = updated (λ u. u.id == i) (λ u. record u { node_id = node }) t

unfoldable pub update_dashboard_notice : ℕ → Option String → Table User → Table User
update_dashboard_notice i notice t =
    updated (λ u. u.id == i) (λ u. record u { dashboard_notice = notice }) t

unfoldable pub update_announcement : ℕ → Option String → Table User → Table User
update_announcement i text t = updated (λ u. u.id == i) (λ u. record u { announcement = text }) t

unfoldable pub update_password : ℕ → String → Table User → Table User
update_password i hash t = updated (λ u. u.id == i) (λ u. record u { password_hash = hash }) t

unfoldable pub set_authmod : ℕ → (salt : String) → (verifier : String) → Table User → Table User
set_authmod i salt verifier t =
    updated (λ u. u.id == i)
      (λ u. record u { authmod_salt = some salt; authmod_verifier = some verifier }) t
