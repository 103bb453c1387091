-- ===== src/Accounts/Admin.antt =====
-- What administrators do to accounts: app/server/api/users/[id].delete.ts and [id].patch.ts. `caller`
-- is `event.context.auth`; `id` is none if the parameter of the route is not a positive integer.
use constrainable.Base.{
  ℕ, String, Bool, false, not, ◌&&◌, Option, some, none, List, filter, map, is_empty, is_some, leb,
  ◌==◌, str_eq, str_take, Result, ok, http_error, if◌then◌else◌,
}
use constrainable.Schema.{User, Role, InviteLink, is_admin}
use constrainable.Database.Users
use constrainable.Server.{
  Server, AuditLevel, AuditCategory, user_deleted, announcement_changed, node_assigned,
}
use constrainable.Registry.{get_node}
use constrainable.MediaNode.{emit_nodes_changed}
use constrainable.Invites.{Auth}
use constrainable.Membership.{set_user_role, set_user_groups}
use constrainable.Accounts.{Site, users_of, on_site, with_users, log_as}

-- requireAdmin
abbrev pub require_admin : Option Auth → Bool
require_admin none = false
require_admin (some a) = is_admin a.role

unfoldable pub announce_nodes : Site → Site
unfolding emit_nodes_changed
announce_nodes site = record site { hub = emit_nodes_changed site.hub }

abbrev pub email_of : ℕ → Server → Option String
unfolding Users.find_by_id
email_of i s = elim (Users.find_by_id i s.db.users.rows) [ none ↦ none | some u ↦ some u.email ]

-- The rows of memberships go with the account, and links lose their author.
unfoldable pub drop_user : ℕ → Server → Server
drop_user i s = record s {
  db = record s.db {
    users = Users.remove i s.db.users;
    user_groups = filter (λ m. not (m.user_id == i)) s.db.user_groups;
    invites = record s.db.invites {
      rows =
          map
            (λ (l : InviteLink).
              if elim l.created_by [ none ↦ false | some c ↦ c == i ]
              then record l { created_by = none }
              else l)
            s.db.invites.rows;
    };
  };
}

unfoldable pub remove_account : Auth → User → Site → Site
unfolding drop_user announce_nodes
remove_account caller target site = announce_nodes (
    on_site
      (λ s.
        log_as AuditLevel.warn AuditCategory.admin (user_deleted target.email)
          (email_of caller.user_id (drop_user target.id s)) (drop_user target.id s))
      (record site { latencies = filter (λ l. not (l.user_id == target.id)) site.latencies }))

unfoldable pub delete_user : Option Auth → Option ℕ → Site → Result {0} Unit × Site
unfolding remove_account
delete_user none id site = (http_error 403 "admin privileges required", site)
delete_user (some caller) none site =
    if is_admin caller.role
    then (http_error 400 "invalid user id", site)
    else (http_error 403 "admin privileges required", site)
delete_user (some caller) (some i) site =
    if not (is_admin caller.role)
    then (http_error 403 "admin privileges required", site)
    else if caller.user_id == i
    then (http_error 400 "you cannot delete your own account", site)
    else elim (Users.find_by_id i (users_of site)) [
      | none ↦ (http_error 404 "user not found", site)
      | some target ↦
          if is_admin target.role && leb (Users.count_by_role Role.admin (users_of site)) 1
          then (http_error 400 "cannot delete the last admin", site)
          else (ok tt, remove_account caller target site)
    ]

-- A field of the body that may be missing, a text, null, or something else.
pub data Field : Type 0 where
  absent null_value other_value : Field
  text : String → Field

pub record UserPatch : Type 0 where
  pub announcement : Field
  -- String(body.role), if it is neither missing nor null
  pub role : Option String
  -- the positive integers of an array
  pub group_ids : Option (List ℕ)
  -- missing, null, or String(body.nodeId)
  pub node_id : Option (Option String)

abbrev pub and_then :
    Result {0} Unit × Site → (Site → Result {0} Unit × Site) → Result {0} Unit × Site
and_then (ok a, site) f = f site
and_then (http_error code message, site) f = (http_error code message, site)

unfoldable pub write_announcement : Option Auth → ℕ → Option String → Site → Result {0} Unit × Site
write_announcement caller i value site = elim (Users.find_by_id i (users_of site)) [
  | none ↦ (http_error 404 "user not found", site)
  | some target ↦ (
    ok tt,
    on_site
        (λ s.
          log_as AuditLevel.info AuditCategory.admin
            (announcement_changed (elim value [ none ↦ false | some t ↦ not (is_empty t) ])
              target.email)
            (elim caller [ none ↦ none | some a ↦ email_of a.user_id s ])
            (with_users (Users.update_announcement i value) s))
        site,
  )
]

unfoldable pub patch_announcement : Option Auth → ℕ → Field → Site → Result {0} Unit × Site
unfolding write_announcement
patch_announcement caller i absent site = (ok tt, site)
patch_announcement caller i other_value site =
    (http_error 400 "announcement must be a string or null", site)
patch_announcement caller i null_value site = write_announcement caller i none site
patch_announcement caller i (text t) site =
    write_announcement caller i (some (str_take 4000 t)) site

unfoldable pub role_of : String → Option Role
role_of r =
    if str_eq r "admin" then some Role.admin else if str_eq r "user" then some Role.user else none

-- A service of groups.ts, on the site.
abbrev pub served : Result {0} Unit × Server → Site → Result {0} Unit × Site
served r site = (r.0, on_site (λ s. r.1) site)

unfoldable pub patch_role : ℕ → Option String → Site → Result {0} Unit × Site
unfolding role_of
patch_role i none site = (ok tt, site)
patch_role i (some r) site = elim (role_of r) [
  | none ↦ (http_error 400 "role must be admin or user", site)
  | some role ↦ served (set_user_role i role site.hub.server) site
]

unfoldable pub patch_groups : ℕ → Option (List ℕ) → Site → Result {0} Unit × Site
patch_groups i none site = (ok tt, site)
patch_groups i (some ids) site = served (set_user_groups i ids site.hub.server) site

-- A node that is registered, or null.
unfoldable pub patch_node : ℕ → Option (Option String) → Site → Result {0} Unit × Site
unfolding announce_nodes
patch_node i none site = (ok tt, site)
patch_node i (some node) site =
    if elim node [ none ↦ false | some n ↦ not (is_some (get_node n site.hub.registry)) ]
    then (http_error 400 "node is not currently registered", site)
    else elim (Users.find_by_id i (users_of site)) [
      | none ↦ (http_error 404 "user not found", site)
      | some u ↦ (
        ok tt,
        announce_nodes (
            on_site
              (λ s.
                log_as AuditLevel.info AuditCategory.admin (node_assigned u.email node) none
                  (with_users (Users.update_node i node) s))
              site),
      )
    ]

-- The fields in order; one that is refused stops the rest, and those before it have been written.
unfoldable pub patch_user : Option Auth → Option ℕ → UserPatch → Site → Result {0} Unit × Site
unfolding patch_announcement patch_role patch_groups patch_node
patch_user caller id body site =
    if not (require_admin caller)
    then (http_error 403 "admin privileges required", site)
    else elim id [
      | none ↦ (http_error 400 "invalid user id", site)
      | some i ↦ and_then (patch_announcement caller i body.announcement site) (λ s1.
          and_then (patch_role i body.role s1) (λ s2.
            and_then (patch_groups i body.group_ids s2) (λ s3. patch_node i body.node_id s3)))
    ]
