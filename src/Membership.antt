-- ===== src/Membership.antt =====
-- app/server/services/groups.ts: groups and who belongs to them. A view of a group is its row and the
-- number of its members. An error throws before anything is written.
pub mod Sets
pub mod Roles
mod Tests
use constrainable.Base.{
  ℕ, String, Bool, not, ◌&&◌, Option, some, none, List, find?, filter, is_some, is_empty, or_else,
  trim, str_eq, ◌==◌, Table, updated, Result, ok, http_error, if◌then◌else◌, write_error,
}
use constrainable.Schema.{Group, User, Role, is_admin, timestamp}
use constrainable.Database.Groups
use constrainable.Server.{
  Server, Message, AuditLevel, AuditCategory, group_created, group_updated, group_deleted,
  groups_set, role_changed,
}
use constrainable.Server.Audit.{audit}

pub record GroupView : Type 0 where
  pub group : Group
  pub member_count : ℕ

pub to_group_view : ℕ → Server → Result GroupView
unfolding Groups.find_by_id Groups.count_members
to_group_view i s = elim (Groups.find_by_id i s.db.groups.rows) [
  | none ↦ http_error 404 "group not found"
  | some g ↦ ok (record { group = g; member_count = Groups.count_members g.id s.db.user_groups })
]

log : AuditLevel → Message → Server → Server
log level message s =
    audit
      (record {
        level = level;
        category = AuditCategory.admin;
        message = message;
        actor = none;
        event_id = none;
        stream_name = none;
      })
      s

with_groups : (Table Group → Table Group) → Server → Server
with_groups f s = record s { db = record s.db { groups = f s.db.groups } }

group_row : ℕ → String → Option String → ℕ → Group
group_row now name description i = record {
  id = i;
  name = name;
  description = description;
  created_at = timestamp now;
}

pub create_group : ℕ → String → Option String → Server → Result GroupView × Server
unfolding to_group_view log with_groups group_row Groups.find_by_name Groups.insert
create_group now input description s =
    let name = trim input in
    if is_empty name
    then (http_error 400 "group name is required", s)
    else if is_some (Groups.find_by_name name s.db.groups.rows)
    then (http_error 409 "group name already used", s)
    else (let s' =
          log AuditLevel.info (group_created name)
            (with_groups (Groups.insert (group_row now name description)) s) in
        (to_group_view s.db.groups.next_id s', s'))

-- What a patch sets: a name if it has one, a description if it names the field, which may clear it.
pub record GroupPatch : Type 0 where
  pub name : Option String
  pub description : Option (Option String)

set_group : GroupPatch → Group → Group
set_group patch g = record g {
  name = elim patch.name [ none ↦ g.name | some n ↦ trim n ];
  description = or_else patch.description g.description;
}

name_error : Group → Option String → Server → Option (ℕ × String)
unfolding Groups.find_by_name
name_error existing none s = none
name_error existing (some n) s =
    if is_empty (trim n)
    then some (400, "group name cannot be empty")
    else if not (str_eq (trim n) existing.name)
        && is_some (Groups.find_by_name (trim n) s.db.groups.rows)
    then some (409, "group name already used")
    else none

pub update_group : ℕ → GroupPatch → Server → Result GroupView × Server
unfolding to_group_view log with_groups set_group name_error Groups.find_by_id Groups.update
update_group i patch s = elim (Groups.find_by_id i s.db.groups.rows) [
  | none ↦ (http_error 404 "group not found", s)
  | some existing ↦ elim (name_error existing patch.name s) [
    | some (code, message) ↦ (http_error code message, s)
    | none ↦
        (let s' =
            log AuditLevel.info (group_updated existing.name)
              (with_groups (Groups.update i (set_group patch)) s) in
          (to_group_view i s', s'))
  ]
]

-- The rows of the group in the tables of its members, of the events for it and of its links go too,
-- by `onDelete: 'cascade'`.
pub delete_group : ℕ → Server → Result {0} Unit × Server
unfolding log with_groups Groups.find_by_id Groups.remove
delete_group i s = elim (Groups.find_by_id i s.db.groups.rows) [
  | none ↦ (http_error 404 "group not found", s)
  | some existing ↦
      (let s1 = with_groups (Groups.remove i) s in
        let s2 = record s1 {
          db = record s1.db {
            user_groups = filter (λ m. not (m.group_id == i)) s1.db.user_groups;
            event_groups = filter (λ e. not (e.group_id == i)) s1.db.event_groups;
            invites = record s1.db.invites {
              rows = filter (λ l. not (l.group_id == i)) s1.db.invites.rows;
            };
          };
        } in
        (ok tt, log AuditLevel.warn (group_deleted existing.name) s2))
]

unfoldable pub find_user : ℕ → Server → Option User
find_user i s = find? (λ u. u.id == i) s.db.users.rows

-- If the table refuses the new rows, those of before are deleted all the same.
pub set_user_groups : ℕ → List ℕ → Server → Result {0} Unit × Server
unfolding log find_user Groups.set_user_groups Groups.are_groups
set_user_groups user ids s = elim (find_user user s) [
  | none ↦ (http_error 404 "user not found", s)
  | some u ↦
      if Groups.are_groups ids s.db.groups.rows
      then (
        ok tt,
        log AuditLevel.info (groups_set u.email) (record s {
          db = record s.db { user_groups = Groups.set_user_groups user ids s.db.user_groups };
        }),
      )
      else (
        write_error,
        record s {
          db = record s.db { user_groups = filter (λ m. not (m.user_id == user)) s.db.user_groups };
        },
      )
]

abbrev same_role : Role → Role → Bool
same_role a b = if is_admin a then is_admin b else not (is_admin b)

unfoldable pub set_user_role : ℕ → Role → Server → Result {0} Unit × Server
unfolding log find_user
set_user_role user role s = elim (find_user user s) [
  | none ↦ (http_error 404 "user not found", s)
  | some u ↦ if same_role u.role role then (ok tt, s) else (
    ok tt,
    log AuditLevel.warn (role_changed u.email) (record s {
      db = record s.db {
        users = updated (λ x. x.id == user) (λ x. record x { role = role }) s.db.users;
      };
    }),
  )
]
