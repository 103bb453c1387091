-- ===== src/Invites.antt =====
-- app/server/services/invites.ts and the predicate `canViewEvent` of app/server/services/groups.ts.
-- `draw i` is the i-th text that `randomBytes(12).toString('hex')` gives. The user of a claim and the
-- author of a link are rows of the table of users, as the foreign keys ask.
pub mod Consume
pub mod Uses
pub mod View
mod Tests
use constrainable.Base.{
  ℕ, suc, zero, ◌+◌, String, Bool, true, false, not, ◌&&◌, Option, some, none, List, any, holds,
  is_some, ltb, leb, trim, str_length, ◌==◌, Result, ok, http_error, if◌then◌else◌,
}
use constrainable.Schema.{InviteLink, Group, Visibility, Role, is_admin, timestamp}
use constrainable.Database.Groups
use constrainable.Database.InviteLinks
use constrainable.Server.{
  Server, Message, AuditLevel, AuditCategory, invite_created, invite_deactivated, invite_deleted,
  invite_consumed,
}
use constrainable.Server.Audit.{audit}

abbrev pub code_hex_len : ℕ
code_hex_len = 24

-- The loop of `generateUniqueCode`, with `n` rounds left.
pub unique_code : ℕ → (ℕ → String) → List InviteLink → Option String
unfolding InviteLinks.find_by_code
unique_code zero draw ls = none
unique_code (suc n) draw ls =
    if (str_length (draw n) == code_hex_len) && not (is_some (InviteLinks.find_by_code (draw n) ls))
    then some (draw n)
    else unique_code n draw ls

pub generate_unique_code : (ℕ → String) → List InviteLink → Option String
unfolding unique_code
generate_unique_code draw ls = unique_code 8 draw ls

pub record InviteLinkInput : Type 0 where
  pub group_id : ℕ
  pub max_uses : Option ℕ
  -- Math.round(ttlHours * 3600_000)
  pub ttl_ms : Option ℕ
  pub note : Option String

-- A number of milliseconds whose date is valid.
ttl_to_expires_at : ℕ → Option ℕ → Option ℕ
ttl_to_expires_at now none = none
ttl_to_expires_at now (some ttl) = some (timestamp (now + ttl))

pub invite_row : ℕ → InviteLinkInput → ℕ → String → ℕ → InviteLink
unfolding ttl_to_expires_at
invite_row now input created_by code i = record {
  id = i;
  code = code;
  group_id = input.group_id;
  created_by = some created_by;
  max_uses = input.max_uses;
  used_count = 0;
  expires_at = ttl_to_expires_at now input.ttl_ms;
  active = true;
  note = input.note;
}

pub log_admin : AuditLevel → Message → Server → Server
log_admin level message s =
    audit
      (record {
        level = level;
        category = AuditCategory.admin;
        message = message;
        actor = none;
        event_id = none;
        stream_name = none;
      })
      s

-- The code of the new link, once the input has been accepted.
insert_invite : ℕ → InviteLinkInput → ℕ → Option String → Server → Result InviteLink × Server
unfolding invite_row InviteLinks.insert log_admin
insert_invite now input created_by none s =
    (http_error 500 "could not generate a unique invite code", s)
insert_invite now input created_by (some code) s = (
  ok (invite_row now input created_by code s.db.invites.next_id),
  log_admin AuditLevel.info (invite_created input.group_id) (record s {
    db = record s.db {
      invites = InviteLinks.insert (invite_row now input created_by code) s.db.invites;
    };
  }),
)

pub create_invite : (ℕ → String) → ℕ → InviteLinkInput → ℕ → Server → Result InviteLink × Server
unfolding generate_unique_code insert_invite Groups.find_by_id
create_invite draw now input created_by s =
    if not (is_some (Groups.find_by_id input.group_id s.db.groups.rows))
    then (http_error 404 "group not found", s)
    else if holds (λ n. ltb n 1) input.max_uses
    then (http_error 400 "maxUses must be at least 1", s)
    else insert_invite now input created_by (generate_unique_code draw s.db.invites.rows) s

pub deactivate_invite : ℕ → Server → Result {0} Unit × Server
unfolding InviteLinks.find_by_id InviteLinks.update log_admin
deactivate_invite i s = elim (InviteLinks.find_by_id i s.db.invites.rows) [
  | none ↦ (http_error 404 "invite not found", s)
  | some existing ↦ (
    ok tt,
    log_admin AuditLevel.warn (invite_deactivated existing.code) (record s {
      db = record s.db {
        invites = InviteLinks.update i (λ l. record l { active = false }) s.db.invites;
      };
    }),
  )
]

pub remove_invite : ℕ → Server → Result {0} Unit × Server
unfolding InviteLinks.find_by_id InviteLinks.remove log_admin
remove_invite i s = elim (InviteLinks.find_by_id i s.db.invites.rows) [
  | none ↦ (http_error 404 "invite not found", s)
  | some existing ↦ (
    ok tt,
    log_admin AuditLevel.warn (invite_deleted existing.code)
        (record s { db = record s.db { invites = InviteLinks.remove i s.db.invites } }),
  )
]

-- active, not expired, not exhausted
pub is_usable : ℕ → InviteLink → Bool
is_usable now l =
    l.active
    && not (holds (λ t. ltb t now) l.expires_at)
    && not (holds (λ n. leb n l.used_count) l.max_uses)

-- The link and its group are there.
pub consume_found : ℕ → InviteLink → Group → ℕ → Server → Option Group × Server
unfolding is_usable Groups.find_user_group_ids Groups.add_user_to_group InviteLinks.increment_used
    log_admin
consume_found now invite group user s =
    if any (λ i. i == invite.group_id) (Groups.find_user_group_ids user s.db.user_groups)
    then (some group, s)
    else if is_usable now invite
    then (
      some group,
      log_admin AuditLevel.info (invite_consumed group.name) (record s {
        db = record s.db {
          user_groups = Groups.add_user_to_group user invite.group_id s.db.user_groups;
          invites = InviteLinks.increment_used invite.id s.db.invites;
        };
      }),
    )
    else (none, s)

pub consume_invite : ℕ → String → ℕ → Server → Option Group × Server
unfolding consume_found Groups.find_by_id InviteLinks.find_by_code
consume_invite now code user s = elim (InviteLinks.find_by_code (trim code) s.db.invites.rows) [
  | none ↦ (none, s)
  | some invite ↦ elim (Groups.find_by_id invite.group_id s.db.groups.rows) [
    | none ↦ (none, s)
    | some group ↦ consume_found now invite group user s
  ]
]

pub record Auth : Type 0 where
  pub user_id : ℕ
  pub role : Role

unfoldable pub can_view_event : Option Auth → Visibility → List ℕ → Server → Bool
unfolding Groups.user_in_any_group
can_view_event auth visibility group_ids s =
    if holds (λ a. is_admin a.role) auth then true else elim visibility [
      | Visibility.everyone ↦ true
      | Visibility.registered ↦ is_some auth
      | Visibility.groups ↦
          holds (λ a. Groups.user_in_any_group a.user_id group_ids s.db.user_groups) auth
    ]
