-- ===== src/Bans.antt =====
-- app/server/services/stream-bans.ts: bans of publishers, site-wide or from one event. The view of a
-- ban that the source returns has the fields of the row, and is the row here.
pub mod Blocking
pub mod Scopes
mod Tests
use constrainable.Base.{
  ℕ, String, Bool, true, false, Option, some, none, List, find?, length, ltb, is_empty, trim,
  to_lower_case, ◌==◌, str_eq, Result, ok, http_error, if◌then◌else◌,
}
use constrainable.Schema.{StreamBan, timestamp}
use constrainable.Database.StreamBans
use constrainable.Server.{Server, AuditLevel, AuditCategory, stream_ban, stream_ban_lifted}
use constrainable.Server.Audit.{audit}

-- email.trim().toLowerCase()
pub normal_email : String → String
normal_email email = to_lower_case (trim email)

pub is_site_wide_banned : String → List StreamBan → Bool
unfolding StreamBans.find_site_wide normal_email
is_site_wide_banned email bs = elim (StreamBans.find_site_wide (normal_email email) bs) [
  | none ↦ false
  | some b ↦ true
]

pub is_blocked : String → Option ℕ → List StreamBan → Bool
unfolding StreamBans.list_blocking normal_email
is_blocked email event bs = ltb 0 (length (StreamBans.list_blocking (normal_email email) event bs))

-- The ban of the same email and scope, if there is one.
pub existing_ban : String → Option ℕ → List StreamBan → Option StreamBan
unfolding StreamBans.find_site_wide StreamBans.list_by_event
existing_ban email none bs = StreamBans.find_site_wide email bs
existing_ban email (some event) bs =
    find? (λ b. str_eq b.email email) (StreamBans.list_by_event event bs)

pub record BanInput : Type 0 where
  pub email : String
  pub event_id : Option ℕ
  pub reason : Option String
  pub banned_by : Option String

ban_row : ℕ → String → BanInput → ℕ → StreamBan
ban_row now email input i = record {
  id = i;
  email = email;
  event_id = input.event_id;
  reason = input.reason;
  banned_by = input.banned_by;
  created_at = timestamp now;
}

-- A ban of an email that has none of this scope.
pub new_ban : ℕ → String → BanInput → Server → Result StreamBan × Server
unfolding ban_row StreamBans.insert
new_ban now email input s =
    let row = ban_row now email input s.db.bans.next_id in
    (
      ok row,
      audit
          (record {
            level = AuditLevel.warn;
            category = AuditCategory.admin;
            message = stream_ban input.event_id email;
            actor = some email;
            event_id = none;
            stream_name = some email;
          })
          (record s {
            db = record s.db { bans = StreamBans.insert (ban_row now email input) s.db.bans };
          }),
    )

pub ban : ℕ → BanInput → Server → Result StreamBan × Server
unfolding existing_ban new_ban normal_email
ban now input s =
    let email = normal_email input.email in
    if is_empty email
    then (http_error 400 "email is required", s)
    else elim (existing_ban email input.event_id s.db.bans.rows) [
      | some b ↦ (ok b, s)
      | none ↦ new_ban now email input s
    ]

pub unban : ℕ → Server → Server
unfolding StreamBans.list_all StreamBans.remove
unban i s =
    let s' = record s { db = record s.db { bans = StreamBans.remove i s.db.bans } } in
    elim (find? (λ b. b.id == i) (StreamBans.list_all s.db.bans.rows)) [
      | none ↦ s'
      | some row ↦
          audit
            (record {
              level = AuditLevel.info;
              category = AuditCategory.admin;
              message = stream_ban_lifted row.email;
              actor = some row.email;
              event_id = none;
              stream_name = some row.email;
            })
            s'
    ]

pub purge_legacy_strict_limits_bans : Server → Server
unfolding StreamBans.purge_strict_limits
purge_legacy_strict_limits_bans s = record s {
  db = record s.db { bans = StreamBans.purge_strict_limits s.db.bans };
}
