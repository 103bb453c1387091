-- ===== src/EventService.antt =====
-- app/server/services/events.ts: what administrators do to events. `generate` stands for the
-- random text of `generateToken` of app/server/utils/token.ts; `now` is the time of a call. The table
-- of an event's groups refuses ids that are given twice or name no group: what the driver throws is
-- answered with 500, and what was written before stays.
pub mod View
pub mod Credentials
pub mod Removal
pub mod WellFormed
pub mod Aliases
pub mod Outcomes
pub mod Invariant
pub mod Scopes
pub mod Calls
pub mod Owners
pub mod Changes
pub mod Renames
mod Tests
pub mod Windows
use constrainable.Base.{
  filter, ℕ, String, Bool, true, false, not, ◌&&◌, ◌||◌, Option, some, none, List, holds, is_some,
  or_else, or_option, ltb, leb, ◌==◌, str_eq, is_empty, trim, all_chars, is_lower, is_digit, Result,
  ok, http_error, if◌then◌else◌, write_error,
}
use mathlib.Core.Option
use constrainable.Schema.{
  Event, EventStatus, Visibility, LimitsOverride, Group, is_scheduled, timestamp,
}
use constrainable.Database.{Database}
use constrainable.Database.Events
use constrainable.Database.EventSlugAliases
use constrainable.Database.Groups
use constrainable.Server.{Server, Message, AuditLevel, AuditCategory, event_created, event_updated}
use constrainable.Server.Audit.{audit}
use constrainable.EventService.View.{EventView, to_view, get_row, get_event}

-- A field that may be missing is an option; one that a patch may also set to null is an option of
-- an option.
pub record EventInput : Type 0 where
  pub name : Option String
  pub slug : Option String
  pub description : Option (Option String)
  pub starts_at : Option (Option ℕ)
  pub ends_at : Option (Option ℕ)
  pub status : Option EventStatus
  pub limits_override : Option (Option LimitsOverride)
  pub record_enabled : Option Bool
  pub strict_limits : Option Bool
  pub enforce_measured_limits : Option Bool
  pub require_account_auth : Option Bool
  pub visibility : Option Visibility
  pub stream_guide : Option (Option String)
  pub group_ids : Option (List ℕ)

-- A date past 8.64e15 milliseconds is invalid.
pub to_ts : Option ℕ → Option ℕ
to_ts none = none
to_ts (some ms) = if leb ms 8640000000000000 then some ms else none

abbrev flat {ℓ} : {A : Type ℓ} → Option (Option A) → Option A
flat none = none
flat (some o) = o

pub slug_taken : String → Option ℕ → Server → Bool
unfolding Events.find_by_slug_except
slug_taken slug except s = is_some (Events.find_by_slug_except slug except s.db.events.rows)

-- /^[a-z0-9_-]+$/
pub is_event_key : String → Bool
is_event_key slug =
    not (is_empty slug)
    && all_chars (λ c. is_lower c || is_digit c || (c == b'_') || (c == b'-')) slug

-- No time, an invalid one and the time 0 are all falsy.
pub falsy_time : Option ℕ → Bool
unfolding to_ts
falsy_time t = not (holds (ltb 0) (to_ts t))

pub assert_window : EventStatus → Option ℕ → Option ℕ → Option String
unfolding falsy_time
assert_window status starts ends =
    if is_scheduled status && (falsy_time starts || falsy_time ends)
    then some "scheduled events need both a start and an end time"
    else if not (falsy_time starts)
        && not (falsy_time ends)
        && leb (or_else ends 0) (or_else starts 0)
    then some "end time must be after the start time"
    else none

-- limitsOverrideSchema.parse keeps the fields that the schema names.
parse_override : LimitsOverride → LimitsOverride
parse_override o = record o { max_bitrate_kbps = none }

pub log_event : AuditLevel → Message → ℕ → Server → Server
log_event level message i s =
    audit
      (record {
        level = level;
        category = AuditCategory.admin;
        message = message;
        actor = none;
        event_id = some i;
        stream_name = none;
      })
      s

pub event_row : ℕ → String → String → EventInput → ℕ → Event
unfolding to_ts parse_override
event_row now name slug input i = record {
  id = i;
  name = name;
  slug = slug;
  description = flat input.description;
  starts_at = Option.map timestamp (to_ts (flat input.starts_at));
  ends_at = Option.map timestamp (to_ts (flat input.ends_at));
  status = or_else input.status EventStatus.draft;
  limits_override = Option.map parse_override (flat input.limits_override);
  record_enabled = or_else input.record_enabled true;
  strict_limits = or_else input.strict_limits false;
  enforce_measured_limits = or_else input.enforce_measured_limits false;
  require_account_auth = true;
  visibility = or_else input.visibility Visibility.registered;
  publish_token_hash = none;
  publish_token_prefix = none;
  publish_key = some slug;
  stream_guide = none;
  created_at = timestamp now;
  updated_at = timestamp now;
}

-- The table takes the groups that an input names, if it names some.
pub groups_fit : Option (List ℕ) → List Group → Bool
unfolding Groups.are_groups
groups_fit none gs = true
groups_fit (some ids) gs = Groups.are_groups ids gs

-- `setEventGroups`: if the table refuses the rows, those of before are deleted all the same.
pub with_groups : ℕ → Option (List ℕ) → Database → Database
unfolding Groups.are_groups Groups.set_event_groups
with_groups i none db = db
with_groups i (some ids) db =
    if Groups.are_groups ids db.groups.rows
    then record db { event_groups = Groups.set_event_groups i ids db.event_groups }
    else record db { event_groups = filter (λ e. not (e.event_id == i)) db.event_groups }

-- The writes of `createEvent`, once its checks have passed, up to the error if the groups are refused.
pub insert_event : ℕ → String → String → EventInput → Server → Server
unfolding event_row groups_fit with_groups log_event Events.insert EventSlugAliases.remove
insert_event now name slug input s =
    let i = s.db.events.next_id in
    let db1 = record s.db { events = Events.insert (event_row now name slug input) s.db.events } in
    let db2 = with_groups i input.group_ids db1 in
    let db3 = record db2 { aliases = EventSlugAliases.remove slug db2.aliases } in
    if groups_fit input.group_ids s.db.groups.rows
    then log_event AuditLevel.info (event_created name) i (record s { db = db3 })
    else record s { db = db2 }

pub create_event : ℕ → EventInput → Server → Result EventView × Server
unfolding insert_event event_row is_event_key slug_taken assert_window groups_fit
create_event now input s =
    let name = trim (or_else input.name "") in
    let slug = trim (or_else input.slug "") in
    if is_empty name
    then (http_error 400 "name is required", s)
    else if not (is_event_key slug)
    then (http_error 400 "Event key may only contain lowercase letters, digits, _ and -", s)
    else if slug_taken slug none s
    then (http_error 409 "slug already used", s)
    else elim (assert_window (or_else input.status EventStatus.draft) (flat input.starts_at)
        (flat input.ends_at)) [
          | some message ↦ (http_error 400 message, s)
          | none ↦
              (let s' = insert_event now name slug input s in
                (
                  if groups_fit input.group_ids s.db.groups.rows
                      then ok (to_view s' (event_row now name slug input s.db.events.next_id))
                      else write_error,
                  s',
                ))
        ]

-- What the field `slug` of a patch asks for: none if the key stays.
pub slug_change : ℕ → Event → Option String → Server → Result (Option String)
unfolding is_event_key slug_taken
slug_change i existing none s = ok none
slug_change i existing (some raw) s =
    let slug = trim raw in
    if not (is_event_key slug)
    then http_error 400 "Event key may only contain lowercase letters, digits, _ and -"
    else if str_eq slug existing.slug
    then ok none
    else if slug_taken slug (some i) s
    then http_error 409 "slug already used"
    else ok (some slug)

-- The retired key redirects to the event, and the new one is nobody's alias.
pub move_alias : ℕ → Event → Option String → Server → Server
unfolding EventSlugAliases.set EventSlugAliases.remove
move_alias i existing none s = s
move_alias i existing (some slug) s = record s {
  db = record s.db {
    aliases = EventSlugAliases.remove slug (EventSlugAliases.set existing.slug i s.db.aliases);
  };
}

-- The time that a patch sets, or the one of before. One that is set to null stays set in what
-- `assertWindow` sees.
patched_time : Option (Option ℕ) → Option ℕ → Option ℕ
unfolding to_ts
patched_time none old = old
patched_time (some t) old = Option.map timestamp (to_ts t)

seen_time : Option (Option ℕ) → Option ℕ → Option ℕ
unfolding to_ts
seen_time t old = or_option (to_ts (flat t)) old

pub apply_patch : ℕ → EventInput → Option String → Event → Event
unfolding patched_time parse_override
apply_patch now patch slug e = record e {
  updated_at = timestamp now;
  name = elim patch.name [ none ↦ e.name | some n ↦ trim n ];
  slug = or_else slug e.slug;
  publish_key = or_option slug e.publish_key;
  description = or_else patch.description e.description;
  starts_at = patched_time patch.starts_at e.starts_at;
  ends_at = patched_time patch.ends_at e.ends_at;
  status = or_else patch.status e.status;
  record_enabled = or_else patch.record_enabled e.record_enabled;
  strict_limits = or_else patch.strict_limits e.strict_limits;
  enforce_measured_limits = or_else patch.enforce_measured_limits e.enforce_measured_limits;
  visibility = or_else patch.visibility e.visibility;
  limits_override =
      or_else (Option.map (Option.map parse_override) patch.limits_override) e.limits_override;
  stream_guide = or_else patch.stream_guide e.stream_guide;
}

-- The writes of `updateEvent`, once its checks have passed, up to the error if the groups are refused.
pub write_patch : ℕ → ℕ → Event → EventInput → Option String → Server → Server
unfolding apply_patch groups_fit with_groups log_event Events.update
write_patch now i existing patch slug s =
    let db1 = record s.db { events = Events.update i (apply_patch now patch slug) s.db.events } in
    let s' : Server = record s { db = with_groups i patch.group_ids db1 } in
    if groups_fit patch.group_ids s.db.groups.rows
    then log_event AuditLevel.info (event_updated existing.name) i s'
    else s'

-- From `assertWindow` on.
pub update_checked : ℕ → ℕ → Event → EventInput → Option String → Server → Result EventView × Server
unfolding assert_window seen_time write_patch groups_fit
update_checked now i existing patch slug s =
    elim (assert_window (or_else patch.status existing.status)
      (seen_time patch.starts_at existing.starts_at) (seen_time patch.ends_at existing.ends_at)) [
        | some message ↦ (http_error 400 message, s)
        | none ↦
            (let s' = write_patch now i existing patch slug s in
              (
                if groups_fit patch.group_ids s.db.groups.rows then get_event i s' else write_error,
                s',
              ))
      ]

pub update_event : ℕ → ℕ → EventInput → Server → Result EventView × Server
unfolding slug_change move_alias update_checked
update_event now i patch s = elim (get_row i s) [
  | http_error code message ↦ (http_error code message, s)
  | ok existing ↦
      if holds (λ n. is_empty (trim n)) patch.name
      then (http_error 400 "name cannot be empty", s)
      else elim (slug_change i existing patch.slug s) [
        | http_error code message ↦ (http_error code message, s)
        | ok slug ↦ update_checked now i existing patch slug (move_alias i existing slug s)
      ]
]
