-- ===== src/EventService/View.antt =====
-- What app/server/services/events.ts shows of an event: `toView`, `getRow`, `getEvent` and the
-- lists.
use constrainable.Base.{
  ℕ, String, Bool, not, Option, some, none, List, map, filter, is_empty, str_take, str_append,
  Result, ok, http_error, if◌then◌else◌,
}
use constrainable.Schema.{Event, EventStatus, Visibility, LimitsOverride, is_draft}
use constrainable.Database.Events
use constrainable.Database.Groups
use constrainable.Server.{Server}

pub record EventGroupRef : Type 0 where
  pub id : ℕ
  pub name : String

pub record EventView : Type 0 where
  pub id : ℕ
  pub name : String
  pub slug : String
  pub description : Option String
  pub starts_at : Option ℕ
  pub ends_at : Option ℕ
  pub status : EventStatus
  pub limits_override : Option LimitsOverride
  pub record_enabled : Bool
  pub strict_limits : Bool
  pub enforce_measured_limits : Bool
  pub require_account_auth : Bool
  pub visibility : Visibility
  pub groups : List EventGroupRef
  pub publish_token_preview : Option String
  pub publish_key_preview : Option String
  pub stream_guide : Option String
  pub created_at : ℕ
  pub updated_at : ℕ

-- The first four characters of a key that is not ''.
key_preview : Option String → Option String
key_preview none = none
key_preview (some k) = if is_empty k then none else some (str_append (str_take 4 k) "…")

unfoldable pub to_view : Server → Event → EventView
unfolding key_preview Groups.find_groups_for_event
to_view s e = record {
  id = e.id;
  name = e.name;
  slug = e.slug;
  description = e.description;
  starts_at = e.starts_at;
  ends_at = e.ends_at;
  status = e.status;
  limits_override = e.limits_override;
  record_enabled = e.record_enabled;
  strict_limits = e.strict_limits;
  enforce_measured_limits = e.enforce_measured_limits;
  require_account_auth = e.require_account_auth;
  visibility = e.visibility;
  groups =
      map (λ g. record { id = g.id; name = g.name })
        (Groups.find_groups_for_event e.id s.db.event_groups s.db.groups.rows);
  publish_token_preview = e.publish_token_prefix;
  publish_key_preview = key_preview e.publish_key;
  stream_guide = e.stream_guide;
  created_at = e.created_at;
  updated_at = e.updated_at;
}

unfoldable pub get_row : ℕ → Server → Result Event
unfolding Events.find_by_id
get_row i s = elim (Events.find_by_id i s.db.events.rows) [
  | none ↦ http_error 404 "event not found"
  | some e ↦ ok e
]

unfoldable pub get_event : ℕ → Server → Result EventView
unfolding get_row to_view
get_event i s = elim (get_row i s) [
  | http_error code message ↦ http_error code message
  | ok e ↦ ok (to_view s e)
]

pub list_events : Server → List EventView
unfolding to_view Events.find_all
list_events s = map (to_view s) (Events.find_all s.db.events.rows)

pub list_events_for_user : Server → List EventView
unfolding to_view Events.find_all
list_events_for_user s =
    map (to_view s) (filter (λ e. not (is_draft e.status)) (Events.find_all s.db.events.rows))
