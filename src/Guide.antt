-- ===== src/Guide.antt =====
-- app/server/api/events/slug/[slug]/guide.get.ts: the guide of an event for its participants, by key.
-- A key that an event has given up redirects to it. `limits` is `getLimitsFor`, and `server` what
-- `guideRtmpServer` makes of the request.
mod Tests
use constrainable.Base.{
  ℕ, String, Bool, not, ◌||◌, Option, some, none, map, str_eq, is_empty, Result, ok, http_error,
  if◌then◌else◌,
}
use constrainable.Schema.{Event, Limits, is_draft, is_archived}
use constrainable.Database.{Database}
use constrainable.Database.Events
use constrainable.Database.EventSlugAliases
use constrainable.Database.Groups
use constrainable.Invites.{Auth, can_view_event}
use constrainable.Server.{Server}

pub record EventGuide : Type 0 where
  pub redirect_to : Option String
  pub name : String
  pub slug : String
  pub server : String
  pub publish_key : Option String
  pub limits : Limits
  pub starts_at : Option ℕ
  pub ends_at : Option ℕ
  pub require_account_auth : Bool
  pub stream_guide : Option String

-- The event that a retired key redirects to, if no event has the key.
unfoldable pub redirected : String → Database → Option Event
unfolding Events.find_by_id EventSlugAliases.find_by_old_slug
redirected slug db = elim (EventSlugAliases.find_by_old_slug slug db.aliases) [
  | none ↦ none
  | some a ↦ elim (Events.find_by_id a.event_id db.events.rows) [
    | none ↦ none
    | some target ↦ if str_eq target.slug slug then none else some target
  ]
]

-- The event of a key, with the key to redirect to.
unfoldable pub resolve : String → Database → Option (Event × Option String)
unfolding redirected Events.find_by_slug
resolve slug db = elim (Events.find_by_slug slug db.events.rows) [
  | some e ↦ some (e, none)
  | none ↦ elim (redirected slug db) [ none ↦ none | some target ↦ some (target, some target.slug) ]
]

pub guide :
    (limits : Event → Limits)
    → (server : String) → Option Auth
    → (slug : String) → Server
    → Result EventGuide
unfolding resolve Groups.find_groups_for_event
guide limits server auth slug s =
    if is_empty slug then http_error 400 "missing slug" else elim (resolve slug s.db) [
      | none ↦ http_error 404 "event not found"
      | some (e, redirect) ↦
          if is_draft e.status || is_archived e.status
          then http_error 404 "event not found"
          else if not (
              can_view_event auth e.visibility
                (map (λ g. g.id)
                  (Groups.find_groups_for_event e.id s.db.event_groups s.db.groups.rows))
                s)
          then http_error 403 "not authorized for this event"
          else ok (record {
            redirect_to = redirect;
            name = e.name;
            slug = e.slug;
            server = server;
            publish_key = e.publish_key;
            limits = limits e;
            starts_at = e.starts_at;
            ends_at = e.ends_at;
            require_account_auth = e.require_account_auth;
            stream_guide = e.stream_guide;
          })
    ]
