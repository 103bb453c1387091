-- ===== src/EventService/Removal.antt =====
-- `deleteEvent` of app/server/services/events.ts, with what the tables do to the rows that refer to
-- the event.
use constrainable.EventService.{log_event}
use constrainable.Base.{
  ℕ, not, none, filter, any, update_where, holds, ◌==◌, Result, ok, http_error, deleted,
}
use constrainable.Database.{Database}
use constrainable.Database.Events
use constrainable.Database.EventSlugAliases
use constrainable.Server.{Server, AuditLevel, event_deleted}
use constrainable.EventService.View.{get_row}

-- The rows that refer to the event go with it (`onDelete: 'cascade'`), and what refers to those loses
-- its reference (`onDelete: 'set null'`). The table of recordings stands elsewhere, in
-- MediaNode/Recordings.
unfoldable pub drop_event : ℕ → Database → Database
unfolding Events.remove
drop_event i db =
    let enrolled = filter (λ r. r.event_id == i) db.enrollments.rows in
    let keyed = filter (λ k. k.event_id == i) db.stream_keys.rows in
    record db {
      events = Events.remove i db.events;
      bans = deleted (λ b. holds (λ e. e == i) b.event_id) db.bans;
      enrollments = deleted (λ r. r.event_id == i) db.enrollments;
      stream_keys = record db.stream_keys {
        rows =
            update_where (λ k. holds (λ j. any (λ r. r.id == j) enrolled) k.enrollment_id)
              (λ k. record k { enrollment_id = none })
              (filter (λ k. not (k.event_id == i)) db.stream_keys.rows);
      };
      sessions = record db.sessions {
        rows =
            update_where (λ p. holds (λ j. any (λ k. k.id == j) keyed) p.stream_key_id)
              (λ p. record p { stream_key_id = none })
              (filter (λ p. not (holds (λ e. e == i) p.event_id)) db.sessions.rows);
      };
      event_groups = filter (λ g. not (g.event_id == i)) db.event_groups;
    }

unfoldable pub delete_event : ℕ → Server → Result {0} Unit × Server
unfolding drop_event log_event EventSlugAliases.remove_by_event
delete_event i s = elim (get_row i s) [
  | http_error code message ↦ (http_error code message, s)
  | ok existing ↦
      (let db1 = record s.db { aliases = EventSlugAliases.remove_by_event i s.db.aliases } in
        (
          ok tt,
          log_event AuditLevel.warn (event_deleted existing.name) i
              (record s { db = drop_event i db1 }),
        ))
]
