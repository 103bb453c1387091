-- ===== src/Lifecycle.antt =====
-- app/server/services/stream-lifecycle.ts: a publish hook; the children Unpublishing and Monitor have
-- the unpublish hook and the monitor loop of a session. Each definition is what the event loop does between two awaits; the time of that
-- turn is its argument `now`. `url_param` and `verify` are those of `constrainable.Access`.
pub mod Unpublishing
pub mod Monitor
pub mod Limits
pub mod Stale
pub mod Publish
pub mod Unpublish
pub mod Rounds
pub mod Superseded
mod Tests
use constrainable.Base.{
  ℕ, String, Bool, true, false, not, ◌&&◌, Option, some, none, List, [], ◌∷◌, find?, filter, ltb,
  ◌==◌, str_eq, Table, map_set, if◌then◌else◌,
}
use constrainable.Schema.{PublishSession, SessionStatus, Reason, timestamp}
use constrainable.Schema
use constrainable.Database.{Database}
use constrainable.Database.Events
use constrainable.Database.Sessions
use constrainable.Server.{
  Server, ActiveSession, session_start, AuditLevel, AuditCategory, publish_rejected,
  superseded_zombie_session, publish_started, start_recording,
}
use constrainable.Server.Audit.{audit, emit}
use constrainable.Server.Snapshot.{snapshot, no_metrics, non_empty}
use constrainable.Access.{Allowed, allow, reject, authorize_publish}

pub record PublishContext : Type 0 where
  pub app : String
  pub stream : String
  pub vhost : String
  pub client_id : String
  pub param : String

pub data PublishAnswer : Type 0 where
  allowed : PublishAnswer
  refused : Reason → PublishAnswer

abbrev pub with_sessions : (Table PublishSession → Table PublishSession) → Server → Server
with_sessions f s = record s { db = record s.db { sessions = f s.db.sessions } }

-- limit > 0 && value > limit
abbrev pub exceeds : ℕ → ℕ → Bool
exceeds limit value = ltb 0 limit && ltb limit value

-- The row of a publisher who was refused.
rejected_row : ℕ → PublishContext → Reason → ℕ → PublishSession
rejected_row now ctx reason i = record {
  id = i;
  event_id = none;
  stream_key_id = none;
  stream_name = ctx.stream;
  node_id = none;
  last_metric_at = none;
  srs_client_id = non_empty ctx.client_id;
  status = SessionStatus.rejected;
  reject_reason = some reason;
  metrics = no_metrics;
  compliant = false;
  started_at = timestamp now;
  ended_at = some (timestamp now);
}

allowed_row : ℕ → PublishContext → Allowed → ℕ → PublishSession
allowed_row now ctx a i = record {
  id = i;
  event_id = a.event_id;
  stream_key_id = a.stream_key_id;
  stream_name = ctx.stream;
  node_id = none;
  last_metric_at = none;
  srs_client_id = non_empty ctx.client_id;
  status = SessionStatus.allowed;
  reject_reason = none;
  metrics = no_metrics;
  compliant = false;
  started_at = timestamp now;
  ended_at = none;
}

-- The status with which a session that was compliant, or was not, ends.
abbrev pub final_status : Bool → SessionStatus
final_status true = SessionStatus.compliant
final_status false = SessionStatus.ended

-- The loop over the stale sessions of the same stream name.
pub supersede : String → ℕ → ℕ → List PublishSession → Server → Server
supersede stream new_id started [] s = s
supersede stream new_id started (stale ∷ rest) s = supersede stream new_id started rest (
    audit
      (record {
        level = AuditLevel.warn;
        category = AuditCategory.publish;
        message = superseded_zombie_session stale.id stream;
        actor = none;
        event_id = none;
        stream_name = some stream;
      })
      (with_sessions (Sessions.mark_ended stale.id (final_status stale.compliant) started) s))

-- `new ActiveSession` with the metrics that its monitor loop starts from
pub active_session : Server → PublishContext → PublishSession → ActiveSession
active_session s ctx row = record {
  session_id = row.id;
  event_id = row.event_id;
  stream_name = ctx.stream;
  app = ctx.app;
  vhost = ctx.vhost;
  client_id = ctx.client_id;
  started_at_ms = row.started_at;
  active = true;
  event = elim row.event_id [
    | none ↦ none
    | some i ↦ if i == 0 then none else Events.find_by_id i s.db.events.rows
  ];
  metrics = no_metrics;
  status = SessionStatus.allowed;
  compliant = false;
}

-- The other open sessions under the name of a stream.
pub stale_sessions : String → ℕ → List PublishSession → List PublishSession
unfolding Sessions.find_active
stale_sessions stream new_id ss =
    filter (λ r. str_eq r.stream_name stream && not (r.id == new_id)) (Sessions.find_active none ss)

-- `handlePublish` once the publisher is allowed, up to the first await of the monitor loop.
pub publish_allowed : ℕ → PublishContext → Allowed → Server → Server
unfolding allowed_row supersede active_session stale_sessions Sessions.insert
publish_allowed now ctx a s =
    let row = allowed_row now ctx a s.db.sessions.next_id in
    let s1 = with_sessions (Sessions.insert (allowed_row now ctx a)) s in
    let s2 =
      supersede ctx.stream row.id row.started_at
        (stale_sessions ctx.stream row.id s1.db.sessions.rows) s1 in
    let session = active_session s2 ctx row in
    let s3 = record s2 {
      active = map_set ctx.stream row.id s2.active;
      monitors = session ∷ s2.monitors;
    } in
    let s4 =
      audit
        (record {
          level = AuditLevel.info;
          category = AuditCategory.publish;
          message = publish_started ctx.stream;
          actor = some ctx.stream;
          event_id = a.event_id;
          stream_name = some ctx.stream;
        })
        (emit (session_start (snapshot session none)) s3) in
    record s4 {
      recorder = start_recording ctx.stream ctx.app ctx.vhost ctx.client_id ∷ s4.recorder;
    }

pub publish_rejected_row : ℕ → PublishContext → Reason → Server → Server
unfolding rejected_row Sessions.insert
publish_rejected_row now ctx reason s =
    audit
      (record {
        level = AuditLevel.warn;
        category = AuditCategory.access;
        message = publish_rejected ctx.stream reason;
        actor = some ctx.stream;
        event_id = none;
        stream_name = some ctx.stream;
      })
      (with_sessions (Sessions.insert (rejected_row now ctx reason)) s)

module _ (url_param : String → Option String) (verify : String → String → Bool) where
  pub handle_publish : ℕ → PublishContext → Server → PublishAnswer × Server
  unfolding publish_allowed publish_rejected_row
  handle_publish now ctx s =
      let (result, db') = authorize_publish url_param verify now s.db ctx.stream ctx.param in
      let s' = record s { db = db' } in
      elim result [
        | allow a ↦ (allowed, publish_allowed now ctx a s')
        | reject reason ↦ (refused reason, publish_rejected_row now ctx reason s')
      ]

pub find_monitor : ℕ → List ActiveSession → Option ActiveSession
find_monitor i ms = find? (λ m. m.session_id == i) ms
