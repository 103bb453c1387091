-- ===== src/Lifecycle/Unpublishing.antt =====
-- `handleUnpublish` of app/server/services/stream-lifecycle.ts: a stream that has stopped.
use constrainable.Base.{
  ℕ, String, Bool, false, Option, some, none, ◌∷◌, update_where, ◌==◌, map_get, map_delete,
  if◌then◌else◌,
}
use constrainable.Schema.{PublishSession, SessionStatus, Metrics, is_killed}
use constrainable.Database.Sessions
use constrainable.Server.{
  Server, ActiveSession, session_stop, AuditLevel, AuditCategory, publish_ended, stop_recording,
}
use constrainable.Server.Audit.{audit, emit}
use constrainable.Server.Snapshot.{snapshot, no_metrics}
use constrainable.Lifecycle.{with_sessions, final_status, find_monitor}

-- What `handleUnpublish` gives a session that it finds in the map: `prev` is its row.
pub unpublish_status : Option PublishSession → SessionStatus
unpublish_status none = SessionStatus.ended
unpublish_status (some r) =
    if is_killed r.status then SessionStatus.killed else final_status r.compliant

metrics_of : Option PublishSession → Metrics
metrics_of none = no_metrics
metrics_of (some r) = r.metrics

compliant_of : Option PublishSession → Bool
compliant_of none = false
compliant_of (some r) = r.compliant

-- The session of the map, closed: its loop is told to stop, its row ends, its recording stops.
unfoldable pub close_tracked : ℕ → String → ActiveSession → Server → Server
unfolding unpublish_status metrics_of compliant_of Sessions.find_by_id Sessions.mark_ended
close_tracked now stream session s =
    let prev = Sessions.find_by_id session.session_id s.db.sessions.rows in
    let status = unpublish_status prev in
    let s1 = record s {
      active = map_delete stream s.active;
      monitors =
          update_where (λ m. m.session_id == session.session_id) (λ m. record m { active = false })
            s.monitors;
    } in
    let s2 = with_sessions (Sessions.mark_ended session.session_id status now) s1 in
    let stopped = record session {
      metrics = metrics_of prev;
      status = status;
      compliant = compliant_of prev;
    } in
    let s3 = emit (session_stop (snapshot stopped (some now))) s2 in
    record s3 {
      recorder =
          stop_recording session.stream_name session.event_id session.session_id ∷ s3.recorder;
    }

unfoldable pub tracked : String → Server → Option ActiveSession
unfolding map_get find_monitor
tracked stream s = elim (map_get stream s.active) [
  | none ↦ none
  | some i ↦ find_monitor i s.monitors
]

unfoldable pub handle_unpublish : ℕ → String → Server → Server
unfolding tracked close_tracked
handle_unpublish now stream s =
    let s' : Server = elim (tracked stream s) [
      | none ↦ s
      | some session ↦ close_tracked now stream session s
    ] in
    audit
      (record {
        level = AuditLevel.info;
        category = AuditCategory.publish;
        message = publish_ended stream;
        actor = some stream;
        event_id = none;
        stream_name = some stream;
      })
      s'
