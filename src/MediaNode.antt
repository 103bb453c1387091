-- ===== src/MediaNode.antt =====
-- app/server/services/media-node-handlers.ts: what a media node may ask and report. `global` are the
-- limits of the configuration. The children Starts, Spec, Auth and Recordings have the other handlers.
pub mod Recordings
pub mod Auth
pub mod Starts
pub mod Spec
pub mod Grants
pub mod Verdicts
mod Tests
use constrainable.Base.{
  ℕ, String, Option, some, none, List, ◌==◌, if◌then◌else◌, map, find?, str_eq,
}
use constrainable.Schema.{Limits, Event, SessionStatus, Metrics}
use constrainable.Database.{Database}
use constrainable.Database.Events
use constrainable.Database.Sessions
use constrainable.Database.Users
use constrainable.Registry.{Registry, NodeReport, register, list_nodes}
use constrainable.Server.{
  Server, AuditLevel, AuditCategory, Message, nodes_changed, session_metric, session_stop,
  session_violation, node_publish_ended, node_violation, measured_breach,
}
use constrainable.Server.Audit.{audit, emit}
use constrainable.Server.Snapshot.{Override, no_metrics, over_metrics, snapshot_from_row}
use constrainable.Lifecycle.{with_sessions, final_status}

-- The registry of nodes is in memory beside what the services share.
pub record Hub : Type 0 where
  pub server : Server
  pub registry : Registry

on_server : (Server → Server) → Hub → Hub
on_server f h = record h { server = f h.server }

-- `emitNodesChanged`: the list of nodes; what the admin page shows of quotas and users is left out.
unfoldable pub emit_nodes_changed : Hub → Hub
unfolding on_server
emit_nodes_changed h = on_server (emit (nodes_changed (list_nodes h.registry))) h

-- The node id and the limits to push.
pub handle_register : Limits → ℕ → String → NodeReport → Hub → (String × Limits) × Hub
unfolding emit_nodes_changed
handle_register global now peer info h =
    let (node, r) = register now peer info h.registry in
    ((node, global), emit_nodes_changed (record h { registry = r }))

-- The event of an admission; the id 0 is none.
pub event_of : Option ℕ → List Event → Option Event
unfolding Events.find_by_id
event_of none es = none
event_of (some i) es = if i == 0 then none else Events.find_by_id i es

log : AuditLevel → AuditCategory → Message → String → Option ℕ → Server → Server
log level category message stream event s =
    audit
      (record {
        level = level;
        category = category;
        message = message;
        actor = some stream;
        event_id = event;
        stream_name = some stream;
      })
      s

pub no_override : Override
no_override = record { status = none; metrics = no_metrics; ended_at = none }

pub record MetricsPayload : Type 0 where
  pub session_id : ℕ
  pub metrics : Metrics

pub handle_metrics : ℕ → MetricsPayload → Server → Server
unfolding Sessions.find_by_id Sessions.update_metrics
handle_metrics now p s = elim (Sessions.find_by_id p.session_id s.db.sessions.rows) [
  | none ↦ s
  | some row ↦
      (let m = over_metrics p.metrics row.metrics in
        emit
          (session_metric
            (snapshot_from_row row (record { status = none; metrics = m; ended_at = none })))
          (with_sessions (Sessions.update_metrics now p.session_id m) s))
]

-- `endedAt` of the payload, a time in milliseconds.
unfoldable pub handle_end : ℕ → (ended_at : ℕ) → Hub → Hub
unfolding on_server emit_nodes_changed log Sessions.find_by_id Sessions.mark_ended
handle_end i ended_at h = elim (Sessions.find_by_id i h.server.db.sessions.rows) [
  | none ↦ h
  | some row ↦
      (let status = final_status row.compliant in
        let over : Override = record {
          status = some status;
          metrics = no_metrics;
          ended_at = some ended_at;
        } in
        on_server
          (λ s.
            log AuditLevel.info AuditCategory.publish (node_publish_ended row.stream_name)
              row.stream_name row.event_id (emit (session_stop (snapshot_from_row row over)) s))
          (emit_nodes_changed
            (on_server (with_sessions (Sessions.mark_ended i status ended_at)) h)))
]

pub handle_violation : ℕ → List String → Metrics → Server → Server
unfolding log Sessions.find_by_id Sessions.update_status
handle_violation i reasons m s = elim (Sessions.find_by_id i s.db.sessions.rows) [
  | none ↦ s
  | some row ↦
      (let over : Override = record {
        status = some SessionStatus.violating;
        metrics = m;
        ended_at = none;
      } in
        emit (session_violation (snapshot_from_row row over) (map measured_breach reasons)) (
          log AuditLevel.warn AuditCategory.publish (node_violation row.stream_name reasons)
            row.stream_name row.event_id
            (with_sessions (Sessions.update_status i SessionStatus.violating none none) s)))
]

pub node_id_of_socket : String → Registry → Option String
node_id_of_socket socket r = elim (find? (λ n. str_eq n.socket_id socket) (list_nodes r)) [
  | none ↦ none
  | some n ↦ some n.node_id
]
