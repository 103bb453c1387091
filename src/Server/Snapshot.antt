-- ===== src/Server/Snapshot.antt =====
-- The snapshots of sessions that are sent to the dashboards.
use constrainable.Base.{ℕ, Option, some, none, String, is_empty, if◌then◌else◌, or_option}
use constrainable.Schema.{Metrics, PublishSession, SessionStatus}
use constrainable.Server.{ActiveSession, SessionSnapshot}

-- s || null
abbrev pub non_empty : String → Option String
non_empty s = if is_empty s then none else some s

-- `snapshot` of app/server/services/stream-lifecycle.ts: the metrics are the loop's.
abbrev pub snapshot : ActiveSession → Option ℕ → SessionSnapshot
snapshot s ended_at = record {
  session_id = s.session_id;
  event_id = s.event_id;
  stream_name = s.stream_name;
  status = s.status;
  srs_client_id = non_empty s.client_id;
  node_id = none;
  metrics = s.metrics;
  compliant = s.compliant;
  reject_reason = none;
  started_at = s.started_at_ms;
  ended_at = ended_at;
}

-- What `snapshotFromRow` of app/server/services/media-node-handlers.ts may override.
pub record Override : Type 0 where
  pub status : Option SessionStatus
  pub metrics : Metrics
  pub ended_at : Option ℕ

abbrev pub no_metrics : Metrics
no_metrics = record {
  width = none;
  height = none;
  fps = none;
  video_bitrate_kbps = none;
  audio_bitrate_kbps = none;
}

-- Each value that is given, over the one of the row.
abbrev pub over_metrics : Metrics → Metrics → Metrics
over_metrics m row = record {
  width = or_option m.width row.width;
  height = or_option m.height row.height;
  fps = or_option m.fps row.fps;
  video_bitrate_kbps = or_option m.video_bitrate_kbps row.video_bitrate_kbps;
  audio_bitrate_kbps = or_option m.audio_bitrate_kbps row.audio_bitrate_kbps;
}

abbrev pub snapshot_from_row : PublishSession → Override → SessionSnapshot
snapshot_from_row row over = record {
  session_id = row.id;
  event_id = row.event_id;
  stream_name = row.stream_name;
  status = or_status over.status;
  srs_client_id = row.srs_client_id;
  node_id = row.node_id;
  metrics = over_metrics over.metrics row.metrics;
  compliant = row.compliant;
  reject_reason = row.reject_reason;
  started_at = row.started_at;
  ended_at = over.ended_at;
}
  where
    or_status : Option SessionStatus → SessionStatus
    or_status o = elim o [ none ↦ row.status | some s ↦ s ]
