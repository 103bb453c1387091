-- ===== src/MediaNode/Spec.antt =====
-- `handleSpec` of app/server/services/media-node-handlers.ts: the values that a stream declares when
-- its connection opens, held against the limits of its event.
use constrainable.Base.{
  ◌+◌, ◌*◌, ◌/◌, ◌<◌, ℕ, String, Bool, ◌||◌, Option, some, none, List, [], ◌∷◌, ◌++◌, ◌==◌,
  if◌then◌else◌, holds, or_else,
}
use constrainable.Schema.{Limits, PublishSession, SessionStatus, Metrics}
use constrainable.Database.Sessions
use constrainable.Server.{
  Server, Breach, AuditLevel, AuditCategory, session_metric, session_violation, spec_rejected,
  spec_exceeds_limits,
}
use constrainable.Server.Audit.{emit}
use constrainable.Server.Snapshot.{Override, no_metrics, snapshot_from_row}
use constrainable.Lifecycle.{with_sessions, exceeds}
use constrainable.ConfigStore.{get_limits_for}
use constrainable.MediaNode.{log, event_of}

-- A declared bitrate, a fraction: the number `over / under`.
pub record Rate : Type 0 where
  pub over : ℕ
  pub under : ℕ
  pub positive : 0 < under

-- Math.round: the nearest whole number, and of two the greater.
unfoldable pub math_round : Rate → ℕ
math_round r = (2 * r.over + r.under) / (2 * r.under)

pub record SpecPayload : Type 0 where
  pub stream_name : String
  pub width : ℕ
  pub height : ℕ
  pub fps : ℕ
  pub video_kbps : Rate
  pub video_bitrate_kbps : Option Rate
  pub audio_bitrate_kbps : Rate

-- x || d
or_zero : ℕ → Option ℕ → Option ℕ
or_zero x d = if x == 0 then d else some x

-- `videoKbps` and `audioBitrateKbps`
unfoldable pub video_kbps_of : SpecPayload → ℕ
unfolding math_round
video_kbps_of p = math_round (or_else p.video_bitrate_kbps p.video_kbps)

unfoldable pub audio_kbps_of : SpecPayload → ℕ
unfolding math_round
audio_kbps_of p = math_round p.audio_bitrate_kbps

-- The limits that the declared values break, each once.
unfoldable pub spec_breaches : SpecPayload → Limits → List Breach
unfolding video_kbps_of audio_kbps_of
spec_breaches p l =
    (if exceeds l.max_width p.width || exceeds l.max_height p.height
      then Breach.declared_resolution ∷ []
      else [])
    ++ (if exceeds l.max_fps p.fps then Breach.declared_fps ∷ [] else [])
    ++ (if exceeds l.max_video_bitrate_kbps (video_kbps_of p)
        then Breach.declared_bitrate ∷ []
        else [])
    ++ (if exceeds l.max_audio_bitrate_kbps (audio_kbps_of p) then Breach.audio_over ∷ [] else [])

pub data SpecAck : Type 0 where
  spec_allowed no_active_session : SpecAck
  spec_refused : List Breach → SpecAck

pub spec_metrics : SpecPayload → PublishSession → Metrics
unfolding or_zero video_kbps_of audio_kbps_of
spec_metrics p row = record {
  width = or_zero p.width row.metrics.width;
  height = or_zero p.height row.metrics.height;
  fps = or_zero p.fps row.metrics.fps;
  video_bitrate_kbps = or_zero (video_kbps_of p) row.metrics.video_bitrate_kbps;
  audio_bitrate_kbps = or_zero (audio_kbps_of p) row.metrics.audio_bitrate_kbps;
}

-- The answer, with the breaches of the limits.
unfoldable pub judge_spec : PublishSession → Bool → List Breach → Server → SpecAck × Server
unfolding log Sessions.update_status
judge_spec row strict [] s = (spec_allowed, s)
judge_spec row strict (b ∷ bs) s =
    let over : Override = record {
      status = some SessionStatus.violating;
      metrics = no_metrics;
      ended_at = none;
    } in
    let message =
      if strict
      then spec_rejected row.stream_name (b ∷ bs)
      else spec_exceeds_limits row.stream_name (b ∷ bs) in
    (
      if strict then spec_refused (b ∷ bs) else spec_allowed,
      log AuditLevel.warn AuditCategory.publish message row.stream_name row.event_id (
          emit (session_violation (snapshot_from_row row over) (b ∷ bs))
            (with_sessions (Sessions.update_status row.id SessionStatus.violating none none) s)),
    )

unfoldable pub handle_spec : Limits → ℕ → SpecPayload → Server → SpecAck × Server
unfolding spec_metrics judge_spec spec_breaches event_of get_limits_for
    Sessions.find_active_by_stream Sessions.update_metrics
handle_spec global now p s =
    elim (Sessions.find_active_by_stream p.stream_name s.db.sessions.rows) [
      | none ↦ (no_active_session, s)
      | some row ↦
          (let m = spec_metrics p row in
            let event = event_of row.event_id s.db.events.rows in
            let over : Override = record { status = none; metrics = m; ended_at = none } in
            judge_spec row (holds (λ e. e.strict_limits) event)
              (spec_breaches p (get_limits_for global event))
              (emit (session_metric (snapshot_from_row row over))
                (with_sessions (Sessions.update_metrics now row.id m) s)))
    ]
