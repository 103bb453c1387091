-- ===== src/Lifecycle/Monitor.antt =====
-- The loop of `monitorSession` of app/server/services/stream-lifecycle.ts, a round at a time, and
-- `checkLimits`.
use constrainable.Base.{
  ℕ, true, ◌||◌, Option, some, none, List, [], ◌∷◌, ◌++◌, update_where, ◌==◌, if◌then◌else◌,
}
use constrainable.Schema.{Event, SessionStatus}
use constrainable.Schema
use constrainable.Database.Sessions
use constrainable.Server.{
  Server, ActiveSession, Breach, resolution, fps_over, bitrate_over, session_metric,
  session_violation, AuditLevel, AuditCategory, violation, mark_compliant,
}
use constrainable.Server.Audit.{audit, emit}
use constrainable.Server.Snapshot.{snapshot}
use constrainable.Lifecycle.{with_sessions, exceeds, find_monitor}

pub record ProbeResult : Type 0 where
  pub width : ℕ
  pub height : ℕ
  pub fps : ℕ
  pub video_bitrate_kbps : ℕ

unfoldable pub check_limits : ProbeResult → Schema.Limits → List Breach
check_limits r l =
    (if exceeds l.max_width r.width || exceeds l.max_height r.height
      then resolution r.width r.height l.max_width l.max_height ∷ []
      else [])
    ++ ((if exceeds l.max_fps r.fps then fps_over r.fps l.max_fps ∷ [] else [])
        ++ (if exceeds l.max_video_bitrate_kbps r.video_bitrate_kbps
            then bitrate_over r.video_bitrate_kbps l.max_video_bitrate_kbps ∷ []
            else []))

-- The object of a monitor loop, changed.
abbrev pub with_monitor : ActiveSession → Server → Server
with_monitor m s = record s {
  monitors = update_where (λ o. o.session_id == m.session_id) (λ o. m) s.monitors;
}

-- What a round of the loop does with a probe's result, the object's metrics already set.
unfoldable pub judge : ℕ → List Breach → ProbeResult → ActiveSession → Server → Server
unfolding Sessions.update_status
judge now [] r m s =
    if m.compliant
    then s
    else (let m' = record m { compliant = true; status = SessionStatus.compliant } in
        let s1 = with_monitor m' s in
        let s2 =
          with_sessions
            (Sessions.update_status m.session_id SessionStatus.compliant none (some true)) s1 in
        let s3 = record s2 {
          recorder = mark_compliant m.stream_name r.width r.height r.fps ∷ s2.recorder;
        } in
        emit (session_metric (snapshot m' none)) s3)
judge now (b ∷ bs) r m s =
    let m' = record m { status = SessionStatus.violating } in
    let s1 = with_monitor m' s in
    let s2 =
      with_sessions (Sessions.update_status m.session_id SessionStatus.violating none none) s1 in
    audit
      (record {
        level = AuditLevel.warn;
        category = AuditCategory.publish;
        message = violation m.stream_name (b ∷ bs);
        actor = some m.stream_name;
        event_id = m.event_id;
        stream_name = some m.stream_name;
      })
      (emit (session_violation (snapshot m' none) (b ∷ bs)) s2)

-- The object of a loop with the metrics of a probe.
abbrev pub measured : ProbeResult → ActiveSession → ActiveSession
measured r m = record m {
  metrics = record m.metrics {
    width = some r.width;
    height = some r.height;
    fps = some r.fps;
    video_bitrate_kbps = some r.video_bitrate_kbps;
  };
}

-- A round of a loop that is to go on, with the result of its probe.
unfoldable pub active_round : ℕ → Schema.Limits → ProbeResult → ActiveSession → Server → Server
unfolding judge check_limits Sessions.update_metrics
active_round now limits r m s =
    let m' = measured r m in
    let s1 = with_monitor m' s in
    let s2 = with_sessions (Sessions.update_metrics now m.session_id m'.metrics) s1 in
    judge now (check_limits r limits) r m' (emit (session_metric (snapshot m' none)) s2)

-- One round of the loop, from the end of the probe to the next sleep. `limits` is what
-- `getLimitsFor` gives for the loop's event at this time.
unfoldable pub monitor_round :
    ℕ → (Option Event → Schema.Limits) → ℕ → Option ProbeResult → Server → Server
unfolding find_monitor active_round
monitor_round now limits i result s = elim (find_monitor i s.monitors) [
  | none ↦ s
  | some m ↦ elim result [
    | none ↦ s
    | some r ↦ if m.active then active_round now (limits m.event) r m s else s
  ]
]
