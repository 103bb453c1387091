-- ===== src/Reconcile.antt =====
-- app/server/services/reconcile.ts: the sweep that closes sessions whose publisher is gone. A sweep
-- is one step: no other handler runs between its awaits. `live` is the answer of the local SRS
-- (`listLiveStreamNames`), none when it cannot be reached.
pub mod Newest
pub mod Sweep
mod Tests
use constrainable.Base.{
  ℕ, ◌-◌, String, Bool, not, ◌&&◌, Option, some, none, List, [], ◌∷◌, filter, any, ltb, ◌==◌, holds,
  str_eq, map_get, map_set, if◌then◌else◌,
}
use constrainable.Schema.{PublishSession}
use constrainable.Database.Sessions
use constrainable.Server.{
  Server, session_stop, AuditLevel, AuditCategory, reconciled_stale_session, stop_recording,
}
use constrainable.Server.Audit.{audit, emit}
use constrainable.Lifecycle.{final_status, with_sessions}

abbrev pub remote_stale_ms : ℕ
remote_stale_ms = 90000

abbrev pub remote_grace_ms : ℕ
remote_grace_ms = 120000

abbrev pub is_remote : PublishSession → Bool
is_remote s = holds (λ n. not (str_eq n "")) s.node_id

-- The node has not reported for too long.
pub remote_stale : ℕ → PublishSession → Bool
remote_stale now s = elim s.last_metric_at [
  | some last ↦ ltb remote_stale_ms (now - last)
  | none ↦ ltb remote_grace_ms (now - s.started_at)
]

-- The loop that builds the map `newestByName`.
pub note_newest : PublishSession → List (String × ℕ) → List (String × ℕ)
unfolding map_get map_set
note_newest s m = elim (map_get s.stream_name m) [
  | none ↦ map_set s.stream_name s.id m
  | some cur ↦ if ltb cur s.id then map_set s.stream_name s.id m else m
]

pub newest_by_name : List PublishSession → List (String × ℕ) → List (String × ℕ)
unfolding note_newest
newest_by_name [] m = m
newest_by_name (s ∷ ss) m = newest_by_name ss (note_newest s m)

pub contains : String → List String → Bool
contains name names = any (λ n. str_eq n name) names

-- A local session that is not live, or not the newest of its name.
pub local_ghost : List String → List (String × ℕ) → PublishSession → Bool
unfolding contains map_get
local_ghost live newest s =
    not (contains s.stream_name live && holds (λ i. i == s.id) (map_get s.stream_name newest))

pub close_ghost : ℕ → PublishSession → Server → Server
close_ghost now g s =
    let status = final_status g.compliant in
    let s1 = with_sessions (Sessions.mark_ended g.id status now) s in
    let stop = stop_recording g.stream_name g.event_id g.id in
    let s2 = record s1 { recorder = if is_remote g then s1.recorder else stop ∷ s1.recorder } in
    audit
      (record {
        level = AuditLevel.warn;
        category = AuditCategory.publish;
        message = reconciled_stale_session g.stream_name g.id;
        actor = some g.stream_name;
        event_id = none;
        stream_name = some g.stream_name;
      })
      (emit
        (session_stop (record {
          session_id = g.id;
          event_id = g.event_id;
          stream_name = g.stream_name;
          status = status;
          srs_client_id = g.srs_client_id;
          node_id = none;
          metrics = g.metrics;
          compliant = g.compliant;
          reject_reason = g.reject_reason;
          started_at = g.started_at;
          ended_at = some now;
        }))
        s2)

pub close_ghosts : ℕ → List PublishSession → Server → Server
unfolding close_ghost
close_ghosts now [] s = s
close_ghosts now (g ∷ gs) s = close_ghosts now gs (close_ghost now g s)

pub remote_ghosts : ℕ → List PublishSession → List PublishSession
unfolding remote_stale
remote_ghosts now open_rows = filter (λ s. remote_stale now s) (filter (λ s. is_remote s) open_rows)

pub local_ghosts : Option (List String) → List PublishSession → List PublishSession
unfolding local_ghost newest_by_name
local_ghosts none open_rows = []
local_ghosts (some live) open_rows =
    let local = filter (λ s. not (is_remote s)) open_rows in
    filter (λ s. local_ghost live (newest_by_name local []) s) local

-- The early returns of the source are the sweeps that close nothing more.
pub reconcile_stale_sessions : ℕ → Option (List String) → Server → Server
unfolding close_ghosts remote_ghosts local_ghosts Sessions.find_active
reconcile_stale_sessions now live s =
    let open_rows = Sessions.find_active none s.db.sessions.rows in
    close_ghosts now (local_ghosts live open_rows)
      (close_ghosts now (remote_ghosts now open_rows) s)
