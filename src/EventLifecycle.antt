-- ===== src/EventLifecycle.antt =====
-- app/server/services/event-lifecycle.ts: the ticker that starts and ends events by their times. A
-- tick is one step: the source has no await in it. `connected node` says whether
-- app/server/services/media-node-ws.ts holds a connection of the node, so that its `kickStream` can
-- send a frame; the frames that a tick sends are part of its result, newest first.
pub mod Statuses
pub mod Cuts
mod Tests
use constrainable.Base.{
  ℕ, ◌+◌, String, Bool, not, ◌&&◌, ◌||◌, some, none, List, [], ◌∷◌, holds, leb, is_empty,
  if◌then◌else◌,
}
use constrainable.Schema.{Event, EventStatus, PublishSession, SessionStatus, is_live, is_scheduled}
use constrainable.Database.Events
use constrainable.Database.Sessions
use constrainable.Server.{
  Server, AuditLevel, AuditCategory, event_auto_started, event_auto_ended, stream_cut,
}
use constrainable.Server.Audit.{audit}
use constrainable.Lifecycle.{with_sessions}

-- A frame to a node, to drop a stream.
pub record Kick : Type 0 where
  pub node_id : String
  pub stream_name : String

-- `LifecycleResult`, with the state that the tick has reached.
pub record Tick : Type 0 where
  pub server : Server
  pub kicks : List Kick
  pub started : ℕ
  pub ended : ℕ
  pub killed : ℕ

-- ev.status === 'scheduled' && ev.startsAt && ev.startsAt.getTime() <= now
pub starts : ℕ → Event → Bool
starts now e = is_scheduled e.status && holds (λ t. leb t now) e.starts_at

pub ends : ℕ → Event → Bool
ends now e = (is_live e.status || is_scheduled e.status) && holds (λ t. leb t now) e.ends_at

pub set_status : ℕ → EventStatus → Server → Server
unfolding Events.update
set_status i status s = record s {
  db = record s.db { events = Events.update i (λ e. record e { status = status }) s.db.events };
}

module _ (connected : String → Bool) where
  -- Is the session on a node that can be told to drop it?
  pub reachable : PublishSession → Bool
  reachable r = holds (λ n. not (is_empty n) && connected n) r.node_id

  -- The body of the loop of `cutEventStreams`.
  pub cut_stream : ℕ → Event → PublishSession → Tick → Tick
  unfolding reachable Sessions.mark_ended
  cut_stream now e r t =
      let s : Server =
        if reachable r
        then t.server
        else with_sessions (Sessions.mark_ended r.id SessionStatus.ended now) t.server in
      record t {
        server =
            audit
              (record {
                level = AuditLevel.warn;
                category = AuditCategory.publish;
                message = stream_cut r.stream_name;
                actor = some r.stream_name;
                event_id = some e.id;
                stream_name = some r.stream_name;
              })
              s;
        kicks = elim r.node_id [
          | none ↦ t.kicks
          | some n ↦
              if reachable r
              then record { node_id = n; stream_name = r.stream_name } ∷ t.kicks
              else t.kicks
        ];
        killed = t.killed + 1;
      }

  pub cut_streams : ℕ → Event → List PublishSession → Tick → Tick
  unfolding cut_stream
  cut_streams now e [] t = t
  cut_streams now e (r ∷ rs) t = cut_streams now e rs (cut_stream now e r t)

  pub start_event : Event → Tick → Tick
  unfolding set_status
  start_event e t = record t {
    server =
        audit
          (record {
            level = AuditLevel.info;
            category = AuditCategory.system;
            message = event_auto_started e.name;
            actor = none;
            event_id = some e.id;
            stream_name = none;
          })
          (set_status e.id EventStatus.live t.server);
    started = t.started + 1;
  }

  pub end_event : ℕ → Event → Tick → Tick
  unfolding set_status cut_streams Sessions.find_active_by_event
  end_event now e t =
      let cut =
        cut_streams now e (Sessions.find_active_by_event e.id t.server.db.sessions.rows) t in
      record cut {
        server =
            audit
              (record {
                level = AuditLevel.warn;
                category = AuditCategory.system;
                message = event_auto_ended e.name;
                actor = none;
                event_id = some e.id;
                stream_name = none;
              })
              (set_status e.id EventStatus.ended cut.server);
        ended = cut.ended + 1;
      }

  -- The body of the loop over the events.
  pub tick_event : ℕ → Event → Tick → Tick
  unfolding starts ends start_event end_event
  tick_event now e t =
      if starts now e then start_event e t else if ends now e then end_event now e t else t

  pub tick_events : ℕ → List Event → Tick → Tick
  unfolding tick_event
  tick_events now [] t = t
  tick_events now (e ∷ es) t = tick_events now es (tick_event now e t)

  pub run_event_lifecycle : ℕ → Server → Tick
  unfolding tick_events Events.find_all
  run_event_lifecycle now s =
      tick_events now (Events.find_all s.db.events.rows)
        (record { server = s; kicks = []; started = 0; ended = 0; killed = 0 })
