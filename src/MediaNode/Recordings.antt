-- ===== src/MediaNode/Recordings.antt =====
-- `handleRecordingReady` of app/server/services/media-node-handlers.ts. The table of recordings is read
-- by nothing else that is modelled, so it is the state here; the mean of the frame rates, a real
-- number, is left out.
pub mod Redelivery
use constrainable.Base.{
  ℕ, ◌+◌, ◌-◌, ◌*◌, String, not, Option, some, none, List, [], ◌∷◌, ◌++◌, if◌then◌else◌, or_else,
  filter, Table, any, ltb, str_eq, length, or_option,
}
use constrainable.Schema.Recording.{Recording}
use constrainable.Schema.{timestamp}
use constrainable.Database.Recordings

pub record Segment : Type 0 where
  pub rel_path : String
  pub size_bytes : ℕ
  pub duration_sec : ℕ

pub record RecordingReadyPayload : Type 0 where
  pub node_id : Option String
  pub stream_name : String
  pub event_id : Option ℕ
  pub session_id : Option ℕ
  pub segments : List Segment
  pub size_bytes : ℕ
  pub duration_sec : ℕ
  pub width : Option ℕ
  pub height : Option ℕ

-- app/shared/events.ts
pub record RecordingSnapshot : Type 0 where
  pub id : ℕ
  pub event_id : Option ℕ
  pub session_id : Option ℕ
  pub stream_name : String
  pub file_path : String
  pub size_bytes : ℕ
  pub duration_sec : ℕ
  pub started_at : ℕ

abbrev pub paths : List Segment → List String
paths [] = []
paths (x ∷ xs) = x.rel_path ∷ paths xs

abbrev pub total_size : List Segment → ℕ
total_size [] = 0
total_size (x ∷ xs) = x.size_bytes + total_size xs

-- payload.segments[0]?.relPath ?? ''
first_path : List Segment → String
first_path [] = ""
first_path (x ∷ xs) = x.rel_path

pub known_segments : Recording → List String
known_segments r = or_else r.segments (r.file_path ∷ [])

-- The segments whose path is not known.
abbrev pub fresh : List String → List Segment → List Segment
fresh known xs = filter (λ x. not (any (λ p. str_eq p x.rel_path) known)) xs

pub merge_segments : ℕ → RecordingReadyPayload → Recording → Recording
unfolding known_segments
merge_segments now p r =
    let new = fresh (known_segments r) p.segments in
    let before = or_else r.duration_sec 0 in
    record r {
      segments = some (known_segments r ++ paths new);
      size_bytes = r.size_bytes + total_size new;
      duration_sec = some (if ltb 0 (length new) then before + p.duration_sec else before);
      width = or_option p.width r.width;
      height = or_option p.height r.height;
      ended_at = some (timestamp now);
    }

recording_row : ℕ → RecordingReadyPayload → ℕ → Recording
unfolding first_path
recording_row now p i = record {
  id = i;
  event_id = p.event_id;
  session_id = p.session_id;
  stream_name = p.stream_name;
  student_label = none;
  node_id = p.node_id;
  segments = some (paths p.segments);
  file_path = first_path p.segments;
  size_bytes = p.size_bytes;
  duration_sec = some p.duration_sec;
  width = p.width;
  height = p.height;
  started_at = timestamp (now - p.duration_sec * 1000);
  ended_at = some (timestamp now);
}

recording_snapshot : ℕ → ℕ → RecordingReadyPayload → RecordingSnapshot
unfolding first_path
recording_snapshot now i p = record {
  id = i;
  event_id = p.event_id;
  session_id = p.session_id;
  stream_name = p.stream_name;
  file_path = first_path p.segments;
  size_bytes = p.size_bytes;
  duration_sec = p.duration_sec;
  started_at = now - p.duration_sec * 1000;
}

pub merge_target : RecordingReadyPayload → List Recording → Option Recording
unfolding Recordings.find_merge_target
merge_target p rs = elim p.event_id [
  | none ↦ none
  | some e ↦ Recordings.find_merge_target e p.stream_name rs
]

-- The snapshot is what goes to the bus.
pub handle_recording_ready :
    ℕ → RecordingReadyPayload → Table Recording → RecordingSnapshot × Table Recording
unfolding merge_target merge_segments recording_row recording_snapshot Recordings.update
    Recordings.insert
handle_recording_ready now p t = elim (merge_target p t.rows) [
  | some r ↦ (recording_snapshot now r.id p, Recordings.update r.id (merge_segments now p) t)
  | none ↦ (recording_snapshot now t.next_id p, Recordings.insert (recording_row now p) t)
]
