-- ===== src/Archive.antt =====
-- app/server/services/recordings.ts and app/server/services/retention.ts: the catalogue of recordings and
-- their files. Files are the paths below `RECORD_DIR` that are there; `rmSync` with `force` does not
-- throw. The relay of files from a node is not modelled; `connected` says which nodes have a channel.
pub mod Retention
mod Tests
use constrainable.Base.{
  ℕ, ◌-◌, ◌*◌, String, Bool, true, not, ◌&&◌, ◌||◌, Option, some, none, List, [], ◌∷◌, map, filter,
  any, length, holds, is_empty, ltb, or_else, ◌==◌, str_eq, to_lower_case, includes, Table, Result,
  ok, http_error, if◌then◌else◌,
}
use constrainable.Schema.{PublishSession, timestamp}
use constrainable.Schema.Recording.{Recording}
use constrainable.Database.Recordings
use constrainable.Database.Sessions
use constrainable.Server.{
  Server, AuditLevel, AuditCategory, Message, retention_deleted, recording_deleted,
}
use constrainable.Server.Audit.{audit}

-- A file below `_tmp`, with the time of its last change.
pub record TmpFile : Type 0 where
  pub name : String
  pub mtime_ms : ℕ

-- A `recording_delete` frame to a node.
pub record DeleteFrame : Type 0 where
  pub node_id : String
  pub paths : List String

pub record Archive : Type 0 where
  pub server : Server
  pub recordings : Table Recording
  pub files : List String
  pub tmp : List TmpFile
  -- newest first
  pub frames : List DeleteFrame

-- row.segments ? JSON.parse(row.segments) : [row.filePath]
pub segments_of : Recording → List String
segments_of r = or_else r.segments (r.file_path ∷ [])

-- The node that holds the files of a recording, if any: the empty text is none.
hosting_node_id_of : Recording → List PublishSession → Option String
unfolding Sessions.find_by_id
hosting_node_id_of r ss =
    let of_session : Option String = elim r.session_id [
      | none ↦ none
      | some i ↦ if i == 0 then none else elim (Sessions.find_by_id i ss) [
        | none ↦ none
        | some s ↦ if holds is_empty s.node_id then none else s.node_id
      ]
    ] in
    elim r.node_id [ none ↦ of_session | some n ↦ if is_empty n then of_session else some n ]

pub record RecordingView : Type 0 where
  pub recording : Recording
  pub hosting_node : Option String
  -- none: the files are here
  pub node_online : Option Bool

unfoldable pub to_view :
    (connected : String → Bool) → List PublishSession → Recording → RecordingView
unfolding hosting_node_id_of
to_view connected ss r = record {
  recording = r;
  hosting_node = hosting_node_id_of r ss;
  node_online = elim (hosting_node_id_of r ss) [ none ↦ none | some n ↦ some (connected n) ];
}

-- The filters of a list; `local_day` gives the day of a time in the zone of the server.
pub record RecordingFilters : Type 0 where
  pub event_id : Option ℕ
  pub date : Option String
  pub q : Option String

matches : (local_day : ℕ → String) → RecordingFilters → Recording → Bool
matches local_day f r =
    (elim f.event_id [ none ↦ true | some e ↦ (e == 0) || holds (λ x. x == e) r.event_id ])
    && (elim f.date [ none ↦ true | some d ↦ is_empty d || str_eq (local_day r.started_at) d ])
    && (elim f.q [
      | none ↦ true
      | some q ↦
          is_empty q
          || includes (to_lower_case q) (to_lower_case r.stream_name)
          || includes (to_lower_case q) (to_lower_case (or_else r.student_label ""))
    ])

unfoldable pub list_recordings :
    (connected : String → Bool) (local_day : ℕ → String)
    → RecordingFilters
    → Archive
    → List RecordingView
unfolding to_view matches Recordings.find_all
list_recordings connected local_day f a =
    map (to_view connected a.server.db.sessions.rows)
      (filter (matches local_day f) (Recordings.find_all a.recordings.rows))

unfoldable pub get_recording : (connected : String → Bool) → ℕ → Archive → Result RecordingView
unfolding to_view Recordings.find_by_id
get_recording connected i a = elim (Recordings.find_by_id i a.recordings.rows) [
  | none ↦ http_error 404 "recording not found"
  | some r ↦ ok (to_view connected a.server.db.sessions.rows r)
]

abbrev pub is_file : String → List String → Bool
is_file path files = any (λ f. str_eq f path) files

-- The segments of a recording: those of a node as they are, and those here that are there.
unfoldable pub resolve_segments : ℕ → Archive → Result (List String)
unfolding segments_of hosting_node_id_of Recordings.find_by_id
resolve_segments i a = elim (Recordings.find_by_id i a.recordings.rows) [
  | none ↦ http_error 404 "recording not found"
  | some r ↦ elim (hosting_node_id_of r a.server.db.sessions.rows) [
    | some n ↦ ok (segments_of r)
    | none ↦ ok (filter (λ path. is_file path a.files) (segments_of r))
  ]
]

abbrev pub remove_file : String → List String → List String
remove_file path files = filter (λ f. not (str_eq f path)) files

pub remove_files : List String → List String → List String
remove_files [] files = files
remove_files (p ∷ ps) files = remove_files ps (remove_file p files)

log_recording : AuditLevel → Message → Option ℕ → Option String → Server → Server
log_recording level message event stream s =
    audit
      (record {
        level = level;
        category = AuditCategory.recording;
        message = message;
        actor = none;
        event_id = event;
        stream_name = stream;
      })
      s

-- `sendRecordingDelete`: a frame, if the node has a channel.
tell_node :
    (connected : String → Bool) → Option String → List String → List DeleteFrame → List DeleteFrame
tell_node connected none paths frames = frames
tell_node connected (some n) paths frames =
    if connected n then record { node_id = n; paths = paths } ∷ frames else frames

unfoldable pub delete_recording :
    (connected : String → Bool) → ℕ → Archive → Result {0} Unit × Archive
unfolding segments_of hosting_node_id_of remove_files log_recording tell_node Recordings.find_by_id
    Recordings.remove
delete_recording connected i a = elim (Recordings.find_by_id i a.recordings.rows) [
  | none ↦ (http_error 404 "recording not found", a)
  | some r ↦ (
    ok tt,
    record a {
      server =
          log_recording AuditLevel.warn (recording_deleted r.stream_name) r.event_id
            (some r.stream_name) a.server;
      recordings = Recordings.remove i a.recordings;
      files = remove_files (segments_of r) a.files;
      frames =
          tell_node connected (hosting_node_id_of r a.server.db.sessions.rows) (segments_of r)
            a.frames;
    },
  )
]

-- The loop over the recordings that have expired.
pub drop_expired : List Recording → Archive → Archive
unfolding segments_of remove_files Recordings.remove
drop_expired [] a = a
drop_expired (r ∷ rs) a = drop_expired rs (record a {
  recordings = Recordings.remove r.id a.recordings;
  files = remove_files (segments_of r) a.files;
})

pub record RetentionResult : Type 0 where
  pub deleted : ℕ
  pub orphans : ℕ

-- 86_400_000
abbrev pub day_ms : ℕ
day_ms = 86400000

-- maxAgeMs of cleanOrphanTmp
abbrev pub max_tmp_age_ms : ℕ
max_tmp_age_ms = 3600000

abbrev pub is_orphan : ℕ → TmpFile → Bool
is_orphan now f = ltb max_tmp_age_ms (now - f.mtime_ms)

pub clean_orphan_tmp : ℕ → Archive → ℕ × Archive
clean_orphan_tmp now a = (
  length (filter (is_orphan now) a.tmp),
  record a { tmp = filter (λ f. not (is_orphan now f)) a.tmp },
)

-- The column of the start holds whole seconds, to which the cutoff is cut too. A cutoff before the
-- epoch is below every start.
pub sweep_expired : ℕ → (retention_days : ℕ) → Archive → ℕ × Archive
unfolding drop_expired log_recording Recordings.find_expired
sweep_expired now days a =
    if days == 0
    then (0, a)
    else (let expired =
          Recordings.find_expired (timestamp (now - days * day_ms)) a.recordings.rows in
        let a' = drop_expired expired a in
        let n = length expired in
        (
          n,
          if n == 0 then a' else record a' {
            server = log_recording AuditLevel.info (retention_deleted n) none none a'.server;
          },
        ))

pub run_retention : ℕ → (retention_days : ℕ) → Archive → RetentionResult × Archive
unfolding sweep_expired clean_orphan_tmp
run_retention now days a =
    let swept = sweep_expired now days a in
    let cleaned = clean_orphan_tmp now swept.1 in
    (record { deleted = swept.0; orphans = cleaned.0 }, cleaned.1)
