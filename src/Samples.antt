-- ===== src/Samples.antt =====
-- Small tables and requests for the tests: one event with a stream key, a publish key and a publish
-- token, and one open session.
use constrainable.Base.{
  String, Bool, true, false, Option, some, none, [], ◌∷◌, Table, str_eq, str_append, str_take,
  if◌then◌else◌,
}
use constrainable.Schema.{
  Event, EventStatus, Visibility, StreamKey, PublishSession, SessionStatus, Limits,
}
use constrainable.Database.{Database}
use constrainable.Server.{Server, ActiveSession}
use constrainable.Server.Snapshot.{no_metrics}
use constrainable.Lifecycle.{PublishContext}
use constrainable.Lifecycle.Monitor.{ProbeResult}

-- A hash that is the token behind a mark.
abbrev pub verify : String → String → Bool
verify token hash = str_eq (str_append "#" token) hash

abbrev rest_of : String → String
rest_of
      (String.◌∷◌ a (String.◌∷◌ b (String.◌∷◌ c (String.◌∷◌ d (String.◌∷◌ e (String.◌∷◌ f s)))))) =
    s
rest_of s = s

-- The query of one parameter.
abbrev pub url_param : String → Option String
url_param q = if str_eq (str_take 6 q) "token=" then some (rest_of q) else none

abbrev pub no_rows {ℓ} : {A : Type ℓ} → Table A
no_rows = record { rows = []; next_id = 1 }

abbrev pub contest : Event
contest = record {
  id = 7;
  name = "Contest";
  slug = "contest";
  description = none;
  starts_at = some 1000000;
  ends_at = some 9000000;
  status = EventStatus.live;
  limits_override = none;
  record_enabled = true;
  strict_limits = false;
  enforce_measured_limits = false;
  require_account_auth = true;
  visibility = Visibility.registered;
  publish_token_hash = some "#classroom-token";
  publish_token_prefix = some "classroo";
  publish_key = some "contest";
  stream_guide = none;
  created_at = 500000;
  updated_at = 500000;
}

abbrev pub alice_key : StreamKey
alice_key = record {
  id = 3;
  event_id = 7;
  enrollment_id = none;
  stream_name = "alice";
  token_hash = "#secret";
  token_preview = "secr";
  revoked = false;
  last_used_at = none;
}

abbrev pub revoked_key : StreamKey
revoked_key = record alice_key { id = 4; stream_name = "bob"; revoked = true }

abbrev pub alice_row : PublishSession
alice_row = record {
  id = 1;
  event_id = some 7;
  stream_key_id = some 3;
  stream_name = "alice";
  node_id = none;
  last_metric_at = none;
  srs_client_id = some "c1";
  status = SessionStatus.allowed;
  reject_reason = none;
  metrics = no_metrics;
  compliant = false;
  started_at = 2000000;
  ended_at = none;
}

abbrev pub tables : Database
tables = record {
  users = no_rows;
  events = record { rows = contest ∷ []; next_id = 8 };
  bans = no_rows;
  aliases = [];
  students = no_rows;
  enrollments = no_rows;
  stream_keys = record { rows = alice_key ∷ revoked_key ∷ []; next_id = 5 };
  sessions = record { rows = alice_row ∷ []; next_id = 2 };
  groups = no_rows;
  user_groups = [];
  event_groups = [];
  invites = no_rows;
}

abbrev pub alice_loop : ActiveSession
alice_loop = record {
  session_id = 1;
  event_id = some 7;
  stream_name = "alice";
  app = "live";
  vhost = "v";
  client_id = "c1";
  started_at_ms = 2000000;
  active = true;
  event = some contest;
  metrics = no_metrics;
  status = SessionStatus.allowed;
  compliant = false;
}

abbrev pub server : Server
server = record {
  db = tables;
  audit_log = [];
  bus = [];
  recorder = [];
  monitors = alice_loop ∷ [];
  active = ("alice", 1) ∷ [];
}

abbrev pub publish : PublishContext
publish = record {
  app = "live";
  stream = "alice";
  vhost = "v";
  client_id = "c2";
  param = "?token=secret";
}

abbrev pub caps : Limits
caps = record {
  max_width = 1280;
  max_height = 720;
  max_fps = 30;
  max_video_bitrate_kbps = 0;
  max_audio_bitrate_kbps = 0;
}

abbrev pub too_wide : ProbeResult
too_wide = record { width = 1920; height = 1080; fps = 30; video_bitrate_kbps = 4000 }
