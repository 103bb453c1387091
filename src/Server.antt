-- ===== src/Server.antt =====
-- What the services of app/server/services/ read and write: the database, the maps that they keep
-- in memory, and what they send out. What is sent is a list, newest first, so that a theorem can
-- say what an operation has sent.
pub mod Audit
pub mod Snapshot
use constrainable.Base.{ℕ, String, Bool, Option, List}
use constrainable.Schema.{SessionStatus, Reason, Metrics, Event, Role}
use constrainable.Database.{Database}

-- app/shared/events.ts
pub record SessionSnapshot : Type 0 where
  pub session_id : ℕ
  pub event_id : Option ℕ
  pub stream_name : String
  pub status : SessionStatus
  pub srs_client_id : Option String
  pub node_id : Option String
  pub metrics : Metrics
  pub compliant : Bool
  pub reject_reason : Option Reason
  pub started_at : ℕ
  pub ended_at : Option ℕ

pub data AuditLevel : Type 0 where
  info warn error : AuditLevel

pub data AuditCategory : Type 0 where
  auth publish access config recording system admin : AuditCategory

-- One limit that a stream breaks: what it has, and what is allowed.
pub data Breach : Type 0 where
  resolution : (width height max_width max_height : ℕ) → Breach
  fps_over : (fps max_fps : ℕ) → Breach
  bitrate_over : (kbps max_kbps : ℕ) → Breach
  audio_over : Breach
  declared_resolution declared_fps declared_bitrate : Breach
  -- a text that a media node has sent
  measured_breach : String → Breach

-- The texts of the audit log, each by what its template names.
pub data Message : Type 0 where
  publish_rejected : String → Reason → Message
  superseded_zombie_session : ℕ → String → Message
  publish_started publish_ended : String → Message
  violation : String → List Breach → Message
  reconciled_stale_session : String → ℕ → Message
  event_auto_started event_auto_ended : String → Message
  stream_cut : String → Message
  node_publish_rejected : String → Reason → Message
  wrong_node : String → String → String → Message
  node_publish_started node_publish_ended : String → Message
  spec_rejected spec_exceeds_limits : String → List Breach → Message
  node_violation : String → List String → Message
  authmod_unknown_user : Message
  authmod_wrong_password : String → Message
  stream_ban : Option ℕ → String → Message
  stream_ban_lifted : String → Message
  invite_created : ℕ → Message
  invite_deactivated invite_deleted invite_consumed : String → Message
  event_created event_updated event_deleted : String → Message
  -- with a text of the caller's choice, or a random one
  publish_token_set publish_key_set : (is_custom : Bool) → String → Message
  publish_token_cleared publish_key_cleared : String → Message
  key_generated : String → String → Message
  key_revoked_message : String → Message
  roster_imported : ℕ → ℕ → Message
  roster_entry_removed : ℕ → Message
  announcement_assigned : String → Message
  registered : String → Role → Message
  logged_in failed_login : String → Message
  code_sent code_send_failed : String → Message
  user_deleted : String → Message
  announcement_changed : (is_set : Bool) → String → Message
  -- with the node, if one is set
  node_assigned : String → Option String → Message
  node_self_selected : String → String → Message
  -- how many rows
  retention_deleted : ℕ → Message
  recording_deleted : String → Message
  group_created group_updated group_deleted groups_set role_changed : String → Message

pub record AuditEntry : Type 0 where
  pub level : AuditLevel
  pub category : AuditCategory
  pub message : Message
  pub actor : Option String
  pub event_id : Option ℕ
  pub stream_name : Option String

-- app/server/services/media-node-registry.ts
pub record MediaNodeInfo : Type 0 where
  pub node_id : String
  pub socket_id : String
  pub identifier : String
  pub public_origin : String
  pub public_rtmp_port : ℕ
  pub public_probe_udp_port : ℕ
  pub public_srs_udp_port : ℕ
  pub hostname : String
  pub version : String
  pub connected_at : ℕ
  pub active_streams : ℕ
  pub srs_flv_base : String

pub data BusEvent : Type 0 where
  session_start session_metric session_stop : SessionSnapshot → BusEvent
  session_violation : SessionSnapshot → List Breach → BusEvent
  audit_created : AuditEntry → BusEvent
  nodes_changed : List MediaNodeInfo → BusEvent

pub data RecorderCall : Type 0 where
  start_recording : (stream app vhost client_id : String) → RecorderCall
  mark_compliant : (stream : String) (width height fps : ℕ) → RecorderCall
  stop_recording : (stream : String) (event_id : Option ℕ) (session_id : ℕ) → RecorderCall

-- An `ActiveSession` object of app/server/services/stream-lifecycle.ts, with what its monitor loop
-- holds: the event it was started for and its metrics. The map `active` and the loop share the
-- object, so it is kept once, under its session id.
pub record ActiveSession : Type 0 where
  pub session_id : ℕ
  pub event_id : Option ℕ
  pub stream_name : String
  pub app : String
  pub vhost : String
  pub client_id : String
  pub started_at_ms : ℕ
  pub active : Bool
  pub event : Option Event
  pub metrics : Metrics
  pub status : SessionStatus
  pub compliant : Bool

pub record Server : Type 0 where
  pub db : Database
  pub audit_log : List AuditEntry
  pub bus : List BusEvent
  pub recorder : List RecorderCall
  -- the objects of the monitor loops
  pub monitors : List ActiveSession
  -- the map `active`: stream name and session id
  pub active : List (String × ℕ)
