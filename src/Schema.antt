-- ===== src/Schema.antt =====
-- app/server/database/schema.ts: the rows of the tables, with the columns that the modelled code
-- reads or writes. A time is a number of milliseconds since the epoch; a column of mode
-- `timestamp` holds whole seconds, so that what is written to it is cut by `timestamp`.
mod Status
pub mod Recording
pub use Status.*
use constrainable.Base.{ℕ, ◌*◌, ◌/◌, String, Bool, Option}

-- integer(…, { mode: 'timestamp' })
unfoldable pub timestamp : ℕ → ℕ
timestamp ms = ms / 1000 * 1000

-- shared/config.ts: a value of 0 means that there is no limit
pub record Limits : Type 0 where
  pub max_width : ℕ
  pub max_height : ℕ
  pub max_fps : ℕ
  pub max_video_bitrate_kbps : ℕ
  pub max_audio_bitrate_kbps : ℕ

-- A JSON column of the events table: the fields that are set override the global limits. Rows
-- from before a rename hold the video cap as `max_bitrate_kbps`.
pub record LimitsOverride : Type 0 where
  pub max_width : Option ℕ
  pub max_height : Option ℕ
  pub max_fps : Option ℕ
  pub max_video_bitrate_kbps : Option ℕ
  pub max_bitrate_kbps : Option ℕ
  pub max_audio_bitrate_kbps : Option ℕ

pub record User : Type 0 where
  pub id : ℕ
  pub email : String
  pub password_hash : String
  pub role : Role
  pub node_id : Option String
  pub authmod_salt : Option String
  pub authmod_verifier : Option String
  pub dashboard_notice : Option String
  pub announcement : Option String
  pub created_at : ℕ

pub record Event : Type 0 where
  pub id : ℕ
  pub name : String
  pub slug : String
  pub description : Option String
  pub starts_at : Option ℕ
  pub ends_at : Option ℕ
  pub status : EventStatus
  pub limits_override : Option LimitsOverride
  pub record_enabled : Bool
  pub strict_limits : Bool
  pub enforce_measured_limits : Bool
  pub require_account_auth : Bool
  pub visibility : Visibility
  pub publish_token_hash : Option String
  pub publish_token_prefix : Option String
  pub publish_key : Option String
  pub stream_guide : Option String
  pub created_at : ℕ
  pub updated_at : ℕ

-- One row for each user and node: what the user's browser measured on its last visit.
pub record NodeLatency : Type 0 where
  pub user_id : ℕ
  pub node_id : String
  pub latency_ms : ℕ

pub record NodeSetting : Type 0 where
  pub node_id : String
  pub max_users : ℕ

pub record StreamBan : Type 0 where
  pub id : ℕ
  pub email : String
  -- none: site-wide
  pub event_id : Option ℕ
  pub reason : Option String
  pub banned_by : Option String
  pub created_at : ℕ

pub record EventSlugAlias : Type 0 where
  pub old_slug : String
  pub event_id : ℕ

pub record Student : Type 0 where
  pub id : ℕ
  pub student_number : String
  pub name : String
  pub email : Option String

pub record Enrollment : Type 0 where
  pub id : ℕ
  pub event_id : ℕ
  pub student_id : ℕ
  pub seat_label : Option String
  pub status : EnrollmentStatus

pub record StreamKey : Type 0 where
  pub id : ℕ
  pub event_id : ℕ
  pub enrollment_id : Option ℕ
  pub stream_name : String
  pub token_hash : String
  pub token_preview : String
  pub revoked : Bool
  pub last_used_at : Option ℕ

-- What a probe or a media node measures of a stream.
pub record Metrics : Type 0 where
  pub width : Option ℕ
  pub height : Option ℕ
  pub fps : Option ℕ
  pub video_bitrate_kbps : Option ℕ
  pub audio_bitrate_kbps : Option ℕ

pub record PublishSession : Type 0 where
  pub id : ℕ
  pub event_id : Option ℕ
  pub stream_key_id : Option ℕ
  pub stream_name : String
  -- none: a local session
  pub node_id : Option String
  pub last_metric_at : Option ℕ
  pub srs_client_id : Option String
  pub status : SessionStatus
  pub reject_reason : Option Reason
  pub metrics : Metrics
  pub compliant : Bool
  pub started_at : ℕ
  pub ended_at : Option ℕ

pub record Group : Type 0 where
  pub id : ℕ
  pub name : String
  pub description : Option String
  pub created_at : ℕ

pub record UserGroup : Type 0 where
  pub user_id : ℕ
  pub group_id : ℕ

pub record EventGroup : Type 0 where
  pub event_id : ℕ
  pub group_id : ℕ

pub record InviteLink : Type 0 where
  pub id : ℕ
  pub code : String
  pub group_id : ℕ
  pub created_by : Option ℕ
  -- none: unlimited
  pub max_uses : Option ℕ
  pub used_count : ℕ
  pub expires_at : Option ℕ
  pub active : Bool
  pub note : Option String
