-- ===== src/MediaNode/Starts.antt =====
-- `handlePublishStart` of app/server/services/media-node-handlers.ts: a publisher at a media node.
-- `global` are the limits of the configuration, `record_on` is its `record.enabled`. An error that is
-- thrown, for which the source has a catch, is not modelled: the calls do not throw.
use constrainable.Base.{
  ℕ, String, Bool, true, false, ◌&&◌, ◌||◌, Option, some, none, if◌then◌else◌, is_empty, holds,
  str_append, str_eq,
}
use constrainable.Schema.{Limits, User, PublishSession, SessionStatus, Reason, timestamp}
use constrainable.Database.{Database}
use constrainable.Database.Sessions
use constrainable.Database.Users
use constrainable.Registry.{Registry, adjust_stream_count, get_node, rtmp_authority, obs_server_url}
use constrainable.Server.{
  AuditLevel, AuditCategory, session_start, node_publish_rejected, wrong_node, node_publish_started,
}
use constrainable.Server.Audit.{emit}
use constrainable.Server.Snapshot.{no_metrics, non_empty, snapshot_from_row}
use constrainable.Access.{Allowed, allow, reject, authorize_publish}
use constrainable.Lifecycle.{with_sessions}
use constrainable.ConfigStore.{get_limits_for}
use constrainable.MediaNode.{Hub, on_server, emit_nodes_changed, log, event_of, no_override}

pub record PublishStartPayload : Type 0 where
  pub node_id : String
  pub stream_name : String
  pub token : String
  pub authed_user : String
  pub srs_client_id : String

pub data Refusal : Type 0 where
  not_authorized : Reason → Refusal
  -- with the server of the selected node, if it is connected and public
  node_locked : Option String → Refusal

pub record Grant : Type 0 where
  pub session_id : ℕ
  pub event_id : Option ℕ
  pub event_key : String
  pub limits : Limits
  pub strict : Bool
  pub measured : Bool
  pub record_flag : Bool

pub data PublishAck : Type 0 where
  granted : Grant → PublishAck
  refused : Refusal → PublishAck

-- The node that the user is locked to, if the publisher came through another.
unfoldable pub wrong_lock : String → Option User → Option String
wrong_lock node none = none
wrong_lock node (some u) = elim u.node_id [
  | none ↦ none
  | some n ↦ if is_empty n || is_empty node || str_eq n node then none else some n
]

-- The address that the selected node has, if any.
pinned_server : String → Registry → Option String
pinned_server node r = elim (get_node node r) [
  | none ↦ none
  | some n ↦ if is_empty (rtmp_authority n) then none else some (obs_server_url (rtmp_authority n))
]

unfoldable pub remote_row : ℕ → PublishStartPayload → Allowed → ℕ → PublishSession
remote_row now p a i = record {
  id = i;
  event_id = a.event_id;
  stream_key_id = a.stream_key_id;
  stream_name = p.stream_name;
  node_id = some p.node_id;
  last_metric_at = none;
  srs_client_id = non_empty p.srs_client_id;
  status = SessionStatus.allowed;
  reject_reason = none;
  metrics = no_metrics;
  compliant = false;
  started_at = timestamp now;
  ended_at = none;
}

-- Who is admitted and comes through the right node.
unfoldable pub grant_publish :
    Limits → Bool → ℕ → PublishStartPayload → Allowed → Hub → PublishAck × Hub
unfolding remote_row event_of log on_server emit_nodes_changed get_limits_for no_override
    Sessions.insert
grant_publish global record_on now p a h =
    let event = event_of a.event_id h.server.db.events.rows in
    let row = remote_row now p a h.server.db.sessions.next_id in
    let h1 = on_server (with_sessions (Sessions.insert (remote_row now p a))) h in
    let h2 =
      emit_nodes_changed (record h1 { registry = adjust_stream_count p.node_id 1 0 h1.registry }) in
    (
      granted (record {
        session_id = row.id;
        event_id = a.event_id;
        event_key = elim event [ none ↦ "" | some e ↦ e.slug ];
        limits = get_limits_for global event;
        strict = holds (λ e. e.strict_limits) event;
        measured = holds (λ e. e.enforce_measured_limits) event;
        record_flag = record_on && (elim event [ none ↦ true | some e ↦ e.record_enabled ]);
      }),
      on_server
          (λ s.
            log AuditLevel.info AuditCategory.publish (node_publish_started p.stream_name)
              p.stream_name a.event_id (emit (session_start (snapshot_from_row row no_override)) s))
          h2,
    )

unfoldable pub with_db : Database → Hub → Hub
with_db db h = record h { server = record h.server { db = db } }

module _ (url_param : String → Option String) (verify : String → String → Bool) where
  unfoldable pub handle_publish_start :
      Limits → Bool → ℕ → PublishStartPayload → Hub → PublishAck × Hub
  unfolding with_db log on_server wrong_lock pinned_server grant_publish authorize_publish
      Users.find_by_email
  handle_publish_start global record_on now p h =
      let (auth, db) =
        authorize_publish url_param verify now h.server.db p.stream_name
          (str_append "?token=" p.token) in
      let h1 = with_db db h in
      elim auth [
        | reject reason ↦ (
          refused (not_authorized reason),
          on_server
              (log AuditLevel.warn AuditCategory.access (node_publish_rejected p.stream_name reason)
                p.stream_name none)
              h1,
        )
        | allow a ↦
            elim (wrong_lock p.node_id
              (Users.find_by_email p.stream_name h1.server.db.users.rows)) [
                | some lock ↦ (
                  refused (node_locked (pinned_server lock h1.registry)),
                  on_server
                      (log AuditLevel.warn AuditCategory.access
                        (wrong_node p.stream_name p.node_id lock) p.stream_name none)
                      h1,
                )
                | none ↦ grant_publish global record_on now p a h1
              ]
      ]
