-- ===== src/Access.antt =====
-- app/server/services/access-control.ts: may this publisher stream now?
-- Arguments: `url_param`, the value that `new URLSearchParams(q).get('token')` has for a query `q`, and
-- `verify`, the check of a token against a stored hash: `verify_token` of constrainable.Password, but
-- the theorems hold of any.
pub mod Soundness
pub mod Reasons
pub mod Shared
mod Tests
use Prim.Native.Char.{code}
use constrainable.Base.{
  ℕ, String, Bool, not, ◌&&◌, Option, some, none, List, [], ◌∷◌, find?, any, holds, or_option,
  str_length, str_take, is_empty, ltb, ◌==◌, if◌then◌else◌,
}
use constrainable.Schema.{
  Event, EventStatus, StreamKey, Reason, event_closed, event_not_published_yet,
  event_not_started_yet, event_ended, event_not_started, missing_token, bad_token, key_revoked,
  unknown_stream_name, is_live,
}
use constrainable.Database.{Database}
use constrainable.Database.Events
use constrainable.Database.StreamKeys

pub record Allowed : Type 0 where
  pub event_id : Option ℕ
  -- none: open access with the event's shared credential (the source has -1)
  pub stream_key_id : Option ℕ
  pub student_label : Option String

pub data AuthResult : Type 0 where
  allow : Allowed → AuthResult
  reject : Reason → AuthResult

-- param.startsWith('?') ? param.slice(1) : param
pub query_of : String → String
query_of String.[] = String.[]
query_of (String.◌∷◌ c s) = if code c == b'?' then s else String.◌∷◌ c s

pub parse_token : (String → Option String) → String → Option String
unfolding query_of
parse_token url_param param = if is_empty param then none else url_param (query_of param)

pub publish_closed_reason : Option EventStatus → Reason
publish_closed_reason none = event_closed
publish_closed_reason (some EventStatus.draft) = event_not_published_yet
publish_closed_reason (some EventStatus.scheduled) = event_not_started_yet
publish_closed_reason (some EventStatus.ended) = event_ended
publish_closed_reason (some _) = event_closed

-- none: within the window
pub within_window : ℕ → Event → Option Reason
within_window now e =
    if holds (λ t. ltb now t) e.starts_at
    then some event_not_started
    else if holds (λ t. ltb t now) e.ends_at
    then some event_ended
    else none

resolve_student_label : Database → Option ℕ → Option String
resolve_student_label db none = none
resolve_student_label db (some i) =
    if i == 0 then none else elim (find? (λ r. r.id == i) db.enrollments.rows) [
      | none ↦ none
      | some enrollment ↦ elim (find? (λ r. r.id == enrollment.student_id) db.students.rows) [
        | none ↦ none
        | some student ↦ some student.name
      ]
    ]

-- The event with a status and a window that admit publishers, or why not.
pub admit : ℕ → Option Event → Allowed → AuthResult
unfolding publish_closed_reason within_window
admit now none a = reject (publish_closed_reason none)
admit now (some e) a =
    if is_live e.status
    then elim (within_window now e) [ none ↦ allow a | some r ↦ reject r ]
    else reject (publish_closed_reason (some e.status))

-- What a matching key of a live event grants.
unfoldable pub key_grant : Database → StreamKey → Allowed
unfolding resolve_student_label
key_grant db key = record {
  event_id = some key.event_id;
  stream_key_id = some key.id;
  student_label = resolve_student_label db key.enrollment_id;
}

-- Path 1, with the key that matched: the key is touched only if its event admits.
pub authorize_key : ℕ → Database → StreamKey → AuthResult × Database
unfolding admit key_grant Events.find_by_id StreamKeys.touch
authorize_key now db key =
    let event = Events.find_by_id key.event_id db.events.rows in
    elim (admit now event (key_grant db key)) [
      | allow a ↦ (allow a, record db { stream_keys = StreamKeys.touch now key.id db.stream_keys })
      | reject r ↦ (reject r, db)
    ]

-- Path 3: nothing matched.
pub unmatched : Option String → List StreamKey → Reason
unmatched token [] = unknown_stream_name
unmatched none (k ∷ ks) = missing_token
unmatched (some t) (k ∷ ks) = if any (λ k. not k.revoked) (k ∷ ks) then bad_token else key_revoked

module _ (verify : String → String → Bool) where
  -- the first key of the loop that is not revoked and verifies the token
  unfoldable pub matching_key : String → List StreamKey → Option StreamKey
  matching_key token [] = none
  matching_key token (k ∷ ks) =
      if k.revoked
      then matching_key token ks
      else if verify token k.token_hash
      then some k
      else matching_key token ks

  -- the first candidate of the loop whose hash is set and verifies the token
  pub verified_event : String → List Event → Option Event
  verified_event token [] = none
  verified_event token (e ∷ es) =
      if holds (λ h. not (is_empty h) && verify token h) e.publish_token_hash
      then some e
      else verified_event token es

  pub find_event_by_publish_token : String → List Event → Option Event
  unfolding verified_event Events.find_by_publish_token_prefix
  find_event_by_publish_token token es =
      if ltb (str_length token) 8
      then none
      else verified_event token (Events.find_by_publish_token_prefix (str_take 8 token) es)

  pub event_of_token : String → List Event → Option Event
  unfolding find_event_by_publish_token Events.find_by_publish_key
  event_of_token token es =
      or_option (find_event_by_publish_token token es) (Events.find_by_publish_key token es)

  -- Path 2: the shared credentials of an event.
  pub authorize_shared : ℕ → Database → String → List StreamKey → AuthResult
  unfolding admit event_of_token unmatched
  authorize_shared now db token keys = elim (event_of_token token db.events.rows) [
    | some e ↦
        admit now (some e)
          (record { event_id = some e.id; stream_key_id = none; student_label = none })
    | none ↦ reject (unmatched (some token) keys)
  ]

  -- Paths 1 and 2 with a token that is not empty.
  pub authorize_token : ℕ → Database → String → List StreamKey → AuthResult × Database
  unfolding matching_key authorize_key authorize_shared
  authorize_token now db token keys = elim (matching_key token keys) [
    | some key ↦ authorize_key now db key
    | none ↦ (authorize_shared now db token keys, db)
  ]

-- A token that is '' is as good as none.
unfoldable pub given_token : (String → Option String) → String → Option String
unfolding parse_token
given_token url_param param = elim (parse_token url_param param) [
  | none ↦ none
  | some t ↦ if is_empty t then none else some t
]

module _ (url_param : String → Option String) (verify : String → String → Bool) where
  unfoldable pub authorize_publish : ℕ → Database → String → String → AuthResult × Database
  unfolding given_token authorize_token unmatched StreamKeys.find_all_by_stream_name
  authorize_publish now db stream param =
      let keys = StreamKeys.find_all_by_stream_name stream db.stream_keys.rows in
      elim (given_token url_param param) [
        | none ↦ (reject (unmatched none keys), db)
        | some token ↦ authorize_token verify now db token keys
      ]
