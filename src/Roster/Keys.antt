-- ===== src/Roster/Keys.antt =====
-- app/server/services/stream-keys.ts: stream keys made and revoked. `hash` is `hashToken`,
-- which is `hash_token` of constrainable.Password at a random salt; `token` and `slug` are the random texts that `generateToken()` and `streamNameFor` draw
-- (app/server/utils/token.ts).
pub mod Issued
pub mod Admitted
pub mod Revoked
use constrainable.Base.{
  zero, suc, ℕ, ◌+◌, ◌-◌, String, Bool, true, false, not, ◌||◌, Option, some, none, List, [], ◌∷◌,
  ◌++◌, ◌==◌, if◌then◌else◌, leb, is_lower, keep_chars, decimal, holds, length, Table, Result,
  str_length, is_upper, is_empty, str_append, trim, http_error, ok, str_take, is_digit, or_else,
  any, str_drop,
}
use constrainable.Schema.{StreamKey}
use constrainable.Database.{Database}
use constrainable.Database.Enrollments
use constrainable.Database.Enrollments.{EnrolledStudent}
use constrainable.Database.StreamKeys
use constrainable.Server.{Server, AuditLevel, AuditCategory, key_generated, key_revoked_message}
use constrainable.Server.Audit.{audit}
use constrainable.Roster.{event_exists, trimmed, upsert_student, enrollment_row}

pub record GenerateKeyInput : Type 0 where
  pub student_number : String
  pub name : String
  pub email : Option String
  pub seat_label : Option String
  pub stream_name : Option String

pub record GeneratedKey : Type 0 where
  pub id : ℕ
  pub stream_name : String
  pub token : String
  pub token_preview : String
  pub student_label : String
  pub student_number : String

token_preview : String → String
token_preview token =
    if leb (str_length token) 10
    then token
    else str_append (str_take 4 token) (str_append "…" (str_drop (str_length token - 4) token))

-- [a-zA-Z0-9_-]
is_name_char : ℕ → Bool
is_name_char c = is_lower c || is_upper c || is_digit c || c == b'_' || c == b'-'

pub stream_name_for : (slug : String) → String → String
unfolding is_name_char
stream_name_for slug number =
    let base = keep_chars is_name_char number in if is_empty base then slug else base

-- The name of the round `n` of the loop: base, base-2, base-3, …
unfoldable pub numbered : String → ℕ → String
unfolding decimal
numbered base n = if n == 1 then base else str_append base (str_append "-" (decimal n))

-- Is the name free in the event, or the enrollment's own?
unfoldable pub is_available : ℕ → ℕ → String → List StreamKey → Bool
unfolding StreamKeys.find_by_event_and_name
is_available event enrollment name ks = elim (StreamKeys.find_by_event_and_name event name ks) [
  | none ↦ true
  | some clash ↦ holds (λ i. i == enrollment) clash.enrollment_id
]

-- The loop from its round `n`, for as many rounds as the fuel has.
unfoldable pub available_name : ℕ → ℕ → ℕ → String → ℕ → List StreamKey → Option String
unfolding is_available numbered
available_name zero event enrollment base n ks = none
available_name (suc fuel) event enrollment base n ks =
    let rest = available_name fuel event enrollment base (n + 1) ks in
    if is_available event enrollment (numbered base n) ks then some (numbered base n) else rest

-- As many rounds as there are keys, and one more, are enough.
unfoldable pub ensure_unique_stream_name : ℕ → ℕ → String → List StreamKey → Option String
unfolding available_name
ensure_unique_stream_name event enrollment base ks =
    available_name (length ks + 1) event enrollment base 1 ks

-- The id of the student's enrollment in the event, which is made if there is none.
find_or_enroll : ℕ → ℕ → Option String → Database → ℕ × Database
unfolding Enrollments.find_by_event_and_student Enrollments.insert enrollment_row
find_or_enroll event student seat db =
    elim (Enrollments.find_by_event_and_student event student db.enrollments.rows) [
      | some r ↦ (r.id, db)
      | none ↦ (
        db.enrollments.next_id,
        record db {
          enrollments = Enrollments.insert (enrollment_row event student seat) db.enrollments;
        },
      )
    ]

pub key_row : ℕ → ℕ → String → String → String → ℕ → StreamKey
key_row event enrollment name hashed preview i = record {
  id = i;
  event_id = event;
  enrollment_id = some enrollment;
  stream_name = name;
  token_hash = hashed;
  token_preview = preview;
  revoked = false;
  last_used_at = none;
}

-- The key of the name in the event gets the new token, or is made.
pub issue_key : ℕ → ℕ → String → String → String → Table StreamKey → ℕ × Table StreamKey
unfolding key_row StreamKeys.find_by_event_and_name StreamKeys.rotate StreamKeys.insert
issue_key event enrollment name hashed preview t =
    elim (StreamKeys.find_by_event_and_name event name t.rows) [
      | some k ↦ (k.id, StreamKeys.rotate k.id hashed preview enrollment t)
      | none ↦ (t.next_id, StreamKeys.insert (key_row event enrollment name hashed preview) t)
    ]

-- With the input accepted.
pub issue_student_key :
    (String → String)
    → (token slug : String) → ℕ
    → GenerateKeyInput
    → Server
    → Result GeneratedKey × Server
unfolding upsert_student find_or_enroll stream_name_for ensure_unique_stream_name issue_key
    token_preview trimmed
issue_student_key hash token slug event input s =
    let number = trim input.student_number in
    let name = trim input.name in
    let (student, db1) = upsert_student number name (trimmed input.email) s.db in
    let (enrollment, db2) = find_or_enroll event student (trimmed input.seat_label) db1 in
    let base = stream_name_for slug (or_else (trimmed input.stream_name) number) in
    elim (ensure_unique_stream_name event enrollment base db2.stream_keys.rows) [
      | none ↦ (http_error 500 "no stream name", s)
      | some stream ↦
          (let (i, keys) =
              issue_key event enrollment stream (hash token) (token_preview token)
                db2.stream_keys in
            (
              ok (record {
                id = i;
                stream_name = stream;
                token = token;
                token_preview = token_preview token;
                student_label = name;
                student_number = number;
              }),
              audit
                  (record {
                    level = AuditLevel.info;
                    category = AuditCategory.access;
                    message = key_generated stream name;
                    actor = none;
                    event_id = some event;
                    stream_name = none;
                  })
                  (record s { db = record db2 { stream_keys = keys } }),
            ))
    ]

unfoldable pub generate_key_for_event :
    (String → String)
    → (token slug : String) → ℕ
    → GenerateKeyInput
    → Server
    → Result GeneratedKey × Server
unfolding event_exists issue_student_key
generate_key_for_event hash token slug event input s =
    if not (event_exists event s)
    then (http_error 404 "event not found", s)
    else if is_empty (trim input.student_number) || is_empty (trim input.name)
    then (http_error 400 "studentNumber and name are required", s)
    else issue_student_key hash token slug event input s

-- The loop of `generateKeysForUnkeyed`; an error ends it. The i-th call draws `tokens i`, `slugs i`.
generate_for :
    (String → String)
    → (tokens slugs : ℕ → String) → ℕ
    → List ℕ
    → List EnrolledStudent
    → List GeneratedKey
    → Server
    → Result (List GeneratedKey) × Server
unfolding generate_key_for_event
generate_for hash tokens slugs event keyed [] out s = (ok out, s)
generate_for hash tokens slugs event keyed (e ∷ es) out s =
    if any (λ i. i == e.enrollment.id) keyed
    then generate_for hash tokens slugs event keyed es out s
    else (let input : GenerateKeyInput = record {
      student_number = e.student_number;
      name = e.name;
      email = e.email;
      seat_label = e.enrollment.seat_label;
      stream_name = none;
    } in
        let n = length out in
        let (r, s') = generate_key_for_event hash (tokens n) (slugs n) event input s in
        elim r [
          | http_error code message ↦ (http_error code message, s')
          | ok g ↦ generate_for hash tokens slugs event keyed es (out ++ g ∷ []) s'
        ])

pub generate_keys_for_unkeyed :
    (String → String)
    → (tokens slugs : ℕ → String) → ℕ
    → Server
    → Result (List GeneratedKey) × Server
unfolding event_exists generate_for Enrollments.list_with_student_by_event
    StreamKeys.find_active_enrollment_ids_by_event
generate_keys_for_unkeyed hash tokens slugs event s =
    if not (event_exists event s)
    then (http_error 404 "event not found", s)
    else generate_for hash tokens slugs event
        (StreamKeys.find_active_enrollment_ids_by_event event s.db.stream_keys.rows)
        (Enrollments.list_with_student_by_event event s.db.students.rows s.db.enrollments.rows) [] s

unfoldable pub revoke_key : ℕ → ℕ → Server → Result {0} Unit × Server
unfolding StreamKeys.find_by_event_and_id StreamKeys.revoke
revoke_key event key s = elim (StreamKeys.find_by_event_and_id event key s.db.stream_keys.rows) [
  | none ↦ (http_error 404 "key not found", s)
  | some row ↦ if row.revoked then (ok tt, s) else (
    ok tt,
    audit
        (record {
          level = AuditLevel.warn;
          category = AuditCategory.access;
          message = key_revoked_message row.stream_name;
          actor = none;
          event_id = some event;
          stream_name = some row.stream_name;
        })
        (record s { db = record s.db { stream_keys = StreamKeys.revoke key s.db.stream_keys } }),
  )
]
