-- ===== src/Roster/Keys/Admitted.antt =====
-- An issued key admits the student who shows its token.
use constrainable.Base.{
  ℕ, String, Bool, true, ◌||◌, ◌≡◌, ◌≢◌, refl, ap, ◌∙◌, inl, inr, Option, some, ◌==◌, Table, Elem,
  Option-cases, eq_iff, Bool-cases, ==_iff, ok, Result, trim, is_empty, http_error, or_else,
  Elem-filter, filter-Elem,
}
use constrainable.Schema.{Event, StreamKey}
use constrainable.Database.{Database}
use constrainable.Database.Events
use constrainable.Database.Students
use constrainable.Database.Enrollments
use constrainable.Database.StreamKeys
use constrainable.Server.{Server}
use constrainable.Access.{allow, given_token, key_grant, authorize_publish}
use constrainable.Access.Soundness.{IsOpen}
use constrainable.Access.Reasons.{IsUsable, authorize_publish_complete}
use constrainable.Roster.{upsert_student, event_exists, trimmed}
use constrainable.Roster.Keys.{
  GenerateKeyInput, GeneratedKey, find_or_enroll, issue_key, issue_student_key,
  generate_key_for_event, stream_name_for, ensure_unique_stream_name,
}
use constrainable.Roster.Keys.Issued.{HasKeyIds, HasIssued, HasIssued-to, issue_key-IsIssued}

upsert_student-keys :
    (number name : String) (email : Option String) (db : Database)
    → ((upsert_student number name email db).1.stream_keys ≡ db.stream_keys)
      × ((upsert_student number name email db).1.events ≡ db.events)
unfolding upsert_student
upsert_student-keys number name email db =
    elim (Option-cases (Students.find_by_student_number number db.students.rows)) [
      | inl e ↦ rw (upsert_student, e) (refl, refl)
      | inr (x, e) ↦ rw (upsert_student, e) (refl, refl)
    ]

find_or_enroll-keys :
    (event student : ℕ) (seat : Option String) (db : Database)
    → ((find_or_enroll event student seat db).1.stream_keys ≡ db.stream_keys)
      × ((find_or_enroll event student seat db).1.events ≡ db.events)
unfolding find_or_enroll
find_or_enroll-keys event student seat db =
    elim (Option-cases (Enrollments.find_by_event_and_student event student db.enrollments.rows)) [
      | inl e ↦ rw (find_or_enroll, e) (refl, refl)
      | inr (x, e) ↦ rw (find_or_enroll, e) (refl, refl)
    ]

-- What a call that is carried out has issued.
record Issuance (hash : String → String) (event : ℕ) (s : Server) (g : GeneratedKey) (s' : Server)
    : Type 0 where
  enrollment : ℕ
  key_id :
      (issue_key event enrollment g.stream_name (hash g.token) g.token_preview s.db.stream_keys).0
      ≡ g.id
  keys :
      (issue_key event enrollment g.stream_name (hash g.token) g.token_preview s.db.stream_keys).1
      ≡ s'.db.stream_keys
  events : s'.db.events ≡ s.db.events

generated : GeneratedKey → Result GeneratedKey × Server → GeneratedKey
generated d (ok g, s) = g
generated d (http_error c m, s) = d

issue_student_key-Issuance :
    (hash : String → String) (token slug : String) (event : ℕ) (input : GenerateKeyInput)
    (s : Server) (g : GeneratedKey) (s' : Server)
    → issue_student_key hash token slug event input s ≡ (ok g, s')
    → Issuance hash event s g s' × (g.token ≡ token)
unfolding issue_student_key generated
issue_student_key-Issuance hash token slug event input s g s' h =
    let number = trim input.student_number in
    let student = upsert_student number (trim input.name) (trimmed input.email) s.db in
    let enrolled = find_or_enroll event student.0 (trimmed input.seat_label) student.1 in
    let base = stream_name_for slug (or_else (trimmed input.stream_name) number) in
    let student_keys = upsert_student-keys number (trim input.name) (trimmed input.email) s.db in
    let enrolled_keys = find_or_enroll-keys event student.0 (trimmed input.seat_label) student.1 in
    let keys_of : enrolled.1.stream_keys ≡ s.db.stream_keys = enrolled_keys.0 ∙ student_keys.0 in
    let events_of : enrolled.1.events ≡ s.db.events = enrolled_keys.1 ∙ student_keys.1 in
    elim (Option-cases
      (ensure_unique_stream_name event enrolled.0 base enrolled.1.stream_keys.rows)) [
        | inl e ↦ cc (rw (issue_student_key, e) at h)
        | inr (stream, e) ↦
            let p = rw (issue_student_key, e) at h in
            let same = ap (generated g) p in
            let after = ap (λ (r : Result GeneratedKey × Server). r.1) p in
            rw (← same, ← after)
              (
                record {
                  enrollment = enrolled.0;
                  key_id = rw keys_of refl;
                  keys = rw keys_of refl;
                  events = events_of;
                },
                refl,
              )
      ]

generate_key_for_event-Issuance :
    (hash : String → String) (token slug : String) (event : ℕ) (input : GenerateKeyInput)
    (s : Server) (g : GeneratedKey) (s' : Server)
    → generate_key_for_event hash token slug event input s ≡ (ok g, s')
    → Issuance hash event s g s' × (g.token ≡ token)
unfolding generate_key_for_event
generate_key_for_event-Issuance hash token slug event input s g s' h =
    elim (Bool-cases (event_exists event s)) [
      | inr missing ↦ cc (rw (generate_key_for_event, missing) at h)
      | inl there ↦
          elim (Bool-cases (is_empty (trim input.student_number) || is_empty (trim input.name))) [
            | inl blank ↦ cc (rw (generate_key_for_event, there, blank) at h)
            | inr given ↦
                issue_student_key-Issuance hash token slug event input s g s'
                  (rw (generate_key_for_event, there, given) at h)
          ]
    ]

-- The key with the id `i` admits, once it stands in the table.
module _ (url_param : String → Option String) (verify : String → String → Bool) (event i : ℕ)
    (name hashed token : String) (t : Table StreamKey) (later : ℕ) (param : String) (e : Event)
    (db : Database) where
  issued-authorize_publish :
      HasIssued event name hashed t i db.stream_keys
      → verify token hashed ≡ true
      → ((k : StreamKey)
          → Elem k t.rows
          → k.id ≢ i
          → k.stream_name ≡ name
          → ¬ IsUsable verify token k)
      → Events.find_by_id event db.events.rows ≡ some e
      → IsOpen later e
      → given_token url_param param ≡ some token
      → (label : Option String) × ((authorize_publish url_param verify later db name param).0
          ≡ allow (record { event_id = some event; stream_key_id = some i; student_label = label }))
  unfolding StreamKeys.find_all_by_stream_name key_grant
  issued-authorize_publish ((k, mk, own, good), issued, old) verifies others found accepts given =
      let mine : (m : StreamKey)
          → Elem m (StreamKeys.find_all_by_stream_name name db.stream_keys.rows)
          → IsUsable verify token m
          → (m.id ≡ i) × (m.event_id ≡ event) =
        λ m mm usable.
          let (there, named) = Elem-filter _ db.stream_keys.rows {x = m} mm in
          elim (Bool-cases (m.id == i)) [
            | inl hit ↦ let p = (==_iff m.id i).0 hit in (p, (issued m there p).event_id)
            | inr miss ↦
                let ne : m.id ≢ i = λ q. cc (miss, (==_iff m.id i).1 q) in
                absurd (others m (old m there ne) ne ((eq_iff m.stream_name name).0 named) usable)
          ] in
      let (m, mm, usable, granted) =
        authorize_publish_complete url_param verify later db name param token k given
          (filter-Elem _ db.stream_keys.rows {x = k} mk
            ((eq_iff k.stream_name name).1 good.stream_name))
          (good.revoked, rw good.token_hash verifies)
          (λ m mm u. (e, rw ((mine m mm u).1) found, accepts)) in
      (
        (key_grant db m).student_label,
        rw (granted, key_grant) (rw ((mine m mm usable).0, (mine m mm usable).1) refl),
      )

-- The token that a call gives out admits the student under the stream name of the key while the event
-- is open, by that key, if no other key of the name verifies it. The event has its id to itself and
-- the hash of a token verifies the token; ids of keys are different and below the next one.
pub generate_key_for_event-authorize_publish :
    (url_param : String → Option String) (verify : String → String → Bool) (hash : String → String)
    (token slug : String) (event : ℕ) (input : GenerateKeyInput) (s : Server) (later : ℕ)
    (param : String) (e : Event) {g : GeneratedKey} {s' : Server}
    → HasKeyIds s.db.stream_keys
    → generate_key_for_event hash token slug event input s ≡ (ok g, s')
    → verify token (hash token) ≡ true
    → ((k : StreamKey)
        → Elem k s.db.stream_keys.rows
        → k.id ≢ g.id
        → k.stream_name ≡ g.stream_name
        → ¬ IsUsable verify token k)
    → Events.find_by_id event s.db.events.rows ≡ some e
    → IsOpen later e
    → given_token url_param param ≡ some token
    → (label : Option String) × ((authorize_publish url_param verify later s'.db g.stream_name
          param).0
        ≡ allow
            (record { event_id = some event; stream_key_id = some g.id; student_label = label }))
generate_key_for_event-authorize_publish url_param verify hash token slug event input s later param
      e {g} {s'} ids h verifies others found accepts given =
    let (issued, same) = generate_key_for_event-Issuance hash token slug event input s g s' h in
    let table = HasIssued-to s.db.stream_keys issued.key_id issued.keys (
      issue_key-IsIssued event issued.enrollment g.stream_name (hash g.token) g.token_preview
        s.db.stream_keys ids) in
    issued-authorize_publish url_param verify event g.id g.stream_name (hash g.token) token
      s.db.stream_keys later param e s'.db table (rw same verifies) others
      (rw (issued.events) found) accepts given
