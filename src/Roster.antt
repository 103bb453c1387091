-- ===== src/Roster.antt =====
-- app/server/services/roster.ts: the students of an event. The upsert of a student and its enrollment
-- stands here for app/server/services/stream-keys.ts too.
pub mod Keys
pub mod Names
mod Tests
use constrainable.Base.{
  ℕ, ◌+◌, String, Bool, not, ◌||◌, Option, some, none, List, [], ◌∷◌, any, length, is_some, holds,
  or_else, or_option, is_empty, trim, ◌==◌, Result, ok, http_error, update_where, if◌then◌else◌,
}
use constrainable.Schema.{Student, Enrollment, EnrollmentStatus}
use constrainable.Database.{Database}
use constrainable.Database.Events
use constrainable.Database.Students
use constrainable.Database.Enrollments
use constrainable.Database.Enrollments.{EnrolledStudent}
use constrainable.Database.StreamKeys
use constrainable.Server.{
  Server, Message, AuditLevel, AuditCategory, roster_imported, roster_entry_removed,
}
use constrainable.Server.Audit.{audit}

-- The row of an event, or an error.
pub event_exists : ℕ → Server → Bool
unfolding Events.find_by_id
event_exists i s = is_some (Events.find_by_id i s.db.events.rows)

-- x?.trim() || null
pub trimmed : Option String → Option String
trimmed none = none
trimmed (some x) = if is_empty (trim x) then none else some (trim x)

pub record RosterEntry : Type 0 where
  pub enrollment_id : ℕ
  pub student_id : ℕ
  pub student_number : String
  pub name : String
  pub email : Option String
  pub seat_label : Option String
  pub status : EnrollmentStatus
  pub has_key : Bool

roster_entries : List ℕ → List EnrolledStudent → List RosterEntry
roster_entries keyed [] = []
roster_entries keyed (r ∷ rs) =
    record {
      enrollment_id = r.enrollment.id;
      student_id = r.enrollment.student_id;
      student_number = r.student_number;
      name = r.name;
      email = r.email;
      seat_label = r.enrollment.seat_label;
      status = r.enrollment.status;
      has_key = any (λ i. i == r.enrollment.id) keyed;
    }
    ∷ roster_entries keyed rs

pub list_roster : ℕ → Server → Result (List RosterEntry)
unfolding event_exists roster_entries Enrollments.list_with_student_by_event
    StreamKeys.find_active_enrollment_ids_by_event
list_roster event s =
    if not (event_exists event s)
    then http_error 404 "event not found"
    else ok (
        roster_entries (StreamKeys.find_active_enrollment_ids_by_event event s.db.stream_keys.rows)
          (Enrollments.list_with_student_by_event event s.db.students.rows s.db.enrollments.rows))

-- A field that may be missing reads as ''.
pub record RosterStudentInput : Type 0 where
  pub student_number : Option String
  pub name : Option String
  pub email : Option String
  pub seat_label : Option String

student_row : String → String → Option String → ℕ → Student
student_row number name email i = record {
  id = i;
  student_number = number;
  name = name;
  email = email;
}

-- The id of the student with the number, who is made or gets the name and the email.
pub upsert_student : String → String → Option String → Database → ℕ × Database
unfolding student_row Students.find_by_student_number Students.insert Students.update_profile
upsert_student number name email db =
    elim (Students.find_by_student_number number db.students.rows) [
      | none ↦ (
        db.students.next_id,
        record db { students = Students.insert (student_row number name email) db.students },
      )
      | some x ↦ (
        x.id,
        record db {
          students = Students.update_profile x.id name (or_option email x.email) db.students;
        },
      )
    ]

pub enrollment_row : ℕ → ℕ → Option String → ℕ → Enrollment
enrollment_row event student seat i = record {
  id = i;
  event_id = event;
  student_id = student;
  seat_label = seat;
  status = EnrollmentStatus.active;
}

pub record ImportCounts : Type 0 where
  pub created : ℕ
  pub updated : ℕ

-- One round of the loop of `importRoster`.
pub import_student : ℕ → RosterStudentInput → Database × ImportCounts → Database × ImportCounts
unfolding upsert_student enrollment_row trimmed Enrollments.find_by_event_and_student
    Enrollments.update_seat Enrollments.insert
import_student event x (db, n) =
    let number = trim (or_else x.student_number "") in
    let name = trim (or_else x.name "") in
    if is_empty number || is_empty name
    then (db, n)
    else (let (student, db1) = upsert_student number name (trimmed x.email) db in
        let seat = trimmed x.seat_label in
        elim (Enrollments.find_by_event_and_student event student db1.enrollments.rows) [
          | some r ↦ (
            record db1 {
              enrollments =
                  Enrollments.update_seat r.id seat EnrollmentStatus.active db1.enrollments;
            },
            record n { updated = n.updated + 1 },
          )
          | none ↦ (
            record db1 {
              enrollments = Enrollments.insert (enrollment_row event student seat) db1.enrollments;
            },
            record n { created = n.created + 1 },
          )
        ])

pub import_students :
    ℕ → List RosterStudentInput → Database × ImportCounts → Database × ImportCounts
unfolding import_student
import_students event [] r = r
import_students event (x ∷ xs) r = import_students event xs (import_student event x r)

log : AuditLevel → Message → ℕ → Server → Server
log level message event s =
    audit
      (record {
        level = level;
        category = AuditCategory.admin;
        message = message;
        actor = none;
        event_id = some event;
        stream_name = none;
      })
      s

pub record ImportResult : Type 0 where
  pub counts : ImportCounts
  pub total : ℕ

unfoldable pub import_roster : ℕ → List RosterStudentInput → Server → Result ImportResult × Server
unfolding event_exists import_students log
import_roster event input s =
    if not (event_exists event s)
    then (http_error 404 "event not found", s)
    else (let (db, n) = import_students event input (s.db, record { created = 0; updated = 0 }) in
        (
          ok (record { counts = n; total = length input }),
          log AuditLevel.info (roster_imported n.created n.updated) event (record s { db = db }),
        ))

-- A key that refers to the enrollment loses its reference (`onDelete: 'set null'`).
drop_enrollment : ℕ → Database → Database
unfolding Enrollments.remove
drop_enrollment i db = record db {
  enrollments = Enrollments.remove i db.enrollments;
  stream_keys = record db.stream_keys {
    rows =
        update_where (λ k. holds (λ j. j == i) k.enrollment_id)
          (λ k. record k { enrollment_id = none }) db.stream_keys.rows;
  };
}

pub remove_enrollment : ℕ → ℕ → Server → Result {0} Unit × Server
unfolding event_exists drop_enrollment log Enrollments.find_by_id
    StreamKeys.revoke_active_by_enrollment
remove_enrollment event i s =
    if not (event_exists event s)
    then (http_error 404 "event not found", s)
    else elim (Enrollments.find_by_id i s.db.enrollments.rows) [
      | none ↦ (http_error 404 "enrollment not found", s)
      | some r ↦
          if not (r.event_id == event)
          then (http_error 404 "enrollment not found", s)
          else (let revoked = record s.db {
            stream_keys = StreamKeys.revoke_active_by_enrollment i s.db.stream_keys;
          } in
              (
                ok tt,
                log AuditLevel.warn (roster_entry_removed i) event
                    (record s { db = drop_enrollment i revoked }),
              ))
    ]
