-- ===== src/Database/Enrollments.antt =====
-- app/server/repositories/enrollments.repository.ts
use constrainable.Base.{
  ℕ, String, Option, some, none, List, [], ◌∷◌, find?, filter, ◌&&◌, ◌==◌, str_lt, sort_by, Table,
  updated, deleted, inserted,
}
use constrainable.Schema.{Enrollment, EnrollmentStatus, Student}

unfoldable pub find_by_id : ℕ → List Enrollment → Option Enrollment
find_by_id i rs = find? (λ r. r.id == i) rs

unfoldable pub find_by_event_and_student : ℕ → ℕ → List Enrollment → Option Enrollment
find_by_event_and_student event student rs =
    find? (λ r. (r.event_id == event) && (r.student_id == student)) rs

-- An enrollment with the student of its row.
pub record EnrolledStudent : Type 0 where
  pub enrollment : Enrollment
  pub student_number : String
  pub name : String
  pub email : Option String

joined : List Student → List Enrollment → List EnrolledStudent
joined ss [] = []
joined ss (r ∷ rs) = elim (find? (λ x. x.id == r.student_id) ss) [
  | none ↦ joined ss rs
  | some x ↦
      record { enrollment = r; student_number = x.student_number; name = x.name; email = x.email }
      ∷ joined ss rs
]

unfoldable pub list_with_student_by_event :
    ℕ → List Student → List Enrollment → List EnrolledStudent
unfolding joined
list_with_student_by_event event ss rs =
    sort_by (λ a b. str_lt a.student_number b.student_number)
      (joined ss (filter (λ r. r.event_id == event) rs))

unfoldable pub insert : (ℕ → Enrollment) → Table Enrollment → Table Enrollment
insert mk t = inserted mk t

unfoldable pub update_seat :
    ℕ → Option String → EnrollmentStatus → Table Enrollment → Table Enrollment
update_seat i seat status t =
    updated (λ r. r.id == i) (λ r. record r { seat_label = seat; status = status }) t

unfoldable pub remove : ℕ → Table Enrollment → Table Enrollment
remove i t = deleted (λ r. r.id == i) t
