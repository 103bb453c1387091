-- ===== src/Database/Students.antt =====
-- app/server/repositories/students.repository.ts
use constrainable.Base.{ℕ, String, Option, List, find?, ◌==◌, str_eq, Table, updated, inserted}
use constrainable.Schema.{Student}

unfoldable pub find_by_id : ℕ → List Student → Option Student
find_by_id i ss = find? (λ x. x.id == i) ss

unfoldable pub find_by_student_number : String → List Student → Option Student
find_by_student_number number ss = find? (λ x. str_eq x.student_number number) ss

unfoldable pub insert : (ℕ → Student) → Table Student → Table Student
insert mk t = inserted mk t

unfoldable pub update_profile : ℕ → String → Option String → Table Student → Table Student
update_profile i name email t =
    updated (λ x. x.id == i) (λ x. record x { name = name; email = email }) t
