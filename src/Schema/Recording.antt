-- ===== src/Schema/Recording.antt =====
-- A row of the table `recordings` of app/server/database/schema.ts. The columns of real numbers and
-- those that no modelled code reads are left out; a duration is a number of whole seconds.
use constrainable.Base.{ℕ, String, Option, List}

pub record Recording : Type 0 where
  pub id : ℕ
  pub event_id : Option ℕ
  pub session_id : Option ℕ
  pub stream_name : String
  pub student_label : Option String
  pub node_id : Option String
  -- JSON; rows from before segments have none
  pub segments : Option (List String)
  pub file_path : String
  pub size_bytes : ℕ
  pub duration_sec : Option ℕ
  pub width : Option ℕ
  pub height : Option ℕ
  pub started_at : ℕ
  pub ended_at : Option ℕ
