-- ===== src/Database/Recordings.antt =====
-- app/server/repositories/recordings.repository.ts
use constrainable.Base.{
  ℕ, String, Bool, ◌&&◌, Option, List, find?, filter, head?, holds, ltb, ◌==◌, str_eq, Table,
  updated, deleted, inserted, sort_by,
}
use constrainable.Schema.Recording.{Recording}

-- orderBy(desc(startedAt))
abbrev pub newer : Recording → Recording → Bool
newer a b = ltb b.started_at a.started_at

unfoldable pub find_all : List Recording → List Recording
find_all rs = sort_by newer rs

unfoldable pub find_by_event : ℕ → List Recording → List Recording
find_by_event event rs = sort_by newer (filter (λ r. holds (λ e. e == event) r.event_id) rs)

unfoldable pub find_merge_target : ℕ → String → List Recording → Option Recording
find_merge_target event stream rs = head? (
    sort_by newer
      (filter (λ r. holds (λ e. e == event) r.event_id && str_eq r.stream_name stream) rs))

unfoldable pub update : ℕ → (Recording → Recording) → Table Recording → Table Recording
update i f t = updated (λ r. r.id == i) f t

unfoldable pub find_by_id : ℕ → List Recording → Option Recording
find_by_id i rs = find? (λ r. r.id == i) rs

unfoldable pub find_expired : ℕ → List Recording → List Recording
find_expired cutoff rs = filter (λ r. ltb r.started_at cutoff) rs

unfoldable pub insert : (ℕ → Recording) → Table Recording → Table Recording
insert mk t = inserted mk t

unfoldable pub remove : ℕ → Table Recording → Table Recording
remove i t = deleted (λ r. r.id == i) t
