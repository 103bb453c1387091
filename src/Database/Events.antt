-- ===== src/Database/Events.antt =====
-- app/server/repositories/events.repository.ts
use constrainable.Base.{
  ℕ, String, not, ◌&&◌, Option, List, find?, filter, holds, ltb, sort_by, Bool, true, false, none,
  some, ◌||◌, ◌==◌, str_eq, Table, updated, deleted, inserted,
}
use constrainable.Schema.{Event}

-- orderBy(asc(startsAt), asc(id)): NULL comes first
pub starts_before : Event → Event → Bool
starts_before a b = before a.starts_at b.starts_at
  where
    before : Option ℕ → Option ℕ → Bool
    before none none = ltb a.id b.id
    before none (some t) = true
    before (some s) none = false
    before (some s) (some t) = ltb s t || (s == t) && ltb a.id b.id

unfoldable pub find_all : List Event → List Event
unfolding starts_before
find_all es = sort_by starts_before es

unfoldable pub find_by_id : ℕ → List Event → Option Event
find_by_id i es = find? (λ e. e.id == i) es

-- With no `exceptId`, or the id 0, any row with the slug counts.
unfoldable pub find_by_slug_except : String → Option ℕ → List Event → Option Event
find_by_slug_except slug except es =
    find? (λ e. str_eq e.slug slug && not (holds (λ i. ltb 0 i && (e.id == i)) except)) es

unfoldable pub find_by_slug : String → List Event → Option Event
find_by_slug slug es = find? (λ e. str_eq e.slug slug) es

-- A column that is NULL equals nothing.
unfoldable pub find_by_publish_token_prefix : String → List Event → List Event
find_by_publish_token_prefix prefix es =
    filter (λ e. holds (λ p. str_eq p prefix) e.publish_token_prefix) es

unfoldable pub find_by_publish_key : String → List Event → Option Event
find_by_publish_key key es = find? (λ e. holds (λ k. str_eq k key) e.publish_key) es

unfoldable pub update : ℕ → (Event → Event) → Table Event → Table Event
update i f t = updated (λ e. e.id == i) f t

unfoldable pub insert : (ℕ → Event) → Table Event → Table Event
insert mk t = inserted mk t

unfoldable pub remove : ℕ → Table Event → Table Event
remove i t = deleted (λ e. e.id == i) t
