-- ===== src/Database/EventSlugAliases.antt =====
-- app/server/repositories/event-slug-aliases.repository.ts: keys that events have given up, and whose
-- they were.
use constrainable.Base.{
  ℕ, String, not, Option, List, [], ◌∷◌, ◌++◌, find?, filter, any, update_where, ◌==◌, str_eq,
  if◌then◌else◌,
}
use constrainable.Schema.{EventSlugAlias}

unfoldable pub find_by_old_slug : String → List EventSlugAlias → Option EventSlugAlias
find_by_old_slug slug xs = find? (λ a. str_eq a.old_slug slug) xs

-- onConflictDoUpdate
unfoldable pub set : String → ℕ → List EventSlugAlias → List EventSlugAlias
set slug event xs =
    if any (λ a. str_eq a.old_slug slug) xs
    then update_where (λ a. str_eq a.old_slug slug) (λ a. record a { event_id = event }) xs
    else xs ++ record { old_slug = slug; event_id = event } ∷ []

unfoldable pub remove : String → List EventSlugAlias → List EventSlugAlias
remove slug xs = filter (λ a. not (str_eq a.old_slug slug)) xs

unfoldable pub remove_by_event : ℕ → List EventSlugAlias → List EventSlugAlias
remove_by_event event xs = filter (λ a. not (a.event_id == event)) xs
