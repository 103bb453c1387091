-- ===== src/Database/StreamBans.antt =====
-- app/server/repositories/stream-bans.repository.ts. Lists are in the order of the table where the
-- callers do not depend on the order.
use constrainable.Base.{
  ℕ, String, Bool, not, ◌&&◌, ◌||◌, Option, List, find?, filter, holds, is_some, ltb, ◌==◌, str_eq,
  Table, deleted, inserted, sort_by,
}
use constrainable.Schema.{StreamBan}

abbrev pub later_ban : StreamBan → StreamBan → Bool
later_ban a b = ltb b.created_at a.created_at

unfoldable pub list_all : List StreamBan → List StreamBan
list_all bs = sort_by later_ban bs

unfoldable pub list_by_event : ℕ → List StreamBan → List StreamBan
list_by_event event_id bs =
    sort_by later_ban (filter (λ b. holds (λ i. i == event_id) b.event_id) bs)

abbrev pub is_site_wide : StreamBan → Bool
is_site_wide b = not (is_some b.event_id)

unfoldable pub find_site_wide : String → List StreamBan → Option StreamBan
find_site_wide email bs = find? (λ b. str_eq b.email email && is_site_wide b) bs

-- Site-wide, or of this very event where one is given.
unfoldable pub list_blocking : String → Option ℕ → List StreamBan → List StreamBan
list_blocking email event bs =
    filter
      (λ b.
        (str_eq b.email email && is_site_wide b)
        || (str_eq b.email email && holds (λ i. holds (λ j. j == i) b.event_id) event))
      bs

unfoldable pub purge_strict_limits : Table StreamBan → Table StreamBan
purge_strict_limits t = deleted (λ b. holds (λ by. str_eq by "system:strict-limits") b.banned_by) t

unfoldable pub insert : (ℕ → StreamBan) → Table StreamBan → Table StreamBan
insert mk t = inserted mk t

unfoldable pub remove : ℕ → Table StreamBan → Table StreamBan
remove i t = deleted (λ b. b.id == i) t
