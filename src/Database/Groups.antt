-- ===== src/Database/Groups.antt =====
-- app/server/repositories/groups.repository.ts: groups, and who belongs to them.
use constrainable.Base.{
  not, map, Table, inserted, updated, deleted, ℕ, String, Bool, false, ◌&&◌, Option, List, [], ◌∷◌,
  ◌++◌, find?, filter, any, length, ltb, ◌==◌, str_eq, str_lt, sort_by, if◌then◌else◌, true,
}
use constrainable.Schema.{Group, UserGroup, EventGroup}

unfoldable pub find_by_id : ℕ → List Group → Option Group
find_by_id i gs = find? (λ g. g.id == i) gs

unfoldable pub find_by_name : String → List Group → Option Group
find_by_name name gs = find? (λ g. str_eq g.name name) gs

unfoldable pub insert : (ℕ → Group) → Table Group → Table Group
insert mk t = inserted mk t

unfoldable pub update : ℕ → (Group → Group) → Table Group → Table Group
update i f t = updated (λ g. g.id == i) f t

unfoldable pub remove : ℕ → Table Group → Table Group
remove i t = deleted (λ g. g.id == i) t

unfoldable pub find_user_group_ids : ℕ → List UserGroup → List ℕ
find_user_group_ids user [] = []
find_user_group_ids user (m ∷ ms) =
    if m.user_id == user
    then m.group_id ∷ find_user_group_ids user ms
    else find_user_group_ids user ms

unfoldable pub count_members : ℕ → List UserGroup → ℕ
count_members group ms = length (filter (λ m. m.group_id == group) ms)

-- onConflictDoNothing: the pair is the key of the table.
unfoldable pub add_user_to_group : ℕ → ℕ → List UserGroup → List UserGroup
add_user_to_group user group ms =
    if any (λ m. (m.user_id == user) && (m.group_id == group)) ms
    then ms
    else ms ++ record { user_id = user; group_id = group } ∷ []

unfoldable pub remove_user_from_group : ℕ → ℕ → List UserGroup → List UserGroup
remove_user_from_group user group ms =
    filter (λ m. not ((m.user_id == user) && (m.group_id == group))) ms

-- The ids name groups, each once: what the tables of memberships and of events' groups ask.
unfoldable pub are_groups : List ℕ → List Group → Bool
are_groups [] gs = true
are_groups (i ∷ is) gs = any (λ g. g.id == i) gs && not (any (λ j. j == i) is) && are_groups is gs

-- The two statements of `setUserGroups`, for ids that the table takes.
unfoldable pub set_user_groups : ℕ → List ℕ → List UserGroup → List UserGroup
set_user_groups user ids ms =
    filter (λ m. not (m.user_id == user)) ms
    ++ map (λ g. record { user_id = user; group_id = g }) ids

unfoldable pub user_in_any_group : ℕ → List ℕ → List UserGroup → Bool
user_in_any_group user [] ms = false
user_in_any_group user (g ∷ gs) ms =
    ltb 0 (length (filter (λ m. (m.user_id == user) && any (λ i. i == m.group_id) (g ∷ gs)) ms))

find_event_group_ids : ℕ → List EventGroup → List ℕ
find_event_group_ids event [] = []
find_event_group_ids event (e ∷ es) =
    if e.event_id == event
    then e.group_id ∷ find_event_group_ids event es
    else find_event_group_ids event es

unfoldable pub set_event_groups : ℕ → List ℕ → List EventGroup → List EventGroup
set_event_groups event ids es =
    filter (λ e. not (e.event_id == event)) es
    ++ map (λ g. record { event_id = event; group_id = g }) ids

-- orderBy(asc(groups.name)), by the codes of the characters
name_before : Group → Group → Bool
name_before g h = str_lt g.name h.name

joined_groups : List ℕ → List Group → List Group
joined_groups [] gs = []
joined_groups (i ∷ is) gs = filter (λ g. g.id == i) gs ++ joined_groups is gs

unfoldable pub find_groups_for_event : ℕ → List EventGroup → List Group → List Group
unfolding find_event_group_ids joined_groups name_before
find_groups_for_event event es gs =
    sort_by name_before (joined_groups (find_event_group_ids event es) gs)
