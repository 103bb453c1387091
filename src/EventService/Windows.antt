-- ===== src/EventService/Windows.antt =====
-- What the window check gives to created events, and what a refused patch leaves.
use constrainable.Database.Events
use constrainable.EventService.Invariant.{get_row-ok, write_patch-events}
use constrainable.EventService.{apply_patch, groups_fit, slug_change, with_groups}
use constrainable.Base.{
  ◌⊎◌, updated, filter, not, Option-cases, ℕ, ◌≤◌, ◌<◌, String, false, ◌≡◌, refl, sym, ap, ◌∙◌, inl,
  inr, Option, some, none, ◌==◌, arith, ◌%◌, Result, Bool-cases, ok, http_error, Elem, Table,
  find?-Elem, Elem-update_hit, ==_iff,
}
use constrainable.Schema.{Event, EventStatus, timestamp}
use constrainable.Server.{Server}
use constrainable.EventService.{
  EventInput, to_ts, flat, falsy_time, assert_window, event_row, insert_event, create_event,
  move_alias, update_event, write_patch,
}
use constrainable.EventService.View.{EventView, to_view, get_row, get_event}
use constrainable.EventService.Outcomes.{
  refused, created, half_created, creation, unwritten, late_refusal, written, half_written, update,
}
use constrainable.EventService.Changes.{server_of}

-- A window in whole seconds whose end is not before its start.
abbrev pub IsWindow : Option ℕ → Option ℕ → Type 0
IsWindow starts ends =
    (a : ℕ) × (b : ℕ) × (starts ≡ some a)
    × (ends ≡ some b)
    × (a ≤ b)
    × (a % 1000 ≡ 0)
    × (b % 1000 ≡ 0)

timestamp-le : (a b : ℕ) → a < b → timestamp a ≤ timestamp b
unfolding timestamp
timestamp-le a b h = omega (arith, h)

timestamp-whole : (a : ℕ) → timestamp a % 1000 ≡ 0
unfolding timestamp
timestamp-whole a = omega arith

falsy_time-false :
    (t : Option ℕ) → falsy_time t ≡ false → (a : ℕ) × (t ≡ some a) × (to_ts t ≡ some a)
unfolding falsy_time to_ts
falsy_time-false none h = cc
falsy_time-false (some a) h = (a, refl, ground (arith, h))

view_of :
    {v v' : EventView} {s s' : Server}
    → (◌≡◌ {A = Result EventView × Server} (ok v, s) (ok v', s'))
    → v ≡ v'
view_of {v} h = ap (λ (r : Result EventView × Server). or_view v r.0) h
  where
    or_view : EventView → Result EventView → EventView
    or_view d (ok w) = w
    or_view d (http_error c m) = d

assert_window-none :
    (starts ends : Option ℕ)
    → assert_window EventStatus.scheduled starts ends ≡ none
    → (a : ℕ) × (b : ℕ) × (to_ts starts ≡ some a) × (to_ts ends ≡ some b) × (a < b)
unfolding assert_window
assert_window-none starts ends h = elim (Bool-cases (falsy_time starts)) [
  | inl p ↦ ground (arith, p, h)
  | inr p ↦ elim (Bool-cases (falsy_time ends)) [
    | inl q ↦ ground (arith, p, q, h)
    | inr q ↦
        let (a, sa, ta) = falsy_time-false starts p in
        let (b, sb, tb) = falsy_time-false ends q in (a, b, ta, tb, ground (arith, p, q, h, sa, sb))
  ]
]

-- An event that is created as scheduled has a window: both times are set, in whole seconds, and the
-- end is not before the start.
pub create_event-IsWindow :
    (now : ℕ) (input : EventInput) (s : Server) {v : EventView} {s' : Server}
    → create_event now input s ≡ (ok v, s')
    → input.status ≡ some EventStatus.scheduled
    → IsWindow v.starts_at v.ends_at
unfolding event_row to_view
create_event-IsWindow now input s {v} h asked = elim (creation now input s) [
  | refused c m e ↦ cc (sym e ∙ h)
  | half_created name slug bad e ↦ cc (sym e ∙ h)
  | created name slug own key free fits fit e ↦
      let (a, b, p, q, lt) =
        assert_window-none (flat input.starts_at) (flat input.ends_at) (rw asked at fits) in
      let row = event_row now name slug input s.db.events.next_id in
      let shown : to_view (insert_event now name slug input s) row ≡ v = view_of (sym e ∙ h) in
      rw (← shown) (
        timestamp a,
        timestamp b,
        rw p refl,
        rw q refl,
        timestamp-le a b lt,
        timestamp-whole a,
        timestamp-whole b,
      )
]

move_alias-only :
    (i : ℕ) (existing : Event) (slug : Option String) (s : Server)
    → move_alias i existing slug s
      ≡ record s { db = record s.db { aliases = (move_alias i existing slug s).db.aliases } }
unfolding move_alias
move_alias-only i existing none s = refl
move_alias-only i existing (some slug) s = refl

get_event-Elem :
    (i : ℕ) (s : Server) (e : Event)
    → Elem e s.db.events.rows
    → e.id ≡ i
    → (v : EventView) × (get_event i s ≡ ok v)
unfolding get_event get_row Events.find_by_id
get_event-Elem i s e m own =
    let (x, found) =
      find?-Elem (λ x. x.id == i) s.db.events.rows {x = e} m ((==_iff e.id i).1 own) in
    let known : Events.find_by_id i s.db.events.rows ≡ some x = found in
    (to_view s x, rw (get_event, get_row, known) refl)

written-shown :
    (now i : ℕ) (existing : Event) (patch : EventInput) (slug : Option String) (s : Server)
    → get_row i s ≡ ok existing
    → (v : EventView) × (get_event i
          (write_patch now i existing patch slug (move_alias i existing slug s))
        ≡ ok v)
unfolding apply_patch
written-shown now i existing patch slug s found =
    let s1 = move_alias i existing slug s in
    let (m, own) = get_row-ok i s existing found in
    let rows = ap (λ (x : Table Event). x.rows) (write_patch-events now i existing patch slug s1) in
    let before = ap (λ (x : Server). x.db.events.rows) (move_alias-only i existing slug s) in
    get_event-Elem i (write_patch now i existing patch slug s1)
      (apply_patch now patch slug existing)
      (rw (rows, before)
        (Elem-update_hit (λ e. e.id == i) (apply_patch now patch slug) s.db.events.rows m
          ((==_iff existing.id i).1 own)))
      own

-- What a patch leaves whose groups the table refuses.
abbrev pub HalfWritten : ℕ → ℕ → EventInput → Server → Server → Type 0
HalfWritten now i patch s s' =
    (existing : Event) × (slug : Option String) × (get_row i s ≡ ok existing)
    × (slug_change i existing patch.slug s ≡ ok slug)
    × (s' ≡ record s {
      db = record s.db {
        aliases = (move_alias i existing slug s).db.aliases;
        events = updated (λ e. e.id == i) (apply_patch now patch slug) s.db.events;
        event_groups = filter (λ g. not (g.event_id == i)) s.db.event_groups;
      };
    })

half_written-HalfWritten :
    (now i : ℕ) (existing : Event) (patch : EventInput) (slug : Option String) (s : Server)
    → groups_fit patch.group_ids s.db.groups.rows ≡ false
    → write_patch now i existing patch slug (move_alias i existing slug s) ≡ record s {
      db = record s.db {
        aliases = (move_alias i existing slug s).db.aliases;
        events = updated (λ e. e.id == i) (apply_patch now patch slug) s.db.events;
        event_groups = filter (λ g. not (g.event_id == i)) s.db.event_groups;
      };
    }
unfolding write_patch move_alias with_groups groups_fit Events.update
half_written-HalfWritten now i existing patch none s bad = elim (Option-cases patch.group_ids) [
  | inl e ↦ cc (rw e at bad)
  | inr (ids, e) ↦ let bad' = rw e at bad in rw e (rw bad' refl)
]
half_written-HalfWritten now i existing patch (some slug) s bad =
    elim (Option-cases patch.group_ids) [
      | inl e ↦ cc (rw e at bad)
      | inr (ids, e) ↦ let bad' = rw e at bad in rw e (rw bad' refl)
    ]

-- A patch that is refused writes nothing but, perhaps, retired keys, unless it names groups that the
-- table refuses: then it is answered with 500, keys may be retired, the row has been changed, the event
-- has lost the groups that it had, and that is all.
pub update_event-refused :
    (now i : ℕ) (patch : EventInput) (s : Server) {code : ℕ} {message : String} {s' : Server}
    → update_event now i patch s ≡ (http_error code message, s')
    → (s' ≡ record s { db = record s.db { aliases = s'.db.aliases } })
      ⊎ ((groups_fit patch.group_ids s.db.groups.rows ≡ false)
          × (code ≡ 500)
          × HalfWritten now i patch s s')
unfolding move_alias
update_event-refused now i patch s {s' = s'} h = elim (update now i patch s) [
  | unwritten c m e ↦ let q = server_of (sym e ∙ h) in inl (rw (← q) refl)
  | late_refusal existing slug m found good e ↦
      let q = server_of (sym e ∙ h) in inl (rw (← q) (move_alias-only i existing slug s))
  | written existing slug found good fit e ↦
      let (v, shown) = written-shown now i existing patch slug s found in cc (sym e ∙ h, shown)
  | half_written existing slug found good bad e ↦
      let q = server_of (sym e ∙ h) in
      inr (
        bad,
        code_of (sym e ∙ h),
        (
          existing,
          slug,
          found,
          good,
          sym q ∙ half_written-HalfWritten now i existing patch slug s bad,
        ),
      )
]
  where
    code_of :
        {c d : ℕ} {m n : String} {a b : Server}
        → ◌≡◌ {A = Result EventView × Server} (http_error c m, a) (http_error d n, b)
        → d ≡ c
    code_of h = cc h
