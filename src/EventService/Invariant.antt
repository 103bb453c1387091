-- ===== src/EventService/Invariant.antt =====
-- The operations on events keep their tables well formed, whatever they answer.
use constrainable.Base.{
  updated, inserted, ◌==◌, ℕ, String, false, ◌≡◌, ◌≢◌, refl, sym, ap, ◌∙◌, inl, inr, Option, some,
  none, List, Elem, find?-some, find?-none, Option-cases, eq_iff, ok, arith, Bool-cases, true,
}
use constrainable.Schema.{Event, EventSlugAlias}
use constrainable.Database.{Database}
use constrainable.Database.Events
use constrainable.Database.EventSlugAliases
use constrainable.Server.{Server}
use constrainable.EventService.{
  log_event, EventInput, slug_taken, event_row, insert_event, create_event, slug_change, move_alias,
  apply_patch, write_patch, update_event, with_groups, groups_fit,
}
use constrainable.EventService.Removal.{delete_event, drop_event}
use constrainable.EventService.View.{get_row}
use constrainable.EventService.Outcomes.{
  refused, created, half_created, creation, unwritten, late_refusal, written, half_written, update,
  missing, gone, deletion,
}
use constrainable.EventService.Aliases.{Elem-remove, Elem-remove_by_event, Elem-set}
use constrainable.EventService.WellFormed.{
  IsWellFormed, aliases-IsWellFormed, inserted-IsWellFormed, updated-IsWellFormed,
  deleted-IsWellFormed,
}

abbrev pub IsSound : Server → Type 0
IsSound s = IsWellFormed s.db.events s.db.aliases

pub slug_taken-false :
    (slug : String) (except : Option ℕ) (s : Server) (e : Event)
    → slug_taken slug except s ≡ false
    → Elem e s.db.events.rows
    → ((i : ℕ) → except ≡ some i → e.id ≢ i)
    → e.slug ≢ slug
unfolding slug_taken Events.find_by_slug_except
slug_taken-false slug except s e free m other same =
    elim (Option-cases (Events.find_by_slug_except slug except s.db.events.rows)) [
      | inl none_left ↦
          let miss = find?-none _ s.db.events.rows {x = e} none_left m in
          elim (Option-cases except) [
            | inl q ↦ ground (arith, (eq_iff e.slug slug).1 same, rw q at miss)
            | inr (i, q) ↦ ground (arith, (eq_iff e.slug slug).1 same, rw q at miss, other i q)
          ]
      | inr (x, found) ↦ cc (rw found at free)
    ]

pub get_row-ok :
    (i : ℕ) (s : Server) (e : Event) → get_row i s ≡ ok e → Elem e s.db.events.rows × (e.id ≡ i)
unfolding get_row Events.find_by_id
get_row-ok i s e h = elim (Option-cases (Events.find_by_id i s.db.events.rows)) [
  | inl none_left ↦ cc (rw (none_left, get_row) at h)
  | inr (x, found) ↦
      let r = find?-some _ s.db.events.rows {x = x} found in
      ground (arith, r, rw (found, get_row) at h)
]

with_groups-events :
    (i : ℕ) (ids : Option (List ℕ)) (db : Database) → (with_groups i ids db).events ≡ db.events
unfolding with_groups
with_groups-events i none db = refl
with_groups-events i (some ids) db = ground arith

with_groups-aliases :
    (i : ℕ) (ids : Option (List ℕ)) (db : Database) → (with_groups i ids db).aliases ≡ db.aliases
unfolding with_groups
with_groups-aliases i none db = refl
with_groups-aliases i (some ids) db = ground arith

pub with_groups-groups :
    (i : ℕ) (ids : Option (List ℕ)) (db : Database) → (with_groups i ids db).groups ≡ db.groups
unfolding with_groups
with_groups-groups i none db = refl
with_groups-groups i (some ids) db = ground arith

pub insert_event-events :
    (now : ℕ) (name slug : String) (input : EventInput) (s : Server)
    → (insert_event now name slug input s).db.events
      ≡ inserted (event_row now name slug input) s.db.events
unfolding insert_event Events.insert log_event
insert_event-events now name slug input s =
    elim (Bool-cases (groups_fit input.group_ids s.db.groups.rows)) [
      | inl known ↦ rw known (with_groups-events s.db.events.next_id input.group_ids _)
      | inr bad ↦ rw bad (with_groups-events s.db.events.next_id input.group_ids _)
    ]

pub insert_event-aliases :
    (now : ℕ) (name slug : String) (input : EventInput) (s : Server)
    → groups_fit input.group_ids s.db.groups.rows ≡ true
    → (insert_event now name slug input s).db.aliases ≡ EventSlugAliases.remove slug s.db.aliases
unfolding insert_event log_event
insert_event-aliases now name slug input s known = rw known (rw with_groups-aliases refl)

pub write_patch-events :
    (now i : ℕ) (existing : Event) (patch : EventInput) (slug : Option String) (s : Server)
    → (write_patch now i existing patch slug s).db.events
      ≡ updated (λ e. e.id == i) (apply_patch now patch slug) s.db.events
unfolding write_patch Events.update log_event
write_patch-events now i existing patch slug s =
    elim (Bool-cases (groups_fit patch.group_ids s.db.groups.rows)) [
      | inl known ↦ rw known (with_groups-events i patch.group_ids _)
      | inr bad ↦ rw bad (with_groups-events i patch.group_ids _)
    ]

pub write_patch-aliases :
    (now i : ℕ) (existing : Event) (patch : EventInput) (slug : Option String) (s : Server)
    → (write_patch now i existing patch slug s).db.aliases ≡ s.db.aliases
unfolding write_patch log_event
write_patch-aliases now i existing patch slug s =
    elim (Bool-cases (groups_fit patch.group_ids s.db.groups.rows)) [
      | inl known ↦ rw known (with_groups-aliases i patch.group_ids _)
      | inr bad ↦ rw bad (with_groups-aliases i patch.group_ids _)
    ]

insert_event-IsSound :
    (now : ℕ) (name slug : String) (input : EventInput) (s : Server)
    → IsSound s
    → slug_taken slug none s ≡ false
    → groups_fit input.group_ids s.db.groups.rows ≡ true
    → IsSound (insert_event now name slug input s)
unfolding event_row
insert_event-IsSound now name slug input s w free known =
    rw (insert_event-events, insert_event-aliases now name slug input s known)
      (inserted-IsWellFormed s.db.events (EventSlugAliases.remove slug s.db.aliases)
        (aliases-IsWellFormed s.db.events s.db.aliases w (EventSlugAliases.remove slug s.db.aliases)
          (λ a m. w.owned a (Elem-remove slug _ a m).0)
          (λ a b m n. w.same_alias a b (Elem-remove slug _ a m).0 (Elem-remove slug _ b n).0)
          (λ a e m n p. w.current a e (Elem-remove slug _ a m).0 n p))
        (event_row now name slug input) refl
        (λ e m p. slug_taken-false slug none s e free m (λ i q. cc) p)
        (λ a m. (Elem-remove slug _ a m).1))

move_alias-IsSound :
    (i : ℕ) (existing : Event) (slug : Option String) (s : Server)
    → IsSound s
    → Elem existing s.db.events.rows
    → existing.id ≡ i
    → IsSound (move_alias i existing slug s)
unfolding move_alias
move_alias-IsSound i existing none s w m own = w
move_alias-IsSound i existing (some slug) s w m own =
    aliases-IsWellFormed s.db.events s.db.aliases w
      (EventSlugAliases.remove slug (EventSlugAliases.set existing.slug i s.db.aliases))
      (λ a ma. elim (Elem-set existing.slug i s.db.aliases a (Elem-remove slug _ a ma).0) [
        | inl (p, q) ↦ (existing, m, own ∙ sym q)
        | inr (there, n) ↦ w.owned a there
      ])
      (λ a b ma mb p. elim (Elem-set existing.slug i s.db.aliases a (Elem-remove slug _ a ma).0) [
        | inl (q, r) ↦ elim (Elem-set existing.slug i s.db.aliases b (Elem-remove slug _ b mb).0) [
          | inl (q', r') ↦ r ∙ sym r'
          | inr (there, n) ↦ absurd (n (sym p ∙ q))
        ]
        | inr (there, n) ↦
            elim (Elem-set existing.slug i s.db.aliases b (Elem-remove slug _ b mb).0) [
              | inl (q', r') ↦ absurd (n (p ∙ q'))
              | inr (there', n') ↦ w.same_alias a b there there' p
            ]
      ])
      (λ a e ma me p. elim (Elem-set existing.slug i s.db.aliases a (Elem-remove slug _ a ma).0) [
        | inl (q, r) ↦
            r ∙ sym own ∙ ap (λ (x : Event). x.id) (w.same_slug existing e m me (sym q ∙ p))
        | inr (there, n) ↦ w.current a e there me p
      ])

write_patch-IsSound :
    (now i : ℕ) (existing : Event) (patch : EventInput) (slug : Option String) (s : Server)
    → IsSound s
    → ((t : String)
        → slug ≡ some t
        → (slug_taken t (some i) s ≡ false)
          × ((a : EventSlugAlias) → Elem a s.db.aliases → a.old_slug ≢ t))
    → IsSound (write_patch now i existing patch slug s)
unfolding apply_patch
write_patch-IsSound now i existing patch none s w free =
    rw (write_patch-events, write_patch-aliases)
      (updated-IsWellFormed s.db.events s.db.aliases w i (apply_patch now patch none) (λ e. refl)
        (λ e g m n p q r. q (ap (λ (x : Event). x.id) (sym (w.same_slug e g m n r)) ∙ p))
        (λ a e m n p q. w.current a e m n q ∙ p))
write_patch-IsSound now i existing patch (some t) s w free =
    rw (write_patch-events, write_patch-aliases)
      (updated-IsWellFormed s.db.events s.db.aliases w i (apply_patch now patch (some t))
        (λ e. refl)
        (λ e g m n p q r.
          slug_taken-false t (some i) s g (free t refl).0 n (λ j u v. q (v ∙ ground (arith, u)))
            (sym r))
        (λ a e m n p q. absurd ((free t refl).1 a m q)))

slug_change-free :
    (i : ℕ) (existing : Event) (raw : Option String) (s : Server) (t : String)
    → slug_change i existing raw s ≡ ok (some t)
    → slug_taken t (some i) s ≡ false
unfolding slug_change
slug_change-free i existing none s t h = cc
slug_change-free i existing (some raw) s t h = ground arith

pub create_event-IsSound :
    (now : ℕ) (input : EventInput) (s : Server)
    → IsSound s
    → groups_fit input.group_ids s.db.groups.rows ≡ true
    → IsSound (create_event now input s).1
create_event-IsSound now input s w known = elim (creation now input s) [
  | refused c m e ↦ rw e w
  | created name slug own key free fits fit e ↦
      rw e (insert_event-IsSound now name slug input s w free fit)
  | half_created name slug bad e ↦ cc (known, bad)
]

moved-free :
    (i : ℕ) (existing : Event) (raw : Option String) (slug : Option String) (s : Server)
    → slug_change i existing raw s ≡ ok slug
    → (t : String) → slug ≡ some t
    → let s' = move_alias i existing slug s in
      (slug_taken t (some i) s' ≡ false)
      × ((a : EventSlugAlias) → Elem a s'.db.aliases → a.old_slug ≢ t)
unfolding move_alias slug_taken
moved-free i existing raw none s h t e = cc
moved-free i existing raw (some u) s h t e =
    let same : u ≡ t = ground (arith, e) in
    rw (← same) (slug_change-free i existing raw s u h, λ a m. (Elem-remove u _ a m).1)

rewritten-IsSound :
    (now i : ℕ) (existing : Event) (patch : EventInput) (slug : Option String) (s : Server)
    → IsSound s
    → get_row i s ≡ ok existing
    → slug_change i existing patch.slug s ≡ ok slug
    → IsSound (write_patch now i existing patch slug (move_alias i existing slug s))
rewritten-IsSound now i existing patch slug s w found good =
    let r = get_row-ok i s existing found in
    write_patch-IsSound now i existing patch slug (move_alias i existing slug s)
      (move_alias-IsSound i existing slug s w r.0 r.1)
      (moved-free i existing patch.slug slug s good)

pub update_event-IsSound :
    (now i : ℕ) (patch : EventInput) (s : Server)
    → IsSound s
    → IsSound (update_event now i patch s).1
update_event-IsSound now i patch s w = elim (update now i patch s) [
  | unwritten c m e ↦ rw e w
  | late_refusal existing slug m found good e ↦
      let r = get_row-ok i s existing found in rw e (move_alias-IsSound i existing slug s w r.0 r.1)
  | written existing slug found good fit e ↦
      rw e (rewritten-IsSound now i existing patch slug s w found good)
  | half_written existing slug found good bad e ↦
      rw e (rewritten-IsSound now i existing patch slug s w found good)
]

pub delete_event-IsSound : (i : ℕ) (s : Server) → IsSound s → IsSound (delete_event i s).1
unfolding drop_event Events.remove log_event
delete_event-IsSound i s w = elim (deletion i s) [
  | missing c m e ↦ rw e w
  | gone existing found e ↦ rw e (
      deleted-IsWellFormed s.db.events (EventSlugAliases.remove_by_event i s.db.aliases)
        (aliases-IsWellFormed s.db.events s.db.aliases w
          (EventSlugAliases.remove_by_event i s.db.aliases)
          (λ a m. w.owned a (Elem-remove_by_event i _ a m).0)
          (λ a b m n.
            w.same_alias a b (Elem-remove_by_event i _ a m).0 (Elem-remove_by_event i _ b n).0)
          (λ a x m n p. w.current a x (Elem-remove_by_event i _ a m).0 n p))
        i (λ a m. (Elem-remove_by_event i _ a m).1))
]
