-- ===== src/EventService/Outcomes.antt =====
-- The branches of `createEvent`, `updateEvent` and `deleteEvent`, as views of what a call answers and
-- leaves.
use constrainable.Base.{
  ℕ, String, true, false, ◌≡◌, ◌⊎◌, refl, inl, inr, Option, none, some, Table, ap, ◌∙◌,
  Option-cases, Bool-cases, is_empty, trim, or_else, holds, Result, ok, http_error,
}
use constrainable.Schema.{Group, Event, EventStatus}
use constrainable.Database.EventSlugAliases
use constrainable.Server.{Server, AuditLevel, event_deleted}
use constrainable.EventService.{
  EventInput, slug_taken, is_event_key, assert_window, flat, event_row, insert_event, create_event,
  groups_fit, write_error, slug_change, move_alias, write_patch, update_checked, update_event,
  seen_time, log_event,
}
use constrainable.EventService.Removal.{delete_event, drop_event}
use constrainable.EventService.View.{to_view, get_row, get_event}

pub Result-cases {ℓ} :
    {A : Type ℓ} (r : Result A)
    → ((a : A) × (r ≡ ok a)) ⊎ ((c : ℕ) × ((m : String) × (r ≡ http_error c m)))
Result-cases (ok a) = inl (a, refl)
Result-cases (http_error c m) = inr (c, (m, refl))

pub data Creation (now : ℕ) (input : EventInput) (s : Server) : Type 0 where
  refused :
      (code : ℕ) (message : String)
      → create_event now input s ≡ (http_error code message, s)
      → Creation now input s
  created :
      (name slug : String)
      → slug ≡ trim (or_else input.slug "")
      → is_event_key slug ≡ true
      → slug_taken slug none s ≡ false
      → assert_window
          (or_else input.status EventStatus.draft)
          (flat input.starts_at)
          (flat input.ends_at)
        ≡ none
      → groups_fit input.group_ids s.db.groups.rows ≡ true
      → create_event now input s ≡ (
        ok (
            to_view
              (insert_event now name slug input s)
              (event_row now name slug input s.db.events.next_id)),
        insert_event now name slug input s,
      )
      → Creation now input s
  -- The groups are refused when the row is there.
  half_created :
      (name slug : String)
      → groups_fit input.group_ids s.db.groups.rows ≡ false
      → create_event now input s ≡ (write_error, insert_event now name slug input s)
      → Creation now input s

pub creation : (now : ℕ) (input : EventInput) (s : Server) → Creation now input s
unfolding create_event
creation now input s =
    let name = trim (or_else input.name "") in
    let slug = trim (or_else input.slug "") in
    elim (Bool-cases (is_empty name)) [
      | inl blank ↦ refused 400 "name is required" (rw (create_event, blank) refl)
      | inr named ↦ elim (Bool-cases (is_event_key slug)) [
        | inr odd ↦
            refused 400 "Event key may only contain lowercase letters, digits, _ and -"
              (rw (create_event, named, odd) refl)
        | inl key ↦ elim (Bool-cases (slug_taken slug none s)) [
          | inl taken ↦ refused 409 "slug already used" (rw (create_event, named, key, taken) refl)
          | inr free ↦
              elim (Option-cases (
                assert_window (or_else input.status EventStatus.draft) (flat input.starts_at)
                  (flat input.ends_at))) [
                    | inr (m, bad) ↦ refused 400 m (rw (create_event, named, key, free, bad) refl)
                    | inl fits ↦ elim (Bool-cases (groups_fit input.group_ids s.db.groups.rows)) [
                      | inl known ↦
                          created name slug refl key free fits known
                            (rw (create_event, named, key, free, fits, known) refl)
                      | inr bad ↦
                          half_created name slug bad
                            (rw (create_event, named, key, free, fits, bad) refl)
                    ]
                  ]
        ]
      ]
    ]

pub data Update (now i : ℕ) (patch : EventInput) (s : Server) : Type 0 where
  unwritten :
      (code : ℕ) (message : String)
      → update_event now i patch s ≡ (http_error code message, s)
      → Update now i patch s
  -- The window is refused when the aliases have moved.
  late_refusal :
      (existing : Event) (slug : Option String) (message : String)
      → get_row i s ≡ ok existing
      → slug_change i existing patch.slug s ≡ ok slug
      → update_event now i patch s ≡ (http_error 400 message, move_alias i existing slug s)
      → Update now i patch s
  written :
      (existing : Event) (slug : Option String)
      → get_row i s ≡ ok existing
      → slug_change i existing patch.slug s ≡ ok slug
      → groups_fit patch.group_ids s.db.groups.rows ≡ true
      → update_event now i patch s ≡ (
        get_event i (write_patch now i existing patch slug (move_alias i existing slug s)),
        write_patch now i existing patch slug (move_alias i existing slug s),
      )
      → Update now i patch s
  -- The groups are refused when the row has been changed.
  half_written :
      (existing : Event) (slug : Option String)
      → get_row i s ≡ ok existing
      → slug_change i existing patch.slug s ≡ ok slug
      → groups_fit patch.group_ids s.db.groups.rows ≡ false
      → update_event now i patch s
        ≡ (write_error, write_patch now i existing patch slug (move_alias i existing slug s))
      → Update now i patch s

pub move_alias-groups :
    (i : ℕ) (existing : Event) (slug : Option String) (s : Server)
    → (move_alias i existing slug s).db.groups ≡ s.db.groups
unfolding move_alias
move_alias-groups i existing none s = refl
move_alias-groups i existing (some slug) s = refl

pub update : (now i : ℕ) (patch : EventInput) (s : Server) → Update now i patch s
unfolding update_event update_checked
update now i patch s = elim (Result-cases (get_row i s)) [
  | inr (c, (m, e)) ↦ unwritten c m (rw (update_event, e) refl)
  | inl (existing, e) ↦ elim (Bool-cases (holds (λ n. is_empty (trim n)) patch.name)) [
    | inl blank ↦ unwritten 400 "name cannot be empty" (rw (update_event, e, blank) refl)
    | inr named ↦ elim (Result-cases (slug_change i existing patch.slug s)) [
      | inr (c, (m, bad)) ↦ unwritten c m (rw (update_event, e, named, bad) refl)
      | inl (slug, good) ↦
          elim (Option-cases (
            assert_window (or_else patch.status existing.status)
              (seen_time patch.starts_at existing.starts_at)
              (seen_time patch.ends_at existing.ends_at))) [
                | inr (m, late) ↦
                    late_refusal existing slug m e good
                      (rw (update_event, e, named, good, update_checked, late) refl)
                | inl fits ↦
                    let same =
                      ap (λ (t : Table Group). groups_fit patch.group_ids t.rows)
                        (move_alias-groups i existing slug s) in
                    elim (Bool-cases (groups_fit patch.group_ids s.db.groups.rows)) [
                      | inl known ↦ written existing slug e good known (
                          rw (update_event, e, named, good, update_checked, fits, same ∙ known)
                            refl)
                      | inr bad ↦
                          half_written existing slug e good bad (
                            rw (update_event, e, named, good, update_checked, fits, same ∙ bad)
                              refl)
                    ]
              ]
    ]
  ]
]

pub data Deletion (i : ℕ) (s : Server) : Type 0 where
  missing :
      (code : ℕ) (message : String) → delete_event i s ≡ (http_error code message, s) → Deletion i s
  gone :
      (existing : Event)
      → get_row i s ≡ ok existing
      → delete_event i s ≡ (
        ok tt,
        log_event AuditLevel.warn (event_deleted existing.name) i (record s {
          db =
              drop_event i
                (record s.db { aliases = EventSlugAliases.remove_by_event i s.db.aliases });
        }),
      )
      → Deletion i s

pub deletion : (i : ℕ) (s : Server) → Deletion i s
unfolding delete_event
deletion i s = elim (Result-cases (get_row i s)) [
  | inr (c, (m, e)) ↦ missing c m (rw (delete_event, e) refl)
  | inl (existing, e) ↦ gone existing e (rw (delete_event, e) refl)
]
