-- ===== src/EventService/Renames.antt =====
-- Changes of keys and deletions, as changes of the map from keys to events.
use constrainable.Server.{event_deleted, Server, AuditLevel}
use constrainable.Base.{
  filter, ℕ, String, not, ◌≡◌, refl, sym, ◌∙◌, inl, inr, Option, some, none, ◌==◌, if◌then◌else◌,
  arith, ok, holds, str_eq, Option-cases, trim, Bool-cases, or_option,
}
use constrainable.EventService.EventSlugAliases
use constrainable.EventService.Invariant.{
  IsSound, get_row-ok, update_event-IsSound, delete_event-IsSound,
}
use constrainable.EventService.Outcomes.{
  unwritten, late_refusal, written, half_written, update, missing, gone, deletion,
}
use constrainable.EventService.Aliases.{retired, retired-Elem, retired-remove_by_event}
use constrainable.EventService.Owners.{
  owner, live_owner, owner-or_option, live_owner-some, live_owner-Elem, live_owner-deleted,
}
use constrainable.EventService.Changes.{
  server_of, IsSound-along, slug_change-cases, kept_key-owner, moved_key-owner,
}
use constrainable.EventService.{move_alias, log_event, EventInput, update_event, write_patch}
use constrainable.EventService.Removal.{drop_event, delete_event}
use constrainable.Database.Events
use constrainable.EventService.View.{EventView}

IsSound-to : {s s' : Server} → s ≡ s' → IsSound s' → IsSound s
IsSound-to h w = rw h w

owner-to :
    {s s' : Server} {o : Option ℕ} (t : String) → s ≡ s' → owner t s.db ≡ o → owner t s'.db ≡ o
owner-to t h e = rw (← h) e

-- A patch that is carried out takes the key that it names for its event, and every other key leads
-- where it led; the key that the event had still leads to it. The tables are sound before.
pub update_event-owner :
    (now i : ℕ) (patch : EventInput) (s : Server) {v : EventView} {s' : Server} (t : String)
    → IsSound s
    → update_event now i patch s ≡ (ok v, s')
    → owner t s'.db
      ≡ (if holds (λ raw. str_eq (trim raw) t) patch.slug then some i else owner t s.db)
unfolding move_alias
update_event-owner now i patch s {s' = s'} t w h = elim (update now i patch s) [
  | unwritten c m e ↦ cc (sym e ∙ h)
  | late_refusal existing slug m found good e ↦ cc (sym e ∙ h)
  | half_written existing slug found good bad e ↦ cc (sym e ∙ h)
  | written existing slug found good fit e ↦
      let (m, own) = get_row-ok i s existing found in
      let z : write_patch now i existing patch slug (move_alias i existing slug s) ≡ s' =
        server_of (sym e ∙ h) in
      let w' = IsSound-along h (update_event-IsSound now i patch s w) in
      elim (slug_change-cases i existing patch.slug s slug t good) [
        | inl (kept, mine) ↦
            let q : write_patch now i existing patch none s ≡ s' = rw kept at z in
            let same : owner t s'.db ≡ owner t s.db =
              owner-to t q (kept_key-owner now i existing patch s t w (IsSound-to q w')) in
            elim (Bool-cases (holds (λ raw. str_eq (trim raw) t) patch.slug)) [
              | inr miss ↦ rw miss same
              | inl hit ↦ rw hit (
                  same
                  ∙ rw (owner-or_option t s w, live_owner-some t s existing w m (mine hit), own)
                      refl)
            ]
        | inr (u, new, other, free, same) ↦
            let q : write_patch now i existing patch (some u) (move_alias i existing (some u) s)
                ≡ s' =
              rw new at z in
            rw same
              (owner-to t q (moved_key-owner now i existing patch u s t w (IsSound-to q w') m own))
      ]
]

deleted-or_option :
    (i : ℕ) (s : Server) (t : String)
    → IsSound s
    → let rows = s.db.events.rows in
      or_option
        (live_owner t (filter (λ e. not (e.id == i)) rows))
        (retired t (EventSlugAliases.remove_by_event i s.db.aliases))
      ≡ (if holds (λ j. j == i) (or_option (live_owner t rows) (retired t s.db.aliases))
          then none
          else or_option (live_owner t rows) (retired t s.db.aliases))
deleted-or_option i s t w =
    let live = live_owner-deleted i t s.db.events.rows w.same_slug in
    let left = retired-remove_by_event i t s.db.aliases w.same_alias in
    elim (Option-cases (live_owner t s.db.events.rows)) [
      | inl e ↦ ground (arith, live, left, e)
      | inr (j, e) ↦ elim (Option-cases (retired t s.db.aliases)) [
        | inl f ↦ ground (arith, live, left, e, f)
        | inr (k, f) ↦
            let (x, mx, p, r) = live_owner-Elem t s.db.events.rows j e in
            let (a, ma, p', r') = retired-Elem t s.db.aliases k f in
            let same : k ≡ j = sym r' ∙ w.current a x ma mx (p' ∙ sym p) ∙ r in
            ground (arith, live, left, e, f, same)
      ]
    ]

-- A deleted event takes all its keys with it, and every key of another event leads where it led. The
-- tables are sound before.
pub delete_event-owner :
    (i : ℕ) (s : Server) {s' : Server} (t : String)
    → IsSound s
    → delete_event i s ≡ (ok tt, s')
    → owner t s'.db ≡ (if holds (λ j. j == i) (owner t s.db) then none else owner t s.db)
unfolding drop_event log_event Events.remove
delete_event-owner i s {s' = s'} t w h = elim (deletion i s) [
  | missing c m e ↦ cc (sym e ∙ h)
  | gone existing found e ↦
      let d = log_event AuditLevel.warn (event_deleted existing.name) i (record s {
        db =
            drop_event i
              (record s.db { aliases = EventSlugAliases.remove_by_event i s.db.aliases });
      }) in
      let q : d ≡ s' = server_of (sym e ∙ h) in
      let w' : IsSound d = IsSound-along e (delete_event-IsSound i s w) in
      rw (← q)
        (owner-or_option t d w' ∙ (deleted-or_option i s t w ∙ rw (owner-or_option t s w) refl))
]
