-- ===== src/EventService/Scopes.antt =====
-- The operations on events leave the table of groups alone.
use constrainable.Base.{ℕ, String, Option, ◌≡◌, ◌∙◌, refl, inl, inr, Bool-cases}
use constrainable.Schema.{Event}
use constrainable.Server.{Server}
use constrainable.EventService.{
  EventInput, create_event, update_event, groups_fit, insert_event, write_patch, move_alias,
  log_event,
}
use constrainable.EventService.Removal.{delete_event, drop_event}
use constrainable.EventService.Outcomes.{
  refused, created, half_created, creation, unwritten, late_refusal, written, half_written, update,
  missing, gone, deletion, move_alias-groups,
}
use constrainable.EventService.Invariant.{with_groups-groups}

insert_event-groups :
    (now : ℕ) (name slug : String) (input : EventInput) (s : Server)
    → (insert_event now name slug input s).db.groups ≡ s.db.groups
unfolding insert_event log_event
insert_event-groups now name slug input s =
    elim (Bool-cases (groups_fit input.group_ids s.db.groups.rows)) [
      | inl known ↦ rw known (with_groups-groups s.db.events.next_id input.group_ids _)
      | inr bad ↦ rw bad (with_groups-groups s.db.events.next_id input.group_ids _)
    ]

write_patch-groups :
    (now i : ℕ) (existing : Event) (input : EventInput) (slug : Option String) (s : Server)
    → (write_patch now i existing input slug (move_alias i existing slug s)).db.groups ≡ s.db.groups
unfolding write_patch log_event
write_patch-groups now i existing input slug s =
    elim (Bool-cases (groups_fit input.group_ids (move_alias i existing slug s).db.groups.rows)) [
      | inl known ↦
          rw known (with_groups-groups i input.group_ids _ ∙ move_alias-groups i existing slug s)
      | inr bad ↦
          rw bad (with_groups-groups i input.group_ids _ ∙ move_alias-groups i existing slug s)
    ]

pub create_event-groups :
    (now : ℕ) (input : EventInput) (s : Server)
    → (create_event now input s).1.db.groups ≡ s.db.groups
create_event-groups now input s = elim (creation now input s) [
  | refused c m e ↦ rw e refl
  | created name slug own key free fits fit e ↦ rw e (insert_event-groups now name slug input s)
  | half_created name slug bad e ↦ rw e (insert_event-groups now name slug input s)
]

pub update_event-groups :
    (now i : ℕ) (input : EventInput) (s : Server)
    → (update_event now i input s).1.db.groups ≡ s.db.groups
update_event-groups now i input s = elim (update now i input s) [
  | unwritten c m e ↦ rw e refl
  | late_refusal existing slug m found good e ↦ rw e (move_alias-groups i existing slug s)
  | written existing slug found good fit e ↦ rw e (write_patch-groups now i existing input slug s)
  | half_written existing slug found good bad e ↦
      rw e (write_patch-groups now i existing input slug s)
]

pub delete_event-groups : (i : ℕ) (s : Server) → (delete_event i s).1.db.groups ≡ s.db.groups
unfolding drop_event log_event
delete_event-groups i s = elim (deletion i s) [
  | missing c m e ↦ rw e refl
  | gone existing found e ↦ rw e refl
]
