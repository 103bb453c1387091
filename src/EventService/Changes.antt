-- ===== src/EventService/Changes.antt =====
-- What the operations on events do to the map from keys to events that Owners has.
use constrainable.EventService.EventSlugAliases
use constrainable.Base.{
  ◌⊎◌, inl, inr, none, trim, eq_iff, holds, ◌==◌, ◌≢◌, Table, ℕ, String, ◌≡◌, refl, sym, ap, ◌∙◌,
  some, Elem-append_last, Bool-cases, str_eq, or_else, Result, ok, if◌then◌else◌, Option, true,
  false, arith, Elem, update_where, Elem-update_cases, ==_iff, Elem-update_hit,
}
use constrainable.Schema.{Event}
use constrainable.Server.{Server}
use constrainable.EventService.View.{EventView}
use constrainable.EventService.{
  EventInput, slug_taken, slug_change, write_patch, apply_patch, is_event_key, insert_event,
  event_row, create_event, move_alias, groups_fit,
}
use constrainable.EventService.Outcomes.{refused, created, half_created, creation}
use constrainable.EventService.Aliases.{retired-remove, retired, retired-set}
use constrainable.EventService.Invariant.{
  IsSound, insert_event-events, insert_event-aliases, create_event-IsSound, write_patch-events,
  write_patch-aliases,
}
use constrainable.EventService.Owners.{
  owner, live_owner, owner-or_option, live_owner-some, live_owner-append_last,
  live_owner-update_where, live_owner-none,
}

pub server_of {ℓ} : {A : Type ℓ} {r r' : Result A × Server} → r ≡ r' → r.1 ≡ r'.1
server_of h = ap (λ x. x.1) h

pub IsSound-along {ℓ} :
    {A : Type ℓ} {r r' : Result A × Server} → r ≡ r' → IsSound r.1 → IsSound r'.1
IsSound-along h w = rw (← h) w

insert_event-owner :
    (now : ℕ) (name slug : String) (input : EventInput) (s : Server) (t : String)
    → IsSound s
    → IsSound (insert_event now name slug input s)
    → groups_fit input.group_ids s.db.groups.rows ≡ true
    → owner t (insert_event now name slug input s).db
      ≡ (if str_eq slug t then some s.db.events.next_id else owner t s.db)
unfolding event_row
insert_event-owner now name slug input s t w w' known =
    let s' = insert_event now name slug input s in
    let row = event_row now name slug input s.db.events.next_id in
    let rows = ap (λ (x : Table Event). x.rows) (insert_event-events now name slug input s) in
    elim (Bool-cases (str_eq slug t)) [
      | inl hit ↦
          let found : live_owner t s'.db.events.rows ≡ some s.db.events.next_id =
            live_owner-some t s' row w' (rw rows (Elem-append_last s.db.events.rows row))
              ((eq_iff slug t).0 hit) in
          owner-or_option t s' w' ∙ rw (found, hit) refl
      | inr miss ↦
          owner-or_option t s' w'
          ∙ rw
              (
                rows,
                insert_event-aliases now name slug input s known,
                live_owner-append_last t s.db.events.rows row miss,
                retired-remove slug t s.db.aliases,
                miss,
              )
              (sym (owner-or_option t s w))
    ]

-- A created event takes its key, and every other key leads where it led: the map from keys to
-- events changes at one key. The tables are sound before.
pub create_event-owner :
    (now : ℕ) (input : EventInput) (s : Server) {v : EventView} {s' : Server} (t : String)
    → IsSound s
    → create_event now input s ≡ (ok v, s')
    → owner t s'.db
      ≡ (if str_eq (trim (or_else input.slug "")) t then some s.db.events.next_id else owner t s.db)
create_event-owner now input s {s' = s'} t w h = elim (creation now input s) [
  | refused c m e ↦ cc (sym e ∙ h)
  | half_created name slug bad e ↦ cc (sym e ∙ h)
  | created name slug own key free fits fit e ↦
      let q : insert_event now name slug input s ≡ s' = server_of (sym e ∙ h) in
      let w' : IsSound (insert_event now name slug input s) =
        IsSound-along e (create_event-IsSound now input s w fit) in
      rw (← q, ← own) (insert_event-owner now name slug input s t w w' fit)
]

-- What the key of a patch comes to: nothing if it is the event's own.
pub slug_change-cases :
    (i : ℕ) (existing : Event) (raw : Option String) (s : Server) (slug : Option String)
    (t : String)
    → slug_change i existing raw s ≡ ok slug
    → ((slug ≡ none) × (holds (λ r. str_eq (trim r) t) raw ≡ true → existing.slug ≡ t))
      ⊎ ((u : String) × (slug ≡ some u)
          × (u ≢ existing.slug)
          × (slug_taken u (some i) s ≡ false)
          × (holds (λ r. str_eq (trim r) t) raw ≡ str_eq u t))
unfolding slug_change
slug_change-cases i existing none s slug t h = inl (ground (arith), λ q. cc)
slug_change-cases i existing (some raw) s slug t h = elim (Bool-cases (is_event_key (trim raw))) [
  | inr odd ↦ cc (rw odd at h)
  | inl key ↦ elim (Bool-cases (str_eq (trim raw) existing.slug)) [
    | inl own ↦ inl (
      ground (arith, rw (key, own) at h),
      λ q. sym ((eq_iff (trim raw) existing.slug).0 own) ∙ (eq_iff (trim raw) t).0 q,
    )
    | inr other ↦ elim (Bool-cases (slug_taken (trim raw) (some i) s)) [
      | inl taken ↦ cc (rw (key, other, taken) at h)
      | inr free ↦ inr (
        trim raw,
        ground (arith, rw (key, other, free) at h),
        λ e. cc (other, (eq_iff (trim raw) existing.slug).1 e),
        free,
        refl,
      )
    ]
  ]
]

-- A patch that keeps the key keeps the map.
pub kept_key-owner :
    (now i : ℕ) (existing : Event) (patch : EventInput) (s : Server) (t : String)
    → IsSound s
    → IsSound (write_patch now i existing patch none s)
    → owner t (write_patch now i existing patch none s).db ≡ owner t s.db
unfolding apply_patch
kept_key-owner now i existing patch s t w w' =
    owner-or_option t (write_patch now i existing patch none s) w'
    ∙ rw
        (
          ap (λ (x : Table Event). x.rows) (write_patch-events now i existing patch none s),
          write_patch-aliases now i existing patch none s,
          live_owner-update_where t (λ e. e.id == i) (apply_patch now patch none) s.db.events.rows
              (λ e. refl) (λ e m h. refl),
        )
        (sym (owner-or_option t s w))

-- After a patch that moves the event `existing` to the key `u`, no event has another key `t` that was
-- its key.
left_key-live_owner :
    (now i : ℕ) (existing : Event) (patch : EventInput) (u : String) (s : Server) (t : String)
    → IsSound s
    → Elem existing s.db.events.rows
    → existing.id ≡ i
    → str_eq u t ≡ false
    → existing.slug ≡ t
    → live_owner t (update_where (λ e. e.id == i) (apply_patch now patch (some u)) s.db.events.rows)
      ≡ none
unfolding apply_patch
left_key-live_owner now i existing patch u s t w m own other mine = live_owner-none t _ (λ x mx p.
    let (y, my, q) =
      Elem-update_cases (λ e. e.id == i) (apply_patch now patch (some u)) s.db.events.rows {x = x}
        mx in
    elim (Bool-cases (y.id == i)) [
      | inl hit ↦
          let r : x ≡ apply_patch now patch (some u) y = q ∙ rw hit refl in
          cc (other, (eq_iff u t).1 (ap (λ (e : Event). e.slug) (sym r) ∙ p))
      | inr miss ↦
          let r : x ≡ y = q ∙ rw miss refl in
          let same =
            w.same_slug y existing my m (ap (λ (e : Event). e.slug) (sym r) ∙ p ∙ sym mine) in
          cc (miss, (==_iff y.id i).1 (ap (λ (e : Event). e.id) same ∙ own))
    ])

pub moved_key-owner :
    (now i : ℕ) (existing : Event) (patch : EventInput) (u : String) (s : Server) (t : String)
    → let s' = write_patch now i existing patch (some u) (move_alias i existing (some u) s) in
      IsSound s
      → IsSound s'
      → Elem existing s.db.events.rows
      → existing.id ≡ i
      → owner t s'.db ≡ (if str_eq u t then some i else owner t s.db)
unfolding apply_patch move_alias
moved_key-owner now i existing patch u s t w w' m own =
    let s1 = move_alias i existing (some u) s in
    let s' = write_patch now i existing patch (some u) s1 in
    let rows =
      ap (λ (x : Table Event). x.rows) (write_patch-events now i existing patch (some u) s1) in
    let aliases = write_patch-aliases now i existing patch (some u) s1 in
    let kept : str_eq u t ≡ false
        → retired t s'.db.aliases
          ≡ (if str_eq existing.slug t then some i else retired t s.db.aliases) =
      λ miss.
        rw (aliases, retired-remove u t (EventSlugAliases.set existing.slug i s.db.aliases), miss)
          (retired-set existing.slug t i s.db.aliases) in
    elim (Bool-cases (str_eq u t)) [
      | inl hit ↦
          let found : live_owner t s'.db.events.rows ≡ some i =
            live_owner-some t s' (apply_patch now patch (some u) existing) w'
              (rw rows (
                Elem-update_hit (λ e. e.id == i) (apply_patch now patch (some u)) s.db.events.rows m
                  ((==_iff existing.id i).1 own)))
              ((eq_iff u t).0 hit)
            ∙ ap some own in
          owner-or_option t s' w' ∙ rw (found, hit) refl
      | inr miss ↦ elim (Bool-cases (str_eq existing.slug t)) [
        | inl mine ↦
            let none_left : live_owner t s'.db.events.rows ≡ none = rw rows (
              left_key-live_owner now i existing patch u s t w m own miss
                ((eq_iff existing.slug t).0 mine)) in
            owner-or_option t s' w'
            ∙ rw
                (
                  none_left,
                  kept miss,
                  mine,
                  miss,
                  owner-or_option t s w,
                  live_owner-some t s existing w m ((eq_iff existing.slug t).0 mine),
                  own,
                )
                refl
        | inr foreign ↦
            let same : live_owner t s'.db.events.rows ≡ live_owner t s.db.events.rows = rw rows (
              live_owner-update_where t (λ e. e.id == i) (apply_patch now patch (some u))
                s.db.events.rows (λ e. refl)
                (λ e me hit.
                  let q = w.same_id e existing me m ((==_iff e.id i).0 hit ∙ sym own) in
                  miss ∙ sym (ap (λ (x : Event). str_eq x.slug t) q ∙ foreign))) in
            owner-or_option t s' w'
            ∙ rw (same, kept miss, foreign, miss) (sym (owner-or_option t s w))
      ]
    ]
