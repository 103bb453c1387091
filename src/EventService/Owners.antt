-- ===== src/EventService/Owners.antt =====
-- Whose a key is: an abstract view of events and retired keys as a map from keys to event ids, that
-- the operations on events change at one key.
use constrainable.Base.{
  eq_iff, Elem, ◌++◌, Bool, ◌≢◌, sym, ◌∙◌, inl, inr, [], ◌∷◌, false, true, update_where, Bool-cases,
  is_some, ℕ, String, ◌≡◌, refl, ap, Option, some, none, List, find?-some, find?-none, find?-Elem,
  Option-cases, ◌==◌, ==_iff, str_eq, or_option, if◌then◌else◌, arith, filter, not, holds,
}
use constrainable.Schema.{Event}
use constrainable.Database.{Database}
use constrainable.Database.Events
use constrainable.Database.EventSlugAliases
use constrainable.Server.{Server}
use constrainable.EventService.Aliases.{retired, find_by_old_slug-none, find_by_old_slug-some}
use constrainable.EventService.Invariant.{IsSound}
use constrainable.Guide.{resolve, redirected}

-- The id of the event that a key leads to.
unfoldable pub owner : String → Database → Option ℕ
unfolding resolve
owner slug db = elim (resolve slug db) [ none ↦ none | some r ↦ some r.0.id ]

-- The id of the event that has the key now.
pub live_owner : String → List Event → Option ℕ
live_owner t [] = none
live_owner t (e ∷ es) = if str_eq e.slug t then some e.id else live_owner t es

find_by_slug-none :
    (t : String) (es : List Event) → Events.find_by_slug t es ≡ none → live_owner t es ≡ none
unfolding Events.find_by_slug live_owner
find_by_slug-none t [] h = refl
find_by_slug-none t (e ∷ es) h = ground (arith, find_by_slug-none t es)

find_by_slug-some :
    (t : String) (es : List Event) (e : Event)
    → Events.find_by_slug t es ≡ some e
    → live_owner t es ≡ some e.id
unfolding Events.find_by_slug live_owner
find_by_slug-some t [] e h = cc
find_by_slug-some t (x ∷ es) e h = ground (arith, find_by_slug-some t es e)

-- With sound tables the guide's lookup is: the event that has the key, or else the one that had it.
pub owner-or_option :
    (t : String) (s : Server)
    → IsSound s
    → owner t s.db ≡ or_option (live_owner t s.db.events.rows) (retired t s.db.aliases)
unfolding owner resolve redirected Events.find_by_slug Events.find_by_id
owner-or_option t s w = elim (Option-cases (Events.find_by_slug t s.db.events.rows)) [
  | inr (e, found) ↦ rw (owner, resolve, found, find_by_slug-some t s.db.events.rows e found) refl
  | inl none_left ↦ elim (Option-cases (EventSlugAliases.find_by_old_slug t s.db.aliases)) [
    | inl lost ↦
        rw
          (
            owner,
            resolve,
            redirected,
            none_left,
            lost,
            find_by_slug-none t s.db.events.rows none_left,
            find_by_old_slug-none t s.db.aliases lost,
          )
          refl
    | inr (a, kept) ↦
        let (was, m) = find_by_old_slug-some t s.db.aliases a kept in
        let (e, me, own) = w.owned a m in
        let (x, found) =
          find?-Elem (λ x. x.id == a.event_id) s.db.events.rows {x = e} me (ground (arith, own)) in
        let (mx, same) = find?-some (λ x. x.id == a.event_id) s.db.events.rows {x = x} found in
        let other : str_eq x.slug t ≡ false = find?-none _ s.db.events.rows {x = x} none_left mx in
        let known : Events.find_by_id a.event_id s.db.events.rows ≡ some x = found in
        rw
          (
            owner,
            resolve,
            none_left,
            redirected,
            kept,
            known,
            other,
            was,
            find_by_slug-none t s.db.events.rows none_left,
          )
          (ap some ((==_iff x.id a.event_id).0 same))
  ]
]

pub live_owner-none :
    (t : String) (es : List Event) → ((e : Event) → Elem e es → e.slug ≢ t) → live_owner t es ≡ none
unfolding live_owner
live_owner-none t [] h = refl
live_owner-none t (e ∷ es) h =
    ground (arith, live_owner-none t es (λ b m. h b (inr m)), eq_iff e.slug t, h e (inl refl))

pub live_owner-Elem :
    (t : String) (es : List Event) (i : ℕ)
    → live_owner t es ≡ some i
    → (e : Event) × Elem e es × (e.slug ≡ t) × (e.id ≡ i)
unfolding live_owner
live_owner-Elem t [] i h = cc
live_owner-Elem t (e ∷ es) i h = elim (Bool-cases (str_eq e.slug t)) [
  | inl hit ↦ (e, inl refl, (eq_iff e.slug t).0 hit, ground arith)
  | inr miss ↦ let (b, m, p, q) = live_owner-Elem t es i (ground arith) in (b, inr m, p, q)
]

live_owner-is_some :
    (t : String) (es : List Event) (e : Event)
    → Elem e es
    → e.slug ≡ t
    → is_some (live_owner t es) ≡ true
unfolding live_owner
live_owner-is_some t [] e m h = absurd m
live_owner-is_some t (x ∷ es) e m h =
    ground (arith, live_owner-is_some t es e, (eq_iff e.slug t).1 h)

-- An event that has the key, where the key names one event.
pub live_owner-some :
    (t : String) (s : Server) (e : Event)
    → IsSound s
    → Elem e s.db.events.rows
    → e.slug ≡ t
    → live_owner t s.db.events.rows ≡ some e.id
live_owner-some t s e w m h = elim (Option-cases (live_owner t s.db.events.rows)) [
  | inl lost ↦ cc (live_owner-is_some t s.db.events.rows e m h, ap is_some lost)
  | inr (i, q) ↦
      let (x, mx, p, r) = live_owner-Elem t s.db.events.rows i q in
      q ∙ ap some (sym r ∙ ap (λ (y : Event). y.id) (w.same_slug x e mx m (p ∙ sym h)))
]

pub live_owner-append_last :
    (t : String) (es : List Event) (e : Event)
    → str_eq e.slug t ≡ false
    → live_owner t (es ++ e ∷ []) ≡ live_owner t es
unfolding live_owner
live_owner-append_last t [] e h = rw h refl
live_owner-append_last t (x ∷ es) e h = ground (arith, live_owner-append_last t es e h)

-- A change of rows that changes no key from or to `t`, and no id.
pub live_owner-update_where :
    (t : String) (p : Event → Bool) (f : Event → Event) (es : List Event)
    → ((e : Event) → (f e).id ≡ e.id)
    → ((e : Event) → Elem e es → p e ≡ true → str_eq (f e).slug t ≡ str_eq e.slug t)
    → live_owner t (update_where p f es) ≡ live_owner t es
unfolding live_owner
live_owner-update_where t p f [] keeps same = refl
live_owner-update_where t p f (e ∷ es) keeps same = ground (
  arith,
  live_owner-update_where t p f es keeps (λ x m. same x (inr m)),
  keeps e,
  same e (inl refl),
)

-- Where a key names one event, a deletion takes the keys of the event and no other.
pub live_owner-deleted :
    (i : ℕ) (t : String) (es : List Event)
    → ((e f : Event) → Elem e es → Elem f es → e.slug ≡ f.slug → e ≡ f)
    → live_owner t (filter (λ e. not (e.id == i)) es)
      ≡ (if holds (λ j. j == i) (live_owner t es) then none else live_owner t es)
unfolding live_owner
live_owner-deleted i t [] u = refl
live_owner-deleted i t (e ∷ es) u =
    let rest = live_owner-deleted i t es (λ a b m n. u a b (inr m) (inr n)) in
    elim (Option-cases (live_owner t es)) [
      | inl q ↦ ground (arith, rest, q)
      | inr (j, q) ↦
          let (x, m, p, r) = live_owner-Elem t es j q in
          let same : e.slug ≡ t → e.id ≡ j =
            λ h. ap (λ (y : Event). y.id) (u e x (inl refl) (inr m) (h ∙ sym p)) ∙ r in
          ground (arith, rest, q, same, eq_iff e.slug t)
    ]
