-- ===== src/EventLifecycle/Statuses.antt =====
-- What ticks do to the statuses of events.
use constrainable.Base.{
  Table, ℕ, ◌≤◌, ◌≡◌, refl, sym, ap, ◌∙◌, ◌⊎◌, inl, inr, String, Bool, true, false, Option, some,
  none, List, [], ◌∷◌, Elem, All, All-Elem, All-mono, All-of_Elem, All-update_where, update_where,
  sort_by-Elem, Elem-sort_by, Bool-cases, ◌==◌, arith, if_true, if◌then◌else◌,
}
use constrainable.Schema.{Event, EventStatus, PublishSession}
use constrainable.Database.Events
use constrainable.Database.Sessions
use constrainable.Server.{Server}
use constrainable.EventLifecycle.{
  Tick, starts, ends, reachable, set_status, cut_stream, cut_streams, start_event, end_event,
  tick_event, tick_events, run_event_lifecycle,
}

-- No two events share an id.
abbrev pub HasEventIds : List Event → Type 0
HasEventIds es = (x y : Event) → Elem x es → Elem y es → x.id ≡ y.id → x ≡ y

-- A scheduled event whose start has come goes live, another one that is live or scheduled and whose
-- end has come has ended, and any other is left alone.
pub next : ℕ → Event → Event
next now e = record e {
  status =
      if starts now e then EventStatus.live else if ends now e then EventStatus.ended else e.status;
}

cut_streams-events :
    (connected : String → Bool) (now : ℕ) (e : Event) (rs : List PublishSession) (t : Tick)
    → (cut_streams connected now e rs t).server.db.events ≡ t.server.db.events
unfolding cut_streams cut_stream
cut_streams-events connected now e [] t = refl
cut_streams-events connected now e (r ∷ rs) t =
    cut_streams-events connected now e rs (cut_stream connected now e r t)
    ∙ step (reachable connected r) refl
  where
    step :
        (b : Bool)
        → reachable connected r ≡ b
        → (cut_stream connected now e r t).server.db.events ≡ t.server.db.events
    step true h = rw (h, cut_stream) refl
    step false h = rw (h, cut_stream) refl

-- The rows after the body of the loop.
retimed : ℕ → Event → List Event → List Event
retimed now e rows =
    if starts now e
    then update_where (λ x. x.id == e.id) (λ x. record x { status = EventStatus.live }) rows
    else if ends now e
    then update_where (λ x. x.id == e.id) (λ x. record x { status = EventStatus.ended }) rows
    else rows

tick_event-rows :
    (connected : String → Bool) (now : ℕ) (e : Event) (t : Tick)
    → (tick_event connected now e t).server.db.events.rows ≡ retimed now e t.server.db.events.rows
unfolding tick_event start_event end_event set_status retimed Events.update
tick_event-rows connected now e t = elim (Bool-cases (starts now e)) [
  | inl h ↦ rw (h, tick_event) refl
  | inr h ↦ elim (Bool-cases (ends now e)) [
    | inr k ↦ rw (h, tick_event, k, tick_event) refl
    | inl k ↦
        let cut = Sessions.find_active_by_event e.id t.server.db.sessions.rows in
        rw (h, tick_event, k, tick_event)
          (ap
            (λ (x : Table Event).
              update_where (λ x. x.id == e.id) (λ x. record x { status = EventStatus.ended })
                x.rows)
            (cut_streams-events connected now e cut t))
  ]
]

-- While the events `es` are still to come, a row is one of before, advanced, or one of `es`.
abbrev Aged : ℕ → List Event → List Event → Event → Type 0
Aged now before es x = (r : Event) × Elem r before × ((x ≡ next now r) ⊎ ((x ≡ r) × Elem r es))

module _ (now : ℕ) (before es : List Event) (e : Event) (ids : HasEventIds before)
    (here : Elem e before) where
  Aged-hit :
      (status : EventStatus)
      → ((x : Event) → (x ≡ next now e) ⊎ (x ≡ e) → record x { status = status } ≡ next now e)
      → (x : Event) → Aged now before (e ∷ es) x
      → (x.id == e.id) ≡ true
      → Aged now before es (record x { status = status })
  unfolding next
  Aged-hit status f x (r, m, inl q) h =
      (e, here, inl (f x (inl (q ∙ ap (next now) (ids r e m here (same q h))))))
    where
      same : x ≡ next now r → (x.id == e.id) ≡ true → r.id ≡ e.id
      same q h = ground (arith, ap (λ (y : Event). y.id) q)
  Aged-hit status f x (r, m, inr (q, n)) h =
      (e, here, inl (f x (inr (q ∙ ids r e m here (same q h)))))
    where
      same : x ≡ r → (x.id == e.id) ≡ true → r.id ≡ e.id
      same q h = ground (arith, ap (λ (y : Event). y.id) q)

  advanced :
      {status : EventStatus}
      → next now e ≡ record e { status = status }
      → (x : Event) → (x ≡ next now e) ⊎ (x ≡ e)
      → record x { status = status } ≡ next now e
  unfolding next
  advanced {status} g x (inl q) = ap (λ (y : Event). record y { status = status }) q ∙ sym g
  advanced {status} g x (inr q) = ap (λ (y : Event). record y { status = status }) q ∙ sym g

  Aged-miss :
      (x : Event) → Aged now before (e ∷ es) x → (x.id == e.id) ≡ false → Aged now before es x
  Aged-miss x (r, m, inl q) h = (r, m, inl q)
  Aged-miss x (r, m, inr (q, inl same)) h =
      absurd (ground (arith, ap (λ (y : Event). y.id) q, ap (λ (y : Event). y.id) same))
  Aged-miss x (r, m, inr (q, inr n)) h = (r, m, inr (q, n))

  Aged-same : next now e ≡ e → (x : Event) → Aged now before (e ∷ es) x → Aged now before es x
  Aged-same f x (r, m, inl q) = (r, m, inl q)
  Aged-same f x (r, m, inr (q, inl same)) = (e, here, inl (q ∙ sym same ∙ sym f))
  Aged-same f x (r, m, inr (q, inr n)) = (r, m, inr (q, n))

  retimed-Aged :
      (rows : List Event)
      → All (Aged now before (e ∷ es)) rows
      → All (Aged now before es) (retimed now e rows)
  unfolding retimed next
  retimed-Aged rows a = elim (Bool-cases (starts now e)) [
    | inl h ↦
        rw (h, retimed)
          (All-update_where _ _ _ _ rows a
            (Aged-hit EventStatus.live
              (advanced (ap (λ s. record e { status = s }) (if_true (starts now e) _ _ h))))
            Aged-miss)
    | inr h ↦ elim (Bool-cases (ends now e)) [
      | inl k ↦
          rw (h, retimed, k, retimed)
            (All-update_where _ _ _ _ rows a
              (Aged-hit EventStatus.ended (advanced (rw (h, k) refl))) Aged-miss)
      | inr k ↦ rw (h, retimed, k, retimed) (All-mono _ _ rows (Aged-same (rw (h, k) refl)) a)
    ]
  ]

tick_events-Aged :
    (connected : String → Bool) (now : ℕ) (before es : List Event) (t : Tick)
    → HasEventIds before
    → ((e : Event) → Elem e es → Elem e before)
    → All (Aged now before es) t.server.db.events.rows
    → All (Aged now before []) (tick_events connected now es t).server.db.events.rows
unfolding tick_events
tick_events-Aged connected now before [] t ids sub a = a
tick_events-Aged connected now before (e ∷ es) t ids sub a =
    tick_events-Aged connected now before es (tick_event connected now e t) ids
      (λ x m. sub x (inr m))
      (rw (tick_event-rows connected now e t)
        (retimed-Aged now before es e ids (sub e (inl refl)) t.server.db.events.rows a))

-- Each event after a tick is an event of before, with the status that its times ask for.
pub run_event_lifecycle-next :
    (connected : String → Bool) (now : ℕ) (s : Server)
    → HasEventIds s.db.events.rows
    → All
        (λ x. (r : Event) × Elem r s.db.events.rows × (x ≡ next now r))
        (run_event_lifecycle connected now s).server.db.events.rows
unfolding run_event_lifecycle Events.find_all
run_event_lifecycle-next connected now s ids =
    let rows = s.db.events.rows in
    All-mono _ _ _ (λ x (r, m, p). (r, m, elim p [ inl q ↦ q | inr q ↦ absurd q.1 ]))
      (tick_events-Aged connected now rows (Events.find_all rows) _ ids
        (λ e m. Elem-sort_by Events.starts_before rows e m)
        (All-of_Elem _ rows
          (λ x m. (x, m, inr (refl, sort_by-Elem Events.starts_before rows x m)))))

-- Its start is not due, nor its end.
abbrev pub IsSettled : ℕ → Event → Type 0
IsSettled now e = (starts now e ≡ false) × (ends now e ≡ false)

IsSettled-times :
    (now later : ℕ) (e : Event) (status : EventStatus) (from to : Option ℕ)
    → now ≤ later
    → IsSettled now
        (next later (next now (record e { status = status; starts_at = from; ends_at = to })))
unfolding next starts ends
IsSettled-times now later e EventStatus.draft from to h = (refl, refl)
IsSettled-times now later e EventStatus.ended from to h = (refl, refl)
IsSettled-times now later e EventStatus.archived from to h = (refl, refl)
IsSettled-times now later e EventStatus.live from none h = (refl, refl)
IsSettled-times now later e EventStatus.live from (some t) h = (ground arith, ground arith)
IsSettled-times now later e EventStatus.scheduled none none h = (refl, refl)
IsSettled-times now later e EventStatus.scheduled none (some t) h = (ground arith, ground arith)
IsSettled-times now later e EventStatus.scheduled (some a) none h = (ground arith, ground arith)
IsSettled-times now later e EventStatus.scheduled (some a) (some t) h = (ground arith, ground arith)

next-id : (now : ℕ) (e : Event) → (next now e).id ≡ e.id
unfolding next
next-id now e = refl

next-IsSettled : (now later : ℕ) (e : Event) → now ≤ later → IsSettled now (next later (next now e))
unfolding next starts ends
next-IsSettled now later e h = IsSettled-times now later e e.status e.starts_at e.ends_at h

-- Two ticks settle every event: after a tick at `now` and one at the same time or later, no scheduled
-- event has a start that has come by `now`, and no event that is live or scheduled has an end that
-- has come by `now`.
pub run_event_lifecycle-settles :
    (connected : String → Bool) (now later : ℕ) (s : Server)
    → HasEventIds s.db.events.rows
    → now ≤ later
    → All
        (IsSettled now)
        (run_event_lifecycle connected later
          (run_event_lifecycle connected now s).server).server.db.events.rows
run_event_lifecycle-settles connected now later s ids h =
    let s' = (run_event_lifecycle connected now s).server in
    let first = run_event_lifecycle-next connected now s ids in
    All-mono _ _ _
      (λ x (r, m, q).
        (let (old, n, p) = All-Elem _ s'.db.events.rows first m in
          rw (q, p) (next-IsSettled now later old h)))
      (run_event_lifecycle-next connected later s' (ids_kept s' first))
  where
    ids_kept :
        (s' : Server)
        → All (λ x. (r : Event) × Elem r s.db.events.rows × (x ≡ next now r)) s'.db.events.rows
        → HasEventIds s'.db.events.rows
    ids_kept s' a x y m n same =
        let p = All-Elem _ s'.db.events.rows {x = x} a m in
        let q = All-Elem _ s'.db.events.rows {x = y} a n in
        let id_x = ap (λ (z : Event). z.id) p.2 ∙ next-id now p.0 in
        let id_y = ap (λ (z : Event). z.id) q.2 ∙ next-id now q.0 in
        p.2 ∙ ap (next now) (ids p.0 q.0 p.1 q.1 (sym id_x ∙ same ∙ id_y)) ∙ sym q.2
