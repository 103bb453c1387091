-- ===== src/EventLifecycle/Cuts.antt =====
-- What a tick does to the streams of an event whose end has come.
use constrainable.Base.{
  ◌∙◌, sym, sort_by-Elem, Bool-cases, All-Elem, ℕ, ◌≡◌, refl, ap, ◌⊎◌, inl, inr, String, Bool, true,
  false, Option, some, none, List, [], ◌∷◌, Elem, All, All-mono, All-of_Elem, All-update_where,
  filter-Elem, holds-some, ◌==◌, ==_refl, arith,
}
use constrainable.Schema.{Event, PublishSession}
use constrainable.Database.Events
use constrainable.Database.Sessions
use constrainable.Database.Sessions.{is_open}
use constrainable.Server.{Server}
use constrainable.EventLifecycle.{
  end_event, start_event, tick_event, tick_events, set_status, run_event_lifecycle, Kick, Tick,
  starts, ends, reachable, cut_stream, cut_streams,
}

-- The node of the session was told to drop the stream.
abbrev pub IsKicked : List Kick → PublishSession → Type 0
IsKicked ks r =
    (n : String) × (r.node_id ≡ some n)
    × Elem (record { node_id = n; stream_name = r.stream_name }) ks

reachable-node :
    (connected : String → Bool) (r : PublishSession)
    → reachable connected r ≡ true
    → (n : String) × (r.node_id ≡ some n)
unfolding reachable
reachable-node connected r h = let found = holds-some _ r.node_id h in (found.0, found.1)

-- More frames change nothing of what holds of a session.
abbrev Grows : (List Kick → PublishSession → Type 0) → Type 0
Grows D =
    (ks more : List Kick) (r : PublishSession)
    → ((k : Kick) → Elem k ks → Elem k more)
    → D ks r
    → D more r

IsKicked-Grows : Grows IsKicked
IsKicked-Grows ks more r sub (n, h, m) = (n, h, sub _ m)

module _ (connected : String → Bool) (now : ℕ) (e : Event) where
  cut_stream-kicks :
      (r : PublishSession) (t : Tick) (k : Kick)
      → Elem k t.kicks
      → Elem k (cut_stream connected now e r t).kicks
  unfolding cut_stream
  cut_stream-kicks r t k m = node r.node_id refl (reachable connected r) refl
    where
      node :
          (o : Option String)
          → r.node_id ≡ o
          → (b : Bool) → reachable connected r ≡ b
          → Elem k (cut_stream connected now e r t).kicks
      node none h b g = rw (h, cut_stream) m
      node (some n) h true g = rw (h, g, cut_stream) (inr m)
      node (some n) h false g = rw (h, g, cut_stream) m

  cut_stream-IsKicked :
      (r : PublishSession) (t : Tick)
      → reachable connected r ≡ true
      → IsKicked (cut_stream connected now e r t).kicks r
  unfolding cut_stream
  cut_stream-IsKicked r t h =
      let found = reachable-node connected r h in (found.0, found.1, rw (found.1, h) (inl refl))

  module _ (D : List Kick → PublishSession → Type 0) (grows : Grows D) where
    -- Of the open sessions of the event, `rs` are still to be cut.
    abbrev Cut : List PublishSession → List Kick → PublishSession → Type 0
    Cut rs ks x = is_open x ≡ true → D ks x × (x.event_id ≡ some e.id → IsKicked ks x ⊎ Elem x rs)

    cut_stream-Cut :
        (r : PublishSession) (rs : List PublishSession) (t : Tick)
        → All (Cut (r ∷ rs) t.kicks) t.server.db.sessions.rows
        → let t' = cut_stream connected now e r t in
          All (Cut rs t'.kicks) t'.server.db.sessions.rows
    unfolding cut_stream Sessions.mark_ended
    cut_stream-Cut r rs t a = go (reachable connected r) refl
      where
        ks : List Kick
        ks = (cut_stream connected now e r t).kicks

        more : (x : PublishSession) → D t.kicks x → D ks x
        more x d = grows t.kicks ks x (λ k m. cut_stream-kicks r t k m) d

        kicked : (x : PublishSession) → IsKicked t.kicks x → IsKicked ks x
        kicked x d = IsKicked-Grows t.kicks ks x (λ k m. cut_stream-kicks r t k m) d

        go :
            (b : Bool)
            → reachable connected r ≡ b
            → All (Cut rs ks) (cut_stream connected now e r t).server.db.sessions.rows
        go true h =
            rw (h, cut_stream)
              (All-mono _ (Cut rs ks) t.server.db.sessions.rows
                (λ x p o. (
                  more x (p o).0,
                  λ ev. elim ((p o).1 ev) [
                    | inl k ↦ inl (kicked x k)
                    | inr (inl same) ↦ inl (rw (← same) (cut_stream-IsKicked r t h))
                    | inr (inr m) ↦ inr m
                  ],
                ))
                a)
        go false h =
            rw (h, cut_stream)
              (All-update_where (Cut (r ∷ rs) t.kicks) (Cut rs ks) (λ x. x.id == r.id) _
                t.server.db.sessions.rows a (λ x p hit o. cc)
                (λ x p miss o. (
                  more x (p o).0,
                  λ ev. elim ((p o).1 ev) [
                    | inl k ↦ inl (kicked x k)
                    | inr (inl same) ↦
                        absurd (ground (arith, ap (λ (z : PublishSession). z.id) same))
                    | inr (inr m) ↦ inr m
                  ],
                )))

    cut_streams-Cut :
        (rs : List PublishSession) (t : Tick)
        → All (Cut rs t.kicks) t.server.db.sessions.rows
        → let t' = cut_streams connected now e rs t in
          All (Cut [] t'.kicks) t'.server.db.sessions.rows
    unfolding cut_streams
    cut_streams-Cut [] t a = a
    cut_streams-Cut (r ∷ rs) t a =
        cut_streams-Cut rs (cut_stream connected now e r t) (cut_stream-Cut r rs t a)

    active-Cut :
        (t : Tick)
        → All (λ x. is_open x ≡ true → D t.kicks x) t.server.db.sessions.rows
        → All
            (Cut (Sessions.find_active_by_event e.id t.server.db.sessions.rows) t.kicks)
            t.server.db.sessions.rows
    unfolding Sessions.find_active_by_event
    active-Cut t a = All-of_Elem _ t.server.db.sessions.rows (λ x m o. (
      All-Elem _ t.server.db.sessions.rows {x = x} a m o,
      λ ev. inr (filter-Elem _ t.server.db.sessions.rows m (rw (ev, ==_refl e.id, o) refl)),
    ))

-- While the events `es` are still to come, the open sessions of the ended ones among the others have
-- been kicked.
abbrev Due : ℕ → List Event → List Event → List Kick → PublishSession → Type 0
Due now before es ks x =
    is_open x ≡ true
    → (d : Event) → Elem d before
    → starts now d ≡ false
    → ends now d ≡ true
    → x.event_id ≡ some d.id
    → IsKicked ks x ⊎ Elem d es

module _ (connected : String → Bool) (now : ℕ) (before : List Event) where
  end_event-Due :
      (e : Event) (es : List Event) (t : Tick)
      → All (Due now before (e ∷ es) t.kicks) t.server.db.sessions.rows
      → let t' = end_event connected now e t in
        All (Due now before es t'.kicks) t'.server.db.sessions.rows
  unfolding end_event set_status
  end_event-Due e es t a =
      let cut = Sessions.find_active_by_event e.id t.server.db.sessions.rows in
      All-mono _ _ _
        (λ x p o d m early due ev. elim ((p o).0 d m early due ev) [
          | inl k ↦ inl k
          | inr (inl same) ↦ (elim ((p o).1 (ev ∙ ap (λ (z : Event). some z.id) (sym same))) [
            | inl k ↦ inl k
            | inr none_left ↦ absurd none_left
          ])
          | inr (inr later) ↦ inr later
        ])
        (cut_streams-Cut connected now e Rest grows cut t
          (active-Cut connected now e Rest grows t a))
    where
      Rest : List Kick → PublishSession → Type 0
      Rest ks x =
          (d : Event)
          → Elem d before
          → starts now d ≡ false
          → ends now d ≡ true
          → x.event_id ≡ some d.id
          → IsKicked ks x ⊎ Elem d (e ∷ es)

      grows : Grows Rest
      grows ks more r sub f d m early due ev = elim (f d m early due ev) [
        | inl k ↦ inl (IsKicked-Grows ks more r sub k)
        | inr n ↦ inr n
      ]

  tick_event-Due :
      (e : Event) (es : List Event) (t : Tick)
      → All (Due now before (e ∷ es) t.kicks) t.server.db.sessions.rows
      → let t' = tick_event connected now e t in
        All (Due now before es t'.kicks) t'.server.db.sessions.rows
  unfolding tick_event start_event set_status
  tick_event-Due e es t a = elim (Bool-cases (starts now e)) [
    | inl h ↦
        rw (h, tick_event)
          (All-mono _ _ t.server.db.sessions.rows
            (λ x p o d m early due ev.
              drop (p o d m early due ev) (λ same. cc (ap (starts now) same, h, early)))
            a)
    | inr h ↦ elim (Bool-cases (ends now e)) [
      | inl k ↦ rw (h, tick_event, k, tick_event) (end_event-Due e es t a)
      | inr k ↦
          rw (h, tick_event, k, tick_event)
            (All-mono _ _ t.server.db.sessions.rows
              (λ x p o d m early due ev.
                drop (p o d m early due ev) (λ same. cc (ap (ends now) same, k, due)))
              a)
    ]
  ]
    where
      drop : {K : Type 0} {d : Event} → K ⊎ Elem d (e ∷ es) → (e ≡ d → ⊥) → K ⊎ Elem d es
      drop (inl k) f = inl k
      drop (inr (inl same)) f = absurd (f same)
      drop (inr (inr m)) f = inr m

  tick_events-Due :
      (es : List Event) (t : Tick)
      → All (Due now before es t.kicks) t.server.db.sessions.rows
      → let t' = tick_events connected now es t in
        All (Due now before [] t'.kicks) t'.server.db.sessions.rows
  unfolding tick_events
  tick_events-Due [] t a = a
  tick_events-Due (e ∷ es) t a =
      tick_events-Due es (tick_event connected now e t) (tick_event-Due e es t a)

-- After a tick, a session of an event that the tick ends is open only if it is hosted on a node that
-- the tick has told to drop the stream.
pub run_event_lifecycle-cuts :
    (connected : String → Bool) (now : ℕ) (s : Server)
    → let t = run_event_lifecycle connected now s in
      All
        (λ x.
          is_open x ≡ true
          → (e : Event) → Elem e s.db.events.rows
          → starts now e ≡ false
          → ends now e ≡ true
          → x.event_id ≡ some e.id
          → IsKicked t.kicks x)
        t.server.db.sessions.rows
unfolding run_event_lifecycle Events.find_all
run_event_lifecycle-cuts connected now s =
    let rows = s.db.events.rows in
    All-mono _ _ _
      (λ x p o d m early due ev. elim (p o d m early due ev) [
        | inl k ↦ k
        | inr none_left ↦ absurd none_left
      ])
      (tick_events-Due connected now rows (Events.find_all rows) _ (
        All-of_Elem _ s.db.sessions.rows
          (λ x m o d n early due ev. inr (sort_by-Elem Events.starts_before rows d n))))
