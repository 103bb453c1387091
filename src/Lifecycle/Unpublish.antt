-- ===== src/Lifecycle/Unpublish.antt =====
-- What an unpublish hook leaves behind, and that the session's monitor loop then does nothing.
use constrainable.Base.{
  update_where, find?-some, Option-cases, Bool-cases, map_get, map_get-delete_self, ℕ, ◌≡◌, refl,
  ap, ◌∙◌, inl, inr, String, false, Option, some, none, List, [], ◌∷◌, All, All-update_key, ◌==◌,
  arith,
}
use constrainable.Schema
use constrainable.Schema.{PublishSession, Event}
use constrainable.Database.Sessions
use constrainable.Database.Sessions.{is_open}
use constrainable.Server.{Server, ActiveSession, stop_recording}
use constrainable.Lifecycle.{find_monitor}
use constrainable.Lifecycle.Unpublishing.{
  tracked, close_tracked, handle_unpublish, unpublish_status,
}
use constrainable.Lifecycle.Monitor.{ProbeResult, monitor_round}

-- The rows of one id have ended.
abbrev pub IsClosed : ℕ → List PublishSession → Type 0
IsClosed i rows = All (λ r. r.id ≡ i → is_open r ≡ false) rows

-- The unpublish hook of a tracked session closes its row, stops its loop, forgets the stream name
-- and tells the recorder to finish. The status of the row is the one that `unpublish_status` gives
-- for the row before.
pub handle_unpublish-closes :
    (now : ℕ) (stream : String) (s : Server) {m : ActiveSession}
    → tracked stream s ≡ some m
    → let s' = handle_unpublish now stream s in
      IsClosed m.session_id s'.db.sessions.rows
      × All
          (λ r.
            r.id ≡ m.session_id
            → r.status ≡ unpublish_status (Sessions.find_by_id m.session_id s.db.sessions.rows))
          s'.db.sessions.rows
      × (map_get stream s'.active ≡ none)
      × All (λ o. o.session_id ≡ m.session_id → o.active ≡ false) s'.monitors
      × (s'.recorder ≡ stop_recording m.stream_name m.event_id m.session_id ∷ s.recorder)
unfolding handle_unpublish close_tracked Sessions.mark_ended
handle_unpublish-closes now stream s {m} h =
    rw (h, handle_unpublish)
      (
        All-update_key (λ r. is_open r ≡ false) (λ r. r.id) m.session_id _ s.db.sessions.rows
            (λ r. refl),
        All-update_key
            (λ r. r.status ≡ unpublish_status (Sessions.find_by_id m.session_id s.db.sessions.rows))
            (λ r. r.id) m.session_id _ s.db.sessions.rows (λ r. refl),
        map_get-delete_self stream s.active,
        All-update_key (λ o. o.active ≡ false) (λ o. o.session_id) m.session_id _ s.monitors
            (λ o. refl),
        refl,
      )

-- The hook of a stream name that is not tracked writes one audit entry and nothing else.
pub handle_unpublish-untracked :
    (now : ℕ) (stream : String) (s : Server)
    → tracked stream s ≡ none
    → let s' = handle_unpublish now stream s in
      (s'.db ≡ s.db)
      × (s'.active ≡ s.active)
      × (s'.monitors ≡ s.monitors)
      × (s'.recorder ≡ s.recorder)
unfolding handle_unpublish
handle_unpublish-untracked now stream s h = rw (h, handle_unpublish) (refl, refl, refl, refl)

-- Once its session is closed, a monitor loop does nothing more.
pub monitor_round_inactive :
    (now : ℕ) (limits : Option Event → Schema.Limits) (i : ℕ) (result : Option ProbeResult)
    (s : Server) {m : ActiveSession}
    → find_monitor i s.monitors ≡ some m
    → m.active ≡ false
    → monitor_round now limits i result s ≡ s
unfolding monitor_round
monitor_round_inactive now limits i none s h off = rw (h, monitor_round)
monitor_round_inactive now limits i (some r) s h off = rw (h, monitor_round) (rw off refl)

find_monitor-stopped :
    (i : ℕ) (ms : List ActiveSession) {m : ActiveSession}
    → find_monitor i ms ≡ some m
    → find_monitor i (update_where (λ o. o.session_id == i) (λ o. record o { active = false }) ms)
      ≡ some (record m { active = false })
unfolding find_monitor
find_monitor-stopped i [] h = cc
find_monitor-stopped i (x ∷ ms) {m} h = elim (Bool-cases (x.session_id == i)) [
  | inl hit ↦
      rw (hit, hit)
        (ap
          (λ (o : Option ActiveSession). elim o [
            | none ↦ none
            | some y ↦ some (record y { active = false })
          ])
          (rw hit at h))
  | inr miss ↦ rw (miss, miss) (find_monitor-stopped i ms {m = m} (rw miss at h))
]

tracked-find_monitor :
    (stream : String) (s : Server) {m : ActiveSession}
    → tracked stream s ≡ some m
    → find_monitor m.session_id s.monitors ≡ some m
unfolding tracked find_monitor
tracked-find_monitor stream s {m} h = elim (Option-cases (map_get stream s.active)) [
  | inl e ↦ cc (rw (e, tracked) at h)
  | inr (i, e) ↦
      let found = rw (e, tracked) at h in
      let same : m.session_id ≡ i = ground (arith, (find?-some _ s.monitors {x = m} found).1) in
      ap (λ k. find_monitor k s.monitors) same ∙ found
]

-- After the unpublish hook of a tracked session, no round of its monitor loop does anything, also
-- one whose probe was running when the hook came.
pub unpublished_loop_stops :
    (now later : ℕ) (limits : Option Event → Schema.Limits) (result : Option ProbeResult)
    (stream : String) (s : Server) {m : ActiveSession}
    → tracked stream s ≡ some m
    → monitor_round later limits m.session_id result (handle_unpublish now stream s)
      ≡ handle_unpublish now stream s
unfolding handle_unpublish close_tracked
unpublished_loop_stops now later limits result stream s {m} h =
    monitor_round_inactive later limits m.session_id result (handle_unpublish now stream s)
      {m = record m { active = false }}
      (rw (h, handle_unpublish)
        (find_monitor-stopped m.session_id s.monitors {m = m} (tracked-find_monitor stream s h)))
      refl
