-- ===== src/Lifecycle/Superseded.antt =====
-- The monitor loop of a session whose name another publisher has taken.
use constrainable.Base.{
  ℕ, ◌≡◌, ◌≢◌, refl, sym, ap, ◌∙◌, inl, inr, String, Bool, true, false, Option, some, List, [], ◌∷◌,
  Elem, All, All-of_Elem, filter, filter-Elem, ◌==◌, eq_iff, arith,
}
use constrainable.Schema
use constrainable.Schema.{PublishSession, SessionStatus, Event, timestamp}
use constrainable.Database.Sessions
use constrainable.Database.Sessions.{is_open}
use constrainable.Server.{Server, ActiveSession}
use constrainable.Access.{Allowed, authorize_publish}
use constrainable.Access.Reasons.{AuthResult-cases, sessions-authorize_publish}
use constrainable.Lifecycle.{
  PublishContext, PublishAnswer, allowed, handle_publish, publish_allowed, find_monitor,
  with_sessions, allowed_row, stale_sessions, publish_rejected_row,
}
use constrainable.Lifecycle.Monitor.{ProbeResult, check_limits, monitor_round}
use constrainable.Lifecycle.Stale.{IdsBelow, is_live_row, supersede-monitors}
use constrainable.Lifecycle.Publish.{handle_publish-one_live, authorized}
use constrainable.Lifecycle.Rounds.{monitor_round-violating}

publish_allowed-keeps_monitors :
    (now : ℕ) (ctx : PublishContext) (a : Allowed) (s : Server) (i : ℕ)
    → i ≢ s.db.sessions.next_id
    → find_monitor i (publish_allowed now ctx a s).monitors ≡ find_monitor i s.monitors
unfolding publish_allowed allowed_row find_monitor
publish_allowed-keeps_monitors now ctx a s i ne =
    let n = s.db.sessions.next_id in
    let s1 = with_sessions (Sessions.insert (allowed_row now ctx a)) s in
    let stale = stale_sessions ctx.stream n s1.db.sessions.rows in
    rw other (ap (find_monitor i) (supersede-monitors ctx.stream n (timestamp now) stale s1))
  where
    other : (s.db.sessions.next_id == i) ≡ false
    other = ground arith

keeps_monitors :
    (url_param : String → Option String) (verify : String → String → Bool) (now : ℕ)
    (ctx : PublishContext) (s : Server) (i : ℕ)
    → i ≢ s.db.sessions.next_id
    → find_monitor i (handle_publish url_param verify now ctx s).1.monitors
      ≡ find_monitor i s.monitors
unfolding handle_publish publish_rejected_row
keeps_monitors url_param verify now ctx s i ne =
    elim (AuthResult-cases (authorize_publish url_param verify now s.db ctx.stream ctx.param).0) [
      | inl (a, e) ↦
          rw (e, handle_publish)
            (publish_allowed-keeps_monitors now ctx a (authorized url_param verify now ctx s) i
              (rw (sessions-authorize_publish url_param verify now s.db ctx.stream ctx.param) ne))
      | inr (r, e) ↦ rw (e, handle_publish) refl
    ]

closed_by_newer :
    (stream : String) (n i : ℕ) (rows : List PublishSession) (r : PublishSession)
    → filter (is_live_row stream) rows ≡ r ∷ []
    → r.id ≡ n
    → i ≢ n
    → All (λ p. p.id ≡ i → p.stream_name ≡ stream → is_open p ≡ false) rows
closed_by_newer stream n i rows r e new ne =
    All-of_Elem _ rows
      (λ p m id name. ground (arith, (eq_iff p.stream_name stream).1 name, only p m))
  where
    only : (p : PublishSession) → Elem p rows → is_live_row stream p ≡ true → r ≡ p
    only p m live = elim (rw e at (filter-Elem (is_live_row stream) rows {x = p} m live)) [
      | inl q ↦ q
      | inr q ↦ absurd q
    ]

-- When a publisher is admitted, the open sessions under the name of the stream are closed, but their
-- monitor loops go on: a later round of such a loop whose probe breaks a limit gives the row of the
-- closed session the status `violating`.
pub superseded_loop_overwrites :
    (url_param : String → Option String) (verify : String → String → Bool) (now later : ℕ)
    (ctx : PublishContext) (s : Server) {s' : Server} (limits : Option Event → Schema.Limits)
    (r : ProbeResult) {m : ActiveSession}
    → IdsBelow s.db.sessions
    → find_monitor m.session_id s.monitors ≡ some m
    → m.active ≡ true
    → m.session_id ≢ s.db.sessions.next_id
    → handle_publish url_param verify now ctx s ≡ (allowed, s')
    → check_limits r (limits m.event) ≢ []
    → All
        (λ p. p.id ≡ m.session_id → p.stream_name ≡ ctx.stream → is_open p ≡ false)
        s'.db.sessions.rows
      × All
          (λ p. p.id ≡ m.session_id → p.status ≡ SessionStatus.violating)
          (monitor_round later limits m.session_id (some r) s').db.sessions.rows
superseded_loop_overwrites url_param verify now later ctx s {s'} limits r {m} below found on old h
      breach =
    let live = handle_publish-one_live url_param verify now ctx s below h in
    let still =
      ap (λ (p : PublishAnswer × Server). find_monitor m.session_id p.1.monitors) (sym h)
      ∙ keeps_monitors url_param verify now ctx s m.session_id old
      ∙ found in
    (
      closed_by_newer ctx.stream s.db.sessions.next_id m.session_id s'.db.sessions.rows live.0
          live.1 live.2 old,
      monitor_round-violating later limits m.session_id r s' still on breach,
    )
