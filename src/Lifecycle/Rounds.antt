-- ===== src/Lifecycle/Rounds.antt =====
-- What a round of an active monitor loop writes in the sessions table.
use constrainable.Base.{
  if_true, ℕ, ◌≡◌, ◌≢◌, refl, true, false, Option, some, List, [], ◌∷◌, All, All-update_key,
}
use constrainable.Schema
use constrainable.Schema.{SessionStatus, Event}
use constrainable.Database.Sessions
use constrainable.Server.{Server, ActiveSession, Breach}
use constrainable.Lifecycle.{find_monitor}
use constrainable.Lifecycle.Monitor.{
  ProbeResult, check_limits, judge, active_round, measured, monitor_round,
}

judge_breach :
    (now : ℕ) (bs : List Breach) (r : ProbeResult) (m : ActiveSession) (s : Server)
    → bs ≢ []
    → All
        (λ p. p.id ≡ m.session_id → p.status ≡ SessionStatus.violating)
        (judge now bs r m s).db.sessions.rows
unfolding judge Sessions.update_status
judge_breach now [] r m s h = absurd (h refl)
judge_breach now (b ∷ bs) r m s h =
    All-update_key (λ p. p.status ≡ SessionStatus.violating) (λ p. p.id) m.session_id _
      s.db.sessions.rows (λ p. refl)

judge_fit :
    (now : ℕ) (r : ProbeResult) (m : ActiveSession) (s : Server)
    → m.compliant ≡ false
    → All
        (λ p. p.id ≡ m.session_id → (p.status ≡ SessionStatus.compliant) × (p.compliant ≡ true))
        (judge now [] r m s).db.sessions.rows
unfolding judge Sessions.update_status
judge_fit now r m s h = rw h (
    All-update_key (λ p. (p.status ≡ SessionStatus.compliant) × (p.compliant ≡ true)) (λ p. p.id)
      m.session_id _ s.db.sessions.rows (λ p. (refl, refl)))

monitor_round-active :
    (now : ℕ) (limits : Option Event → Schema.Limits) (i : ℕ) (r : ProbeResult) (s : Server)
    {m : ActiveSession}
    → find_monitor i s.monitors ≡ some m
    → m.active ≡ true
    → monitor_round now limits i (some r) s ≡ active_round now (limits m.event) r m s
unfolding monitor_round
monitor_round-active now limits i r s {m} h on =
    rw (h, monitor_round) (if_true m.active (active_round now (limits m.event) r m s) s on)

-- A round of an active loop whose probe breaks a limit marks the row of the session as violating,
-- whatever the row was.
pub monitor_round-violating :
    (now : ℕ) (limits : Option Event → Schema.Limits) (i : ℕ) (r : ProbeResult) (s : Server)
    {m : ActiveSession}
    → find_monitor i s.monitors ≡ some m
    → m.active ≡ true
    → check_limits r (limits m.event) ≢ []
    → All
        (λ p. p.id ≡ m.session_id → p.status ≡ SessionStatus.violating)
        (monitor_round now limits i (some r) s).db.sessions.rows
unfolding active_round
monitor_round-violating now limits i r s {m} h on breach =
    rw (monitor_round-active now limits i r s h on)
      (judge_breach now (check_limits r (limits m.event)) r (measured r m) _ breach)

-- A round of an active loop that has not found the stream compliant before, and whose probe fits the
-- limits, marks the row of the session as compliant, whatever the row was.
pub monitor_round-compliant :
    (now : ℕ) (limits : Option Event → Schema.Limits) (i : ℕ) (r : ProbeResult) (s : Server)
    {m : ActiveSession}
    → find_monitor i s.monitors ≡ some m
    → m.active ≡ true
    → check_limits r (limits m.event) ≡ []
    → m.compliant ≡ false
    → All
        (λ p. p.id ≡ m.session_id → (p.status ≡ SessionStatus.compliant) × (p.compliant ≡ true))
        (monitor_round now limits i (some r) s).db.sessions.rows
unfolding active_round
monitor_round-compliant now limits i r s {m} h on fits fresh =
    rw (monitor_round-active now limits i r s h on)
      (rw fits (judge_fit now r (measured r m) _ fresh))
