-- ===== src/Reconcile/Tests.antt =====
-- A sweep over the sessions of a stream, and the theorems of this part at it.
use constrainable.Base.{◌≡◌, true, some, [], ◌∷◌, Elem, All}
use constrainable.Database.Sessions.{is_open}
use constrainable.Reconcile.{reconcile_stale_sessions}
use constrainable.Reconcile.Sweep.{IsAlive, open_before, reconcile-open}
use constrainable.Samples.{server}

reconcile-open_example :
    All
      (λ r.
        is_open r ≡ true
        → Elem r server.db.sessions.rows
          × IsAlive 3000000 (some ("alice" ∷ [])) (open_before server) r)
      (reconcile_stale_sessions 3000000 (some ("alice" ∷ [])) server).db.sessions.rows
reconcile-open_example = reconcile-open 3000000 (some ("alice" ∷ [])) server
