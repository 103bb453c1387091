-- ===== src/EventLifecycle/Tests.antt =====
-- Ticks over one event, and the theorems of this part at them.
use constrainable.Base.{◌≡◌, refl, inl, inr, String, Bool, true, false, some, Elem, All, arith}
use constrainable.Schema.{Event}
use constrainable.Database.Sessions.{is_open}
use constrainable.Server.{Server}
use constrainable.EventLifecycle.{run_event_lifecycle, starts, ends}
use constrainable.EventLifecycle.Statuses.{HasEventIds, IsSettled, run_event_lifecycle-settles}
use constrainable.EventLifecycle.Cuts.{IsKicked, run_event_lifecycle-cuts}
use constrainable.Samples.{server}

abbrev offline : String → Bool
offline node = false

abbrev over : Server
over = (run_event_lifecycle offline 9000000 server).server

one_event : HasEventIds server.db.events.rows
one_event x y (inl p) (inl q) e = cc
one_event x y (inr p) q e = absurd p
one_event x y p (inr q) e = absurd q

run_event_lifecycle-settles_example :
    All (IsSettled 9000000) (run_event_lifecycle offline 9020000 over).server.db.events.rows
run_event_lifecycle-settles_example =
    run_event_lifecycle-settles offline 9000000 9020000 server one_event (omega arith)

run_event_lifecycle-cuts_example :
    All
      (λ x.
        is_open x ≡ true
        → (e : Event) → Elem e server.db.events.rows
        → starts 9000000 e ≡ false
        → ends 9000000 e ≡ true
        → x.event_id ≡ some e.id
        → IsKicked (run_event_lifecycle offline 9000000 server).kicks x)
      over.db.sessions.rows
run_event_lifecycle-cuts_example = run_event_lifecycle-cuts offline 9000000 server

cut_off : (run_event_lifecycle offline 9000000 server).killed ≡ 1
unfolding run_event_lifecycle starts ends
cut_off = refl
