-- ===== src/Lifecycle/Tests.antt =====
-- Publish and unpublish hooks and monitor rounds of one stream, and the theorems of this part at them.
use constrainable.Base.{◌≡◌, ◌≢◌, refl, false, some, [], ◌∷◌, All, filter, arith}
use constrainable.Schema.{PublishSession, SessionStatus}
use constrainable.Database.Sessions.{is_open}
use constrainable.Server.{Server}
use constrainable.Access.{authorize_publish}
use constrainable.Lifecycle.{PublishContext, allowed, handle_publish, find_monitor}
use constrainable.Lifecycle.Unpublishing.{handle_unpublish, tracked}
use constrainable.Lifecycle.Monitor.{ProbeResult, check_limits, monitor_round}
use constrainable.Lifecycle.Stale.{IdsBelow, is_live_row}
use constrainable.Lifecycle.Publish.{handle_publish-one_live}
use constrainable.Lifecycle.Unpublish.{unpublished_loop_stops}
use constrainable.Lifecycle.Superseded.{superseded_loop_overwrites}
use constrainable.Samples.{verify, url_param, server, publish, alice_loop, caps, too_wide}

abbrev stranger : PublishContext
stranger = record publish { stream = "mallory"; param = "" }

abbrev after_publish : Server
after_publish = (handle_publish url_param verify 3000000 publish server).1

taken_over : (handle_publish url_param verify 3000000 publish server).0 ≡ allowed
unfolding handle_publish authorize_publish
taken_over = refl

wide : check_limits too_wide caps ≢ []
unfolding check_limits
wide h = cc

server-IdsBelow : IdsBelow server.db.sessions
server-IdsBelow = ground arith

handle_publish-one_live_example :
    (r : PublishSession) × (filter (is_live_row "alice") after_publish.db.sessions.rows ≡ r ∷ [])
    × (r.id ≡ 2)
    × (r.status ≡ SessionStatus.allowed)
unfolding handle_publish authorize_publish
handle_publish-one_live_example =
    handle_publish-one_live url_param verify 3000000 publish server server-IdsBelow refl

abbrev after_refusal : Server
after_refusal = (handle_publish url_param verify 3000000 stranger server).1

abbrev fitting : ProbeResult
fitting = record too_wide { width = 1280; height = 720 }

superseded_loop_overwrites_example :
    All (λ p. p.id ≡ 1 → p.stream_name ≡ "alice" → is_open p ≡ false) after_publish.db.sessions.rows
    × All
        (λ p. p.id ≡ 1 → p.status ≡ SessionStatus.violating)
        (monitor_round 3500000 (λ e. caps) 1 (some too_wide) after_publish).db.sessions.rows
unfolding handle_publish authorize_publish find_monitor
superseded_loop_overwrites_example =
    superseded_loop_overwrites url_param verify 3000000 3500000 publish server (λ e. caps) too_wide
      {m = alice_loop} server-IdsBelow refl refl (λ e. cc) refl wide

abbrev after_unpublish : Server
after_unpublish = handle_unpublish 4000000 "alice" server

unpublished_loop_stops_example :
    monitor_round 5000000 (λ e. caps) 1 (some too_wide) after_unpublish ≡ after_unpublish
unfolding tracked
unpublished_loop_stops_example =
    unpublished_loop_stops 4000000 5000000 (λ e. caps) (some too_wide) "alice" server
      {m = alice_loop} refl
