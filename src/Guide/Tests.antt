-- ===== src/Guide/Tests.antt =====
-- The guide of an event for guests and for users.
use constrainable.Base.{none, ◌≡◌, refl, http_error}
use constrainable.Guide.{guide}
use constrainable.Invites.{can_view_event}
use constrainable.Samples.{server, caps}

guest :
    guide (λ e. caps) "rtmp://host/live" none "contest" server
    ≡ http_error 403 "not authorized for this event"
unfolding guide can_view_event
guest = refl

unknown :
    guide (λ e. caps) "rtmp://host/live" none "nothing" server ≡ http_error 404 "event not found"
unfolding guide can_view_event
unknown = refl
