-- ===== src/MediaNode/Tests.antt =====
-- A publish, a declared spec and a recording of a media node, and the theorems of this part at them.
use constrainable.Base.{
  String, Bool, true, false, ◌≡◌, ◌↔◌, ◌⊎◌, refl, some, none, [], ◌∷◌, ◌++◌, arith,
}
use constrainable.Schema.{Event, PublishSession}
use constrainable.Schema.Recording.{Recording}
use constrainable.Database.Sessions
use constrainable.Database.Users
use constrainable.Access.{Allowed, given_token, authorize_publish}
use constrainable.Access.Soundness.{Admission}
use constrainable.ConfigStore.{get_limits_for}
use constrainable.MediaNode.{Hub, event_of}
use constrainable.MediaNode.Starts.{PublishStartPayload, handle_publish_start}
use constrainable.MediaNode.Spec.{SpecPayload, spec_allowed, handle_spec, math_round}
use constrainable.MediaNode.Grants.{handle_publish_start-granted, MayUse}
use constrainable.MediaNode.Verdicts.{Fits, handle_spec_iff}
use constrainable.MediaNode.Recordings.{RecordingReadyPayload}
use constrainable.Samples.{server, caps, verify, url_param}

abbrev hub : Hub
hub = record { server = server; registry = record { nodes = []; socket_to_node = [] } }

abbrev start : PublishStartPayload
start = record {
  node_id = "n1";
  stream_name = "alice";
  token = "secret";
  authed_user = "";
  srs_client_id = "c9";
}

handle_publish_start-granted_example :
    let h' = (handle_publish_start url_param verify caps true 3000000 start hub).1 in
    ((token : String) × (given_token url_param "?token=secret" ≡ some token)
      × ((a : Allowed) × (e : Event) × (some 7 ≡ some e.id)
          × Admission verify 3000000 server.db "alice" token a e))
    × MayUse "n1" (Users.find_by_email "alice" server.db.users.rows)
    × ((x : PublishSession) × (h'.server.db.sessions.rows ≡ server.db.sessions.rows ++ x ∷ [])
        × (x.id ≡ 2)
        × (x.stream_name ≡ "alice")
        × (x.node_id ≡ some "n1")
        × (x.ended_at ≡ none)
        × (x.event_id ≡ some 7))
unfolding handle_publish_start authorize_publish
handle_publish_start-granted_example =
    handle_publish_start-granted url_param verify caps true 3000000 start hub refl

abbrev declared : SpecPayload
declared = record {
  stream_name = "alice";
  width = 1920;
  height = 1080;
  fps = 30;
  video_kbps = record { over = 12502; under = 5; positive = omega arith };
  video_bitrate_kbps = none;
  audio_bitrate_kbps = record { over = 160; under = 1; positive = omega arith };
}

-- 2500.4 and 2500.5
rounded :
    (math_round (record { over = 12502; under = 5; positive = omega arith }) ≡ 2500)
    × (math_round (record { over = 5001; under = 2; positive = omega arith }) ≡ 2501)
unfolding math_round
rounded = (refl, refl)

handle_spec_iff_example :
    ((handle_spec caps 3000000 declared server).0 ≡ spec_allowed)
    ↔ ((◌≡◌ {A = Bool} false false) ⊎ Fits declared caps)
unfolding handle_spec event_of get_limits_for Sessions.find_active_by_stream
handle_spec_iff_example = handle_spec_iff caps 3000000 declared server _ refl

abbrev delivery : RecordingReadyPayload
delivery = record {
  node_id = some "n1";
  stream_name = "alice";
  event_id = some 7;
  session_id = some 1;
  segments = record { rel_path = "a.mkv"; size_bytes = 100; duration_sec = 5 } ∷ [];
  size_bytes = 100;
  duration_sec = 5;
  width = none;
  height = none;
}
