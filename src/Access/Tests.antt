-- ===== src/Access/Tests.antt =====
-- Publishers at a small database, and the theorems of this part at them.
use constrainable.Base.{String, ◌≡◌, refl, inl, inr, some, none, Elem, arith}
use constrainable.Schema.{Event, StreamKey, event_ended}
use constrainable.Database.Events
use constrainable.Database.StreamKeys
use constrainable.Access.{allow, reject, given_token, key_grant, authorize_publish}
use constrainable.Access.Soundness.{IsOpen, Admission, authorize_publish_sound}
use constrainable.Access.Reasons.{IsUsable, authorize_publish_complete}
use constrainable.Samples.{verify, url_param, contest, alice_key, tables}

by_key :
    (authorize_publish url_param verify 3000000 tables "alice" "?token=secret").0
    ≡ allow (record { event_id = some 7; stream_key_id = some 3; student_label = none })
unfolding authorize_publish
by_key = refl

by_publish_key :
    (authorize_publish url_param verify 3000000 tables "anyone" "token=contest").0
    ≡ allow (record { event_id = some 7; stream_key_id = none; student_label = none })
unfolding authorize_publish
by_publish_key = refl

late :
    (authorize_publish url_param verify 9000001 tables "alice" "token=secret").0
    ≡ reject event_ended
unfolding authorize_publish
late = refl

authorize_publish_sound_example :
    (token : String) × (given_token url_param "?token=secret" ≡ some token)
    × ((e : Event) × Admission verify 3000000 tables "alice" token
          (record { event_id = some 7; stream_key_id = some 3; student_label = none })
          e)
unfolding authorize_publish
authorize_publish_sound_example =
    authorize_publish_sound url_param verify 3000000 tables "alice" "?token=secret" refl

IsOpen-contest : IsOpen 3000000 contest
IsOpen-contest = record { live = refl; begun = λ t e. ground arith; lasting = λ t e. ground arith }

alice-IsOpen :
    (m : StreamKey)
    → Elem m (StreamKeys.find_all_by_stream_name "alice" tables.stream_keys.rows)
    → IsUsable verify "secret" m
    → (e : Event) × (Events.find_by_id m.event_id tables.events.rows ≡ some e) × IsOpen 3000000 e
unfolding StreamKeys.find_all_by_stream_name Events.find_by_id
alice-IsOpen m (inl e) u = rw (← e) (contest, refl, IsOpen-contest)
alice-IsOpen m (inr n) u = absurd n

authorize_publish_complete_example :
    (m : StreamKey) × Elem m (StreamKeys.find_all_by_stream_name "alice" tables.stream_keys.rows)
    × IsUsable verify "secret" m
    × ((authorize_publish url_param verify 3000000 tables "alice" "?token=secret").0
        ≡ allow (key_grant tables m))
unfolding given_token StreamKeys.find_all_by_stream_name
authorize_publish_complete_example =
    authorize_publish_complete url_param verify 3000000 tables "alice" "?token=secret" "secret"
      alice_key refl (inl refl) (refl, refl) alice-IsOpen
