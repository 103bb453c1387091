-- ===== src/EventService/Tests.antt =====
-- One event renamed, deleted and given a token, and the theorems of this part at it.
use constrainable.Base.{
  ◌⊎◌, map, List, ℕ, false, String, ◌≡◌, refl, sym, ap, ◌∙◌, inl, inr, Option, some, none, [], ◌∷◌,
  arith, trim, List, Bool, ◌≢◌, ℕ, false,
}
use constrainable.Schema.{EventSlugAlias, Event, EventStatus}
use constrainable.Server.{Server}
use constrainable.Database.StreamKeys
use constrainable.Password.{verify_token}
use constrainable.Access.{given_token, matching_key, allow, authorize_publish}
use constrainable.Access.Soundness.{IsOpen}
use constrainable.EventService.{groups_fit, EventInput, create_event, update_event}
use constrainable.EventService.Removal.{delete_event}
use constrainable.EventService.View.{get_row, get_event}
use constrainable.EventService.Invariant.{IsSound}
use constrainable.EventService.Calls.{
  EventCall, run_calls, run_calls-IsSound, create, patch, delete,
}
use constrainable.EventService.Owners.{owner}
use constrainable.EventService.Changes.{create_event-owner}
use constrainable.EventService.Renames.{update_event-owner, delete_event-owner}
use constrainable.EventService.Windows.{HalfWritten, update_event-refused}
use constrainable.EventService.Credentials.{rotate_publish_token}
use constrainable.EventService.Credentials.Rotation.{rotate_publish_token-authorize_publish}
use constrainable.Samples.{server, contest, url_param}

abbrev blank : EventInput
blank = record {
  name = none;
  slug = none;
  description = none;
  starts_at = none;
  ends_at = none;
  status = none;
  limits_override = none;
  record_enabled = none;
  strict_limits = none;
  enforce_measured_limits = none;
  require_account_auth = none;
  visibility = none;
  stream_guide = none;
  group_ids = none;
}

abbrev rename : EventInput
rename = record blank { slug = some " finals " }

abbrev late_window : EventInput
late_window = record rename { ends_at = some (some 1000000) }

abbrev spring : EventInput
spring = record blank {
  name = some "Spring";
  slug = some "spring";
  status = some EventStatus.scheduled;
  starts_at = some (some 20000500);
  ends_at = some (some 30000500);
}

IsSound-server : IsSound server
IsSound-server = record {
  same_id = λ e f m n p. elim m [
    | inl q ↦ elim n [ inl r ↦ sym q ∙ r | inr r ↦ absurd r ]
    | inr q ↦ absurd q
  ];
  same_slug = λ e f m n p. elim m [
    | inl q ↦ elim n [ inl r ↦ sym q ∙ r | inr r ↦ absurd r ]
    | inr q ↦ absurd q
  ];
  below = λ e m. elim m [ inl q ↦ rw (← q) (omega arith) | inr q ↦ absurd q ];
  owned = λ a m. absurd m;
  same_alias = λ a b m n p. absurd m;
  current = λ a e m n p. absurd m;
}

-- The calls: one patch refused late, one with a group that is not there, a creation and a deletion.
abbrev history : List EventCall
history =
    patch 3000000 7 late_window
    ∷ patch 3000000 7 (record rename { group_ids = some (9 ∷ []) })
    ∷ create 3000000 spring
    ∷ delete 7
    ∷ []

run_calls-IsSound_example : IsSound (run_calls history server)
unfolding groups_fit
run_calls-IsSound_example =
    run_calls-IsSound history server IsSound-server (tt, (tt, (refl, (tt, tt))))

-- A creation under a retired key with a group that is not there: the event is there, and the key is
-- still retired.
abbrev stray : Server
stray =
    (create_event 4000000 (record spring { slug = some "contest"; group_ids = some (9 ∷ []) })
      (update_event 3000000 7 rename server).1).1

half_made :
    (owner "contest" stray.db ≡ some 8)
    × (map {B = String × ℕ} (λ (a : EventSlugAlias). (a.old_slug, a.event_id)) stray.db.aliases
        ≡ ("contest", 7) ∷ [])
unfolding trim create_event update_event get_row owner
half_made = (refl, refl)

abbrev renamed : Server
renamed = (update_event 3000000 7 rename server).1

update_event-owner_example : owner "contest" renamed.db ≡ owner "contest" server.db
unfolding trim update_event get_row get_event
update_event-owner_example =
    update_event-owner 3000000 7 rename server "contest" IsSound-server refl

create_event-owner_example : owner "spring" (create_event 3000000 spring server).1.db ≡ some 8
unfolding trim create_event
create_event-owner_example = create_event-owner 3000000 spring server "spring" IsSound-server refl

delete_event-owner_example : owner "contest" (delete_event 7 server).1.db ≡ none
unfolding delete_event owner get_row
delete_event-owner_example = delete_event-owner 7 server "contest" IsSound-server refl

abbrev no_group : EventInput
no_group = record rename { group_ids = some (9 ∷ []) }

update_event-refused_example :
    let after = (update_event 3000000 7 no_group server).1 in
    (after ≡ record server { db = record server.db { aliases = after.db.aliases } })
    ⊎ ((groups_fit (some (9 ∷ [])) server.db.groups.rows ≡ false)
        × (◌≡◌ {A = ℕ} 500 500)
        × HalfWritten 3000000 7 no_group server after)
unfolding trim update_event get_row
update_event-refused_example = update_event-refused 3000000 7 no_group server refl

lost_window_alias : owner "contest" (update_event 3000000 7 late_window server).1.db ≡ some 7
unfolding trim update_event get_row owner
lost_window_alias = refl

-- The token that the event is given.
abbrev chosen : Option String
chosen = some " fresh-token "

-- A digest that is the salt after one byte.
abbrev argon2id : String → List ℕ → List ℕ
argon2id plain salt = 171 ∷ salt

abbrev bun_verify : String → String → Bool
bun_verify token hash = false

salt_some : ◌≢◌ {A = List ℕ} (1 ∷ 254 ∷ []) []
salt_some e = cc

IsOpen-contest : IsOpen 5000000 contest
IsOpen-contest = record { live = refl; begun = λ t e. ground arith; lasting = λ t e. ground arith }

rotate_publish_token-authorize_publish_example :
    (authorize_publish url_param
      (verify_token argon2id bun_verify)
      5000000
      (rotate_publish_token argon2id (1 ∷ 254 ∷ []) 3000000 "unused-token" 7 chosen server).1.db
      "anyone"
      "?token=fresh-token").0
    ≡ allow (record { event_id = some 7; stream_key_id = none; student_label = none })
unfolding trim rotate_publish_token get_row given_token matching_key
    StreamKeys.find_all_by_stream_name
rotate_publish_token-authorize_publish_example =
    rotate_publish_token-authorize_publish url_param argon2id bun_verify (1 ∷ 254 ∷ []) 3000000
      "unused-token" 7 chosen server 5000000 "anyone" "?token=fresh-token" salt_some (omega arith)
      (ground arith) refl (omega arith)
      (λ e m ne h. elim m [ inl q ↦ ne (ap (λ (x : Event). x.id) (sym q)) | inr n ↦ absurd n ])
      (λ e m own. elim m [ inl q ↦ rw (← q) IsOpen-contest | inr n ↦ absurd n ]) refl refl
