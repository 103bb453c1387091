-- ===== src/Roster/Tests.antt =====
-- Keys made and revoked in a small event, and the theorems of this part at them.
use constrainable.Base.{
  ℕ, ◌≤◌, String, true, ◌≡◌, ◌≢◌, refl, sym, ap, ◌∙◌, inl, inr, Option, some, none, [], ◌∷◌, arith,
  str_append, trim, eq_iff,
}
use constrainable.Schema.{StreamKey, EnrollmentStatus}
use constrainable.Database.Events
use constrainable.Server.{Server}
use constrainable.Access.{allow, given_token, authorize_publish}
use constrainable.Access.Soundness.{IsOpen}
use constrainable.Roster.{remove_enrollment}
use constrainable.Roster.Keys.{
  GenerateKeyInput, numbered, is_available, ensure_unique_stream_name, generate_key_for_event,
  revoke_key,
}
use constrainable.Roster.Names.{ensure_unique_stream_name-is_available}
use constrainable.Roster.Keys.Issued.{HasKeyIds}
use constrainable.Roster.Keys.Admitted.{generate_key_for_event-authorize_publish}
use constrainable.Roster.Keys.Revoked.{
  revoke_key-authorize_publish, remove_enrollment-authorize_publish,
}
use constrainable.Samples.{server, tables, contest, alice_key, verify, url_param}

ensure_unique_stream_name-is_available_example :
    (m : ℕ) × (1 ≤ m)
    × (ensure_unique_stream_name 7 1 "alice" tables.stream_keys.rows ≡ some (numbered "alice" m))
    × (is_available 7 1 (numbered "alice" m) tables.stream_keys.rows ≡ true)
ensure_unique_stream_name-is_available_example =
    ensure_unique_stream_name-is_available 7 1 "alice" tables.stream_keys.rows

second_alice : ensure_unique_stream_name 7 1 "alice" tables.stream_keys.rows ≡ some "alice-2"
unfolding ensure_unique_stream_name
second_alice = refl

abbrev carol : GenerateKeyInput
carol = record {
  student_number = " c/42 ";
  name = "Carol";
  email = none;
  seat_label = some " ";
  stream_name = none;
}

abbrev add_mark : String → String
add_mark token = str_append "#" token

HasKeyIds-server : HasKeyIds server.db.stream_keys
HasKeyIds-server = record {
  same_id = λ k m mk mm p. elim mk [
    | inl q ↦ elim mm [
      | inl r ↦ sym q ∙ r
      | inr (inl r) ↦
          absurd
            (differ (ap (λ (x : StreamKey). x.id) q ∙ p ∙ ap (λ (x : StreamKey). x.id) (sym r)))
      | inr (inr n) ↦ absurd n
    ]
    | inr (inl q) ↦ elim mm [
      | inl r ↦
          absurd
            (differ (ap (λ (x : StreamKey). x.id) r ∙ sym p ∙ ap (λ (x : StreamKey). x.id) (sym q)))
      | inr (inl r) ↦ sym q ∙ r
      | inr (inr n) ↦ absurd n
    ]
    | inr (inr n) ↦ absurd n
  ];
  below = λ k mk. elim mk [
    | inl q ↦ rw (← q) (omega arith)
    | inr (inl q) ↦ rw (← q) (omega arith)
    | inr (inr n) ↦ absurd n
  ];
}
  where
    differ : ◌≢◌ {A = ℕ} 3 4
    differ e = omega (arith, e)

IsOpen-contest : IsOpen 5000000 contest
IsOpen-contest = record { live = refl; begun = λ t e. ground arith; lasting = λ t e. ground arith }

generate_key_for_event-authorize_publish_example :
    let issued = generate_key_for_event add_mark "fresh" "slug" 7 carol server in
    (label : Option String) × ((authorize_publish url_param verify 5000000 issued.1.db "c42"
        "?token=fresh").0
      ≡ allow (record { event_id = some 7; stream_key_id = some 5; student_label = label }))
unfolding trim generate_key_for_event given_token Events.find_by_id
generate_key_for_event-authorize_publish_example =
    generate_key_for_event-authorize_publish url_param verify add_mark "fresh" "slug" 7 carol server
      5000000 "?token=fresh" contest HasKeyIds-server refl refl
      (λ k m ne named usable. elim m [
        | inl q ↦ cc ((eq_iff "alice" "c42").1 (ap (λ (x : StreamKey). x.stream_name) q ∙ named))
        | inr (inl q) ↦
            cc ((eq_iff "bob" "c42").1 (ap (λ (x : StreamKey). x.stream_name) q ∙ named))
        | inr (inr n) ↦ absurd n
      ])
      refl IsOpen-contest refl

abbrev shared_only : Server
shared_only = (revoke_key 7 3 server).1

revoke_key-authorize_publish_example : ◌≢◌ {A = Option ℕ} none (some 3)
unfolding revoke_key authorize_publish
revoke_key-authorize_publish_example =
    revoke_key-authorize_publish url_param verify 5000000 7 3 server "alice" "?token=contest"
      HasKeyIds-server refl refl

abbrev seated_key : StreamKey
seated_key = record alice_key { enrollment_id = some 2 }

abbrev seated : Server
seated = record server {
  db = record tables {
    stream_keys = record { rows = seated_key ∷ []; next_id = 5 };
    enrollments = record {
      rows =
          record {
            id = 2;
            event_id = 7;
            student_id = 1;
            seat_label = none;
            status = EnrollmentStatus.active;
          }
          ∷ [];
      next_id = 3;
    };
  };
}

HasKeyIds-seated : HasKeyIds seated.db.stream_keys
HasKeyIds-seated = record {
  same_id = λ k m mk mm p. elim mk [
    | inl q ↦ elim mm [ inl r ↦ sym q ∙ r | inr n ↦ absurd n ]
    | inr n ↦ absurd n
  ];
  below = λ k mk. elim mk [ inl q ↦ rw (← q) (omega arith) | inr n ↦ absurd n ];
}

remove_enrollment-authorize_publish_example : ◌≢◌ {A = Option ℕ} none (some 3)
unfolding remove_enrollment authorize_publish
remove_enrollment-authorize_publish_example =
    remove_enrollment-authorize_publish url_param verify 5000000 7 2 seated seated_key "alice"
      "?token=contest" HasKeyIds-seated (inl refl) refl refl refl
