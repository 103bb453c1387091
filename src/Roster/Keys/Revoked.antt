-- ===== src/Roster/Keys/Revoked.antt =====
-- A revoked key admits nobody.
use constrainable.Base.{
  ℕ, String, Bool, true, false, not, ◌&&◌, ◌≡◌, ◌≢◌, refl, sym, ap, ◌∙◌, inl, inr, Option, some,
  none, List, ◌==◌, arith, Elem, Table, ok, updated, Option-cases, Bool-cases, Elem-update_cases,
  find?-some, Result, if_true, ==_iff, update_where, holds, ==_refl,
}
use constrainable.Schema.{StreamKey}
use constrainable.Database.{Database}
use constrainable.Database.Enrollments
use constrainable.Database.StreamKeys
use constrainable.Server.{Server}
use constrainable.Roster.Keys.Issued.{HasKeyIds}
use constrainable.Roster.{log}
use constrainable.Access.{Allowed, allow, authorize_publish}
use constrainable.Access.Soundness.{student_key, event_token, event_key, authorize_publish_sound}
use constrainable.Roster.{event_exists, remove_enrollment, drop_enrollment}
use constrainable.Roster.Keys.{revoke_key}

-- No publisher is admitted by the key with the id, whatever it shows.
abbrev AdmitsNobody : Database → ℕ → Type 0
AdmitsNobody db key =
    (url_param : String → Option String) (verify : String → String → Bool) (now : ℕ)
    (stream param : String) (a : Allowed) (db' : Database)
    → authorize_publish url_param verify now db stream param ≡ (allow a, db')
    → a.stream_key_id ≢ some key

all_revoked-AdmitsNobody :
    (db : Database) (key : ℕ)
    → ((k : StreamKey) → Elem k db.stream_keys.rows → k.id ≡ key → k.revoked ≡ true)
    → AdmitsNobody db key
all_revoked-AdmitsNobody db key dead url_param verify now stream param a db' admitted used =
    let (token, given, shown) =
      authorize_publish_sound url_param verify now db stream param {a = a} {db' = db'} admitted in
    elim shown.1.3 [
      | student_key k m named alive verified own same ↦
          let id_of : k.id ≡ key = ground (arith, used, same) in cc (alive, dead k m id_of)
      | event_token h p q prefix unused ↦ cc (sym unused ∙ used)
      | event_key p unused ↦ cc (sym unused ∙ used)
    ]

AdmitsNobody-to :
    {s s' : Server} {key : ℕ} → s ≡ s' → AdmitsNobody s.db key → AdmitsNobody s'.db key
AdmitsNobody-to h a = rw (← h) a

-- The row after a change of one column, which keeps its id.
revoked_rows :
    (t : Table StreamKey) (p : StreamKey → Bool) (k x : StreamKey)
    → HasKeyIds t
    → Elem k t.rows
    → (k.revoked ≡ false → p k ≡ true)
    → Elem x (updated p (λ y. record y { revoked = true }) t).rows
    → x.id ≡ k.id
    → x.revoked ≡ true
revoked_rows t p k x ids m all mx same =
    let f : StreamKey → StreamKey = λ y. record y { revoked = true } in
    let (y, my, q) = Elem-update_cases p f t.rows {x = x} mx in
    elim (Bool-cases (p y)) [
      | inl hit ↦
          let r : x ≡ f y = q ∙ if_true (p y) (f y) y hit in ap (λ (z : StreamKey). z.revoked) r
      | inr miss ↦
          let r : x ≡ y = q ∙ rw miss refl in
          let y_is_k : y ≡ k = ids.same_id y k my m (ap (λ (z : StreamKey). z.id) (sym r) ∙ same) in
          rw (r, y_is_k)
            (elim (Bool-cases k.revoked) [
              | inl done ↦ done
              | inr alive ↦ cc (all alive, rw y_is_k at miss)
            ])
    ]

revoke_key-AdmitsNobody :
    (event key : ℕ) (s : Server) {s' : Server}
    → HasKeyIds s.db.stream_keys
    → revoke_key event key s ≡ (ok tt, s')
    → AdmitsNobody s'.db key
unfolding revoke_key StreamKeys.revoke StreamKeys.find_by_event_and_id
revoke_key-AdmitsNobody event key s {s'} ids h =
    elim (Option-cases (StreamKeys.find_by_event_and_id event key s.db.stream_keys.rows)) [
      | inl e ↦ cc (rw (revoke_key, e) at h)
      | inr (row, e) ↦
          let (m, q) =
            find?-some (λ k. (k.id == key) && (k.event_id == event)) s.db.stream_keys.rows {x = row}
              e in
          let own : row.id ≡ key = ground (arith, q) in
          elim (Bool-cases row.revoked) [
            | inl done ↦
                let after : s ≡ s' =
                  ap (λ (r : Result Unit × Server). r.1) (rw (revoke_key, e, done) at h) in
                AdmitsNobody-to after (
                  all_revoked-AdmitsNobody s.db key
                    (λ k mk p. rw (ids.same_id k row mk m (p ∙ sym own)) done))
            | inr alive ↦
                let after =
                  ap (λ (r : Result Unit × Server). r.1) (rw (revoke_key, e, alive) at h) in
                AdmitsNobody-to after (
                  all_revoked-AdmitsNobody _ key (λ k mk p.
                    revoked_rows s.db.stream_keys (λ x. x.id == key) row k ids m
                      (λ a. (==_iff row.id key).1 own) mk (p ∙ sym own)))
          ]
    ]

unreferenced_rows :
    (i : ℕ) (ks : List StreamKey) (x : StreamKey)
    → Elem x (
        update_where
          (λ k. holds (λ j. j == i) k.enrollment_id)
          (λ k. record k { enrollment_id = none })
          ks)
    → (y : StreamKey) × Elem y ks × (x.id ≡ y.id) × (x.revoked ≡ y.revoked)
unreferenced_rows i ks x m =
    let f : StreamKey → StreamKey = λ k. record k { enrollment_id = none } in
    let (y, my, q) = Elem-update_cases (λ k. holds (λ j. j == i) k.enrollment_id) f ks {x = x} m in
    elim (Bool-cases (holds (λ j. j == i) y.enrollment_id)) [
      | inl hit ↦
          let r : x ≡ f y = q ∙ if_true (holds (λ j. j == i) y.enrollment_id) (f y) y hit in
          (y, my, ap (λ (z : StreamKey). z.id) r, ap (λ (z : StreamKey). z.revoked) r)
      | inr miss ↦
          let r : x ≡ y = q ∙ rw miss refl in
          (y, my, ap (λ (z : StreamKey). z.id) r, ap (λ (z : StreamKey). z.revoked) r)
    ]

remove_enrollment-AdmitsNobody :
    (event i : ℕ) (s : Server) (k : StreamKey) {s' : Server}
    → HasKeyIds s.db.stream_keys
    → Elem k s.db.stream_keys.rows
    → k.enrollment_id ≡ some i
    → remove_enrollment event i s ≡ (ok tt, s')
    → AdmitsNobody s'.db k.id
unfolding remove_enrollment drop_enrollment log StreamKeys.revoke_active_by_enrollment
remove_enrollment-AdmitsNobody event i s k {s'} ids m own h =
    elim (Bool-cases (event_exists event s)) [
      | inr no_event ↦ cc (rw (remove_enrollment, no_event) at h)
      | inl there ↦ elim (Option-cases (Enrollments.find_by_id i s.db.enrollments.rows)) [
        | inl e ↦ cc (rw (remove_enrollment, there, e) at h)
        | inr (r, e) ↦ elim (Bool-cases (r.event_id == event)) [
          | inr foreign ↦ cc (rw (remove_enrollment, there, e, foreign) at h)
          | inl mine ↦
              let after =
                ap (λ (x : Result Unit × Server). x.1)
                  (rw (remove_enrollment, there, e, mine) at h) in
              AdmitsNobody-to after (
                all_revoked-AdmitsNobody _ k.id (λ x mx same.
                  let (y, my, p, q) = unreferenced_rows i _ x mx in
                  q
                  ∙ revoked_rows s.db.stream_keys
                      (λ z. holds (λ j. j == i) z.enrollment_id && not z.revoked) k y ids m
                      (λ alive. rw (own, alive, ==_refl i) refl) my (sym p ∙ same)))
        ]
      ]
    ]

-- After a call that revokes a key, no publisher is admitted by that key, whatever it shows. Ids of
-- keys are different.
pub revoke_key-authorize_publish :
    (url_param : String → Option String) (verify : String → String → Bool) (now event key : ℕ)
    (s : Server) (stream param : String) {s' : Server} {a : Allowed} {db' : Database}
    → HasKeyIds s.db.stream_keys
    → revoke_key event key s ≡ (ok tt, s')
    → authorize_publish url_param verify now s'.db stream param ≡ (allow a, db')
    → a.stream_key_id ≢ some key
revoke_key-authorize_publish url_param verify now event key s stream param {a = a} {db' = db'} ids h
      admitted =
    revoke_key-AdmitsNobody event key s ids h url_param verify now stream param a db' admitted

-- After an enrollment has been removed from the roster, no publisher is admitted by a key that
-- belonged to it. Ids of keys are different.
pub remove_enrollment-authorize_publish :
    (url_param : String → Option String) (verify : String → String → Bool) (now event i : ℕ)
    (s : Server) (k : StreamKey) (stream param : String) {s' : Server} {a : Allowed}
    {db' : Database}
    → HasKeyIds s.db.stream_keys
    → Elem k s.db.stream_keys.rows
    → k.enrollment_id ≡ some i
    → remove_enrollment event i s ≡ (ok tt, s')
    → authorize_publish url_param verify now s'.db stream param ≡ (allow a, db')
    → a.stream_key_id ≢ some k.id
remove_enrollment-authorize_publish url_param verify now event i s k stream param {a = a}
      {db' = db'} ids m own h admitted =
    remove_enrollment-AdmitsNobody event i s k ids m own h url_param verify now stream param a db'
      admitted
