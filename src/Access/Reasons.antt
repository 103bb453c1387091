-- ===== src/Access/Reasons.antt =====
-- The other direction and the refusals: who holds a key of an open event is admitted, and what a
-- refusal says of the tables.
use constrainable.Base.{
  ℕ, ◌≤◌, String, Bool, true, false, not, ◌&&◌, ◌≡◌, ◌≢◌, refl, ap, ◌∙◌, ◌⊎◌, inl, inr, Option,
  some, none, List, [], ◌∷◌, Elem, holds, Option-cases, Bool-cases, ltb, any, arith,
}
use constrainable.Schema.{Event, StreamKey, Reason, key_revoked}
use constrainable.Database.{Database}
use constrainable.Database.Events
use constrainable.Database.StreamKeys
use constrainable.Access.{
  Allowed, AuthResult, allow, reject, within_window, admit, given_token, key_grant, matching_key,
  event_of_token, unmatched, authorize_key, authorize_shared, authorize_token, authorize_publish,
}
use constrainable.Access.Soundness.{IsOpen, admit-allow}

-- Either nothing is written, or the publisher is admitted by a key and that key is touched.
abbrev pub Writes : ℕ → Database → AuthResult × Database → Type 0
Writes now db (r, db') =
    (db' ≡ db)
    ⊎ ((a : Allowed) × (i : ℕ) × (r ≡ allow a)
        × (a.stream_key_id ≡ some i)
        × (db' ≡ record db { stream_keys = StreamKeys.touch now i db.stream_keys }))

pub AuthResult-cases :
    (r : AuthResult) → ((a : Allowed) × (r ≡ allow a)) ⊎ ((e : Reason) × (r ≡ reject e))
AuthResult-cases (allow a) = inl (a, refl)
AuthResult-cases (reject e) = inr (e, refl)

authorize_key-Writes :
    (now : ℕ) (db : Database) (k : StreamKey) → Writes now db (authorize_key now db k)
unfolding authorize_key
authorize_key-Writes now db k =
    let event = Events.find_by_id k.event_id db.events.rows in
    elim (AuthResult-cases (admit now event (key_grant db k))) [
      | inl (a, e) ↦
          let same = (admit-allow now event (key_grant db k) a e).3 in
          rw (e, authorize_key)
            (inr (a, k.id, refl, ap (λ (b : Allowed). b.stream_key_id) same, refl))
      | inr (r, e) ↦ rw (e, authorize_key) (inl refl)
    ]

authorize_token-Writes :
    (verify : String → String → Bool) (now : ℕ) (db : Database) (token : String)
    (ks : List StreamKey)
    → Writes now db (authorize_token verify now db token ks)
unfolding authorize_token
authorize_token-Writes verify now db token ks = elim (Option-cases (matching_key verify token ks)) [
  | inl e ↦ rw (e, authorize_token) (inl refl)
  | inr (k, e) ↦ rw (e, authorize_token) (authorize_key-Writes now db k)
]

-- A refused publisher changes nothing, and an admitted one at most the time at which a key was
-- last used.
pub authorize_publish-Writes :
    (url_param : String → Option String) (verify : String → String → Bool) (now : ℕ) (db : Database)
    (stream param : String)
    → Writes now db (authorize_publish url_param verify now db stream param)
unfolding authorize_publish
authorize_publish-Writes url_param verify now db stream param =
    let keys = StreamKeys.find_all_by_stream_name stream db.stream_keys.rows in
    elim (Option-cases (given_token url_param param)) [
      | inl e ↦ rw (e, authorize_publish) (inl refl)
      | inr (token, e) ↦ rw (e, authorize_publish) (authorize_token-Writes verify now db token keys)
    ]

-- The sessions are left alone.
pub sessions-authorize_publish :
    (url_param : String → Option String) (verify : String → String → Bool) (now : ℕ) (db : Database)
    (stream param : String)
    → (authorize_publish url_param verify now db stream param).1.sessions ≡ db.sessions
sessions-authorize_publish url_param verify now db stream param =
    elim (authorize_publish-Writes url_param verify now db stream param) [
      | inl e ↦ ap (λ (d : Database). d.sessions) e
      | inr (a, i, p, q, e) ↦ ap (λ (d : Database). d.sessions) e
    ]

pub users-authorize_publish :
    (url_param : String → Option String) (verify : String → String → Bool) (now : ℕ) (db : Database)
    (stream param : String)
    → (authorize_publish url_param verify now db stream param).1.users ≡ db.users
users-authorize_publish url_param verify now db stream param =
    elim (authorize_publish-Writes url_param verify now db stream param) [
      | inl e ↦ ap (λ (d : Database). d.users) e
      | inr (a, i, p, q, e) ↦ ap (λ (d : Database). d.users) e
    ]

not_after :
    (now : ℕ) (o : Option ℕ) → ((t : ℕ) → o ≡ some t → t ≤ now) → holds (λ t. ltb now t) o ≡ false
not_after now none h = refl
not_after now (some t) h = ground (arith, h t refl)

not_before :
    (now : ℕ) (o : Option ℕ) → ((t : ℕ) → o ≡ some t → now ≤ t) → holds (λ t. ltb t now) o ≡ false
not_before now none h = refl
not_before now (some t) h = ground (arith, h t refl)

IsOpen-within : (now : ℕ) (e : Event) → IsOpen now e → within_window now e ≡ none
unfolding within_window
IsOpen-within now e o =
    rw (not_after now e.starts_at o.begun) (rw (not_before now e.ends_at o.lasting) refl)

pub admit-IsOpen :
    (now : ℕ) (e : Event) (a : Allowed) → IsOpen now e → admit now (some e) a ≡ allow a
unfolding admit
admit-IsOpen now e a o = rw (o.live, IsOpen-within now e o) refl

-- A key that the loop of path 1 accepts.
abbrev pub IsUsable : (String → String → Bool) → String → StreamKey → Type 0
IsUsable verify token k = (k.revoked ≡ false) × (verify token k.token_hash ≡ true)

matching_key-found :
    (verify : String → String → Bool) (token : String) (ks : List StreamKey) (k : StreamKey)
    → Elem k ks
    → IsUsable verify token k
    → (m : StreamKey) × (matching_key verify token ks ≡ some m)
      × Elem m ks
      × IsUsable verify token m
unfolding matching_key
matching_key-found verify token [] k h u = absurd h
matching_key-found verify token (x ∷ ks) k h u =
    elim (Bool-cases (not x.revoked && verify token x.token_hash)) [
      | inl t ↦ (x, ground arith, inl refl, ground arith)
      | inr f ↦
          let r = matching_key-found verify token ks k (ground arith) u in
          (r.0, ground (arith, r.1), inr r.2, r.3)
    ]

-- If a key of the stream that is not revoked verifies the token, and every such key belongs to an
-- event that is live and in its window, then the publisher is admitted, by one of those keys.
pub authorize_publish_complete :
    (url_param : String → Option String) (verify : String → String → Bool) (now : ℕ) (db : Database)
    (stream param token : String) (k : StreamKey)
    → given_token url_param param ≡ some token
    → Elem k (StreamKeys.find_all_by_stream_name stream db.stream_keys.rows)
    → IsUsable verify token k
    → ((m : StreamKey)
        → Elem m (StreamKeys.find_all_by_stream_name stream db.stream_keys.rows)
        → IsUsable verify token m
        → (e : Event) × (Events.find_by_id m.event_id db.events.rows ≡ some e) × IsOpen now e)
    → (m : StreamKey) × Elem m (StreamKeys.find_all_by_stream_name stream db.stream_keys.rows)
      × IsUsable verify token m
      × ((authorize_publish url_param verify now db stream param).0 ≡ allow (key_grant db m))
unfolding authorize_publish authorize_token authorize_key
authorize_publish_complete url_param verify now db stream param token k given known usable
      open_all =
    let keys = StreamKeys.find_all_by_stream_name stream db.stream_keys.rows in
    let m = matching_key-found verify token keys k known usable in
    let event = open_all m.0 m.2 m.3 in
    let admitted = admit-IsOpen now event.0 (key_grant db m.0) event.2 in
    (
      m.0,
      m.2,
      m.3,
      rw (given, authorize_publish)
          (rw (m.1, authorize_token)
            (rw (event.1, authorize_key) (rw (admitted, authorize_key) refl))),
    )

admit-ne-key_revoked :
    (now : ℕ) (o : Option Event) (a : Allowed) → admit now o a ≢ reject key_revoked
unfolding admit
admit-ne-key_revoked now none a h = cc
admit-ne-key_revoked now (some e) a h = ground arith

all_revoked :
    (ks : List StreamKey)
    → any (λ k. not k.revoked) ks ≡ false
    → (k : StreamKey) → Elem k ks
    → k.revoked ≡ true
all_revoked [] h k m = absurd m
all_revoked (x ∷ ks) h k m = ground (arith, all_revoked ks (ground arith) k)

authorize_shared-key_revoked :
    (verify : String → String → Bool) (now : ℕ) (db : Database) (token : String)
    (ks : List StreamKey)
    → authorize_shared verify now db token ks ≡ reject key_revoked
    → (event_of_token verify token db.events.rows ≡ none)
      × (ks ≢ [])
      × ((k : StreamKey) → Elem k ks → k.revoked ≡ true)
unfolding authorize_shared
authorize_shared-key_revoked verify now db token ks h =
    elim (Option-cases (event_of_token verify token db.events.rows)) [
      | inl e ↦ let r = none_left ks (rw (e, authorize_shared) at h) in (e, r.0, r.1)
      | inr (e, p) ↦ absurd (admit-ne-key_revoked now (some e) _ (rw (p, authorize_shared) at h))
    ]
  where
    none_left :
        (ks : List StreamKey)
        → ◌≡◌ {A = AuthResult} (reject (unmatched (some token) ks)) (reject key_revoked)
        → (ks ≢ []) × ((k : StreamKey) → Elem k ks → k.revoked ≡ true)
    none_left [] h = cc
    none_left (k ∷ ks) h = ((λ e. cc), all_revoked (k ∷ ks) (ground arith))

authorize_key-ne-key_revoked :
    (now : ℕ) (db : Database) (k : StreamKey) → (authorize_key now db k).0 ≢ reject key_revoked
unfolding authorize_key
authorize_key-ne-key_revoked now db k h =
    let event = Events.find_by_id k.event_id db.events.rows in
    elim (AuthResult-cases (admit now event (key_grant db k))) [
      | inl (a, e) ↦ cc (rw (e, authorize_key) at h)
      | inr (r, e) ↦
          admit-ne-key_revoked now event (key_grant db k) (e ∙ (rw (e, authorize_key) at h))
    ]

no_token-ne-key_revoked : (ks : List StreamKey) → unmatched none ks ≢ key_revoked
unfolding unmatched
no_token-ne-key_revoked [] h = cc
no_token-ne-key_revoked (k ∷ ks) h = cc

reject-injective : {r s : Reason} → reject r ≡ reject s → r ≡ s
reject-injective h = cc

-- The answer "key revoked" is given only for a stream name that has keys, all of them revoked, and
-- for a token that names no event.
pub authorize_publish-key_revoked :
    (url_param : String → Option String) (verify : String → String → Bool) (now : ℕ) (db : Database)
    (stream param : String)
    → (authorize_publish url_param verify now db stream param).0 ≡ reject key_revoked
    → let keys = StreamKeys.find_all_by_stream_name stream db.stream_keys.rows in
      (keys ≢ [])
      × ((k : StreamKey) → Elem k keys → k.revoked ≡ true)
      × ((token : String) × (given_token url_param param ≡ some token)
          × (event_of_token verify token db.events.rows ≡ none))
unfolding authorize_publish authorize_token
authorize_publish-key_revoked url_param verify now db stream param h =
    let keys = StreamKeys.find_all_by_stream_name stream db.stream_keys.rows in
    elim (Option-cases (given_token url_param param)) [
      | inl e ↦
          absurd (no_token-ne-key_revoked keys (reject-injective (rw (e, authorize_publish) at h)))
      | inr (token, e) ↦ elim (Option-cases (matching_key verify token keys)) [
        | inl free ↦
            let r =
              authorize_shared-key_revoked verify now db token keys
                (rw (e, authorize_publish, free, authorize_token) at h) in
            (r.1, r.2, (token, e, r.0))
        | inr (k, taken) ↦ absurd (
            authorize_key-ne-key_revoked now db k
              (rw (e, authorize_publish, taken, authorize_token) at h))
      ]
    ]
