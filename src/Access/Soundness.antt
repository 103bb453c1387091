-- ===== src/Access/Soundness.antt =====
-- Who is admitted: an admitted publisher holds a credential of an event that is live and in its
-- window, and nothing but the use of a stream key is written.
use constrainable.Base.{
  ℕ, ◌≤◌, String, Bool, true, false, not, ◌&&◌, ◌≡◌, refl, sym, ap, ◌∙◌, inl, inr, Option, some,
  none, List, [], ◌∷◌, Elem, find?-some, Elem-filter, holds, str_take, is_empty, ==_iff, eq_iff,
  holds-some, or_option-some, Option-cases, arith,
}
use constrainable.Schema.{Event, EventStatus, StreamKey, is_live}
use constrainable.Database.{Database}
use constrainable.Database.Events
use constrainable.Database.StreamKeys
use constrainable.Access.{
  Allowed, AuthResult, allow, within_window, admit, given_token, matching_key, verified_event,
  find_event_by_publish_token, event_of_token, key_grant, authorize_key, authorize_shared,
  authorize_token, authorize_publish,
}

-- The event accepts streams at the time `now`.
pub record IsOpen (now : ℕ) (e : Event) : Type 0 where
  pub live : e.status ≡ EventStatus.live
  pub begun : (t : ℕ) → e.starts_at ≡ some t → t ≤ now
  pub lasting : (t : ℕ) → e.ends_at ≡ some t → now ≤ t

-- What a publisher of `stream` shows for the event `e`, with the id of the stream key that it used.
pub data Credential (verify : String → String → Bool) (db : Database) (stream token : String)
    (e : Event) (used : Option ℕ) : Type 0 where
  student_key :
      (k : StreamKey)
      → Elem k db.stream_keys.rows
      → k.stream_name ≡ stream
      → k.revoked ≡ false
      → verify token k.token_hash ≡ true
      → e.id ≡ k.event_id
      → used ≡ some k.id
      → Credential verify db stream token e used
  event_token :
      (hash : String)
      → e.publish_token_hash ≡ some hash
      → verify token hash ≡ true
      → e.publish_token_prefix ≡ some (str_take 8 token)
      → used ≡ none
      → Credential verify db stream token e used
  event_key : e.publish_key ≡ some token → used ≡ none → Credential verify db stream token e used

within_window-none :
    (now : ℕ) (e : Event) → e.status ≡ EventStatus.live → within_window now e ≡ none → IsOpen now e
unfolding within_window
within_window-none now e l h = record {
  live = l;
  begun = λ t p. ground arith;
  lasting = λ t p. ground arith;
}

is_live-eq : (s : EventStatus) → is_live s ≡ true → s ≡ EventStatus.live
is_live-eq EventStatus.live h = refl
is_live-eq _ h = cc

admit-some-allow :
    (now : ℕ) (e : Event) (a b : Allowed) → admit now (some e) a ≡ allow b → IsOpen now e × (b ≡ a)
unfolding admit
admit-some-allow now e a b h =
    (within_window-none now e (is_live-eq e.status (ground arith)) (ground arith), ground arith)

pub admit-allow :
    (now : ℕ) (o : Option Event) (a b : Allowed)
    → admit now o a ≡ allow b
    → (e : Event) × (o ≡ some e) × IsOpen now e × (b ≡ a)
unfolding admit
admit-allow now none a b h = cc
admit-allow now (some e) a b h = let r = admit-some-allow now e a b h in (e, refl, r.0, r.1)

module _ (verify : String → String → Bool) (token : String) where
  matching_key_lem :
      (ks : List StreamKey) {k : StreamKey}
      → matching_key verify token ks ≡ some k
      → Elem k ks × (k.revoked ≡ false) × (verify token k.token_hash ≡ true)
  unfolding matching_key
  matching_key_lem [] h = cc
  matching_key_lem (x ∷ ks) {k} h = ground (arith, matching_key_lem ks {k = k})

  verified_event_lem :
      (es : List Event) {e : Event}
      → verified_event verify token es ≡ some e
      → Elem e es × (holds (λ h. not (is_empty h) && verify token h) e.publish_token_hash ≡ true)
  unfolding verified_event
  verified_event_lem [] h = cc
  verified_event_lem (x ∷ es) {e} h = ground (arith, verified_event_lem es {e = e})

  token_event-Credential :
      (db : Database) (stream : String) {e : Event} {used : Option ℕ}
      → used ≡ none
      → find_event_by_publish_token verify token db.events.rows ≡ some e
      → Elem e db.events.rows × Credential verify db stream token e used
  unfolding find_event_by_publish_token Events.find_by_publish_token_prefix
  token_event-Credential db stream {e} u h =
      let prefix = str_take 8 token in
      let candidates = Events.find_by_publish_token_prefix prefix db.events.rows in
      let v = verified_event_lem candidates {e = e} (ground arith) in
      let m = Elem-filter _ db.events.rows {x = e} v.0 in
      let hash = holds-some _ e.publish_token_hash v.1 in
      let pre = holds-some _ e.publish_token_prefix m.1 in
      (
        m.0,
        event_token hash.0 hash.1 (ground (arith, hash.2))
            (pre.1 ∙ ap some ((eq_iff pre.0 prefix).0 pre.2)) u,
      )

  key_event-Credential :
      (db : Database) (stream : String) {e : Event} {used : Option ℕ}
      → used ≡ none
      → Events.find_by_publish_key token db.events.rows ≡ some e
      → Elem e db.events.rows × Credential verify db stream token e used
  unfolding Events.find_by_publish_key
  key_event-Credential db stream {e} u h =
      let found = find?-some _ db.events.rows {x = e} h in
      let key = holds-some _ e.publish_key found.1 in
      (found.0, event_key (key.1 ∙ ap some ((eq_iff key.0 token).0 key.2)) u)

  -- The event that a token names holds it as its key, or as a hash that the token verifies.
  event_of_token-Credential :
      (db : Database) (stream : String) {e : Event} {used : Option ℕ}
      → used ≡ none
      → event_of_token verify token db.events.rows ≡ some e
      → Elem e db.events.rows × Credential verify db stream token e used
  unfolding event_of_token
  event_of_token-Credential db stream {e} u h =
      elim (or_option-some (find_event_by_publish_token verify token db.events.rows) _ h) [
        | inl p ↦ token_event-Credential db stream u p
        | inr p ↦ key_event-Credential db stream u p
      ]

-- What an admission shows of its event.
abbrev pub Admission :
    (String → String → Bool) → ℕ → Database → String → String → Allowed → Event → Type 0
Admission verify now db stream token a e =
    Elem e db.events.rows
    × IsOpen now e
    × (a.event_id ≡ some e.id)
    × Credential verify db stream token e a.stream_key_id

module _ (verify : String → String → Bool) (now : ℕ) (db : Database) (stream token : String)
    {a : Allowed} where
  authorize_key-Admission :
      {db' : Database} (k : StreamKey)
      → matching_key verify token (StreamKeys.find_all_by_stream_name stream db.stream_keys.rows)
        ≡ some k
      → authorize_key now db k ≡ (allow a, db')
      → (e : Event) × Admission verify now db stream token a e
  unfolding authorize_key StreamKeys.find_all_by_stream_name Events.find_by_id
  authorize_key-Admission k found h =
      let m =
        matching_key_lem verify token
          (StreamKeys.find_all_by_stream_name stream db.stream_keys.rows) {k = k} found in
      let mine = Elem-filter _ db.stream_keys.rows {x = k} m.0 in
      let adm =
        admit-allow now (Events.find_by_id k.event_id db.events.rows) (key_grant db k) a
          (ground arith) in
      let e = adm.0 in
      let known = find?-some _ db.events.rows {x = e} adm.1 in
      let same = (==_iff e.id k.event_id).0 known.1 in
      (
        e,
        (
          known.0,
          adm.2,
          ap (λ (b : Allowed). b.event_id) adm.3 ∙ ap some (sym same),
          student_key k mine.0 ((eq_iff k.stream_name stream).0 mine.1) m.1 m.2 same
              (ap (λ (b : Allowed). b.stream_key_id) adm.3),
        ),
      )

  authorize_shared-Admission :
      (ks : List StreamKey)
      → authorize_shared verify now db token ks ≡ allow a
      → (e : Event) × Admission verify now db stream token a e
  unfolding authorize_shared
  authorize_shared-Admission ks h =
      elim (Option-cases (event_of_token verify token db.events.rows)) [
        | inl e ↦ cc (rw (e, authorize_shared) at h)
        | inr (e, p) ↦
            let adm = admit-some-allow now e _ a (rw (p, authorize_shared) at h) in
            let key_free = ap (λ (b : Allowed). b.stream_key_id) adm.1 in
            let found = event_of_token-Credential verify token db stream key_free p in
            (e, (found.0, adm.0, ap (λ (b : Allowed). b.event_id) adm.1, found.1))
      ]

  authorize_token-Admission :
      {db' : Database}
      → authorize_token verify now db token
          (StreamKeys.find_all_by_stream_name stream db.stream_keys.rows)
        ≡ (allow a, db')
      → (e : Event) × Admission verify now db stream token a e
  unfolding authorize_token
  authorize_token-Admission h =
      let keys = StreamKeys.find_all_by_stream_name stream db.stream_keys.rows in
      elim (Option-cases (matching_key verify token keys)) [
        | inl e ↦
            authorize_shared-Admission keys
              (ap (λ (r : AuthResult × Database). r.0) (rw (e, authorize_token) at h))
        | inr (k, e) ↦ authorize_key-Admission k e (rw (e, authorize_token) at h)
      ]

-- An admitted publisher showed a token that is a credential of an event: a key of its stream name
-- that is not revoked, the event's publish token, or the event's publish key. The event is live and
-- inside its window, and it is the one that the admission names.
pub authorize_publish_sound :
    (url_param : String → Option String) (verify : String → String → Bool) (now : ℕ) (db : Database)
    (stream param : String) {a : Allowed} {db' : Database}
    → authorize_publish url_param verify now db stream param ≡ (allow a, db')
    → (token : String) × (given_token url_param param ≡ some token)
      × ((e : Event) × Admission verify now db stream token a e)
unfolding authorize_publish
authorize_publish_sound url_param verify now db stream param {a} h =
    elim (Option-cases (given_token url_param param)) [
      | inl e ↦ cc (rw (e, authorize_publish) at h)
      | inr (token, e) ↦ (
        token,
        e,
        authorize_token-Admission verify now db stream token (rw (e, authorize_publish) at h),
      )
    ]
