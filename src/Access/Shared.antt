-- ===== src/Access/Shared.antt =====
-- The second path: who shows an event's publish token is admitted to an event whose token it is.
use constrainable.Access.Reasons.{admit-IsOpen}
use constrainable.Base.{
  ℕ, ◌≤◌, String, Bool, true, false, not, ◌&&◌, ◌≡◌, refl, inl, inr, Option, some, none, List, [],
  ◌∷◌, arith, Elem, Bool-cases, holds-some, filter-Elem, str_eq, eq_refl, Elem-filter, str_length,
  holds, is_empty, str_take, ltb,
}
use constrainable.Schema.{Event}
use constrainable.Database.{Database}
use constrainable.Database.Events
use constrainable.Database.StreamKeys
use constrainable.Access.{
  allow, given_token, matching_key, verified_event, find_event_by_publish_token, event_of_token,
  authorize_shared, authorize_token, authorize_publish,
}
use constrainable.Access.Soundness.{IsOpen}

-- The hash that an event holds verifies the token.
abbrev pub HoldsToken : (String → String → Bool) → String → Event → Type 0
HoldsToken verify token e =
    (hash : String) × (e.publish_token_hash ≡ some hash) × (verify token hash ≡ true)

verified_event-some :
    (verify : String → String → Bool) (token : String) (es : List Event) (e : Event)
    → Elem e es
    → holds (λ h. not (is_empty h) && verify token h) e.publish_token_hash ≡ true
    → (x : Event) × (verified_event verify token es ≡ some x)
      × Elem x es
      × HoldsToken verify token x
unfolding verified_event
verified_event-some verify token [] e m h = absurd m
verified_event-some verify token (y ∷ es) e m h =
    elim (Bool-cases (holds (λ h. not (is_empty h) && verify token h) y.publish_token_hash)) [
      | inl hit ↦
          let (hash, p, q) = holds-some _ y.publish_token_hash hit in
          (y, rw hit refl, inl refl, (hash, p, ground (arith, q)))
      | inr miss ↦
          let (x, p, mx, q) =
            verified_event-some verify token es e (ground (arith, m, h, miss)) h in
          (x, rw miss p, inr mx, q)
    ]

pub event_of_token-some :
    (verify : String → String → Bool) (token hash : String) (es : List Event) (e : Event)
    → 8 ≤ str_length token
    → Elem e es
    → e.publish_token_hash ≡ some hash
    → is_empty hash ≡ false
    → verify token hash ≡ true
    → e.publish_token_prefix ≡ some (str_take 8 token)
    → (x : Event) × (event_of_token verify token es ≡ some x)
      × Elem x es
      × HoldsToken verify token x
unfolding event_of_token find_event_by_publish_token Events.find_by_publish_token_prefix
event_of_token-some verify token hash es e long m p filled ok prefix =
    let prefix_of = str_take 8 token in
    let candidate =
      filter-Elem (λ x. holds (λ q. str_eq q prefix_of) x.publish_token_prefix) es {x = e} m
        (rw prefix (eq_refl prefix_of)) in
    let enough : ltb (str_length token) 8 ≡ false = ground (arith, long) in
    let (x, found, mx, holding) =
      verified_event-some verify token _ e candidate (rw (p, filled) ok) in
    (
      x,
      rw (event_of_token, find_event_by_publish_token, enough, found) refl,
      (Elem-filter _ es {x = x} mx).0,
      holding,
    )

-- No key of the stream has the token, and an event that is open has it.
pub authorize_publish-shared :
    (url_param : String → Option String) (verify : String → String → Bool) (now : ℕ) (db : Database)
    (stream param token : String) (e : Event)
    → given_token url_param param ≡ some token
    → matching_key verify token (StreamKeys.find_all_by_stream_name stream db.stream_keys.rows)
      ≡ none
    → event_of_token verify token db.events.rows ≡ some e
    → IsOpen now e
    → (authorize_publish url_param verify now db stream param).0
      ≡ allow (record { event_id = some e.id; stream_key_id = none; student_label = none })
unfolding authorize_publish authorize_token authorize_shared
authorize_publish-shared url_param verify now db stream param token e given keyless mine accepts =
    rw (authorize_publish, given, authorize_token, keyless, authorize_shared, mine)
      (admit-IsOpen now e _ accepts)
