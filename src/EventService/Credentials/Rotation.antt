-- ===== src/EventService/Credentials/Rotation.antt =====
-- A publish token that has been set admits those who show it.
use constrainable.Base.{
  ℕ, ◌≤◌, String, Bool, true, false, ◌≡◌, ◌≢◌, refl, sym, ap, ◌∙◌, inl, inr, Option, some, none,
  ◌==◌, arith, str_length, ok, is_empty, Elem, Bool-cases, update_where, str_take, trim,
  Elem-update_hit, Option-cases, ==_iff, Elem-update_cases, if_true, Result, http_error, List, [],
}
use constrainable.Schema.{Event}
use constrainable.Database.Events
use constrainable.Database.StreamKeys
use constrainable.Database.{Database}
use constrainable.Server.{Server}
use constrainable.Password.{hash_token, verify_token}
use constrainable.Password.Hex.{IsBytes}
use constrainable.Password.RoundTrip.{verify_token-hash_token}
use constrainable.Access.{allow, given_token, matching_key, authorize_publish}
use constrainable.Access.Soundness.{IsOpen}
use constrainable.Access.Shared.{HoldsToken, event_of_token-some, authorize_publish-shared}
use constrainable.EventService.{log_event}
use constrainable.EventService.View.{get_row}
use constrainable.EventService.Outcomes.{Result-cases}
use constrainable.EventService.Invariant.{get_row-ok}
use constrainable.EventService.Credentials.{
  RotatedToken, choice_error, credential, set_token, update_row, rotate_publish_token,
}

choice_error-none : (noun c : String) → choice_error noun c ≡ none → 8 ≤ str_length c
unfolding choice_error
choice_error-none noun c h = ground (arith, h)

credential-ok :
    (noun generate : String) (custom : Option String) (token : String) (is_custom : Bool)
    → 8 ≤ str_length generate
    → credential noun generate custom ≡ ok (token, is_custom)
    → 8 ≤ str_length token
unfolding credential
credential-ok noun generate none token is_custom long h = ground (arith, h, long)
credential-ok noun generate (some custom) token is_custom long h =
    elim (Bool-cases (is_empty (trim custom))) [
      | inl blank ↦ ground (arith, blank, h, long)
      | inr given ↦ elim (Option-cases (choice_error noun (trim custom))) [
        | inl fine ↦ ground (arith, given, fine, h, choice_error-none noun (trim custom) fine)
        | inr (m, bad) ↦ ground (arith, given, bad, h)
      ]
    ]

token_of : Result RotatedToken × Server → String
token_of (ok r, s) = r.token
token_of (http_error c m, s) = ""

-- What a rotation that is carried out writes.
rotated :
    (argon2id : String → List ℕ → List ℕ) (salt : List ℕ) (now : ℕ) (generate : String) (i : ℕ)
    (custom : Option String) (s : Server) {r : RotatedToken} {s' : Server}
    → 8 ≤ str_length generate
    → rotate_publish_token argon2id salt now generate i custom s ≡ (ok r, s')
    → (8 ≤ str_length r.token)
      × ((existing : Event) × Elem existing s.db.events.rows × (existing.id ≡ i))
      × (s'.db.stream_keys ≡ s.db.stream_keys)
      × (s'.db.events.rows
          ≡ update_where
              (λ e. e.id == i)
              (set_token now (hash_token argon2id salt r.token) (str_take 8 r.token))
              s.db.events.rows)
unfolding rotate_publish_token update_row Events.update log_event token_of
rotated argon2id salt now generate i custom s {r} {s'} long h = elim (Result-cases (get_row i s)) [
  | inr (c, (m, e)) ↦ cc (rw (rotate_publish_token, e) at h)
  | inl (existing, e) ↦ elim (Result-cases (credential "Token" generate custom)) [
    | inr (c, (m, bad)) ↦ cc (rw (rotate_publish_token, e, bad) at h)
    | inl ((token, is_custom), good) ↦
        let p = rw (rotate_publish_token, e, good) at h in
        let same : token ≡ r.token = ap token_of p in
        let after = ap (λ (x : Result RotatedToken × Server). x.1) p in
        let found = get_row-ok i s existing e in
        (
          rw (← same) (credential-ok "Token" generate custom token is_custom long good),
          (existing, found.0, found.1),
          ap (λ (x : Server). x.db.stream_keys) (sym after),
          rw (← same) (ap (λ (x : Server). x.db.events.rows) (sym after)),
        )
  ]
]

set_token-IsOpen :
    (at now : ℕ) (hash prefix : String) (e : Event)
    → IsOpen at e
    → IsOpen at (set_token now hash prefix e)
unfolding set_token
set_token-IsOpen at now hash prefix e o = record {
  live = o.live;
  begun = o.begun;
  lasting = o.lasting;
}

module _ (url_param : String → Option String) (verify : String → String → Bool)
    (hash : String → String) (now later i : ℕ) (s : Server) (stream param token : String) where
  -- Once the token has been written to the row.
  written-authorize_publish :
      (db : Database) (existing : Event)
      → 8 ≤ str_length token
      → Elem existing s.db.events.rows
      → existing.id ≡ i
      → db.stream_keys ≡ s.db.stream_keys
      → db.events.rows
        ≡ update_where
            (λ e. e.id == i)
            (set_token now (hash token) (str_take 8 token))
            s.db.events.rows
      → is_empty (hash token) ≡ false
      → verify token (hash token) ≡ true
      → ((e : Event) → Elem e s.db.events.rows → e.id ≢ i → ¬ HoldsToken verify token e)
      → ((e : Event) → Elem e s.db.events.rows → e.id ≡ i → IsOpen later e)
      → given_token url_param param ≡ some token
      → matching_key verify token (StreamKeys.find_all_by_stream_name stream s.db.stream_keys.rows)
        ≡ none
      → (authorize_publish url_param verify later db stream param).0
        ≡ allow (record { event_id = some i; stream_key_id = none; student_label = none })
  unfolding set_token
  written-authorize_publish db existing enough m own keys rows filled verifies others accepts given
        keyless =
      let f : Event → Event = set_token now (hash token) (str_take 8 token) in
      let set =
        Elem-update_hit (λ e. e.id == i) f s.db.events.rows m ((==_iff existing.id i).1 own) in
      let (x, found, mx, holding) =
        event_of_token-some verify token (hash token) db.events.rows (f existing) enough
          (rw rows set) refl filled verifies refl in
      let (y, my, q) =
        Elem-update_cases (λ e. e.id == i) f s.db.events.rows {x = x} (rw rows at mx) in
      elim (Bool-cases (y.id == i)) [
        | inr miss ↦
            let same : x ≡ y = q ∙ rw miss refl in
            absurd (others y my (λ e. cc (miss, (==_iff y.id i).1 e)) (rw same at holding))
        | inl hit ↦
            let same : x ≡ f y = q ∙ if_true (y.id == i) (f y) y hit in
            let id_of : x.id ≡ i = ap (λ (e : Event). e.id) same ∙ (==_iff y.id i).0 hit in
            rw (← id_of) (
              authorize_publish-shared url_param verify later db stream param token x given
                (rw keys keyless) found
                (rw same (set_token-IsOpen later now _ _ y (accepts y my ((==_iff y.id i).0 hit)))))
      ]

-- A publisher who shows the token of an event that has been rotated, chosen or random, is admitted to
-- that event while it is open, under any stream name of which no key in use verifies the token, if no
-- other event holds a hash that verifies it. The hash is the one that the code stores and checks: argon2id
-- gives bytes, the random salt is one or more bytes, and random tokens have eight characters or more.
pub rotate_publish_token-authorize_publish :
    (url_param : String → Option String) (argon2id : String → List ℕ → List ℕ)
    (bun_verify : String → String → Bool) (salt : List ℕ) (now : ℕ) (generate : String) (i : ℕ)
    (custom : Option String) (s : Server) (later : ℕ) (stream param : String) {r : RotatedToken}
    {s' : Server}
    → salt ≢ []
    → IsBytes salt
    → 8 ≤ str_length generate
    → rotate_publish_token argon2id salt now generate i custom s ≡ (ok r, s')
    → IsBytes (argon2id r.token salt)
    → ((e : Event)
        → Elem e s.db.events.rows
        → e.id ≢ i
        → ¬ HoldsToken (verify_token argon2id bun_verify) r.token e)
    → ((e : Event) → Elem e s.db.events.rows → e.id ≡ i → IsOpen later e)
    → given_token url_param param ≡ some r.token
    → matching_key
        (verify_token argon2id bun_verify)
        r.token
        (StreamKeys.find_all_by_stream_name stream s.db.stream_keys.rows)
      ≡ none
    → (authorize_publish url_param (verify_token argon2id bun_verify) later s'.db stream param).0
      ≡ allow (record { event_id = some i; stream_key_id = none; student_label = none })
rotate_publish_token-authorize_publish url_param argon2id bun_verify salt now generate i custom s
      later stream param {r} {s'} ne bytes long h out others accepts given keyless =
    let (enough, (existing, m, own), keys, rows) =
      rotated argon2id salt now generate i custom s long h in
    let (filled, verifies) =
      verify_token-hash_token argon2id bun_verify salt r.token ne bytes out in
    written-authorize_publish url_param (verify_token argon2id bun_verify)
      (hash_token argon2id salt) now later i s stream param r.token s'.db existing enough m own keys
      rows filled verifies others accepts given keyless
