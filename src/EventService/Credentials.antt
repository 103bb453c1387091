-- ===== src/EventService/Credentials.antt =====
-- app/server/services/events.ts: the publish token and the shared publish key of an event.
pub mod Rotation
use constrainable.Base.{
  ℕ, String, Bool, true, false, not, ◌&&◌, ◌||◌, Option, some, none, ltb, ◌==◌, is_empty,
  str_length, str_take, str_append, trim, all_chars, is_lower, is_upper, is_digit, Result, ok,
  http_error, if◌then◌else◌, List,
}
use constrainable.Schema.{Event, timestamp}
use constrainable.Password.{hash_token}
use constrainable.Database.Events
use constrainable.Server.{
  Server, AuditLevel, publish_token_set, publish_key_set, publish_token_cleared,
  publish_key_cleared,
}
use constrainable.EventService.{log_event}
use constrainable.EventService.View.{get_row}

-- /^[A-Za-z0-9._~-]+$/
pub is_publish_token : String → Bool
is_publish_token s =
    not (is_empty s)
    && all_chars
        (λ c.
          is_upper c
          || is_lower c
          || is_digit c
          || (c == b'.')
          || (c == b'_')
          || (c == b'~')
          || (c == b'-'))
        s

abbrev pub publish_token_min : ℕ
publish_token_min = 8

abbrev pub publish_token_max : ℕ
publish_token_max = 128

-- Why a chosen text is refused; `noun` is Token or Key.
pub choice_error : String → String → Option String
unfolding is_publish_token
choice_error noun c =
    if ltb (str_length c) publish_token_min || ltb publish_token_max (str_length c)
    then some (str_append noun " length must be 8–128 characters")
    else if not (is_publish_token c)
    then some (str_append noun " may only contain letters, digits, and . _ - ~")
    else none

-- The text to store and whether the caller chose it: one that is blank is as good as none.
pub credential : String → String → Option String → Result (String × Bool)
unfolding choice_error
credential noun generate none = ok (generate, false)
credential noun generate (some custom) =
    let c = trim custom in
    if is_empty c
    then ok (generate, false)
    else elim (choice_error noun c) [ some message ↦ http_error 400 message | none ↦ ok (c, true) ]

pub update_row : ℕ → (Event → Event) → Server → Server
unfolding Events.update
update_row i f s = record s { db = record s.db { events = Events.update i f s.db.events } }

pub record RotatedToken : Type 0 where
  pub token : String
  pub preview : String
  pub is_custom : Bool

pub set_token : ℕ → String → String → Event → Event
set_token now hash prefix e = record e {
  publish_token_hash = some hash;
  publish_token_prefix = some prefix;
  updated_at = timestamp now;
}

-- `generate` is the text that `generateToken()` gives, and `salt` the random salt of `hashToken`.
unfoldable pub rotate_publish_token :
    (argon2id : String → List ℕ → List ℕ)
    → (salt : List ℕ) → ℕ
    → (generate : String) → ℕ
    → Option String
    → Server
    → Result RotatedToken × Server
unfolding credential update_row set_token log_event
rotate_publish_token argon2id salt now generate i custom s = elim (get_row i s) [
  | http_error code message ↦ (http_error code message, s)
  | ok existing ↦ elim (credential "Token" generate custom) [
    | http_error code message ↦ (http_error code message, s)
    | ok (token, is_custom) ↦ (
      ok (record { token = token; preview = str_take 8 token; is_custom = is_custom }),
      log_event AuditLevel.info (publish_token_set is_custom existing.name) i
          (update_row i (set_token now (hash_token argon2id salt token) (str_take 8 token)) s),
    )
  ]
]

unfoldable pub clear_publish_token : ℕ → ℕ → Server → Result {0} Unit × Server
unfolding update_row log_event
clear_publish_token now i s = elim (get_row i s) [
  | http_error code message ↦ (http_error code message, s)
  | ok existing ↦ (
    ok tt,
    log_event AuditLevel.warn (publish_token_cleared existing.name) i (
        update_row i
          (λ e. record e {
            publish_token_hash = none;
            publish_token_prefix = none;
            updated_at = timestamp now;
          })
          s),
  )
]

unfoldable pub set_publish_key :
    ℕ → (generate : String) → ℕ → Option String → Server → Result (String × Bool) × Server
unfolding credential update_row log_event
set_publish_key now generate i custom s = elim (get_row i s) [
  | http_error code message ↦ (http_error code message, s)
  | ok existing ↦ elim (credential "Key" generate custom) [
    | http_error code message ↦ (http_error code message, s)
    | ok (key, is_custom) ↦ (
      ok (key, is_custom),
      log_event AuditLevel.info (publish_key_set is_custom existing.name) i
          (update_row i (λ e. record e { publish_key = some key; updated_at = timestamp now }) s),
    )
  ]
]

unfoldable pub clear_publish_key : ℕ → ℕ → Server → Result {0} Unit × Server
unfolding update_row log_event
clear_publish_key now i s = elim (get_row i s) [
  | http_error code message ↦ (http_error code message, s)
  | ok existing ↦ (
    ok tt,
    log_event AuditLevel.warn (publish_key_cleared existing.name) i
        (update_row i (λ e. record e { publish_key = none; updated_at = timestamp now }) s),
  )
]

pub get_publish_key : ℕ → Server → Result (Option String)
get_publish_key i s = elim (get_row i s) [
  | http_error code message ↦ http_error code message
  | ok e ↦ ok e.publish_key
]
