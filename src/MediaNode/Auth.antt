-- ===== src/MediaNode/Auth.antt =====
-- The questions that the gateway of a media node asks before a publish:
-- `handleAuthSalt`, `handleAuthVerify` and `handleAuthPolicy` of
-- app/server/services/media-node-handlers.ts. `random` is the random salt, and `response_ok` says
-- whether a response fits a stored verifier (`verifierFromCipher` and `verifyResponse` of
-- app/server/utils/authmod.ts, which call cryptographic libraries).
use constrainable.Base.{
  ℕ, String, Bool, true, false, not, ◌&&◌, Option, some, none, if◌then◌else◌, is_empty,
  to_lower_case, holds, trim, ltb, is_some,
}
use constrainable.Schema.{User, Event, is_archived}
use constrainable.Database.Events
use constrainable.Database.Users
use constrainable.Bans.{is_site_wide_banned, is_blocked}
use constrainable.Server.{
  Server, AuditLevel, AuditCategory, authmod_unknown_user, authmod_wrong_password,
}
use constrainable.Server.Audit.{audit}
use constrainable.Server.Snapshot.{non_empty}

-- The account of an email, which is trimmed and lower-cased.
user_of : String → Server → Option User
unfolding Users.find_by_email
user_of email s =
    if is_empty (to_lower_case (trim email))
    then none
    else Users.find_by_email (to_lower_case (trim email)) s.db.users.rows

-- x || d
or_random : Option String → String → String
or_random none random = random
or_random (some x) random = if is_empty x then random else x

pub record SaltAnswer : Type 0 where
  pub salt : String
  pub banned : Bool

pub handle_auth_salt : (random : String) → (email : String) → Server → SaltAnswer
unfolding user_of or_random
handle_auth_salt random email s = record {
  salt = or_random (elim (user_of email s) [ none ↦ none | some u ↦ u.authmod_salt ]) random;
  banned =
      not (is_empty (to_lower_case (trim email)))
      && is_site_wide_banned (to_lower_case (trim email)) s.db.bans.rows;
}

pub record VerifyPayload : Type 0 where
  pub email : String
  pub opaque : String
  pub challenge : String
  pub response : String

pub record VerifyAnswer : Type 0 where
  pub allow : Bool
  pub known : Bool

log_auth : Option String → Server → Server
log_auth email s =
    audit
      (record {
        level = AuditLevel.warn;
        category = AuditCategory.auth;
        message = elim email [ none ↦ authmod_unknown_user | some e ↦ authmod_wrong_password e ];
        actor = email;
        event_id = none;
        stream_name = none;
      })
      s

-- The verifier of the account, if it has one that is not ''.
verifier_of : Option User → Option String
verifier_of none = none
verifier_of (some u) = elim u.authmod_verifier [ none ↦ none | some v ↦ non_empty v ]

unfoldable pub handle_auth_verify :
    (response_ok : String → VerifyPayload → Bool) → VerifyPayload → Server → VerifyAnswer × Server
unfolding user_of log_auth verifier_of
handle_auth_verify response_ok p s = elim (verifier_of (user_of p.email s)) [
  | none ↦ (record { allow = false; known = false }, log_auth none s)
  | some v ↦ if response_ok v p then (record { allow = true; known = true }, s) else (
    record { allow = false; known = true },
    log_auth (some (to_lower_case (trim p.email))) s,
  )
]

pub record Policy : Type 0 where
  pub publish_key : Bool
  pub require_account_auth : Bool
  pub window_open : Bool
  pub banned : Bool

-- now >= startsAt && now <= endsAt, where they are set
abbrev pub in_window : ℕ → Event → Bool
in_window now e = not (holds (λ t. ltb now t) e.starts_at) && not (holds (λ t. ltb t now) e.ends_at)

unfoldable pub handle_auth_policy : ℕ → (token stream : String) → Server → Policy
unfolding Events.find_by_publish_key
handle_auth_policy now token stream s =
    let row = if is_empty token then none else Events.find_by_publish_key token s.db.events.rows in
    record {
      publish_key = is_some row;
      require_account_auth = true;
      window_open = elim row [
        | none ↦ true
        | some e ↦ if is_archived e.status then false else in_window now e
      ];
      banned =
          not (is_empty (trim stream))
          && is_blocked (trim stream) (elim row [ none ↦ none | some e ↦ some e.id ])
              s.db.bans.rows;
    }
