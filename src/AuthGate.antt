-- ===== src/AuthGate.antt =====
-- app/server/middleware/01-auth.ts and app/server/utils/auth.ts: who a request comes from, and whether
-- it may go on. `jwt_verify` is that of jose with the server's secret: none for a token that is
-- malformed, expired or signed otherwise. A user id is a positive integer.
pub mod Admission
mod Tests
use constrainable.Base.{
  ℕ, String, Bool, ◌&&◌, ◌||◌, Option, some, none, List, [], ◌∷◌, any, is_some, is_empty, str_eq,
  starts_with, split_first, Result, ok, http_error, if◌then◌else◌,
}
use constrainable.Schema.{User, Role, is_admin}
use constrainable.Database.Users
use constrainable.Invites.{Auth}

-- The payload of a token, with none for a claim that is not of its type.
pub record Claims : Type 0 where
  pub uid : Option ℕ
  pub role : Option Role
  pub exp : Option ℕ

-- readSessionCookie of app/server/utils/session.ts, of which only the id is used
pub read_session_cookie : (jwt_verify : String → Option Claims) → String → Option ℕ
read_session_cookie jwt_verify value = if is_empty value then none else elim (jwt_verify value) [
  | none ↦ none
  | some c ↦ if is_some c.role && is_some c.exp then c.uid else none
]

-- The account of the cookie, with the role that it has in the table now.
pub authenticate :
    (jwt_verify : String → Option Claims) → (cookie : Option String) → List User → Option Auth
unfolding read_session_cookie
authenticate jwt_verify none us = none
authenticate jwt_verify (some cookie) us = elim (read_session_cookie jwt_verify cookie) [
  | none ↦ none
  | some uid ↦ elim (Users.find_by_id uid us) [
    | none ↦ none
    | some u ↦ some (record { user_id = u.id; role = u.role })
  ]
]

abbrev pub allow_exact : List String
allow_exact = "/" ∷ "/login" ∷ "/invite" ∷ "/favicon.ico" ∷ []

abbrev pub allow_prefix : List String
allow_prefix =
    "/api/srs/" ∷ "/api/auth/" ∷ "/api/events/public" ∷ "/e/" ∷ "/api/events/slug/" ∷ "/api/health"
    ∷ "/api/client-errors" ∷ "/favicon.svg" ∷ "/_nuxt/" ∷ "/__nuxt" ∷ []

-- event.path.split('?')[0]
path_of : String → String
path_of url = elim (split_first b'?' url) [ none ↦ url | some (path, query) ↦ path ]

is_public : String → Bool
is_public path = any (λ p. str_eq p path) allow_exact || any (λ p. starts_with p path) allow_prefix

pub data Verdict : Type 0 where
  passed unauthorized : Verdict
  -- to the page for the login, with the path to come back to
  to_login : String → Verdict

pub gate :
    (jwt_verify : String → Option Claims)
    → (cookie : Option String) → (url : String) → List User
    → Option Auth × Verdict
unfolding authenticate path_of is_public
gate jwt_verify cookie url us =
    let auth = authenticate jwt_verify cookie us in
    let path = path_of url in
    (
      auth,
      if is_public path
          then passed
          else if is_some auth
          then passed
          else if starts_with "/api/" path
          then unauthorized
          else to_login path,
    )

unfoldable pub require_user : Option Auth → Result Auth
require_user none = http_error 403 "login required"
require_user (some a) = ok a

pub require_admin : Option Auth → Result Auth
require_admin none = http_error 403 "admin privileges required"
require_admin (some a) =
    if is_admin a.role then ok a else http_error 403 "admin privileges required"
