-- ===== src/Accounts/Register.antt =====
-- app/server/api/auth/register.post.ts. The cookie of the new session names the account of the
-- answer. `consumeInvite` does not throw, so that its catch is not modelled; the configuration, which
-- has been parsed, parses again without its newest announcement.
use constrainable.Base.{
  ℕ, String, Bool, not, some, none, List, [], ◌∷◌, is_some, is_empty, ltb, trim, str_length, Result,
  ok, http_error, if◌then◌else◌,
}
use constrainable.Schema.{User, Role, timestamp}
use constrainable.Database.Users
use constrainable.Server.{AuditLevel, AuditCategory, registered, announcement_assigned}
use constrainable.EmailCode.{consume_code}
use constrainable.Invites.{consume_invite}
use constrainable.Password.{hash_password, mint_authmod}
use constrainable.Registration.{
  is_email, normalize_email, is_disallowed_email, passes_whitelist, describe_email_rules,
}
use constrainable.Accounts.{
  Site, Crypto, Salts, users_of, on_site, with_users, log_as, allocate_for,
}
use constrainable.Accounts.SendCode.{with_rules}

pub record RegisterRequest : Type 0 where
  pub email : String
  -- a cipher
  pub password : String
  pub code : String
  pub session : String
  pub invite : String

-- Who is signed in.
pub record Account : Type 0 where
  pub id : ℕ
  pub email : String
  pub role : Role

abbrev pub min_password : ℕ
min_password = 6

unfoldable pub new_user : Crypto → Salts → ℕ → (email password : String) → Role → ℕ → User
new_user crypto salts now email password role i =
    let authmod = mint_authmod crypto.md5_base64 crypto.encrypt salts.authmod_salt email password in
    record {
      id = i;
      email = email;
      password_hash = hash_password crypto.argon2id salts.password_salt password;
      role = role;
      node_id = none;
      authmod_salt = some authmod.0;
      authmod_verifier = some authmod.1;
      dashboard_notice = none;
      announcement = none;
      created_at = timestamp now;
    }

-- The one automatic assignment of a node, if one is registered.
unfoldable pub assign_node : ℕ → Site → Site
assign_node user site = elim (allocate_for user site) [
  | none ↦ site
  | some node ↦
      if is_empty node then site else on_site (with_users (Users.update_node user (some node))) site
]

-- The newest announcement of the pool becomes the user's.
unfoldable pub pop_announcement : (email : String) → ℕ → List String → Site → Site
pop_announcement email user [] site = site
pop_announcement email user (a ∷ rest) site =
    on_site
      (λ s.
        log_as AuditLevel.info AuditCategory.auth (announcement_assigned email) (some email)
          (with_users (Users.update_announcement user (some a)) s))
      (record site { announcement_pool = rest })

unfoldable pub join_group : ℕ → (invite : String) → ℕ → Site → Site
join_group now invite user site =
    if is_empty invite then site else on_site (λ s. (consume_invite now invite user s).1) site

-- What is done once the checks have passed.
unfoldable pub open_account :
    Crypto
    → Salts
    → ℕ
    → (email password : String) → Role
    → (invite : String) → Site
    → Account × Site
unfolding new_user assign_node pop_announcement join_group
open_account crypto salts now email password role invite site =
    let i = site.hub.server.db.users.next_id in
    let s1 =
      on_site (with_users (Users.insert (new_user crypto salts now email password role))) site in
    let s2 = assign_node i s1 in
    let s3 = pop_announcement email i s2.announcement_pool s2 in
    let s4 = join_group now invite i s3 in
    (
      record { id = i; email = email; role = role },
      on_site (log_as AuditLevel.info AuditCategory.auth (registered email role) (some email)) s4,
    )

-- All but the first need an email that the whitelist passes, and the code that was mailed to it.
unfoldable pub register_later :
    (is_match : String → List String → Bool)
    → Crypto
    → Salts
    → ℕ
    → (email password : String) → RegisterRequest
    → Site
    → Result Account × Site
register_later is_match crypto salts now email password req site =
    let rules = describe_email_rules site.registration in
    if not (passes_whitelist is_match site.registration email)
    then (http_error 403 (with_rules "This email domain is not allowed to register" rules), site)
    else if is_empty req.session
    then (http_error 400 "Verification code is invalid or expired", site)
    else (let r = consume_code now email req.session req.code site.codes in
        let site' = record site { codes = r.1 } in
        if r.0
        then (let a =
              open_account crypto salts now email password Role.user (trim req.invite) site' in
            (ok a.0, a.1))
        else (http_error 400 "Verification code is invalid or expired", site'))

-- The checks that follow those of the email's form and of the password.
unfoldable pub register_checked :
    (is_match : String → List String → Bool)
    → Crypto
    → Salts
    → ℕ
    → (email password : String) → RegisterRequest
    → Site
    → Result Account × Site
unfolding register_later
register_checked is_match crypto salts now email password req site =
    let rules = describe_email_rules site.registration in
    if ltb (str_length password) min_password
    then (http_error 400 "Password must be at least 6 characters", site)
    else if is_disallowed_email site.registration email
    then (http_error 403 (with_rules "This email address is not allowed to register" rules), site)
    else if is_some (Users.find_by_email email (users_of site))
    then (http_error 409 "This email is already registered", site)
    else if Users.is_empty (users_of site)
    then (let a = open_account crypto salts now email password Role.admin (trim req.invite) site in
        (ok a.0, a.1))
    else register_later is_match crypto salts now email password req site

unfoldable pub register :
    (is_match : String → List String → Bool)
    → Crypto
    → Salts
    → ℕ
    → RegisterRequest
    → Site
    → Result Account × Site
unfolding register_checked
register is_match crypto salts now req site =
    let email = normalize_email req.email in
    if not (is_email email)
    then (http_error 400 "Invalid email format", site)
    else elim (crypto.rsa_decrypt req.password) [
      | none ↦ (http_error 400 "Invalid password payload", site)
      | some password ↦ register_checked is_match crypto salts now email password req site
    ]
