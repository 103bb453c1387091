-- ===== src/Accounts/Login.antt =====
-- app/server/api/auth/login.post.ts.
use constrainable.Base.{
  String, Bool, true, ◌||◌, Option, some, none, is_empty, Result, ok, http_error, if◌then◌else◌,
}
use constrainable.Schema.{User}
use constrainable.Database.Users
use constrainable.Server.{Server, AuditLevel, AuditCategory, logged_in, failed_login}
use constrainable.Password.{hash_password, verify_password, is_legacy_hash, mint_authmod}
use constrainable.Registration.{normalize_email}
use constrainable.Accounts.{Site, Crypto, Salts, users_of, on_site, with_users, log_as}
use constrainable.Accounts.Register.{Account}

-- A hash of the old form is replaced.
unfoldable pub upgrade_hash : Crypto → Salts → User → String → Server → Server
upgrade_hash crypto salts u plain s =
    if is_legacy_hash u.password_hash
    then with_users
        (Users.update_password u.id (hash_password crypto.argon2id salts.password_salt plain)) s
    else s

-- An account with no verifier gets one; the empty text is none.
unfoldable pub mint_missing : Crypto → Salts → User → String → Server → Server
mint_missing crypto salts u plain s =
    let authmod = mint_authmod crypto.md5_base64 crypto.encrypt salts.authmod_salt u.email plain in
    let missing : Bool = elim u.authmod_verifier [ none ↦ true | some v ↦ is_empty v ] in
    if missing then with_users (Users.set_authmod u.id authmod.0 authmod.1) s else s

unfoldable pub verified_user : Crypto → String → Option User → Option User
verified_user crypto plain none = none
verified_user crypto plain (some u) =
    if verify_password crypto.argon2id crypto.bun_verify plain u.password_hash then some u else none

unfoldable pub login : Crypto → Salts → (email cipher : String) → Site → Result Account × Site
unfolding upgrade_hash mint_missing verified_user
login crypto salts input cipher site =
    let email = normalize_email input in
    if is_empty email || is_empty cipher
    then (http_error 400 "Email and password are required", site)
    else elim (crypto.rsa_decrypt cipher) [
      | none ↦ (http_error 401 "Invalid email or password", site)
      | some plain ↦ elim (verified_user crypto plain (Users.find_by_email email (users_of site))) [
        | none ↦ (
          http_error 401 "Invalid email or password",
          on_site (log_as AuditLevel.warn AuditCategory.auth (failed_login email) (some email))
              site,
        )
        | some u ↦ (
          ok (record { id = u.id; email = u.email; role = u.role }),
          on_site
              (λ s.
                log_as AuditLevel.info AuditCategory.auth (logged_in email) (some email)
                  (mint_missing crypto salts u plain (upgrade_hash crypto salts u plain s)))
              site,
        )
      ]
    ]
