-- ===== src/Accounts/Passwords.antt =====
-- app/server/api/me/password.post.ts: a user changes its own password. `user` is the id of the
-- session, none without one.
use constrainable.Base.{
  ℕ, String, not, Option, some, none, ltb, str_length, str_eq, Result, ok, http_error,
  if◌then◌else◌,
}
use constrainable.Schema.{User}
use constrainable.Database.Users
use constrainable.Server.{Server}
use constrainable.Password.{hash_password, verify_password, mint_authmod}
use constrainable.Accounts.{Site, Crypto, Salts, users_of, on_site, with_users}
use constrainable.Accounts.Register.{min_password}

unfoldable pub write_password : Crypto → Salts → User → String → Server → Server
write_password crypto salts u next s =
    let authmod = mint_authmod crypto.md5_base64 crypto.encrypt salts.authmod_salt u.email next in
    with_users (Users.set_authmod u.id authmod.0 authmod.1) (
      with_users
        (Users.update_password u.id (hash_password crypto.argon2id salts.password_salt next)) s)

unfoldable pub change_checked :
    Crypto → Salts → User → (current next : String) → Site → Result {0} Unit × Site
unfolding write_password
change_checked crypto salts u current next site =
    if not (verify_password crypto.argon2id crypto.bun_verify current u.password_hash)
    then (http_error 403 "current password is incorrect", site)
    else if ltb (str_length next) min_password
    then (http_error 400 "new password must be at least 6 characters", site)
    else if str_eq next current
    then (http_error 400 "new password must differ from the current one", site)
    else (ok tt, on_site (write_password crypto salts u next) site)

unfoldable pub change_password :
    Crypto
    → Salts
    → (user : Option ℕ) → (current_cipher next_cipher : String) → Site
    → Result {0} Unit × Site
unfolding change_checked
change_password crypto salts none current_cipher next_cipher site =
    (http_error 401 "authentication required", site)
change_password crypto salts (some i) current_cipher next_cipher site =
    elim (Users.find_by_id i (users_of site)) [
      | none ↦ (http_error 404 "account not found", site)
      | some u ↦ elim (crypto.rsa_decrypt current_cipher) [
        | none ↦ (http_error 400 "invalid password payload", site)
        | some current ↦ elim (crypto.rsa_decrypt next_cipher) [
          | none ↦ (http_error 400 "invalid password payload", site)
          | some next ↦ change_checked crypto salts u current next site
        ]
      ]
    ]
