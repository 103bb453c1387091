-- ===== src/Accounts/SignIn.antt =====
-- An account that has been opened can be signed in to, and so can one whose password was changed.
use constrainable.Base.{
  ℕ, ◌≡◌, ◌≢◌, inl, inr, refl, ap, sym, ◌∙◌, String, Bool, true, false, some, List, [], is_empty,
  Bool-cases, Result, ok, arith, ◌==◌, str_eq, split_first, trim, ◌↔◌, ltb, str_length,
  update_where, find?-update_where, ==_refl, find?,
}
use mathlib.Core.Path.{subst}
use constrainable.Schema.{User}
use constrainable.Database.Users
use constrainable.Password.{mint_authmod, hash_password, verify_password}
use constrainable.Password.Hex.{IsBytes}
use constrainable.Password.RoundTrip.{verify_password-hash_password}
use constrainable.Registration.{is_email, normalize_email}
use constrainable.Accounts.{Site, Crypto, Salts, users_of, on_site}
use constrainable.Accounts.Register.{
  RegisterRequest, Account, register, new_user, open_account, min_password,
}
use constrainable.Accounts.Login.{login, verified_user}
use constrainable.Accounts.Passwords.{change_password, change_checked, write_password}
use constrainable.Accounts.Gate.{register-IsOpened}
use constrainable.Accounts.Opened.{find_by_email-open_account, IsSame}

is_email-ne_empty : (s : String) → is_email s ≡ true → is_empty s ≡ false
unfolding is_email split_first
is_email-ne_empty String.[] h = cc
is_email-ne_empty (String.◌∷◌ c s) h = refl

-- A login with a password that verifies against the hash of the account of the email.
login-verified :
    (crypto : Crypto) (salts : Salts) (input cipher : String) (site : Site) {plain : String}
    {u : User}
    → is_empty (normalize_email input) ≡ false
    → is_empty cipher ≡ false
    → crypto.rsa_decrypt cipher ≡ some plain
    → Users.find_by_email (normalize_email input) (users_of site) ≡ some u
    → verify_password crypto.argon2id crypto.bun_verify plain u.password_hash ≡ true
    → (login crypto salts input cipher site).0
      ≡ ok (record { id = u.id; email = u.email; role = u.role })
unfolding login
login-verified crypto salts input cipher site {plain} {u} e1 e2 e3 e4 e5 =
    rw (e1, e2, login) (rw (e3, login) (rw (e4, login) (rw (verified, login) refl)))
  where
    verified : verified_user crypto plain (some u) ≡ some u
    verified = rw e5 refl

login-verified_iff :
    (crypto : Crypto) (salts : Salts) (input cipher : String) (site : Site) {plain : String}
    {u : User}
    → is_empty (normalize_email input) ≡ false
    → is_empty cipher ≡ false
    → crypto.rsa_decrypt cipher ≡ some plain
    → Users.find_by_email (normalize_email input) (users_of site) ≡ some u
    → ((login crypto salts input cipher site).0
        ≡ ok (record { id = u.id; email = u.email; role = u.role }))
      ↔ (verify_password crypto.argon2id crypto.bun_verify plain u.password_hash ≡ true)
unfolding login
login-verified_iff crypto salts input cipher site {plain} {u} e1 e2 e3 e4 = (
  λ h. elim (Bool-cases (verify_password crypto.argon2id crypto.bun_verify plain u.password_hash)) [
    | inl t ↦ t
    | inr f ↦
        cc (rw (f, login) at (rw (e4, login) at (rw (e3, login) at (rw (e1, e2, login) at h))))
  ],
  login-verified crypto salts input cipher site {plain = plain} {u = u} e1 e2 e3 e4,
)

account_same :
    {u v : User}
    → IsSame u v
    → ◌≡◌ {A = Account}
        (record { id = v.id; email = v.email; role = v.role })
        (record { id = u.id; email = u.email; role = u.role })
account_same h = ground (arith, h.id, h.email, h.role)

-- After a registration, a login with the same email and password answers with the account that was
-- opened. The salt of the password has a byte, and argon2id gives bytes, as documented; the cipher of
-- the password is not the empty text.
pub register-login :
    (is_match : String → List String → Bool) (crypto : Crypto) (salts later : Salts) (now : ℕ)
    (req : RegisterRequest) (site : Site) {a : Account} {after : Site}
    → salts.password_salt ≢ []
    → IsBytes salts.password_salt
    → ((plain : String) → IsBytes (crypto.argon2id plain salts.password_salt))
    → is_empty req.password ≡ false
    → register is_match crypto salts now req site ≡ (ok a, after)
    → (login crypto later req.email req.password after).0 ≡ ok a
unfolding new_user open_account
register-login is_match crypto salts later now req site {a} {after} ne bytes gives named h =
    let r = register-IsOpened is_match crypto salts now req site {a = a} {after = after} h in
    let email = normalize_email req.email in
    let fresh = record site { codes = r.7.0 } in
    let invite = trim req.invite in
    let found = find_by_email-open_account crypto salts now email r.0 a.role invite fresh r.5 in
    let users = ap (λ (p : Account × Site). Users.find_by_email email (users_of p.1)) r.7.1 in
    let hashed =
      verify_password-hash_password crypto.argon2id crypto.bun_verify salts.password_salt r.0 r.0 ne
        bytes (gives r.0) in
    login-verified crypto later req.email req.password after {plain = r.0} {u = found.0}
      (is_email-ne_empty email r.3) named r.1 (sym users ∙ found.1)
      (rw (found.2.password_hash) (hashed.1 refl))
    ∙ ap ok (account_same found.2 ∙ ap (λ (p : Account × Site). p.0) r.7.1)

change_checked-ok :
    (crypto : Crypto) (salts : Salts) (u : User) (current next : String) (site : Site)
    {after : Site}
    → change_checked crypto salts u current next site ≡ (ok tt, after)
    → on_site (write_password crypto salts u next) site ≡ after
unfolding change_checked
change_checked-ok crypto salts u current next site h =
    elim (Bool-cases (verify_password crypto.argon2id crypto.bun_verify current u.password_hash)) [
      | inr wrong ↦ cc (rw (wrong, change_checked) at h)
      | inl right ↦ elim (Bool-cases (ltb (str_length next) min_password)) [
        | inl short ↦ cc (rw (right, short, change_checked) at h)
        | inr long ↦ elim (Bool-cases (str_eq next current)) [
          | inl same ↦ cc (rw (right, long, same, change_checked) at h)
          | inr other ↦
              ap (λ (p : Result {0} Unit × Site). p.1)
                (rw (right, long, other, change_checked) at h)
        ]
      ]
    ]

find_by_email-write_password :
    (crypto : Crypto) (salts : Salts) (email next : String) (site : Site) {u : User}
    → Users.find_by_email email (users_of site) ≡ some u
    → (v : User) × (Users.find_by_email email
          (users_of (on_site (write_password crypto salts u next) site))
        ≡ some v)
      × (v.id ≡ u.id)
      × (v.email ≡ u.email)
      × (v.role ≡ u.role)
      × (v.password_hash ≡ hash_password crypto.argon2id salts.password_salt next)
unfolding write_password Users.find_by_email Users.set_authmod Users.update_password
find_by_email-write_password crypto salts email next site {u} h =
    let authmod = mint_authmod crypto.md5_base64 crypto.encrypt salts.authmod_salt u.email next in
    let hash = hash_password crypto.argon2id salts.password_salt next in
    let f : User → User = λ x. record x { password_hash = hash } in
    let g : User → User =
      λ x. record x { authmod_salt = some authmod.0; authmod_verifier = some authmod.1 } in
    let mine : User → Bool = λ x. x.id == u.id in
    let named : User → Bool = λ x. str_eq x.email email in
    let first : find? named (update_where mine f (users_of site)) ≡ some (f u) =
      find?-update_where mine f named (users_of site) {x = u} (λ x. refl) h ∙ rw ==_refl refl in
    (
      g (f u),
      find?-update_where mine g named (update_where mine f (users_of site)) {x = f u} (λ x. refl)
            first
          ∙ rw ==_refl refl,
      refl,
      refl,
      refl,
      refl,
    )

-- A changed password signs in to the account, and of the others just those for which argon2id gives
-- the same bytes under the new salt. The account is the one of the id of the session and of the email
-- of the login; the new salt has a byte, and argon2id gives bytes, as documented; the ciphers are not
-- the empty text.
pub change_password-login :
    (crypto : Crypto) (salts later : Salts) (i : ℕ)
    (input current_cipher next_cipher cipher : String) (site : Site) {after : Site} {u : User}
    {current next plain : String}
    → salts.password_salt ≢ []
    → IsBytes salts.password_salt
    → ((text : String) → IsBytes (crypto.argon2id text salts.password_salt))
    → is_empty (normalize_email input) ≡ false
    → is_empty cipher ≡ false
    → Users.find_by_id i (users_of site) ≡ some u
    → Users.find_by_email (normalize_email input) (users_of site) ≡ some u
    → crypto.rsa_decrypt current_cipher ≡ some current
    → crypto.rsa_decrypt next_cipher ≡ some next
    → crypto.rsa_decrypt cipher ≡ some plain
    → change_password crypto salts (some i) current_cipher next_cipher site ≡ (ok tt, after)
    → ((login crypto later input cipher after).0
        ≡ ok (record { id = u.id; email = u.email; role = u.role }))
      ↔ (crypto.argon2id plain salts.password_salt ≡ crypto.argon2id next salts.password_salt)
unfolding change_password
change_password-login crypto salts later i input current_cipher next_cipher cipher site {after} {u}
      {current} {next} {plain} ne bytes gives e1 e2 by_id by_email d1 d2 d3 h =
    let e : on_site (write_password crypto salts u next) site ≡ after =
      change_checked-ok crypto salts u current next site (
        rw (d2, change_password) at
          (rw (d1, change_password) at (rw (by_id, change_password) at h))) in
    let v = find_by_email-write_password crypto salts (normalize_email input) next site by_email in
    let found =
      subst (λ (s : Site). Users.find_by_email (normalize_email input) (users_of s) ≡ some v.0) e
        v.1 in
    let account : ◌≡◌ {A = Account} (record { id = v.0.id; email = v.0.email; role = v.0.role })
        (record { id = u.id; email = u.email; role = u.role }) =
      ground (arith, v.2, v.3, v.4) in
    let signed =
      login-verified_iff crypto later input cipher after {plain = plain} {u = v.0} e1 e2 d3 found in
    let hashed =
      verify_password-hash_password crypto.argon2id crypto.bun_verify salts.password_salt next plain
        ne bytes (gives next) in
    (
      λ t. hashed.0 (rw v.5 at (signed.0 (t ∙ ap ok (sym account)))),
      λ t. signed.1 (rw v.5 (hashed.1 t)) ∙ ap ok account,
    )
