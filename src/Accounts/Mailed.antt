-- ===== src/Accounts/Mailed.antt =====
-- A code that was mailed opens an account.
use constrainable.Base.{
  ℕ, ◌+◌, ◌≤◌, ◌<◌, ◌≡◌, inl, inr, refl, ap, sym, String, Bool, true, false, some, none, List,
  is_empty, ltb, str_length, decimal, trim, Bool-cases, Option-cases, Result, ok, http_error, arith,
  if◌then◌else◌, not,
}
use constrainable.Schema.{Role}
use constrainable.Database.Users
use constrainable.EmailCode.{issue_code, consume_code, code_ttl_ms}
use constrainable.EmailCode.Attempts.{IsMap, consume_code-once}
use constrainable.Registration.{is_email, normalize_email, is_disallowed_email, passes_whitelist}
use constrainable.Accounts.{Site, Crypto, Salts, users_of, log_as}
use constrainable.Accounts.SendCode.{
  Outside, CodeAnswer, accepted, mail_code, send_code, limit_message,
}
use constrainable.Accounts.Register.{
  RegisterRequest, Account, open_account, register_later, register_checked, register, min_password,
}

-- The site with the code of a request, all else as before.
abbrev WithCode : ℕ → Outside → (email session : String) → Site → Site → Type 0
WithCode now outside email session site after =
    (after.codes ≡ issue_code now email session (decimal outside.code) site.codes)
    × (users_of after ≡ users_of site)
    × (after.registration ≡ site.registration)

mail_code-WithCode :
    (now : ℕ) (outside : Outside) (email session : String) (site : Site) {after : Site}
    → mail_code now outside email session site ≡ (ok accepted, after)
    → WithCode now outside email session site after
unfolding mail_code log_as
mail_code-WithCode now outside email session site h = elim (Bool-cases outside.goes_out) [
  | inr lost ↦ cc (rw (lost, mail_code) at h)
  | inl out ↦
      let e = ap (λ (p : Result CodeAnswer × Site). p.1) (rw (out, mail_code) at h) in
      (
        sym (ap (λ (s : Site). s.codes) e),
        sym (ap users_of e),
        sym (ap (λ (s : Site). s.registration) e),
      )
]

-- What a request has passed that is accepted for an email without an account.
abbrev Passed : (is_match : String → List String → Bool) (email session : String) → Site → Type 0
Passed is_match email session site =
    (is_email email ≡ true)
    × (is_empty session ≡ false)
    × (Users.is_empty (users_of site) ≡ false)
    × (is_disallowed_email site.registration email ≡ false)
    × (passes_whitelist is_match site.registration email ≡ true)

send_code-Passed :
    (is_match : String → List String → Bool) (now : ℕ) (outside : Outside) (input session : String)
    (site : Site) {after : Site}
    → Users.find_by_email (normalize_email input) (users_of site) ≡ none
    → send_code is_match now outside input session site ≡ (ok accepted, after)
    → Passed is_match (normalize_email input) session site
      × WithCode now outside (normalize_email input) session site after
unfolding send_code
send_code-Passed is_match now outside input session site {after} free h =
    let email = normalize_email input in
    elim (Bool-cases (is_email email)) [
      | inr bad ↦ cc (rw (bad, send_code) at h)
      | inl form ↦ elim (Bool-cases (is_empty session)) [
        | inl bad ↦ cc (rw (form, bad, send_code) at h)
        | inr named ↦ elim (Bool-cases (Users.is_empty (users_of site))) [
          | inl first ↦ cc (rw (form, named, first, send_code) at h)
          | inr more ↦ elim (Bool-cases (is_disallowed_email site.registration email)) [
            | inl bad ↦ cc (rw (form, named, more, bad, send_code) at h)
            | inr good ↦ elim (Bool-cases (passes_whitelist is_match site.registration email)) [
              | inr bad ↦ cc (rw (form, named, more, good, bad, send_code) at h)
              | inl passes ↦ (
                (form, named, more, good, passes),
                sent (rw (form, named, more, good, passes, free, send_code) at h),
              )
            ]
          ]
        ]
      ]
    ]
  where
    sent :
        (if not outside.mail_configured
            then (http_error 503 "Mail service is not configured, please contact the admin", site)
            else elim outside.limit [
              | some r ↦ (http_error 429 (limit_message r), site)
              | none ↦ mail_code now outside (normalize_email input) session site
            ])
          ≡ (ok accepted, after)
        → WithCode now outside (normalize_email input) session site after
    sent e = elim (Bool-cases outside.mail_configured) [
      | inr off ↦ cc (rw off at e)
      | inl on ↦ elim (Option-cases outside.limit) [
        | inr (r, limited) ↦ cc (rw (on, limited) at e)
        | inl free ↦
            mail_code-WithCode now outside (normalize_email input) session site (rw (on, free) at e)
      ]
    ]

register_later-opens :
    (is_match : String → List String → Bool) (crypto : Crypto) (salts : Salts) (now : ℕ)
    (email password : String) (req : RegisterRequest) (site : Site)
    → passes_whitelist is_match site.registration email ≡ true
    → is_empty req.session ≡ false
    → (consume_code now email req.session req.code site.codes).0 ≡ true
    → (a : Account) × (after : Site) × (register_later is_match crypto salts now email password req
          site
        ≡ (ok a, after))
      × (a.email ≡ email)
      × (a.role ≡ Role.user)
unfolding register_later open_account
register_later-opens is_match crypto salts now email password req site passes named right =
    let codes = (consume_code now email req.session req.code site.codes).1 in
    let r =
      open_account crypto salts now email password Role.user (trim req.invite)
        (record site { codes = codes }) in
    (r.0, r.1, rw (passes, named, right, register_later) refl, refl, refl)

-- A request for a code that is accepted for an email without an account lets that email register:
-- with the code of the mail, the session of the request and a password of six characters or more, a
-- registration before the code expires opens an account of the role `user`. Nothing else has happened
-- between the two; `IsMap` says that the codes have one entry for a key.
pub send_code-register :
    (is_match : String → List String → Bool) (crypto : Crypto) (salts : Salts) (now later : ℕ)
    (outside : Outside) (req : RegisterRequest) (site : Site) {mailed : Site} {password : String}
    → IsMap site.codes
    → Users.find_by_email (normalize_email req.email) (users_of site) ≡ none
    → send_code is_match now outside req.email req.session site ≡ (ok accepted, mailed)
    → later < now + code_ttl_ms
    → req.code ≡ decimal outside.code
    → crypto.rsa_decrypt req.password ≡ some password
    → 6 ≤ str_length password
    → (a : Account) × (after : Site) × (register is_match crypto salts later req mailed
        ≡ (ok a, after))
      × (a.email ≡ normalize_email req.email)
      × (a.role ≡ Role.user)
unfolding register register_checked
send_code-register is_match crypto salts now later outside req site {mailed} {password} v free h
      soon same d long =
    let email = normalize_email req.email in
    let r =
      send_code-Passed is_match now outside req.email req.session site {after = mailed} free h in
    let passed = r.0 in
    let with_code = r.1 in
    let right : (consume_code later email req.session req.code mailed.codes).0 ≡ true =
      rw (with_code.0, same)
        (consume_code-once email req.session now later later (decimal outside.code) "" site.codes v
          soon).0 in
    let opens =
      register_later-opens is_match crypto salts later email password req mailed
        (rw with_code.2 passed.4) passed.1 right in
    let enough : ltb (str_length password) min_password ≡ false = ground arith in
    let good : is_disallowed_email mailed.registration email ≡ false = rw with_code.2 passed.3 in
    let unknown : Users.find_by_email email (users_of mailed) ≡ none = rw with_code.1 free in
    let more : Users.is_empty (users_of mailed) ≡ false = rw with_code.1 passed.2 in
    (
      opens.0,
      opens.1,
      rw (passed.0, register)
          (rw (d, register) (rw (enough, good, unknown, more, register_checked) opens.2)),
      opens.3,
      opens.4,
    )
