-- ===== src/Accounts/Gate.antt =====
-- Who can open an account.
use constrainable.Base.{
  ℕ, ◌≤◌, ◌≡◌, ◌⊎◌, inl, inr, String, Bool, true, false, some, none, List, is_empty, trim, ltb,
  str_length, Bool-cases, Option-cases, Result, ok, arith, sym, ap, ◌∙◌,
}
use constrainable.Schema.{Role}
use constrainable.Database.Users
use constrainable.EmailCode.{Codes, consume_code}
use constrainable.Registration.{is_email, normalize_email, is_disallowed_email, passes_whitelist}
use constrainable.Accounts.{Site, Crypto, Salts, users_of}
use constrainable.Accounts.Register.{
  RegisterRequest, Account, open_account, register_later, register_checked, register, min_password,
}

-- What a registration that is not the first has shown.
abbrev pub IsInvited :
    (is_match : String → List String → Bool) (now : ℕ) (req : RegisterRequest) (site : Site)
    → Type 0
IsInvited is_match now req site =
    (passes_whitelist is_match site.registration (normalize_email req.email) ≡ true)
    × (is_empty req.session ≡ false)
    × ((consume_code now (normalize_email req.email) req.session req.code site.codes).0 ≡ true)

-- The role of a new account: the first is the administrator's.
abbrev pub IsRole :
    (is_match : String → List String → Bool) (now : ℕ) (req : RegisterRequest) (site : Site)
    (role : Role)
    → Type 0
IsRole is_match now req site role =
    ((Users.is_empty (users_of site) ≡ true) × (role ≡ Role.admin))
    ⊎ ((Users.is_empty (users_of site) ≡ false)
        × (role ≡ Role.user)
        × IsInvited is_match now req site)

ok_injective : {a b : Account} → ok a ≡ ok b → a ≡ b
ok_injective h = cc

opened :
    (r : Account × Site) {a : Account} {after : Site}
    → ◌≡◌ {A = Result Account × Site} (ok r.0, r.1) (ok a, after)
    → r ≡ (a, after)
opened r h = cc (
  ok_injective (ap (λ (p : Result Account × Site). p.0) h),
  ap (λ (p : Result Account × Site). p.1) h,
)

module _ (is_match : String → List String → Bool) (crypto : Crypto) (salts : Salts) (now : ℕ)
    (req : RegisterRequest) (site : Site) where
  abbrev email : String
  email = normalize_email req.email

  -- The account has been opened, with the codes as they are after the call.
  abbrev pub IsOpened : (password : String) → Account → Site → Type 0
  IsOpened password a after =
      (codes : Codes) × (open_account crypto salts now email password a.role (trim req.invite)
          (record site { codes = codes })
        ≡ (a, after))

  account_role :
      (password : String) (role : Role) (s : Site) {a : Account} {after : Site}
      → open_account crypto salts now email password role (trim req.invite) s ≡ (a, after)
      → a.role ≡ role
  unfolding open_account
  account_role password role s e = sym (ap (λ (r : Account × Site). r.0.role) e)

  by_role :
      (password : String) (s : Site) {r t : Role}
      → r ≡ t
      → open_account crypto salts now email password r (trim req.invite) s
        ≡ open_account crypto salts now email password t (trim req.invite) s
  by_role password s e =
      ap (λ (x : Role). open_account crypto salts now email password x (trim req.invite) s) e

  register_later-IsOpened :
      (password : String) {a : Account} {after : Site}
      → register_later is_match crypto salts now email password req site ≡ (ok a, after)
      → IsInvited is_match now req site × (a.role ≡ Role.user) × IsOpened password a after
  unfolding register_later
  register_later-IsOpened password {a} {after} h =
      elim (Bool-cases (passes_whitelist is_match site.registration email)) [
        | inr miss ↦ cc (rw (miss, register_later) at h)
        | inl passes ↦ elim (Bool-cases (is_empty req.session)) [
          | inl unnamed ↦ cc (rw (passes, unnamed, register_later) at h)
          | inr named ↦
              elim (Bool-cases (consume_code now email req.session req.code site.codes).0) [
                | inr miss ↦ cc (rw (passes, named, miss, register_later) at h)
                | inl right ↦
                    let codes = (consume_code now email req.session req.code site.codes).1 in
                    let e =
                      opened
                        (open_account crypto salts now email password Role.user (trim req.invite)
                          (record site { codes = codes }))
                        (rw (passes, named, right, register_later) at h) in
                    let role = account_role password Role.user (record site { codes = codes }) e in
                    (
                      (passes, named, right),
                      role,
                      (codes, by_role password (record site { codes = codes }) role ∙ e),
                    )
              ]
        ]
      ]

  register_checked-IsOpened :
      (password : String) {a : Account} {after : Site}
      → register_checked is_match crypto salts now email password req site ≡ (ok a, after)
      → (6 ≤ str_length password)
        × (is_disallowed_email site.registration email ≡ false)
        × (Users.find_by_email email (users_of site) ≡ none)
        × IsRole is_match now req site a.role
        × IsOpened password a after
  unfolding register_checked
  register_checked-IsOpened password {a} {after} h =
      elim (Bool-cases (ltb (str_length password) min_password)) [
        | inl short ↦ cc (rw (short, register_checked) at h)
        | inr long ↦ elim (Bool-cases (is_disallowed_email site.registration email)) [
          | inl bad ↦ cc (rw (long, bad, register_checked) at h)
          | inr good ↦ elim (Option-cases (Users.find_by_email email (users_of site))) [
            | inr (u, taken) ↦ cc (rw (long, good, taken, register_checked) at h)
            | inl free ↦
                let len : 6 ≤ str_length password = ground (arith, long) in
                elim (Bool-cases (Users.is_empty (users_of site))) [
                  | inl first ↦
                      let e =
                        opened
                          (open_account crypto salts now email password Role.admin (trim req.invite)
                            site)
                          (rw (long, good, free, first, register_checked) at h) in
                      let role = account_role password Role.admin site e in
                      (
                        len,
                        good,
                        free,
                        inl (first, role),
                        (site.codes, by_role password site role ∙ e),
                      )
                  | inr more ↦
                      let r =
                        register_later-IsOpened password {a = a} {after = after}
                          (rw (long, good, free, more, register_checked) at h) in
                      (len, good, free, inr (more, r.1, r.0), r.2)
                ]
          ]
        ]
      ]

  -- An account is opened only for an email of the form of one, that is not disallowed and that no
  -- account has, with a password of six characters or more. The first account is the
  -- administrator's; every other has the role `user`, and is opened only if the whitelist passes the
  -- email and the request has the code that was issued for it and its session.
  pub register-IsOpened :
      {a : Account} {after : Site}
      → register is_match crypto salts now req site ≡ (ok a, after)
      → (password : String) × (crypto.rsa_decrypt req.password ≡ some password)
        × (6 ≤ str_length password)
        × (is_email email ≡ true)
        × (is_disallowed_email site.registration email ≡ false)
        × (Users.find_by_email email (users_of site) ≡ none)
        × IsRole is_match now req site a.role
        × IsOpened password a after
  unfolding register
  register-IsOpened {a} {after} h = elim (Bool-cases (is_email email)) [
    | inr miss ↦ cc (rw (miss, register) at h)
    | inl form ↦ elim (Option-cases (crypto.rsa_decrypt req.password)) [
      | inl garbled ↦ cc (rw (form, garbled, register) at h)
      | inr (password, e) ↦
          let r =
            register_checked-IsOpened password {a = a} {after = after}
              (rw (form, e, register) at h) in
          (password, e, r.0, form, r.1, r.2, r.3, r.4)
    ]
  ]
