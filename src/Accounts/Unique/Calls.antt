-- ===== src/Accounts/Unique/Calls.antt =====
-- Sequences of the calls of accounts.
use constrainable.Base.{
  ◌==◌, arith, ℕ, String, ◌≡◌, refl, Option, some, none, List, [], ◌∷◌, inl, inr, Option-cases,
  Along-mono, trim, find?-none, eq_iff, Bool, str_eq,
}
use constrainable.Schema.{Role}
use constrainable.Database.Users
use constrainable.Invites.{Auth}
use constrainable.EmailCode.{consume_code}
use constrainable.Registration.{normalize_email}
use constrainable.MediaNode.{emit_nodes_changed}
use constrainable.Accounts.{Site, Crypto, Salts, users_of, log_as}
use constrainable.Accounts.Register.{
  RegisterRequest, register, register_checked, register_later, open_account, new_user,
}
use constrainable.Accounts.Login.{login}
use constrainable.Accounts.Passwords.{change_password}
use constrainable.Accounts.Admin.{
  UserPatch, patch_user, delete_user, remove_account, drop_user, announce_nodes,
}
use constrainable.Accounts.Nodes.{select_node, record_visit}
use constrainable.Accounts.Opened.{IsSame, open_account-KeepsUsers}
use constrainable.Accounts.Unique.{
  IsUnique, SameKeys, KeepsKeys-IsUnique, inserted-IsUnique, deleted-IsUnique,
}
use constrainable.Accounts.Unique.Kept.{
  Keeps, login-KeepsKeys, change_password-KeepsKeys, select_node-KeepsKeys, record_visit-KeepsKeys,
  patch_user-KeepsKeys,
}

-- The table of accounts of a site.
abbrev pub HasUnique : Site → Type 0
HasUnique site = IsUnique site.hub.server.db.users

by_keys : (a b : Site) → Keeps a b → HasUnique a → HasUnique b
by_keys a b k h = KeepsKeys-IsUnique a.hub.server.db.users b.hub.server.db.users k h

module _ (is_match : String → List String → Bool) (crypto : Crypto) where
  module _ (salts : Salts) (now : ℕ) (email password : String) where
    open_account-IsUnique :
        (role : Role) (invite : String) (site : Site)
        → Users.find_by_email email (users_of site) ≡ none
        → HasUnique site
        → HasUnique (open_account crypto salts now email password role invite site).1
    unfolding Users.insert new_user Users.find_by_email
    open_account-IsUnique role invite site free h =
        let after =
          (open_account crypto salts now email password role invite site).1.hub.server.db.users in
        let k = open_account-KeepsUsers crypto salts now email password role invite site in
        KeepsKeys-IsUnique
          (Users.insert (new_user crypto salts now email password role) site.hub.server.db.users)
          after
          (record {
            rows = Along-mono IsSame SameKeys (λ u v s. (s.id, s.email)) _ after.rows k.0;
            next_id = k.1;
          })
          (inserted-IsUnique (new_user crypto salts now email password role)
            site.hub.server.db.users refl
            (λ u m e. ground (
              arith,
              find?-none (λ u. str_eq u.email email) (users_of site) {x = u} free m,
              eq_iff u.email email,
            ))
            h)

    register_later-IsUnique :
        (req : RegisterRequest) (site : Site)
        → Users.find_by_email email (users_of site) ≡ none
        → HasUnique site
        → HasUnique (register_later is_match crypto salts now email password req site).1
    unfolding register_later
    register_later-IsUnique req site free h = ground (
      arith,
      open_account-IsUnique Role.user (trim req.invite)
          (record site { codes = (consume_code now email req.session req.code site.codes).1 }),
    )

    register_checked-IsUnique :
        (req : RegisterRequest) (site : Site)
        → HasUnique site
        → HasUnique (register_checked is_match crypto salts now email password req site).1
    unfolding register_checked
    register_checked-IsUnique req site h =
        elim (Option-cases (Users.find_by_email email (users_of site))) [
          | inr (u, e) ↦ ground arith
          | inl e ↦ ground (
            arith,
            open_account-IsUnique Role.admin (trim req.invite) site,
            register_later-IsUnique req site,
          )
        ]

  register-IsUnique :
      (salts : Salts) (now : ℕ) (req : RegisterRequest) (site : Site)
      → HasUnique site
      → HasUnique (register is_match crypto salts now req site).1
  unfolding register
  register-IsUnique salts now req site h = elim (Option-cases (crypto.rsa_decrypt req.password)) [
    | inl e ↦ ground arith
    | inr (plain, e) ↦
        ground
          (arith, register_checked-IsUnique salts now (normalize_email req.email) plain req site)
  ]

delete_user-IsUnique :
    (caller : Option Auth) (id : Option ℕ) (site : Site)
    → HasUnique site
    → HasUnique (delete_user caller id site).1
unfolding delete_user remove_account drop_user announce_nodes emit_nodes_changed log_as Users.remove
delete_user-IsUnique none id site h = h
delete_user-IsUnique (some caller) none site h = ground arith
delete_user-IsUnique (some caller) (some i) site h =
    elim (Option-cases (Users.find_by_id i (users_of site))) [
      | inl e ↦ ground arith
      | inr (u, e) ↦ ground (arith, deleted-IsUnique (λ x. x.id == u.id) site.hub.server.db.users)
    ]

-- A call of the accounts' handlers, with what it draws at random and the time it is made at.
pub data AccountCall : Type 0 where
  registering : (salts : Salts) (now : ℕ) (req : RegisterRequest) → AccountCall
  signing_in : (salts : Salts) (email cipher : String) → AccountCall
  changing_password :
      (salts : Salts) (user : Option ℕ) (current_cipher next_cipher : String) → AccountCall
  patching : (caller : Option Auth) (id : Option ℕ) (body : UserPatch) → AccountCall
  deleting : (caller : Option Auth) (id : Option ℕ) → AccountCall
  selecting_node : (caller : Option Auth) (node : String) → AccountCall
  visiting : (user : ℕ) (latencies : List (String × ℕ)) → AccountCall

module _ (is_match : String → List String → Bool) (crypto : Crypto) where
  abbrev pub run_account_call : AccountCall → Site → Site
  run_account_call (registering salts now req) site =
      (register is_match crypto salts now req site).1
  run_account_call (signing_in salts email cipher) site = (login crypto salts email cipher site).1
  run_account_call (changing_password salts user current next) site =
      (change_password crypto salts user current next site).1
  run_account_call (patching caller id body) site = (patch_user caller id body site).1
  run_account_call (deleting caller id) site = (delete_user caller id site).1
  run_account_call (selecting_node caller node) site = (select_node caller node site).1
  run_account_call (visiting user latencies) site = (record_visit user latencies site).1

  abbrev pub run_account_calls : List AccountCall → Site → Site
  run_account_calls [] site = site
  run_account_calls (c ∷ cs) site = run_account_calls cs (run_account_call c site)

  run_account_call-IsUnique :
      (c : AccountCall) (site : Site) → HasUnique site → HasUnique (run_account_call c site)
  run_account_call-IsUnique (registering salts now req) site h =
      register-IsUnique is_match crypto salts now req site h
  run_account_call-IsUnique (signing_in salts email cipher) site h =
      by_keys site (login crypto salts email cipher site).1
        (login-KeepsKeys crypto salts site email cipher) h
  run_account_call-IsUnique (changing_password salts user current next) site h =
      by_keys site (change_password crypto salts user current next site).1
        (change_password-KeepsKeys crypto salts site user current next) h
  run_account_call-IsUnique (patching caller id body) site h =
      by_keys site (patch_user caller id body site).1 (patch_user-KeepsKeys caller id body site) h
  run_account_call-IsUnique (deleting caller id) site h = delete_user-IsUnique caller id site h
  run_account_call-IsUnique (selecting_node caller node) site h =
      by_keys site (select_node caller node site).1 (select_node-KeepsKeys caller node site) h
  run_account_call-IsUnique (visiting user latencies) site h =
      by_keys site (record_visit user latencies site).1 (record_visit-KeepsKeys user latencies site)
        h

  -- Whatever calls the handlers of the accounts have answered, refused ones included, and in whatever
  -- order: if no two accounts shared an id or an email before, and ids were below the sequence, then
  -- so it is after.
  pub run_account_calls-IsUnique :
      (cs : List AccountCall) (site : Site) → HasUnique site → HasUnique (run_account_calls cs site)
  run_account_calls-IsUnique [] site h = h
  run_account_calls-IsUnique (c ∷ cs) site h =
      run_account_calls-IsUnique cs (run_account_call c site) (run_account_call-IsUnique c site h)
