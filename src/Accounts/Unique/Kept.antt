-- ===== src/Accounts/Unique/Kept.antt =====
-- The calls that change accounts but neither open nor delete one.
use constrainable.Base.{
  arith, ℕ, refl, Option, some, none, List, Result, Option-cases, inl, inr, trim, str_take, ok,
  Bool-cases, http_error, String,
}
use constrainable.Schema.{User}
use constrainable.Database.Users
use constrainable.Accounts.{
  Site, on_site, Crypto, Salts, users_of, log_as, with_users, allocate_for,
}
use constrainable.Accounts.Passwords.{write_password, change_checked, change_password}
use constrainable.Password.{hash_password, mint_authmod}
use constrainable.Registration.{normalize_email}
use constrainable.Accounts.Login.{login, verified_user, upgrade_hash, mint_missing}
use constrainable.Server.{Server}
use constrainable.Invites.{Auth}
use constrainable.Accounts.Nodes.{select_node, record_visit, backfill, record_latencies}
use constrainable.Accounts.Admin.{
  announce_nodes, Field, absent, other_value, null_value, text, patch_announcement,
  write_announcement, patch_role, patch_groups, patch_node, patch_user, role_of, UserPatch,
  and_then, require_admin,
}
use constrainable.MediaNode.{emit_nodes_changed}
use constrainable.Membership.Roles.{users-set_user_role, users-set_user_groups}
use constrainable.Accounts.Unique.{KeepsKeys, KeepsKeys-refl, KeepsKeys-trans, update}
use constrainable.Registry.{list_nodes}

abbrev pub Keeps : Site → Site → Type 0
Keeps a b = KeepsKeys a.hub.server.db.users b.hub.server.db.users

same : (site : Site) → Keeps site site
same site = KeepsKeys-refl site.hub.server.db.users

module _ (crypto : Crypto) (salts : Salts) (site : Site) where
  write_password-KeepsKeys :
      (u : User) (next : String) → Keeps site (on_site (write_password crypto salts u next) site)
  unfolding write_password Users.set_authmod Users.update_password
  write_password-KeepsKeys u next =
      KeepsKeys-trans site.hub.server.db.users _ _
        (update u.id
          (λ x. record x { password_hash = hash_password crypto.argon2id salts.password_salt next })
          site.hub.server.db.users (λ x. (refl, refl)))
        (update u.id _ _ (λ x. (refl, refl)))

  change_checked-KeepsKeys :
      (u : User) (current next : String)
      → Keeps site (change_checked crypto salts u current next site).1
  unfolding change_checked
  change_checked-KeepsKeys u current next =
      ground (arith, same site, write_password-KeepsKeys u next)

  upgrade_hash-KeepsKeys :
      (u : User) (plain : String) (s : Server)
      → KeepsKeys s.db.users (upgrade_hash crypto salts u plain s).db.users
  unfolding upgrade_hash Users.update_password
  upgrade_hash-KeepsKeys u plain s = ground (
    arith,
    KeepsKeys-refl s.db.users,
    update u.id
        (λ x. record x { password_hash = hash_password crypto.argon2id salts.password_salt plain })
        s.db.users (λ x. (refl, refl)),
  )

  mint_missing-KeepsKeys :
      (u : User) (plain : String) (s : Server)
      → KeepsKeys s.db.users (mint_missing crypto salts u plain s).db.users
  unfolding mint_missing Users.set_authmod
  mint_missing-KeepsKeys u plain s =
      let authmod =
        mint_authmod crypto.md5_base64 crypto.encrypt salts.authmod_salt u.email plain in
      ground (
        arith,
        KeepsKeys-refl s.db.users,
        update u.id
            (λ x. record x { authmod_salt = some authmod.0; authmod_verifier = some authmod.1 })
            s.db.users (λ x. (refl, refl)),
      )

  pub login-KeepsKeys :
      (input cipher : String) → Keeps site (login crypto salts input cipher site).1
  unfolding login log_as
  login-KeepsKeys input cipher = elim (Option-cases (crypto.rsa_decrypt cipher)) [
    | inl e ↦ ground (arith, same site)
    | inr (plain, e) ↦
        elim (Option-cases (
          verified_user crypto plain
            (Users.find_by_email (normalize_email input) (users_of site)))) [
              | inl e2 ↦ ground (arith, same site)
              | inr (u, e2) ↦ ground (
                arith,
                same site,
                KeepsKeys-trans _ _ _ (upgrade_hash-KeepsKeys u plain site.hub.server) (
                    mint_missing-KeepsKeys u plain
                      (upgrade_hash crypto salts u plain site.hub.server)),
              )
            ]
  ]

  pub change_password-KeepsKeys :
      (user : Option ℕ) (current next : String)
      → Keeps site (change_password crypto salts user current next site).1
  unfolding change_password
  change_password-KeepsKeys none current next = same site
  change_password-KeepsKeys (some i) current next =
      elim (Option-cases (Users.find_by_id i (users_of site))) [
        | inl e ↦ rw (e, change_password) (same site)
        | inr (u, e) ↦ elim (Option-cases (crypto.rsa_decrypt current)) [
          | inl e1 ↦ rw (e, e1, change_password) (same site)
          | inr (c, e1) ↦ elim (Option-cases (crypto.rsa_decrypt next)) [
            | inl e2 ↦ rw (e, e1, e2, change_password) (same site)
            | inr (n, e2) ↦ rw (e, e1, e2, change_password) (change_checked-KeepsKeys u c n)
          ]
        ]
      ]

update_node-KeepsKeys :
    (i : ℕ) (node : Option String) (site : Site)
    → Keeps site (on_site (with_users (Users.update_node i node)) site)
unfolding Users.update_node
update_node-KeepsKeys i node site =
    update i (λ x. record x { node_id = node }) site.hub.server.db.users (λ x. (refl, refl))

pub select_node-KeepsKeys :
    (auth : Option Auth) (input : String) (site : Site) → Keeps site (select_node auth input site).1
unfolding select_node
select_node-KeepsKeys none input site = same site
select_node-KeepsKeys (some a) input site =
    elim (Option-cases (Users.find_by_id a.user_id (users_of site))) [
      | inl e ↦ ground (arith, same site)
      | inr (u, e) ↦
          ground (arith, same site, update_node-KeepsKeys a.user_id (some (trim input)) site)
    ]

pub record_visit-KeepsKeys :
    (user : ℕ) (latencies : List (String × ℕ)) (site : Site)
    → Keeps site (record_visit user latencies site).1
unfolding record_visit backfill
record_visit-KeepsKeys user latencies site =
    elim (Option-cases (Users.find_by_id user (users_of site))) [
      | inl e ↦ rw (e, record_visit) (same site)
      | inr (u, e) ↦
          let ls = record_latencies (list_nodes site.hub.registry) user latencies site.latencies in
          elim (Option-cases (allocate_for u.id (record site { latencies = ls }))) [
            | inl e2 ↦ rw (e, record_visit) (ground (arith, same site))
            | inr (node, e2) ↦
                ground (arith, same site, update_node-KeepsKeys u.id (some node) site)
          ]
    ]

write_announcement-KeepsKeys :
    (caller : Option Auth) (i : ℕ) (value : Option String) (site : Site)
    → Keeps site (write_announcement caller i value site).1
unfolding write_announcement log_as Users.update_announcement
write_announcement-KeepsKeys caller i value site =
    elim (Option-cases (Users.find_by_id i (users_of site))) [
      | inl e ↦ rw (e, write_announcement) (same site)
      | inr (u, e) ↦
          rw (e, write_announcement)
            (update i (λ x. record x { announcement = value }) site.hub.server.db.users
              (λ x. (refl, refl)))
    ]

patch_announcement-KeepsKeys :
    (caller : Option Auth) (i : ℕ) (f : Field) (site : Site)
    → Keeps site (patch_announcement caller i f site).1
unfolding patch_announcement
patch_announcement-KeepsKeys caller i absent site = same site
patch_announcement-KeepsKeys caller i other_value site = same site
patch_announcement-KeepsKeys caller i null_value site =
    write_announcement-KeepsKeys caller i none site
patch_announcement-KeepsKeys caller i (text t) site =
    write_announcement-KeepsKeys caller i (some (str_take 4000 t)) site

patch_role-KeepsKeys :
    (i : ℕ) (role : Option String) (site : Site) → Keeps site (patch_role i role site).1
unfolding patch_role
patch_role-KeepsKeys i none site = same site
patch_role-KeepsKeys i (some r) site = elim (Option-cases (role_of r)) [
  | inl e ↦ rw (e, patch_role) (same site)
  | inr (role, e) ↦
      rw (e, patch_role)
        (elim (users-set_user_role i role site.hub.server) [
          | inl q ↦ rw q (same site)
          | inr q ↦ rw q (
              update i (λ x. record x { role = role }) site.hub.server.db.users (λ x. (refl, refl)))
        ])
]

patch_groups-KeepsKeys :
    (i : ℕ) (ids : Option (List ℕ)) (site : Site) → Keeps site (patch_groups i ids site).1
unfolding patch_groups
patch_groups-KeepsKeys i none site = same site
patch_groups-KeepsKeys i (some ids) site =
    rw (users-set_user_groups i ids site.hub.server) (same site)

patch_node-KeepsKeys :
    (i : ℕ) (node : Option (Option String)) (site : Site) → Keeps site (patch_node i node site).1
unfolding patch_node announce_nodes emit_nodes_changed log_as Users.update_node
patch_node-KeepsKeys i none site = same site
patch_node-KeepsKeys i (some node) site = elim (Option-cases (Users.find_by_id i (users_of site))) [
  | inl e ↦ ground (arith, same site)
  | inr (u, e) ↦ ground (arith, same site, update_node-KeepsKeys i node site)
]

and_then-KeepsKeys :
    (a : Site) (r : Result {0} Unit × Site) (f : Site → Result {0} Unit × Site)
    → Keeps a r.1
    → ((b : Site) → Keeps b (f b).1)
    → Keeps a (and_then r f).1
and_then-KeepsKeys a (ok x, b) f h step =
    KeepsKeys-trans a.hub.server.db.users b.hub.server.db.users (f b).1.hub.server.db.users h
      (step b)
and_then-KeepsKeys a (http_error code message, b) f h step = h

pub patch_user-KeepsKeys :
    (caller : Option Auth) (id : Option ℕ) (body : UserPatch) (site : Site)
    → Keeps site (patch_user caller id body site).1
unfolding patch_user
patch_user-KeepsKeys caller none body site = ground (arith, same site)
patch_user-KeepsKeys caller (some i) body site = elim (Bool-cases (require_admin caller)) [
  | inr e ↦ rw (e, patch_user) (same site)
  | inl e ↦
      rw (e, patch_user)
        (and_then-KeepsKeys site (patch_announcement caller i body.announcement site) _
          (patch_announcement-KeepsKeys caller i body.announcement site)
          (λ s1.
            and_then-KeepsKeys s1 (patch_role i body.role s1) _
              (patch_role-KeepsKeys i body.role s1)
              (λ s2.
                and_then-KeepsKeys s2 (patch_groups i body.group_ids s2) _
                  (patch_groups-KeepsKeys i body.group_ids s2)
                  (λ s3. patch_node-KeepsKeys i body.node_id s3))))
]
