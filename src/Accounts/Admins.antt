-- ===== src/Accounts/Admins.antt =====
-- Who is an administrator after the calls that could leave none.
use constrainable.Base.{
  ℕ, ◌≡◌, ◌≢◌, inl, inr, refl, ap, sym, ◌∙◌, true, false, not, ◌&&◌, some, none, List, Elem, All,
  All-of_Elem, All-update_where, Elem-filter, filter-Elem, filter, Bool-cases, Option-cases, leb,
  ◌==◌, Result, ok, arith, find?-some, Table,
}
use mathlib.Core.Path.{subst}
use constrainable.Schema.{User, Role, UserGroup, NodeLatency, is_admin}
use constrainable.Database.Users
use constrainable.Invites.{Auth}
use constrainable.Membership.{find_user}
use constrainable.Membership.Roles.{set_user_role-demotes}
use constrainable.Accounts.{Site, users_of, log_as}
use constrainable.Accounts.Admin.{
  delete_user, remove_account, drop_user, absent, patch_user, patch_announcement, patch_role,
  patch_groups, patch_node,
}

-- The row of an account, its memberships and its latencies are gone, and those of the others are
-- there.
abbrev pub IsRemoved : ℕ → Site → Site → Type 0
IsRemoved i site after =
    All (λ (u : User). u.id ≢ i) (users_of after)
    × ((u : User) → Elem u (users_of site) → u.id ≢ i → Elem u (users_of after))
    × All (λ (m : UserGroup). m.user_id ≢ i) after.hub.server.db.user_groups
    × ((m : UserGroup)
        → Elem m site.hub.server.db.user_groups
        → m.user_id ≢ i
        → Elem m after.hub.server.db.user_groups)
    × All (λ (l : NodeLatency). l.user_id ≢ i) after.latencies
    × ((l : NodeLatency) → Elem l site.latencies → l.user_id ≢ i → Elem l after.latencies)

without :
    {A : Type 0} (key : A → ℕ) (i : ℕ) (xs : List A)
    → All (λ x. key x ≢ i) (filter (λ x. not (key x == i)) xs)
without key i xs =
    All-of_Elem _ (filter (λ x. not (key x == i)) xs)
      (λ x m e. ground (arith, (Elem-filter (λ x. not (key x == i)) xs {x = x} m).1))

others :
    {A : Type 0} (key : A → ℕ) (i : ℕ) (xs : List A) (x : A)
    → Elem x xs
    → key x ≢ i
    → Elem x (filter (λ y. not (key y == i)) xs)
others key i xs x m ne = filter-Elem (λ y. not (key y == i)) xs {x = x} m (ground arith)

remove_account-IsRemoved :
    (caller : Auth) (target : User) (site : Site)
    → IsRemoved target.id site (remove_account caller target site)
unfolding remove_account drop_user log_as Users.remove
remove_account-IsRemoved caller target site = (
  without (λ (u : User). u.id) target.id (users_of site),
  others (λ (u : User). u.id) target.id (users_of site),
  without (λ (m : UserGroup). m.user_id) target.id site.hub.server.db.user_groups,
  others (λ (m : UserGroup). m.user_id) target.id site.hub.server.db.user_groups,
  without (λ (l : NodeLatency). l.user_id) target.id site.latencies,
  others (λ (l : NodeLatency). l.user_id) target.id site.latencies,
)

delete_user-inverse :
    (caller : Auth) (i : ℕ) (site : Site) {after : Site}
    → delete_user (some caller) (some i) site ≡ (ok tt, after)
    → (is_admin caller.role ≡ true) × (caller.user_id ≢ i) × IsRemoved i site after
unfolding delete_user Users.find_by_id
delete_user-inverse caller i site {after} h = elim (Bool-cases (is_admin caller.role)) [
  | inr bad ↦ cc (rw (bad, delete_user) at h)
  | inl good ↦ elim (Bool-cases (caller.user_id == i)) [
    | inl self ↦ cc (rw (good, self, delete_user) at h)
    | inr other ↦ elim (Option-cases (Users.find_by_id i (users_of site))) [
      | inl gone ↦ cc (rw (good, other, gone, delete_user) at h)
      | inr (target, found) ↦
          elim (Bool-cases
            (is_admin target.role && leb (Users.count_by_role Role.admin (users_of site)) 1)) [
              | inl last ↦
                  cc (rw (last, delete_user) at (rw (good, other, found, delete_user) at h))
              | inr fine ↦
                  let e : remove_account caller target site ≡ after =
                    ap (λ (p : Result {0} Unit × Site). p.1)
                      (rw (fine, delete_user) at (rw (good, other, found, delete_user) at h)) in
                  let same : target.id ≡ i =
                    ground
                      (arith, (find?-some (λ u. u.id == i) (users_of site) {x = target} found).1) in
                  (
                    good,
                    λ self. absurd (ground (arith, other, self)),
                    subst (λ (s : Site). IsRemoved i site s) e
                        (subst (λ (k : ℕ). IsRemoved k site (remove_account caller target site))
                          same (remove_account-IsRemoved caller target site)),
                  )
            ]
    ]
  ]
]

-- A call of an administrator that deletes an account takes out its row, its memberships and its
-- latencies, and keeps the rows, memberships and latencies of all other accounts. The caller's own row
-- is one of these: an administrator remains.
pub delete_user-keeps_caller :
    (caller : Auth) (i : ℕ) (site : Site) (c : User) {after : Site}
    → Elem c (users_of site)
    → c.id ≡ caller.user_id
    → c.role ≡ caller.role
    → delete_user (some caller) (some i) site ≡ (ok tt, after)
    → IsRemoved i site after × Elem c (users_of after) × (is_admin c.role ≡ true)
delete_user-keeps_caller caller i site c {after} m e r h =
    let inverse = delete_user-inverse caller i site {after = after} h in
    (inverse.2, inverse.2.1 c m (λ q. inverse.1 (sym e ∙ q)), rw r inverse.0)

-- A patch has no such guard: one that makes the only administrator a user is carried out, and leaves
-- no administrator.
pub patch_user-last_admin :
    (caller : Auth) (i : ℕ) (site : Site) {u : User}
    → is_admin caller.role ≡ true
    → Users.find_by_id i (users_of site) ≡ some u
    → is_admin u.role ≡ true
    → All (λ v. is_admin v.role ≡ true → v.id ≡ i) (users_of site)
    → let r =
        patch_user
          (some caller)
          (some i)
          (record { announcement = absent; role = some "user"; group_ids = none; node_id = none })
          site in
      (r.0 ≡ ok tt) × All (λ v. is_admin v.role ≡ false) (users_of r.1)
unfolding patch_user patch_announcement patch_role patch_groups patch_node Users.find_by_id
    find_user
patch_user-last_admin caller i site {u} admin found is only =
    let d = set_user_role-demotes i site.hub.server found is in
    rw admin (
      rw d.0 refl,
      rw d.0 (
          subst (λ (t : Table User). All (λ v. is_admin v.role ≡ false) t.rows) (sym d.1)
            (All-update_where (λ (v : User). is_admin v.role ≡ true → v.id ≡ i)
              (λ (v : User). is_admin v.role ≡ false) (λ x. x.id == i)
              (λ x. record x { role = Role.user }) (users_of site) only (λ v p hit. refl)
              (λ v p miss. not_admin v p miss))),
    )
  where
    not_admin :
        (v : User)
        → (is_admin v.role ≡ true → v.id ≡ i)
        → (v.id == i) ≡ false
        → is_admin v.role ≡ false
    not_admin v p miss = elim (Bool-cases (is_admin v.role)) [
      | inr f ↦ f
      | inl t ↦ absurd (ground (arith, p t, miss))
    ]
