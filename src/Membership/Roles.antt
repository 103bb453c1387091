-- ===== src/Membership/Roles.antt =====
-- What a change of a user's role or groups does to the table of users.
use constrainable.Base.{
  ℕ, ◌≡◌, refl, true, some, updated, ◌==◌, ok, List, inl, inr, Option-cases, Bool-cases, ◌⊎◌,
}
use constrainable.Schema.{User, Role, is_admin}
use constrainable.Database.Groups
use constrainable.Server.{Server}
use constrainable.Membership.{find_user, set_user_role, set_user_groups, log, same_role}

-- An administrator who is made a user.
pub set_user_role-demotes :
    (i : ℕ) (s : Server) {u : User}
    → find_user i s ≡ some u
    → is_admin u.role ≡ true
    → ((set_user_role i Role.user s).0 ≡ ok tt)
      × ((set_user_role i Role.user s).1.db.users
          ≡ updated (λ x. x.id == i) (λ x. record x { role = Role.user }) s.db.users)
unfolding set_user_role
set_user_role-demotes i s h e = rw (h, set_user_role) (rw e (refl, refl))

-- The table is as it was, or the row has its new role.
pub users-set_user_role :
    (i : ℕ) (role : Role) (s : Server)
    → ((set_user_role i role s).1.db.users ≡ s.db.users)
      ⊎ ((set_user_role i role s).1.db.users
          ≡ updated (λ x. x.id == i) (λ x. record x { role = role }) s.db.users)
unfolding set_user_role log
users-set_user_role i role s = elim (Option-cases (find_user i s)) [
  | inl e ↦ rw (e, set_user_role) (inl refl)
  | inr (u, e) ↦ elim (Bool-cases (same_role u.role role)) [
    | inl b ↦ rw (e, set_user_role) (rw b (inl refl))
    | inr b ↦ rw (e, set_user_role) (rw b (inr refl))
  ]
]

pub users-set_user_groups :
    (i : ℕ) (ids : List ℕ) (s : Server) → (set_user_groups i ids s).1.db.users ≡ s.db.users
unfolding set_user_groups log
users-set_user_groups i ids s = elim (Option-cases (find_user i s)) [
  | inl e ↦ rw (e, set_user_groups) refl
  | inr (u, e) ↦ elim (Bool-cases (Groups.are_groups ids s.db.groups.rows)) [
    | inl known ↦ rw (e, set_user_groups) (rw known refl)
    | inr bad ↦ rw (e, set_user_groups) (rw bad refl)
  ]
]
