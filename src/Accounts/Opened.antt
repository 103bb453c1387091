-- ===== src/Accounts/Opened.antt =====
-- What an account that has been opened leaves in the table of users.
use constrainable.Base.{
  Along, Along-refl, Along-trans, Along-update_where, find?-Along, find?-append_hit, ℕ, ◌≡◌, inl,
  inr, refl, ap, sym, ◌∙◌, String, some, none, List, [], ◌∷◌, is_empty, Bool-cases, Option-cases,
  ◌==◌, str_eq, eq_refl, Table,
}
use mathlib.Core.Path.{subst}
use constrainable.Schema.{User, Role}
use constrainable.Database.Users
use constrainable.Invites.Consume.{users-consume_invite}
use constrainable.Accounts.{
  Site, Crypto, Salts, users_of, allocate_for, log_as, on_site, with_users,
}
use constrainable.Accounts.Register.{
  open_account, new_user, assign_node, pop_announcement, join_group,
}

-- What proves who a user is.
pub record IsSame (u v : User) : Type 0 where
  pub id : v.id ≡ u.id
  pub email : v.email ≡ u.email
  pub password_hash : v.password_hash ≡ u.password_hash
  pub role : v.role ≡ u.role

pub IsSame-refl : (u : User) → IsSame u u
IsSame-refl u = record { id = refl; email = refl; password_hash = refl; role = refl }

IsSame-trans : (u v w : User) → IsSame u v → IsSame v w → IsSame u w
IsSame-trans u v w h k = record {
  id = k.id ∙ h.id;
  email = k.email ∙ h.email;
  password_hash = k.password_hash ∙ h.password_hash;
  role = k.role ∙ h.role;
}

-- The table keeps its sequence, and each row what proves who it is.
abbrev pub KeepsUsers : Site → Site → Type 0
KeepsUsers a b =
    Along IsSame (users_of a) (users_of b)
    × (b.hub.server.db.users.next_id ≡ a.hub.server.db.users.next_id)

KeepsUsers-refl : (a : Site) → KeepsUsers a a
KeepsUsers-refl a = (Along-refl IsSame IsSame-refl (users_of a), refl)

KeepsUsers-trans : (a b c : Site) → KeepsUsers a b → KeepsUsers b c → KeepsUsers a c
KeepsUsers-trans a b c h k =
    (Along-trans IsSame IsSame-trans (users_of a) (users_of b) (users_of c) h.0 k.0, k.1 ∙ h.1)

assign_node-KeepsUsers : (i : ℕ) (site : Site) → KeepsUsers site (assign_node i site)
unfolding assign_node Users.update_node
assign_node-KeepsUsers i site = elim (Option-cases (allocate_for i site)) [
  | inl e ↦ rw (e, assign_node) (KeepsUsers-refl site)
  | inr (node, e) ↦ elim (Bool-cases (is_empty node)) [
    | inl bad ↦ rw (e, assign_node) (rw bad (KeepsUsers-refl site))
    | inr good ↦
        rw (e, assign_node)
          (rw good (
            Along-update_where IsSame (λ u. u.id == i) (λ u. record u { node_id = some node })
                IsSame-refl
                (λ u. record { id = refl; email = refl; password_hash = refl; role = refl })
                (users_of site),
            refl,
          ))
  ]
]

pop_announcement-KeepsUsers :
    (email : String) (i : ℕ) (pool : List String) (site : Site)
    → KeepsUsers site (pop_announcement email i pool site)
unfolding pop_announcement log_as Users.update_announcement
pop_announcement-KeepsUsers email i [] site = KeepsUsers-refl site
pop_announcement-KeepsUsers email i (a ∷ rest) site = (
  Along-update_where IsSame (λ u. u.id == i) (λ u. record u { announcement = some a }) IsSame-refl
      (λ u. record { id = refl; email = refl; password_hash = refl; role = refl }) (users_of site),
  refl,
)

join_group-KeepsUsers :
    (now : ℕ) (invite : String) (i : ℕ) (site : Site)
    → KeepsUsers site (join_group now invite i site)
unfolding join_group
join_group-KeepsUsers now invite i site = elim (Bool-cases (is_empty invite)) [
  | inl e ↦ rw (e, join_group) (KeepsUsers-refl site)
  | inr e ↦
      let same = users-consume_invite now invite i site.hub.server in
      rw (e, join_group)
        (
          subst (λ (t : Table User). Along IsSame (users_of site) t.rows) (sym same)
              (Along-refl IsSame IsSame-refl (users_of site)),
          ap (λ (t : Table User). t.next_id) same,
        )
]

module _ (crypto : Crypto) (salts : Salts) (now : ℕ) (email password : String) (role : Role)
    (invite : String) (site : Site) where
  abbrev inserted_user : Site
  inserted_user =
      on_site (with_users (Users.insert (new_user crypto salts now email password role))) site

  -- The account is inserted, and what follows keeps what proves who the users are.
  pub open_account-KeepsUsers :
      KeepsUsers inserted_user (open_account crypto salts now email password role invite site).1
  unfolding open_account log_as
  open_account-KeepsUsers =
      let i = site.hub.server.db.users.next_id in
      let s2 = assign_node i inserted_user in
      let s3 = pop_announcement email i s2.announcement_pool s2 in
      KeepsUsers-trans inserted_user s3 (join_group now invite i s3)
        (KeepsUsers-trans inserted_user s2 s3 (assign_node-KeepsUsers i inserted_user)
          (pop_announcement-KeepsUsers email i s2.announcement_pool s2))
        (join_group-KeepsUsers now invite i s3)

  -- The new account is the one of its email, if none had that.
  pub find_by_email-open_account :
      Users.find_by_email email (users_of site) ≡ none
      → (u : User) × (Users.find_by_email email
            (users_of (open_account crypto salts now email password role invite site).1)
          ≡ some u)
        × IsSame (new_user crypto salts now email password role site.hub.server.db.users.next_id) u
  unfolding Users.find_by_email Users.insert new_user
  find_by_email-open_account free =
      find?-Along IsSame (λ u. str_eq u.email email) (λ u v h. rw h.email refl)
        (users_of inserted_user)
        (users_of (open_account crypto salts now email password role invite site).1)
        open_account-KeepsUsers.0
        (find?-append_hit (λ u. str_eq u.email email) (users_of site)
          (new_user crypto salts now email password role site.hub.server.db.users.next_id) free
          (rw eq_refl refl))
