-- ===== src/Invites/Consume.antt =====
-- What the claim of an invite link grants, and to whom.
use constrainable.Base.{
  ℕ, ◌≡◌, ◌↔◌, ◌⊎◌, refl, sym, inl, inr, String, true, ◌&&◌, Option, some, none, List, [], ◌∷◌,
  ◌++◌, Elem, find?-some, any, Option-cases, Bool-cases, trim, ◌==◌, arith,
}
use constrainable.Schema.{InviteLink, Group, UserGroup}
use constrainable.Database.Groups
use constrainable.Database.InviteLinks
use constrainable.Server.{Server}
use constrainable.Invites.{is_usable, consume_found, consume_invite}

-- The user is a member of the group.
abbrev pub IsMember : ℕ → ℕ → List UserGroup → Type 0
IsMember user group ms = Elem group (Groups.find_user_group_ids user ms)

ids-append_last :
    (user : ℕ) (ms : List UserGroup) (m : UserGroup) (g : ℕ)
    → IsMember user g (ms ++ m ∷ [])
      ↔ (IsMember user g ms ⊎ ((m.user_id ≡ user) × (m.group_id ≡ g)))
unfolding Groups.find_user_group_ids
ids-append_last user [] m g = ground arith
ids-append_last user (x ∷ ms) m g = ground (arith, ids-append_last user ms m g)

pair-IsMember :
    (user group : ℕ) (ms : List UserGroup)
    → (any (λ m. (m.user_id == user) && (m.group_id == group)) ms ≡ true) ↔ IsMember user group ms
unfolding Groups.find_user_group_ids
pair-IsMember user group [] = ground arith
pair-IsMember user group (m ∷ ms) = ground (arith, pair-IsMember user group ms)

pub any_iff : (g : ℕ) (ids : List ℕ) → (any (λ i. i == g) ids ≡ true) ↔ Elem g ids
any_iff g [] = ground arith
any_iff g (i ∷ ids) = ground (arith, any_iff g ids)

pub add-IsMember :
    (user group : ℕ) (ms : List UserGroup) (u g : ℕ)
    → IsMember u g (Groups.add_user_to_group user group ms)
      ↔ (IsMember u g ms ⊎ ((user ≡ u) × (group ≡ g)))
unfolding Groups.add_user_to_group
add-IsMember user group ms u g =
    elim (Bool-cases (any (λ m. (m.user_id == user) && (m.group_id == group)) ms)) [
      | inl there ↦
          rw (there, Groups.add_user_to_group)
            (
              (λ m. inl m),
              λ h. elim h [
                | inl m ↦ m
                | inr (p, q) ↦ rw (← p, ← q) ((pair-IsMember user group ms).0 there)
              ],
            )
      | inr fresh ↦
          rw (fresh, Groups.add_user_to_group)
            (ids-append_last u ms (record { user_id = user; group_id = group }) g)
    ]

-- What a claim by `user` that reached the link `l` did to the memberships.
consume_found-IsMember :
    (now : ℕ) (l : InviteLink) (group : Group) (user : ℕ) (s : Server) (u g : ℕ)
    → IsMember u g (consume_found now l group user s).1.db.user_groups
    → IsMember u g s.db.user_groups ⊎ ((user ≡ u) × (l.group_id ≡ g) × (is_usable now l ≡ true))
unfolding consume_found
consume_found-IsMember now l group user s u g h =
    elim (Bool-cases
      (any (λ i. i == l.group_id) (Groups.find_user_group_ids user s.db.user_groups))) [
        | inl there ↦ inl (rw (there, consume_found) at h)
        | inr fresh ↦ elim (Bool-cases (is_usable now l)) [
          | inr bad ↦ inl (rw (fresh, consume_found, bad, consume_found) at h)
          | inl good ↦
              elim ((add-IsMember user l.group_id s.db.user_groups u g).0
                (rw (fresh, consume_found, good, consume_found) at h)) [
                  | inl m ↦ inl m
                  | inr (p, q) ↦ inr (p, q, good)
                ]
        ]
      ]

-- A claim makes nobody a member of a group but the user who claims, and only of the group of the
-- link with the trimmed code, which is active, not expired and not used up.
pub consume_invite-grants :
    (now : ℕ) (code : String) (user : ℕ) (s : Server) (u g : ℕ)
    → IsMember u g (consume_invite now code user s).1.db.user_groups
    → IsMember u g s.db.user_groups
      ⊎ ((user ≡ u)
          × ((l : InviteLink) × (InviteLinks.find_by_code (trim code) s.db.invites.rows ≡ some l)
              × (l.group_id ≡ g)
              × (is_usable now l ≡ true)))
unfolding consume_invite
consume_invite-grants now code user s u g h =
    elim (Option-cases (InviteLinks.find_by_code (trim code) s.db.invites.rows)) [
      | inl e ↦ inl (rw (e, consume_invite) at h)
      | inr (l, e) ↦ elim (Option-cases (Groups.find_by_id l.group_id s.db.groups.rows)) [
        | inl no_group ↦ inl (rw (e, consume_invite, no_group, consume_invite) at h)
        | inr (group, found) ↦
            elim (consume_found-IsMember now l group user s u g
              (rw (e, consume_invite, found, consume_invite) at h)) [
                | inl m ↦ inl m
                | inr (p, q, good) ↦ inr (p, (l, e, q, good))
              ]
      ]
    ]

-- What a claim answers: with a group, of which the user is a member then, or with none, and nothing
-- has changed.
abbrev pub Answers : ℕ → Server → Option Group × Server → Type 0
Answers user s (none, s') = s' ≡ s
Answers user s (some g, s') = Elem g s.db.groups.rows × IsMember user g.id s'.db.user_groups

consume_found-Answers :
    (now : ℕ) (l : InviteLink) (group : Group) (user : ℕ) (s : Server)
    → Groups.find_by_id l.group_id s.db.groups.rows ≡ some group
    → Answers user s (consume_found now l group user s)
unfolding consume_found Groups.find_by_id
consume_found-Answers now l group user s h =
    let row = find?-some _ s.db.groups.rows {x = group} h in
    let same : group.id ≡ l.group_id = ground (arith, row.1) in
    elim (Bool-cases
      (any (λ i. i == l.group_id) (Groups.find_user_group_ids user s.db.user_groups))) [
        | inl there ↦
            rw (there, consume_found)
              (
                row.0,
                rw same (
                    (any_iff l.group_id (Groups.find_user_group_ids user s.db.user_groups)).0
                      there),
              )
        | inr fresh ↦ elim (Bool-cases (is_usable now l)) [
          | inr bad ↦ rw (fresh, consume_found, bad, consume_found) refl
          | inl good ↦
              rw (fresh, consume_found, good, consume_found)
                (
                  row.0,
                  (add-IsMember user l.group_id s.db.user_groups user group.id).1
                      (inr (refl, sym same)),
                )
        ]
      ]

-- A claim that answers with a group has made the user a member of it, and the group is a row of the
-- table. A claim that answers with none has changed nothing.
pub consume_invite-Answers :
    (now : ℕ) (code : String) (user : ℕ) (s : Server)
    → Answers user s (consume_invite now code user s)
unfolding consume_invite
consume_invite-Answers now code user s =
    elim (Option-cases (InviteLinks.find_by_code (trim code) s.db.invites.rows)) [
      | inl e ↦ rw (e, consume_invite) refl
      | inr (l, e) ↦ elim (Option-cases (Groups.find_by_id l.group_id s.db.groups.rows)) [
        | inl no_group ↦ rw (e, consume_invite, no_group, consume_invite) refl
        | inr (group, found) ↦
            rw (e, consume_invite, found, consume_invite)
              (consume_found-Answers now l group user s found)
      ]
    ]

users-consume_found :
    (now : ℕ) (l : InviteLink) (group : Group) (user : ℕ) (s : Server)
    → (consume_found now l group user s).1.db.users ≡ s.db.users
unfolding consume_found
users-consume_found now l group user s = ground arith

-- A claim leaves the table of users alone.
pub users-consume_invite :
    (now : ℕ) (code : String) (user : ℕ) (s : Server)
    → (consume_invite now code user s).1.db.users ≡ s.db.users
unfolding consume_invite
users-consume_invite now code user s =
    elim (Option-cases (InviteLinks.find_by_code (trim code) s.db.invites.rows)) [
      | inl e ↦ rw (e, consume_invite) refl
      | inr (l, e) ↦ elim (Option-cases (Groups.find_by_id l.group_id s.db.groups.rows)) [
        | inl no_group ↦ rw (e, consume_invite, no_group, consume_invite) refl
        | inr (group, found) ↦
            rw (e, consume_invite, found, consume_invite) (users-consume_found now l group user s)
      ]
    ]
