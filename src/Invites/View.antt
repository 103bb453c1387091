-- ===== src/Invites/View.antt =====
-- Who may look at an event.
use constrainable.Base.{
  Bool-cases, ℕ, ◌≡◌, ◌↔◌, ◌⊎◌, refl, inl, inr, true, ◌&&◌, Option, some, none, List, [], ◌∷◌, Elem,
  any, filter, length, ltb, ◌==◌, arith,
}
use constrainable.Schema.{UserGroup, Role, Visibility}
use constrainable.Database.Groups
use constrainable.Server.{Server}
use constrainable.Invites.{Auth, can_view_event}
use constrainable.Invites.Consume.{IsMember, any_iff}

-- What an event asks of who looks at it.
abbrev pub MayView : Option Auth → Visibility → List ℕ → Server → Type 0
MayView auth visibility ids s =
    (visibility ≡ Visibility.everyone)
    ⊎ ((a : Auth) × (auth ≡ some a)
        × ((a.role ≡ Role.admin)
            ⊎ ((visibility ≡ Visibility.registered)
                ⊎ ((visibility ≡ Visibility.groups)
                    × ((g : ℕ) × Elem g ids × IsMember a.user_id g s.db.user_groups)))))

in_listed :
    (user : ℕ) (ids : List ℕ) (ms : List UserGroup)
    → (ltb 0 (length (filter (λ m. (m.user_id == user) && any (λ i. i == m.group_id) ids) ms))
        ≡ true)
      ↔ ((g : ℕ) × Elem g ids × IsMember user g ms)
unfolding Groups.find_user_group_ids
in_listed user ids [] = (λ h. cc, λ p. absurd p.2)
in_listed user ids (m ∷ ms) =
    elim (Bool-cases ((m.user_id == user) && any (λ i. i == m.group_id) ids)) [
      | inl hit ↦ rw hit (
        (λ h. (m.group_id, (any_iff m.group_id ids).0 (ground arith), ground arith)),
        λ p. ground arith,
      )
      | inr miss ↦ rw miss (
        (λ h. let r = (in_listed user ids ms).0 h in (r.0, r.1, ground (arith, r.2))),
        λ p. (in_listed user ids ms).1 (p.0, p.1, ground (arith, p.2, (any_iff p.0 ids).1 p.1)),
      )
    ]

user_in_any_group_iff :
    (user : ℕ) (ids : List ℕ) (ms : List UserGroup)
    → (Groups.user_in_any_group user ids ms ≡ true) ↔ ((g : ℕ) × Elem g ids × IsMember user g ms)
unfolding Groups.user_in_any_group
user_in_any_group_iff user [] ms = (λ h. cc, λ p. absurd p.1)
user_in_any_group_iff user (i ∷ ids) ms = in_listed user (i ∷ ids) ms

view_as :
    (u : ℕ) (role : Role) (visibility : Visibility) (ids : List ℕ) (s : Server)
    → let auth : Option Auth = some (record { user_id = u; role = role }) in
      (can_view_event auth visibility ids s ≡ true) ↔ MayView auth visibility ids s
unfolding can_view_event
view_as u Role.admin visibility ids s = (λ h. inr (_, refl, inl refl), λ v. refl)
view_as u Role.user Visibility.everyone ids s = (λ h. inl refl, λ v. refl)
view_as u Role.user Visibility.registered ids s = (λ h. inr (_, refl, inr (inl refl)), λ v. refl)
view_as u Role.user Visibility.groups ids s = (
  λ h. inr (_, refl, inr (inr (refl, (user_in_any_group_iff u ids s.db.user_groups).0 h))),
  λ v. (user_in_any_group_iff u ids s.db.user_groups).1 (member v),
)
  where
    same : {a b : Auth} → some a ≡ some b → (a.user_id ≡ b.user_id) × (a.role ≡ b.role)
    same e = (cc, cc)

    member :
        MayView (some (record { user_id = u; role = Role.user })) Visibility.groups ids s
        → (g : ℕ) × Elem g ids × IsMember u g s.db.user_groups
    member (inl e) = cc
    member (inr (a, e, inl admin)) = cc ((same e).1, admin)
    member (inr (a, e, inr (inl reg))) = cc
    member (inr (a, e, inr (inr (vis, (g, m, h))))) = (g, m, rw (same e).0 h)

-- An event is shown to everyone if it is public, and else to an administrator, to a user if it is for
-- registered users, and to a member of one of its groups if it is for groups; to no one else.
pub can_view_event_iff :
    (auth : Option Auth) (visibility : Visibility) (ids : List ℕ) (s : Server)
    → (can_view_event auth visibility ids s ≡ true) ↔ MayView auth visibility ids s
unfolding can_view_event
can_view_event_iff (some a) visibility ids s = view_as a.user_id a.role visibility ids s
can_view_event_iff none Visibility.everyone ids s = (λ h. inl refl, λ v. refl)
can_view_event_iff none Visibility.registered ids s =
    (λ h. cc, λ v. elim v [ inl e ↦ cc | inr (a, e, r) ↦ cc ])
can_view_event_iff none Visibility.groups ids s =
    (λ h. cc, λ v. elim v [ inl e ↦ cc | inr (a, e, r) ↦ cc ])
