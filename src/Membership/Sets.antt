-- ===== src/Membership/Sets.antt =====
-- What it means to set the groups of a user.
use constrainable.Base.{
  ℕ, ◌≡◌, ◌≢◌, refl, sym, ap, ◌∙◌, inl, inr, List, [], ◌∷◌, map, Option-cases, Bool-cases, ◌==◌,
  ==_refl, Result, ok, arith,
}
use constrainable.Schema.{UserGroup}
use constrainable.Database.Groups
use constrainable.Server.{Server}
use constrainable.Membership.{set_user_groups, find_user, log}

own_ids :
    (user : ℕ) (ids : List ℕ)
    → Groups.find_user_group_ids user (map (λ g. record { user_id = user; group_id = g }) ids) ≡ ids
unfolding Groups.find_user_group_ids
own_ids user [] = refl
own_ids user (g ∷ ids) = rw (==_refl user) (ap (◌∷◌ g) (own_ids user ids))

set-own :
    (user : ℕ) (ids : List ℕ) (ms : List UserGroup)
    → Groups.find_user_group_ids user (Groups.set_user_groups user ids ms) ≡ ids
unfolding Groups.find_user_group_ids Groups.set_user_groups
set-own user ids [] = own_ids user ids
set-own user ids (m ∷ ms) = elim (Bool-cases (m.user_id == user)) [
  | inl hit ↦ rw hit (set-own user ids ms)
  | inr miss ↦ rw miss (rw miss (set-own user ids ms))
]

others_ids :
    (user other : ℕ) (ids : List ℕ)
    → other ≢ user
    → Groups.find_user_group_ids other (map (λ g. record { user_id = user; group_id = g }) ids) ≡ []
unfolding Groups.find_user_group_ids
others_ids user other [] ne = refl
others_ids user other (g ∷ ids) ne = ground (arith, others_ids user other ids ne)

set-other :
    (user other : ℕ) (ids : List ℕ) (ms : List UserGroup)
    → other ≢ user
    → Groups.find_user_group_ids other (Groups.set_user_groups user ids ms)
      ≡ Groups.find_user_group_ids other ms
unfolding Groups.find_user_group_ids Groups.set_user_groups
set-other user other ids [] ne = others_ids user other ids ne
set-other user other ids (m ∷ ms) ne = ground (arith, set-other user other ids ms ne)

-- Setting the groups of a user who is there makes the user a member of exactly these groups, and
-- changes no other user's groups.
pub set_user_groups-ids :
    (user other : ℕ) (ids : List ℕ) (s : Server) {s' : Server}
    → other ≢ user
    → set_user_groups user ids s ≡ (ok tt, s')
    → (Groups.find_user_group_ids user s'.db.user_groups ≡ ids)
      × (Groups.find_user_group_ids other s'.db.user_groups
          ≡ Groups.find_user_group_ids other s.db.user_groups)
unfolding set_user_groups log
set_user_groups-ids user other ids s {s'} ne h = elim (Option-cases (find_user user s)) [
  | inl e ↦ cc (rw (e, set_user_groups) at h)
  | inr (u, e) ↦ elim (Bool-cases (Groups.are_groups ids s.db.groups.rows)) [
    | inr bad ↦ cc (rw (e, bad, set_user_groups) at h)
    | inl known ↦
        let after =
          ap (λ (r : Result {0} Unit × Server). r.1.db.user_groups)
            (rw (e, known, set_user_groups) at h) in
        (
          ap (Groups.find_user_group_ids user) (sym after) ∙ set-own user ids s.db.user_groups,
          ap (Groups.find_user_group_ids other) (sym after)
              ∙ set-other user other ids s.db.user_groups ne,
        )
  ]
]
