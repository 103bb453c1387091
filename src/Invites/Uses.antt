-- ===== src/Invites/Uses.antt =====
-- How often a link is used.
use constrainable.Base.{
  ℕ, ◌+◌, ◌≤◌, ◌≡◌, refl, sym, ap, ◌∙◌, inl, inr, String, true, Option, some, List, [], ◌∷◌, Elem,
  All, All-Elem, All-of_Elem, All-update_where, update_where, find?-some, any, if◌then◌else◌,
  Option-cases, Bool-cases, trim, ◌==◌, str_eq, arith,
}
use constrainable.Schema.{InviteLink, Group}
use constrainable.Database.Groups
use constrainable.Database.InviteLinks
use constrainable.Server.{Server}
use constrainable.Invites.{is_usable, consume_found, consume_invite}
use constrainable.Invites.Consume.{IsMember, any_iff, add-IsMember}

-- No two links share an id.
abbrev pub HasIds : List InviteLink → Type 0
HasIds ls = (x y : InviteLink) → Elem x ls → Elem y ls → x.id ≡ y.id → x ≡ y

-- No link was used more often than it may be.
abbrev pub IsWithinUses : InviteLink → Type 0
IsWithinUses l = (n : ℕ) → l.max_uses ≡ some n → l.used_count ≤ n

abbrev used : InviteLink → InviteLink
used l = record l { used_count = l.used_count + 1 }

has_room : (now : ℕ) (l : InviteLink) → is_usable now l ≡ true → IsWithinUses (used l)
unfolding is_usable
has_room now l h n e = ground (arith, e)

consume_found-within :
    (now : ℕ) (l : InviteLink) (group : Group) (user : ℕ) (s : Server)
    → HasIds s.db.invites.rows
    → Elem l s.db.invites.rows
    → All IsWithinUses s.db.invites.rows
    → All IsWithinUses (consume_found now l group user s).1.db.invites.rows
unfolding consume_found InviteLinks.increment_used
consume_found-within now l group user s ids m a =
    elim (Bool-cases
      (any (λ i. i == l.group_id) (Groups.find_user_group_ids user s.db.user_groups))) [
        | inl there ↦ rw (there, consume_found) a
        | inr fresh ↦ elim (Bool-cases (is_usable now l)) [
          | inr bad ↦ rw (fresh, consume_found, bad, consume_found) a
          | inl good ↦
              let both =
                All-of_Elem (λ x. Elem x s.db.invites.rows × IsWithinUses x) s.db.invites.rows
                  (λ x n. (n, All-Elem IsWithinUses s.db.invites.rows {x = x} a n)) in
              rw (fresh, consume_found, good, consume_found)
                (All-update_where _ IsWithinUses (λ x. x.id == l.id) used s.db.invites.rows both
                  (λ x p e. rw (ids x l p.0 m (ground arith)) (has_room now l good)) (λ x p e. p.1))
        ]
      ]

-- A claim never takes a link past its maximal number of uses.
pub consume_invite-IsWithinUses :
    (now : ℕ) (code : String) (user : ℕ) (s : Server)
    → HasIds s.db.invites.rows
    → All IsWithinUses s.db.invites.rows
    → All IsWithinUses (consume_invite now code user s).1.db.invites.rows
unfolding consume_invite InviteLinks.find_by_code
consume_invite-IsWithinUses now code user s ids a =
    elim (Option-cases (InviteLinks.find_by_code (trim code) s.db.invites.rows)) [
      | inl e ↦ rw (e, consume_invite) a
      | inr (l, e) ↦ elim (Option-cases (Groups.find_by_id l.group_id s.db.groups.rows)) [
        | inl no_group ↦ rw (e, consume_invite, no_group, consume_invite) a
        | inr (group, found) ↦
            rw (e, consume_invite, found, consume_invite)
              (consume_found-within now l group user s ids
                (find?-some _ s.db.invites.rows {x = l} e).0 a)
      ]
    ]

-- A use of a link does not change which link a code finds, nor the link's group.
used-find_by_code :
    (code : String) (i : ℕ) (ls : List InviteLink) {l : InviteLink}
    → InviteLinks.find_by_code code ls ≡ some l
    → (k : InviteLink) × (InviteLinks.find_by_code code (update_where (λ x. x.id == i) used ls)
        ≡ some k)
      × (k.group_id ≡ l.group_id)
unfolding InviteLinks.find_by_code
used-find_by_code code i [] h = cc
used-find_by_code code i (x ∷ ls) {l} h = elim (Bool-cases (str_eq x.code code)) [
  | inl hit ↦ (if x.id == i then used x else x, ground arith, ground arith)
  | inr miss ↦
      let r = used-find_by_code code i ls {l = l} (ground arith) in (r.0, ground (arith, r.1), r.2)
]

consume_found-again :
    (later : ℕ) (k l : InviteLink) (group : Group) (user : ℕ) (s : Server)
    → k.group_id ≡ l.group_id
    → IsMember user l.group_id s.db.user_groups
    → consume_found later k group user s ≡ (some group, s)
unfolding consume_found
consume_found-again later k l group user s same m =
    rw
      (
        same,
        (any_iff l.group_id (Groups.find_user_group_ids user s.db.user_groups)).1 m,
        consume_found,
      )
      refl

-- What a claim that found its link leaves for the next one.
consume_found-leaves :
    (now : ℕ) (code : String) (l : InviteLink) (group : Group) (user : ℕ) (s : Server) {g : Group}
    {s' : Server}
    → InviteLinks.find_by_code code s.db.invites.rows ≡ some l
    → consume_found now l group user s ≡ (some g, s')
    → (g ≡ group)
      × (s'.db.groups ≡ s.db.groups)
      × IsMember user l.group_id s'.db.user_groups
      × ((k : InviteLink) × (InviteLinks.find_by_code code s'.db.invites.rows ≡ some k)
          × (k.group_id ≡ l.group_id))
unfolding consume_found InviteLinks.increment_used
consume_found-leaves now code l group user s {g} {s'} found h =
    elim (Bool-cases
      (any (λ i. i == l.group_id) (Groups.find_user_group_ids user s.db.user_groups))) [
        | inl there ↦
            let e = rw (there, consume_found) at h in
            let t = ap (λ (r : Option Group × Server). r.1) e in
            (
              sym (some-injective (ap (λ (r : Option Group × Server). r.0) e)),
              ap (λ (x : Server). x.db.groups) (sym t),
              rw (← t)
                  ((any_iff l.group_id (Groups.find_user_group_ids user s.db.user_groups)).0 there),
              (
                l,
                ap (λ (x : Server). InviteLinks.find_by_code code x.db.invites.rows) (sym t)
                    ∙ found,
                refl,
              ),
            )
        | inr fresh ↦ elim (Bool-cases (is_usable now l)) [
          | inr bad ↦ cc (rw (fresh, consume_found, bad, consume_found) at h)
          | inl good ↦
              let e = rw (fresh, consume_found, good, consume_found) at h in
              let t = ap (λ (r : Option Group × Server). r.1) e in
              let r = used-find_by_code code l.id s.db.invites.rows {l = l} found in
              (
                sym (some-injective (ap (λ (r : Option Group × Server). r.0) e)),
                ap (λ (x : Server). x.db.groups) (sym t),
                rw (← t) (
                    (add-IsMember user l.group_id s.db.user_groups user l.group_id).1
                      (inr (refl, refl))),
                (
                  r.0,
                  ap (λ (x : Server). InviteLinks.find_by_code code x.db.invites.rows) (sym t)
                      ∙ r.1,
                  r.2,
                ),
              )
        ]
      ]
  where
    some-injective : {x y : Group} → some x ≡ some y → x ≡ y
    some-injective e = cc

-- A user whose claim was answered with a group may claim with the same code again, at any time, also
-- once the link has expired or is used up: the answer is the same and nothing changes, so that the
-- link is not counted twice.
pub consume_invite-idempotent :
    (now later : ℕ) (code : String) (user : ℕ) (s : Server) {g : Group} {s' : Server}
    → consume_invite now code user s ≡ (some g, s')
    → consume_invite later code user s' ≡ (some g, s')
unfolding consume_invite
consume_invite-idempotent now later code user s {g} {s'} h =
    elim (Option-cases (InviteLinks.find_by_code (trim code) s.db.invites.rows)) [
      | inl e ↦ cc (rw (e, consume_invite) at h)
      | inr (l, e) ↦ elim (Option-cases (Groups.find_by_id l.group_id s.db.groups.rows)) [
        | inl no_group ↦ cc (rw (e, consume_invite, no_group, consume_invite) at h)
        | inr (group, found) ↦
            let left =
              consume_found-leaves now (trim code) l group user s {g = g} {s' = s'} e
                (rw (e, consume_invite, found, consume_invite) at h) in
            let k = left.3.0 in
            let still : Groups.find_by_id k.group_id s'.db.groups.rows ≡ some group =
              rw (left.3.2, left.1) found in
            let next : consume_invite later code user s' ≡ consume_found later k group user s' =
              rw (left.3.1, consume_invite, still, consume_invite) refl in
            next
            ∙ consume_found-again later k l group user s' left.3.2 left.2
            ∙ ap (λ (x : Group). (some x, s')) (sym left.0)
      ]
    ]
