-- ===== src/Invites/Tests.antt =====
-- Links created and claimed, and the theorems of this part at them.
use constrainable.Base.{
  ℕ, suc, zero, ◌≡◌, ◌⊎◌, refl, inl, inr, String, true, some, none, [], ◌∷◌, All, trim, arith,
}
use constrainable.Schema.{Group, InviteLink}
use constrainable.Database.InviteLinks
use constrainable.Server.{Server}
use constrainable.Invites.{create_invite, consume_invite, is_usable}
use constrainable.Invites.Consume.{IsMember, consume_invite-grants}
use constrainable.Invites.Uses.{
  HasIds, IsWithinUses, consume_invite-IsWithinUses, consume_invite-idempotent,
}
use constrainable.Samples.{server}

abbrev club : Group
club = record { id = 5; name = "Club"; description = none; created_at = 1000 }

abbrev link : InviteLink
link = record {
  id = 1;
  code = "0123456789abcdef01234567";
  group_id = 5;
  created_by = some 1;
  max_uses = some 1;
  used_count = 0;
  expires_at = some 5000000;
  active = true;
  note = none;
}

abbrev invited : Server
invited = record server {
  db = record server.db {
    groups = record { rows = club ∷ []; next_id = 6 };
    invites = record { rows = link ∷ []; next_id = 2 };
  };
}

abbrev joined : Server
joined = (consume_invite 3000000 " 0123456789abcdef01234567 " 20 invited).1

first_claim : (consume_invite 3000000 " 0123456789abcdef01234567 " 20 invited).0 ≡ some club
unfolding consume_invite trim
first_claim = refl

used_up : (consume_invite 3000000 "0123456789abcdef01234567" 21 joined).0 ≡ none
unfolding consume_invite trim
used_up = refl

retry_code : ℕ → String
retry_code zero = "0123456789abcdef01234567"
retry_code (suc n) = "aaaabbbbccccddddeeeeffff"

second_draw :
    (create_invite retry_code 3000000
      (record { group_id = 5; max_uses = none; ttl_ms = none; note = none })
      1
      invited).1.db.invites.next_id
    ≡ 3
unfolding create_invite retry_code
second_draw = refl

consume_invite-grants_example :
    IsMember 20 5 invited.db.user_groups
    ⊎ ((◌≡◌ {A = ℕ} 20 20)
        × ((l : InviteLink) × (InviteLinks.find_by_code
                (trim " 0123456789abcdef01234567 ")
                invited.db.invites.rows
              ≡ some l)
            × (l.group_id ≡ 5)
            × (is_usable 3000000 l ≡ true)))
unfolding consume_invite trim
consume_invite-grants_example =
    consume_invite-grants 3000000 " 0123456789abcdef01234567 " 20 invited 20 5 (inl refl)

one_link : HasIds invited.db.invites.rows
one_link x y (inl p) (inl q) e = cc
one_link x y (inr p) q e = absurd p
one_link x y p (inr q) e = absurd q

consume_invite-IsWithinUses_example :
    All IsWithinUses
      (consume_invite 3000000 "0123456789abcdef01234567" 20 invited).1.db.invites.rows
consume_invite-IsWithinUses_example =
    consume_invite-IsWithinUses 3000000 "0123456789abcdef01234567" 20 invited one_link
      ((λ n e. omega arith), tt)

consume_invite-idempotent_example :
    consume_invite 9000000 " 0123456789abcdef01234567 " 20 joined ≡ (some club, joined)
unfolding consume_invite trim
consume_invite-idempotent_example =
    consume_invite-idempotent 3000000 9000000 " 0123456789abcdef01234567 " 20 invited {g = club}
      {s' = joined} refl
