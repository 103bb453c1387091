-- ===== src/Bans/Tests.antt =====
-- Bans of a publisher, and the theorems of this part at them.
use constrainable.Base.{to_lower_case, trim, ◌≡◌, refl, inr, true, false, some, none}
use constrainable.Schema.{StreamBan, timestamp}
use constrainable.Server.{Server}
use constrainable.Bans.{BanInput, ban, unban, is_blocked, is_site_wide_banned, normal_email}
use constrainable.Bans.Blocking.{ban-is_blocked}
use constrainable.Samples.{server}

abbrev input : BanInput
input = record { email = " Eve@X.org"; event_id = some 7; reason = none; banned_by = some "root" }

abbrev banned : Server
banned = (ban 3000000 input server).1

in_event : is_blocked "eve@x.org" (some 7) banned.db.bans.rows ≡ true
unfolding ban is_blocked to_lower_case trim
in_event = refl

elsewhere : is_blocked "eve@x.org" (some 8) banned.db.bans.rows ≡ false
unfolding ban is_blocked to_lower_case trim
elsewhere = refl

lifted : is_blocked "eve@x.org" (some 7) (unban 1 banned).db.bans.rows ≡ false
unfolding ban is_blocked unban to_lower_case trim
lifted = refl

not_site_wide : is_site_wide_banned "eve@x.org" banned.db.bans.rows ≡ false
unfolding ban is_site_wide_banned to_lower_case trim
not_site_wide = refl

abbrev eve_ban : StreamBan
eve_ban = record {
  id = 1;
  email = "eve@x.org";
  event_id = some 7;
  reason = none;
  banned_by = some "root";
  created_at = 3000000;
}

ban-is_blocked_example :
    (eve_ban.email ≡ normal_email input.email)
    × (eve_ban.event_id ≡ input.event_id)
    × (is_blocked "EVE@x.org" (some 7) banned.db.bans.rows ≡ true)
unfolding ban normal_email to_lower_case trim timestamp
ban-is_blocked_example =
    ban-is_blocked 3000000 input server {b = eve_ban} "EVE@x.org" (some 7) refl refl
      (inr (7, refl, refl))
