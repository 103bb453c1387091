-- ===== src/Bans/Scopes.antt =====
-- The service keeps one ban for each email and scope. The table's own constraint does not: it takes
-- two site-wide bans of an email for different rows.
use constrainable.Base.{
  Pairwise, Pairwise-append_last, Pairwise-filter, ℕ, ◌≡◌, ◌≢◌, inl, inr, String, Option, some,
  none, List, Elem, All-of_Elem, find?-none, filter-Elem, sort_by-Elem, is_empty, Option-cases,
  Bool-cases, eq_iff, ==_refl,
}
use constrainable.Schema.{StreamBan}
use constrainable.Database.StreamBans
use constrainable.Server.{Server}
use constrainable.Bans.{BanInput, normal_email, existing_ban, ban, new_ban, ban_row, unban}
use constrainable.Bans.Blocking.{unban-rows}

abbrev pub Differs : StreamBan → StreamBan → Type 0
Differs a b = ¬ ((a.email ≡ b.email) × (a.event_id ≡ b.event_id))

-- No two bans have the same email and the same scope.
abbrev pub IsUnique : List StreamBan → Type 0
IsUnique bs = Pairwise Differs bs

-- A lookup that finds nothing has looked at every ban of the email and scope.
existing_ban-none :
    (email : String) (scope : Option ℕ) (bs : List StreamBan) (b : StreamBan)
    → existing_ban email scope bs ≡ none
    → Elem b bs
    → b.email ≡ email
    → b.event_id ≢ scope
unfolding existing_ban StreamBans.find_site_wide StreamBans.list_by_event
existing_ban-none email none bs b h m same scope =
    let miss = find?-none _ bs {x = b} h m in
    let hit = (eq_iff b.email email).1 same in cc (rw (hit, scope) at miss)
existing_ban-none email (some event) bs b h m same scope =
    let listed = filter-Elem _ bs {x = b} m (rw scope (==_refl event)) in
    let miss =
      find?-none _ (StreamBans.list_by_event event bs) {x = b} h
        (sort_by-Elem StreamBans.later_ban _ b listed) in
    cc (rw ((eq_iff b.email email).1 same) at miss)

-- A ban keeps the bans of an email and scope unique, whether it adds a row, answers with the row
-- that is there, or is refused for want of an email. So does the lifting of a ban.
pub ban-IsUnique :
    (now i : ℕ) (input : BanInput) (s : Server)
    → IsUnique s.db.bans.rows
    → IsUnique (ban now input s).1.db.bans.rows × IsUnique (unban i s).db.bans.rows
unfolding ban new_ban ban_row StreamBans.insert
ban-IsUnique now i input s u =
    (banned, rw (unban-rows i s) (Pairwise-filter Differs _ s.db.bans.rows u))
  where
    email : String
    email = normal_email input.email

    banned : IsUnique (ban now input s).1.db.bans.rows
    banned = elim (Bool-cases (is_empty email)) [
      | inl e ↦ rw (e, ban) u
      | inr e ↦ elim (Option-cases (existing_ban email input.event_id s.db.bans.rows)) [
        | inl free ↦
            let fresh =
              All-of_Elem _ s.db.bans.rows (λ b m (p, q).
                existing_ban-none email input.event_id s.db.bans.rows b free m p q) in
            rw (e, ban, free, ban)
              (Pairwise-append_last Differs s.db.bans.rows
                (ban_row now email input s.db.bans.next_id) u fresh)
        | inr (b, found) ↦ rw (e, ban, found, ban) u
      ]
    ]
