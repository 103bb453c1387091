-- ===== src/Bans/Blocking.antt =====
-- Whom a ban blocks, and for how long.
use constrainable.Base.{
  ℕ, ◌≡◌, ◌≢◌, ◌↔◌, ◌⊎◌, refl, sym, ap, ◌∙◌, inl, inr, String, Bool, true, not, Option, some, none,
  List, [], ◌∷◌, Elem, find?, find?-some, filter, filter-Elem, Elem-filter, Elem-append_last,
  Elem-sort_by, holds, holds-some, is_some, ◌||◌, length, ltb, is_empty, Option-cases, Bool-cases,
  ◌==◌, eq_iff, arith, Result, ok,
}
use constrainable.Schema.{StreamBan}
use constrainable.Database.StreamBans
use constrainable.Server.{Server}
use constrainable.Bans.{
  BanInput, normal_email, is_blocked, existing_ban, ban, new_ban, ban_row, unban,
}

-- A ban of this scope covers a publisher of the event.
abbrev pub Covers : Option ℕ → Option ℕ → Type 0
Covers scope event = (scope ≡ none) ⊎ ((i : ℕ) × (scope ≡ some i) × (event ≡ some i))

-- A ban of the table covers the email, in its normal form, for the event.
abbrev pub IsBanned : String → Option ℕ → List StreamBan → Type 0
IsBanned email event bs =
    (b : StreamBan) × Elem b bs × (b.email ≡ normal_email email) × Covers b.event_id event

some_length : (bs : List StreamBan) → ltb 0 (length bs) ≡ true → (b : StreamBan) × Elem b bs
some_length [] h = cc
some_length (b ∷ bs) h = (b, inl refl)

length_some : (bs : List StreamBan) (b : StreamBan) → Elem b bs → ltb 0 (length bs) ≡ true
length_some [] b m = absurd m
length_some (x ∷ bs) b m = ground arith

abbrev in_scope : Option ℕ → Option ℕ → Bool
in_scope scope event = not (is_some scope) || holds (λ i. holds (λ j. j == i) scope) event

in_scope_iff : (scope event : Option ℕ) → (in_scope scope event ≡ true) ↔ Covers scope event
in_scope_iff none event = (λ h. inl refl, λ c. refl)
in_scope_iff (some i) none = (λ h. cc, λ c. elim c [ inl e ↦ cc | inr (j, p, q) ↦ cc ])
in_scope_iff (some i) (some k) = (
  λ h. inr (i, refl, ap some (ground arith)),
  λ c. elim c [ inl e ↦ cc | inr (j, p, q) ↦ ground (arith, some-injective p, some-injective q) ],
)
  where
    some-injective : {a b : ℕ} → some a ≡ some b → a ≡ b
    some-injective e = cc

-- A publisher is blocked exactly if some ban covers its email, site-wide or in the event.
pub is_blocked_iff :
    (email : String) (event : Option ℕ) (bs : List StreamBan)
    → (is_blocked email event bs ≡ true) ↔ IsBanned email event bs
unfolding is_blocked StreamBans.list_blocking
is_blocked_iff email event bs = (
  λ h.
      let found = some_length (StreamBans.list_blocking (normal_email email) event bs) h in
      let row = Elem-filter _ bs {x = found.0} found.1 in
      (
        found.0,
        row.0,
        (eq_iff found.0.email (normal_email email)).0 (ground (arith, row.1)),
        (in_scope_iff found.0.event_id event).0 (ground (arith, row.1)),
      ),
  λ banned.
      let cover = (in_scope_iff banned.0.event_id event).1 banned.3 in
      let same = (eq_iff banned.0.email (normal_email email)).1 banned.2 in
      length_some (StreamBans.list_blocking (normal_email email) event bs) banned.0
        (filter-Elem _ bs banned.1 (ground (arith, cover, same))),
)

existing_ban-some :
    (email : String) (scope : Option ℕ) (bs : List StreamBan) {b : StreamBan}
    → existing_ban email scope bs ≡ some b
    → Elem b bs × (b.email ≡ email) × (b.event_id ≡ scope)
unfolding existing_ban StreamBans.find_site_wide StreamBans.list_by_event
existing_ban-some email none bs {b} h =
    let found = find?-some _ bs {x = b} h in
    (
      found.0,
      (eq_iff b.email email).0 (ground (arith, found.1)),
      no_scope b.event_id (ground (arith, found.1)),
    )
  where
    no_scope : (o : Option ℕ) → not (is_some o) ≡ true → o ≡ none
    no_scope none e = refl
    no_scope (some i) e = cc
existing_ban-some email (some event) bs {b} h =
    let found = find?-some _ (StreamBans.list_by_event event bs) {x = b} h in
    let row = Elem-filter _ bs {x = b} (Elem-sort_by StreamBans.later_ban _ b found.0) in
    let scope = holds-some _ b.event_id row.1 in
    (row.0, (eq_iff b.email email).0 found.1, scope.1 ∙ ap some (ground (arith, scope.2)))

-- The row that a ban answers with stands in the table.
ban-row :
    (now : ℕ) (input : BanInput) (s : Server) {b : StreamBan} {s' : Server}
    → ban now input s ≡ (ok b, s')
    → Elem b s'.db.bans.rows × (b.email ≡ normal_email input.email) × (b.event_id ≡ input.event_id)
unfolding ban new_ban ban_row StreamBans.insert
ban-row now input s {b} {s'} h =
    let email = normal_email input.email in
    elim (Bool-cases (is_empty email)) [
      | inl e ↦ cc (rw (e, ban) at h)
      | inr e ↦ elim (Option-cases (existing_ban email input.event_id s.db.bans.rows)) [
        | inl free ↦
            let row =
              ok-injective
                (ap (λ (r : Result StreamBan × Server). r.0) (rw (e, ban, free, ban) at h)) in
            let after =
              ap (λ (r : Result StreamBan × Server). r.1.db.bans.rows)
                (rw (e, ban, free, ban) at h) in
            (
              rw (← row, ← after)
                  (Elem-append_last s.db.bans.rows (ban_row now email input s.db.bans.next_id)),
              ap (λ (x : StreamBan). x.email) (sym row),
              ap (λ (x : StreamBan). x.event_id) (sym row),
            )
        | inr (old, found) ↦
            let row =
              ok-injective
                (ap (λ (r : Result StreamBan × Server). r.0) (rw (e, ban, found, ban) at h)) in
            let after =
              ap (λ (r : Result StreamBan × Server). r.1.db.bans.rows)
                (rw (e, ban, found, ban) at h) in
            rw (← row, ← after) (existing_ban-some email input.event_id s.db.bans.rows found)
      ]
    ]
  where
    ok-injective : {x y : StreamBan} → ok x ≡ ok y → x ≡ y
    ok-injective e = cc

-- Whoever is banned is blocked from then on, under every spelling of the email with the same normal
-- form, in the events that the ban covers. The answer carries the ban's email and scope, also where
-- the ban was there before.
pub ban-is_blocked :
    (now : ℕ) (input : BanInput) (s : Server) {b : StreamBan} {s' : Server} (email : String)
    (event : Option ℕ)
    → ban now input s ≡ (ok b, s')
    → normal_email email ≡ normal_email input.email
    → Covers input.event_id event
    → (b.email ≡ normal_email input.email)
      × (b.event_id ≡ input.event_id)
      × (is_blocked email event s'.db.bans.rows ≡ true)
ban-is_blocked now input s {b} {s'} email event h same cover =
    let row = ban-row now input s h in
    (
      row.1,
      row.2,
      (is_blocked_iff email event s'.db.bans.rows).1 (b, row.0, row.1 ∙ sym same, rw row.2 cover),
    )

pub unban-rows :
    (i : ℕ) (s : Server) → (unban i s).db.bans.rows ≡ filter (λ b. not (b.id == i)) s.db.bans.rows
unfolding unban StreamBans.remove
unban-rows i s = elim (Option-cases (find? (λ b. b.id == i) (StreamBans.list_all s.db.bans.rows))) [
  | inl e ↦ rw (e, unban) refl
  | inr (b, e) ↦ rw (e, unban) refl
]

-- Lifting a ban unblocks a publisher exactly if no other ban covers its email in the event.
pub unban-is_blocked :
    (i : ℕ) (s : Server) (email : String) (event : Option ℕ)
    → (is_blocked email event (unban i s).db.bans.rows ≡ true) ↔ (
        (b : StreamBan) × Elem b s.db.bans.rows
        × (b.email ≡ normal_email email)
        × Covers b.event_id event
        × (b.id ≢ i))
unban-is_blocked i s email event = (
  λ h.
      let found = (is_blocked_iff email event (unban i s).db.bans.rows).0 h in
      let row = Elem-filter _ s.db.bans.rows {x = found.0} (rw (unban-rows i s) at found.1) in
      (found.0, row.0, found.2, found.3, λ e. ground (arith, row.1)),
  λ (b, m, same, cover, other).
      (is_blocked_iff email event (unban i s).db.bans.rows).1
        (b, rw (unban-rows i s) (filter-Elem _ s.db.bans.rows m (ground arith)), same, cover),
)
