-- ===== src/Database/InviteLinks.antt =====
-- app/server/repositories/invite-links.repository.ts
use constrainable.Base.{
  ℕ, ◌+◌, String, Option, List, find?, ◌==◌, str_eq, Table, updated, deleted, inserted,
}
use constrainable.Schema.{InviteLink}

unfoldable pub find_by_code : String → List InviteLink → Option InviteLink
find_by_code code ls = find? (λ l. str_eq l.code code) ls

unfoldable pub find_by_id : ℕ → List InviteLink → Option InviteLink
find_by_id i ls = find? (λ l. l.id == i) ls

unfoldable pub insert : (ℕ → InviteLink) → Table InviteLink → Table InviteLink
insert mk t = inserted mk t

unfoldable pub update : ℕ → (InviteLink → InviteLink) → Table InviteLink → Table InviteLink
update i f t = updated (λ l. l.id == i) f t

unfoldable pub remove : ℕ → Table InviteLink → Table InviteLink
remove i t = deleted (λ l. l.id == i) t

unfoldable pub increment_used : ℕ → Table InviteLink → Table InviteLink
increment_used i t = updated (λ l. l.id == i) (λ l. record l { used_count = l.used_count + 1 }) t
