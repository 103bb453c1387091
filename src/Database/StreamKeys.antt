-- ===== src/Database/StreamKeys.antt =====
-- app/server/repositories/stream-keys.repository.ts
use constrainable.Base.{
  ℕ, String, true, false, not, ◌&&◌, Option, some, none, List, [], ◌∷◌, find?, filter, holds, ◌==◌,
  str_eq, Table, updated, inserted,
}
use constrainable.Schema.{StreamKey, timestamp}

-- Rows stand in the order of their ids, as `orderBy(asc(streamKeys.id))` has them.
unfoldable pub find_all_by_stream_name : String → List StreamKey → List StreamKey
find_all_by_stream_name name ks = filter (λ k. str_eq k.stream_name name) ks

unfoldable pub find_by_event_and_name : ℕ → String → List StreamKey → Option StreamKey
find_by_event_and_name event_id name ks =
    find? (λ k. (k.event_id == event_id) && str_eq k.stream_name name) ks

unfoldable pub find_by_event_and_id : ℕ → ℕ → List StreamKey → Option StreamKey
find_by_event_and_id event_id i ks = find? (λ k. (k.id == i) && (k.event_id == event_id)) ks

keep_some : List (Option ℕ) → List ℕ
keep_some [] = []
keep_some (none ∷ xs) = keep_some xs
keep_some (some x ∷ xs) = x ∷ keep_some xs

enrollments_of : List StreamKey → List (Option ℕ)
enrollments_of [] = []
enrollments_of (k ∷ ks) = k.enrollment_id ∷ enrollments_of ks

unfoldable pub find_active_enrollment_ids_by_event : ℕ → List StreamKey → List ℕ
unfolding keep_some enrollments_of
find_active_enrollment_ids_by_event event_id ks =
    keep_some (enrollments_of (filter (λ k. (k.event_id == event_id) && not k.revoked) ks))

unfoldable pub touch : ℕ → ℕ → Table StreamKey → Table StreamKey
touch now i t = updated (λ k. k.id == i) (λ k. record k { last_used_at = some (timestamp now) }) t

unfoldable pub revoke : ℕ → Table StreamKey → Table StreamKey
revoke i t = updated (λ k. k.id == i) (λ k. record k { revoked = true }) t

unfoldable pub revoke_active_by_enrollment : ℕ → Table StreamKey → Table StreamKey
revoke_active_by_enrollment enrollment t =
    updated (λ k. holds (λ i. i == enrollment) k.enrollment_id && not k.revoked)
      (λ k. record k { revoked = true }) t

unfoldable pub rotate : ℕ → String → String → ℕ → Table StreamKey → Table StreamKey
rotate i hash preview enrollment t =
    updated (λ k. k.id == i)
      (λ k. record k {
        token_hash = hash;
        token_preview = preview;
        revoked = false;
        last_used_at = none;
        enrollment_id = some enrollment;
      })
      t

unfoldable pub insert : (ℕ → StreamKey) → Table StreamKey → Table StreamKey
insert mk t = inserted mk t
