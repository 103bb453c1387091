-- ===== src/Database/Sessions.antt =====
-- app/server/repositories/publish-sessions.repository.ts
use constrainable.Base.{
  ℕ, String, Bool, not, ◌&&◌, ◌||◌, Option, some, List, find?, filter, holds, is_some, or_else,
  or_option, head?, ltb, ◌==◌, str_eq, Table, updated, inserted, sort_by,
}
use mathlib.Core.Option
use constrainable.Schema.{PublishSession, SessionStatus, Metrics, timestamp}

-- isNull(endedAt)
abbrev pub is_open : PublishSession → Bool
is_open s = not (is_some s.ended_at)

-- orderBy(desc(startedAt))
abbrev pub newer : PublishSession → PublishSession → Bool
newer s r = ltb r.started_at s.started_at

unfoldable pub find_by_id : ℕ → List PublishSession → Option PublishSession
find_by_id i ss = find? (λ s. s.id == i) ss

unfoldable pub find_active_by_event : ℕ → List PublishSession → List PublishSession
find_active_by_event event_id ss =
    filter (λ s. holds (λ e. e == event_id) s.event_id && is_open s) ss

unfoldable pub find_active_by_stream : String → List PublishSession → Option PublishSession
find_active_by_stream name ss =
    head? (sort_by newer (filter (λ s. str_eq s.stream_name name && is_open s) ss))

unfoldable pub find_active_by_client_id : String → List PublishSession → Option PublishSession
find_active_by_client_id client ss =
    head?
      (sort_by newer (filter (λ s. holds (λ c. str_eq c client) s.srs_client_id && is_open s) ss))

unfoldable pub find_all_by_event : ℕ → List PublishSession → List PublishSession
find_all_by_event event_id ss =
    sort_by newer (filter (λ s. holds (λ e. e == event_id) s.event_id) ss)

-- With no event, or the event 0, all open sessions.
unfoldable pub find_active : Option ℕ → List PublishSession → List PublishSession
find_active event ss = sort_by newer (
    filter
      (λ s.
        is_open s && (not (holds (ltb 0) event) || holds (λ e. e == or_else event 0) s.event_id))
      ss)

unfoldable pub insert : (ℕ → PublishSession) → Table PublishSession → Table PublishSession
insert mk t = inserted mk t

unfoldable pub update_metrics : ℕ → ℕ → Metrics → Table PublishSession → Table PublishSession
update_metrics now i m t =
    updated (λ s. s.id == i) (λ s. record s { metrics = m; last_metric_at = some (timestamp now) })
      t

-- `compliant` and `ended_at` stay as they are unless a value is given
unfoldable pub update_status :
    ℕ → SessionStatus → Option ℕ → Option Bool → Table PublishSession → Table PublishSession
update_status i status ended_at compliant t =
    updated (λ s. s.id == i)
      (λ s. record s {
        status = status;
        ended_at = or_option (Option.map timestamp ended_at) s.ended_at;
        compliant = or_else compliant s.compliant;
      })
      t

unfoldable pub mark_ended : ℕ → SessionStatus → ℕ → Table PublishSession → Table PublishSession
mark_ended i status ended_at t =
    updated (λ s. s.id == i)
      (λ s. record s { ended_at = some (timestamp ended_at); status = status }) t
