-- ===== src/Lifecycle/Publish.antt =====
-- What a publish hook leaves in the sessions table.
use constrainable.Base.{
  ℕ, ◌+◌, ◌<◌, ◌≡◌, refl, sym, ap, ◌∙◌, inl, inr, String, Bool, true, false, Option, some, List, [],
  ◌∷◌, ◌++◌, All, filter, filter-append_last, eq_refl, arith, Table,
}
use constrainable.Schema.{PublishSession, SessionStatus, Reason, timestamp}
use constrainable.Database.Sessions
use constrainable.Database.Sessions.{is_open}
use constrainable.Server.{Server}
use constrainable.Access.{Allowed, AuthResult, authorize_publish}
use constrainable.Access.Reasons.{AuthResult-cases, sessions-authorize_publish}
use constrainable.Lifecycle.{
  PublishContext, PublishAnswer, allowed, refused, allowed_row, rejected_row, stale_sessions,
  publish_allowed, publish_rejected_row, handle_publish,
}
use constrainable.Lifecycle.Stale.{
  IdsBelow, is_live_row, close_stale, close_stale-append, close_stale-ids, supersede-sessions,
  stale-ne, close_stale-Pending, stale-Pending,
}

module _ (now : ℕ) (ctx : PublishContext) (a : Allowed) (s : Server) where
  -- The row of the new session.
  abbrev pub new_row : PublishSession
  unfolding allowed_row
  new_row = allowed_row now ctx a s.db.sessions.next_id

  new_row-live : is_live_row ctx.stream new_row ≡ true
  unfolding new_row
  new_row-live = rw eq_refl

  publish_allowed-rows : (publish_allowed now ctx a s).db.sessions ≡ record {
    rows =
        close_stale
          (timestamp now)
          (stale_sessions ctx.stream s.db.sessions.next_id (s.db.sessions.rows ++ new_row ∷ []))
          (s.db.sessions.rows ++ new_row ∷ []);
    next_id = s.db.sessions.next_id + 1;
  }
  unfolding publish_allowed new_row Sessions.insert
  publish_allowed-rows = supersede-sessions ctx.stream s.db.sessions.next_id (timestamp now) _ _

  -- After an admission the new session is the only open one under the name of the stream.
  pub publish_allowed-one_live :
      IdsBelow s.db.sessions
      → filter (is_live_row ctx.stream) (publish_allowed now ctx a s).db.sessions.rows
        ≡ new_row ∷ []
  unfolding new_row
  publish_allowed-one_live below =
      let n = s.db.sessions.next_id in
      let old = s.db.sessions.rows in
      let stale = stale_sessions ctx.stream n (old ++ new_row ∷ []) in
      ap (λ (t : Table PublishSession). filter (is_live_row ctx.stream) t.rows) publish_allowed-rows
      ∙ ap (filter (is_live_row ctx.stream)) (
          close_stale-append (timestamp now) stale old new_row
            (stale-ne ctx.stream n (old ++ new_row ∷ [])))
      ∙ filter-append_last (is_live_row ctx.stream) _ new_row
          (close_stale-Pending ctx.stream (timestamp now) stale old
            (stale-Pending ctx.stream n new_row old below))
          new_row-live

grown :
    (n : ℕ) (rows : List PublishSession) (row : PublishSession)
    → All (λ r. r.id < n) rows
    → row.id ≡ n
    → All (λ r. r.id < n + 1) (rows ++ row ∷ [])
grown n [] row a e = (omega arith, tt)
grown n (r ∷ rows) row a e = (omega (arith, a.0), grown n rows row a.1 e)

refused-injective : {r t : Reason} → refused r ≡ refused t → r ≡ t
refused-injective h = cc

module _ (url_param : String → Option String) (verify : String → String → Bool) (now : ℕ)
    (ctx : PublishContext) (s : Server) where
  -- The database after authorization, which leaves the sessions alone.
  abbrev pub authorized : Server
  authorized = record s {
    db = (authorize_publish url_param verify now s.db ctx.stream ctx.param).1;
  }

  -- A publisher who is allowed has the only open session under the name of the stream, the one just
  -- inserted, however many were open before.
  pub handle_publish-one_live :
      {s' : Server}
      → IdsBelow s.db.sessions
      → handle_publish url_param verify now ctx s ≡ (allowed, s')
      → (r : PublishSession) × (filter (is_live_row ctx.stream) s'.db.sessions.rows ≡ r ∷ [])
        × (r.id ≡ s.db.sessions.next_id)
        × (r.status ≡ SessionStatus.allowed)
  unfolding handle_publish new_row
  handle_publish-one_live {s'} below h = elim (AuthResult-cases result) [
    | inr (reason, e) ↦ cc (rw (e, handle_publish) at h)
    | inl (a, e) ↦
        let reached = ap (λ (r : PublishAnswer × Server). r.1) (rw (e, handle_publish) at h) in
        let same = sessions-authorize_publish url_param verify now s.db ctx.stream ctx.param in
        (
          new_row now ctx a authorized,
          ap (λ (t : Server). filter (is_live_row ctx.stream) t.db.sessions.rows) (sym reached)
              ∙ publish_allowed-one_live now ctx a authorized (rw same below),
          ap (λ (t : Table PublishSession). t.next_id) same,
          refl,
        )
  ]
    where
      result : AuthResult
      result = (authorize_publish url_param verify now s.db ctx.stream ctx.param).0

  -- A publisher who is refused adds one session, which has ended, and opens none.
  pub handle_publish-refused :
      {s' : Server} {reason : Reason}
      → handle_publish url_param verify now ctx s ≡ (refused reason, s')
      → (r : PublishSession) × (s'.db.sessions.rows ≡ s.db.sessions.rows ++ r ∷ [])
        × (is_open r ≡ false)
        × (r.status ≡ SessionStatus.rejected)
        × (r.reject_reason ≡ some reason)
        × (s'.active ≡ s.active)
        × (s'.monitors ≡ s.monitors)
  unfolding handle_publish publish_rejected_row rejected_row
  handle_publish-refused {s'} {reason} h = elim (AuthResult-cases result) [
    | inl (a, e) ↦ cc (rw (e, handle_publish) at h)
    | inr (r, e) ↦
        let reached =
          sym (ap (λ (p : PublishAnswer × Server). p.1) (rw (e, handle_publish) at h)) in
        let same = sessions-authorize_publish url_param verify now s.db ctx.stream ctx.param in
        (
          rejected_row now ctx r authorized.db.sessions.next_id,
          ap (λ (t : Server). t.db.sessions.rows) reached
              ∙ ap
                  (λ (t : Table PublishSession).
                    t.rows ++ rejected_row now ctx r authorized.db.sessions.next_id ∷ [])
                  same,
          refl,
          refl,
          ap some (
              refused-injective
                (ap (λ (p : PublishAnswer × Server). p.0) (rw (e, handle_publish) at h))),
          ap (λ (t : Server). t.active) reached,
          ap (λ (t : Server). t.monitors) reached,
        )
  ]
    where
      result : AuthResult
      result = (authorize_publish url_param verify now s.db ctx.stream ctx.param).0

  -- The ids of the sessions stay below the table's sequence, whatever the answer.
  pub handle_publish-IdsBelow :
      IdsBelow s.db.sessions → IdsBelow (handle_publish url_param verify now ctx s).1.db.sessions
  unfolding handle_publish publish_rejected_row rejected_row Sessions.insert new_row
  handle_publish-IdsBelow below = elim (AuthResult-cases result) [
    | inl (a, e) ↦
        rw (e, handle_publish)
          (rw (publish_allowed-rows now ctx a authorized) (
            close_stale-ids _ (timestamp now) _ _
              (grown _ _ (new_row now ctx a authorized) kept refl)))
    | inr (r, e) ↦
        rw (e, handle_publish)
          (grown _ _ (rejected_row now ctx r authorized.db.sessions.next_id) kept refl)
  ]
    where
      result : AuthResult
      result = (authorize_publish url_param verify now s.db ctx.stream ctx.param).0

      kept : IdsBelow authorized.db.sessions
      kept = rw (sessions-authorize_publish url_param verify now s.db ctx.stream ctx.param) below
