-- ===== src/Reconcile/Sweep.antt =====
-- What a sweep closes, and what it leaves.
use constrainable.Base.{
  ℕ, ◌≤◌, ◌≡◌, ◌≢◌, refl, inl, inr, String, true, false, not, Option, some, none, List, [], ◌∷◌,
  Elem, All, All-mono, All-of_Elem, filter, filter-Elem, sort_by-Elem, All-update_where,
  Elem-update_where, Bool-cases, holds-some, ◌==◌, map_get, arith,
}
use constrainable.Schema.{PublishSession, timestamp}
use constrainable.Database.Sessions
use constrainable.Database.Sessions.{is_open, newer}
use constrainable.Server.{Server}
use constrainable.Lifecycle.{final_status}
use constrainable.Reconcile.{
  is_remote, remote_stale, newest_by_name, contains, local_ghost, close_ghost, close_ghosts,
  remote_ghosts, local_ghosts, reconcile_stale_sessions,
}
use constrainable.Reconcile.Newest.{newest_by_name-ge}

-- No two rows share an id.
abbrev pub HasKeys : List PublishSession → Type 0
HasKeys rows = (x y : PublishSession) → Elem x rows → Elem y rows → x.id ≡ y.id → x ≡ y

-- None of the sessions has the id of the row.
abbrev Spares : List PublishSession → PublishSession → Type 0
Spares gs r = (g : PublishSession) → Elem g gs → g.id ≢ r.id

abbrev closed_as : ℕ → PublishSession → PublishSession → PublishSession
closed_as now g r = record r { ended_at = some (timestamp now); status = final_status g.compliant }

abbrev IfOpen : (PublishSession → Type 0) → PublishSession → Type 0
IfOpen P r = is_open r ≡ true → P r

-- A row that is open after the closings was open before, and is none of those closed.
close_ghosts-IfOpen :
    (P : PublishSession → Type 0) (now : ℕ) (gs : List PublishSession) (s : Server)
    → All (IfOpen P) s.db.sessions.rows
    → All (IfOpen (λ r. P r × Spares gs r)) (close_ghosts now gs s).db.sessions.rows
unfolding close_ghosts close_ghost Sessions.mark_ended
close_ghosts-IfOpen P now [] s a =
    All-mono (IfOpen P) _ s.db.sessions.rows (λ r p o. (p o, λ g m. absurd m)) a
close_ghosts-IfOpen P now (g ∷ gs) s a =
    All-mono (IfOpen (λ r. (P r × (g.id ≢ r.id)) × Spares gs r)) _ _
      (λ r p o. let q = p o in (q.0.0, spares r q.0.1 q.1))
      (close_ghosts-IfOpen (λ r. P r × (g.id ≢ r.id)) now gs (close_ghost now g s) closed)
  where
    spares : (r : PublishSession) → g.id ≢ r.id → Spares gs r → Spares (g ∷ gs) r
    spares r ne sp x (inl e) = rw (← e) ne
    spares r ne sp x (inr m) = sp x m

    closed : All (IfOpen (λ r. P r × (g.id ≢ r.id))) (close_ghost now g s).db.sessions.rows
    closed =
        All-update_where (IfOpen P) (IfOpen (λ r. P r × (g.id ≢ r.id))) (λ r. r.id == g.id)
          (closed_as now g) s.db.sessions.rows a (λ r p e o. cc) (λ r p e o. (p o, ground arith))

-- A row that none of the closings names stays as it is.
close_ghosts-Elem :
    (now : ℕ) (gs : List PublishSession) (s : Server) (r : PublishSession)
    → Elem r s.db.sessions.rows
    → Spares gs r
    → Elem r (close_ghosts now gs s).db.sessions.rows
unfolding close_ghosts close_ghost Sessions.mark_ended
close_ghosts-Elem now [] s r m sp = m
close_ghosts-Elem now (g ∷ gs) s r m sp =
    close_ghosts-Elem now gs (close_ghost now g s) r (kept (sp g (inl refl))) (λ x n. sp x (inr n))
  where
    kept : g.id ≢ r.id → Elem r (close_ghost now g s).db.sessions.rows
    kept ne =
        Elem-update_where (λ x. x.id == g.id) (closed_as now g) s.db.sessions.rows {x = r} m
          (ground arith)

-- The sessions that a sweep at `now` finds open, and those of them that it closes.
abbrev pub open_before : Server → List PublishSession
unfolding Sessions.find_active
open_before s = Sessions.find_active none s.db.sessions.rows

-- What lets a session stay open: a session of a node by its reports, a local one, if the SRS has
-- answered, by being live there and the newest open local session of its name.
pub record IsAlive (now : ℕ) (live : Option (List String)) (open_rows : List PublishSession)
    (r : PublishSession) : Type 0 where
  pub reports : is_remote r ≡ true → remote_stale now r ≡ false
  pub streams :
      (names : List String)
      → live ≡ some names
      → is_remote r ≡ false
      → contains r.stream_name names ≡ true
  pub newest :
      (names : List String)
      → live ≡ some names
      → is_remote r ≡ false
      → All
          (λ t. t.stream_name ≡ r.stream_name → t.id ≤ r.id)
          (filter (λ x. not (is_remote x)) open_rows)

not_remote_ghost :
    (now : ℕ) (open_rows : List PublishSession) (r : PublishSession)
    → Elem r open_rows
    → Spares (remote_ghosts now open_rows) r
    → is_remote r ≡ true
    → remote_stale now r ≡ false
unfolding remote_ghosts
not_remote_ghost now open_rows r m sp remote = elim (Bool-cases (remote_stale now r)) [
  | inl stale ↦ absurd (sp r (filter-Elem _ _ (filter-Elem _ open_rows m remote) stale) refl)
  | inr fresh ↦ fresh
]

not-local_ghost :
    (names : List String) (open_rows : List PublishSession) (r : PublishSession)
    → Elem r open_rows
    → Spares (local_ghosts (some names) open_rows) r
    → is_remote r ≡ false
    → local_ghost names (newest_by_name (filter (λ x. not (is_remote x)) open_rows) []) r ≡ false
unfolding local_ghosts
not-local_ghost names open_rows r m sp here =
    let newest = newest_by_name (filter (λ x. not (is_remote x)) open_rows) [] in
    elim (Bool-cases (local_ghost names newest r)) [
      | inl ghost ↦
          absurd (sp r (filter-Elem _ _ (filter-Elem _ open_rows m (rw here refl)) ghost) refl)
      | inr fine ↦ fine
    ]

IsAlive-of_spared :
    (now : ℕ) (live : Option (List String)) (open_rows : List PublishSession) (r : PublishSession)
    → Elem r open_rows
    → Spares (remote_ghosts now open_rows) r
    → Spares (local_ghosts live open_rows) r
    → IsAlive now live open_rows r
unfolding local_ghost
IsAlive-of_spared now live open_rows r m remote local = record {
  reports = not_remote_ghost now open_rows r m remote;
  streams = λ names e here. ground (arith, spared names e here);
  newest = λ names e here.
      let local_rows = filter (λ x. not (is_remote x)) open_rows in
      let found =
        holds-some (λ i. i == r.id) (map_get r.stream_name (newest_by_name local_rows []))
          (ground (arith, spared names e here)) in
      (newest_by_name-ge local_rows [] r.stream_name r.id (ground (arith, found.1, found.2))).1;
}
  where
    spared :
        (names : List String)
        → live ≡ some names
        → is_remote r ≡ false
        → local_ghost names (newest_by_name (filter (λ x. not (is_remote x)) open_rows) []) r
          ≡ false
    spared names e here = not-local_ghost names open_rows r m (rw e at local) here

find_active-Elem :
    (s : Server) (r : PublishSession)
    → Elem r s.db.sessions.rows
    → is_open r ≡ true
    → Elem r (open_before s)
unfolding open_before Sessions.find_active
find_active-Elem s r m o = sort_by-Elem newer _ r (filter-Elem _ s.db.sessions.rows m (rw o refl))

-- After a sweep, every open session was open before and is alive: hosted on a node, the node has
-- reported lately; local, and the SRS has answered, the SRS has it live and no open local session of
-- the same name is newer.
pub reconcile-open :
    (now : ℕ) (live : Option (List String)) (s : Server)
    → All
        (λ r. is_open r ≡ true → Elem r s.db.sessions.rows × IsAlive now live (open_before s) r)
        (reconcile_stale_sessions now live s).db.sessions.rows
unfolding reconcile_stale_sessions open_before
reconcile-open now live s =
    let before = open_before s in
    let none_closed =
      All-of_Elem (IfOpen (λ r. Elem r s.db.sessions.rows × Elem r before)) s.db.sessions.rows
        (λ r m o. (m, find_active-Elem s r m o)) in
    let remote_closed =
      close_ghosts-IfOpen (λ r. Elem r s.db.sessions.rows × Elem r before) now
        (remote_ghosts now before) s none_closed in
    let closed =
      close_ghosts-IfOpen
        (λ r. (Elem r s.db.sessions.rows × Elem r before) × Spares (remote_ghosts now before) r) now
        (local_ghosts live before) (close_ghosts now (remote_ghosts now before) s) remote_closed in
    All-mono _ _ _
      (λ r p o. (let q = p o in (q.0.0.0, IsAlive-of_spared now live before r q.0.0.1 q.0.1 q.1)))
      closed
