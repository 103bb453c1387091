-- ===== src/Lifecycle/Stale.antt =====
-- The sessions that a new publisher supersedes: which they are, and how closing them changes the
-- table.
use constrainable.Base.{
  ℕ, ◌<◌, ◌≡◌, ◌≢◌, refl, ap, ◌∙◌, inl, inr, String, Bool, true, false, ◌&&◌, some, none, List, [],
  ◌∷◌, ◌++◌, Elem, All, All-Elem, All-of_Elem, Elem-filter, filter-Elem, sort_by-Elem, update_where,
  update_where-append, All-update_where, Elem-append_left, Bool-cases, ◌==◌, str_eq, arith, Table,
}
use constrainable.Schema.{PublishSession, timestamp}
use constrainable.Database.Sessions
use constrainable.Database.Sessions.{is_open, newer}
use constrainable.Server.{Server}
use constrainable.Lifecycle.{final_status, supersede, stale_sessions}

-- Every row was made by the table's sequence.
abbrev pub IdsBelow : Table PublishSession → Type 0
IdsBelow t = All (λ r. r.id < t.next_id) t.rows

-- Open, under the name of the stream.
abbrev pub is_live_row : String → PublishSession → Bool
is_live_row stream r = str_eq r.stream_name stream && is_open r

abbrev has_id_of : PublishSession → PublishSession → Bool
has_id_of x r = r.id == x.id

abbrev closed_as : ℕ → PublishSession → PublishSession → PublishSession
closed_as t x r = record r { ended_at = some (timestamp t); status = final_status x.compliant }

pub close_stale : ℕ → List PublishSession → List PublishSession → List PublishSession
close_stale t [] rows = rows
close_stale t (x ∷ xs) rows = close_stale t xs (update_where (has_id_of x) (closed_as t x) rows)

pub supersede-sessions :
    (stream : String) (n t : ℕ) (stale : List PublishSession) (s : Server)
    → (supersede stream n t stale s).db.sessions
      ≡ record { rows = close_stale t stale s.db.sessions.rows; next_id = s.db.sessions.next_id }
unfolding supersede close_stale Sessions.mark_ended
supersede-sessions stream n t [] s = refl
supersede-sessions stream n t (x ∷ xs) s = supersede-sessions stream n t xs _

pub supersede-monitors :
    (stream : String) (n t : ℕ) (stale : List PublishSession) (s : Server)
    → (supersede stream n t stale s).monitors ≡ s.monitors
unfolding supersede
supersede-monitors stream n t [] s = refl
supersede-monitors stream n t (x ∷ xs) s = supersede-monitors stream n t xs _

-- Open under the name only if still to be closed.
abbrev Pending : String → List PublishSession → PublishSession → Type 0
Pending stream stale r =
    is_live_row stream r ≡ true → (x : PublishSession) × Elem x stale × (x.id ≡ r.id)

pub close_stale-Pending :
    (stream : String) (t : ℕ) (stale rows : List PublishSession)
    → All (Pending stream stale) rows
    → All (λ r. is_live_row stream r ≡ false) (close_stale t stale rows)
unfolding close_stale
close_stale-Pending stream t [] rows a = All-of_Elem _ rows (λ r m.
    elim (Bool-cases (is_live_row stream r)) [
      | inl e ↦ absurd (All-Elem _ rows a m e).1
      | inr e ↦ e
    ])
close_stale-Pending stream t (x ∷ xs) rows a = close_stale-Pending stream t xs _ (
    All-update_where (Pending stream (x ∷ xs)) (Pending stream xs) (has_id_of x) (closed_as t x)
      rows a (λ r p e live. absurd (ground arith)) (λ r p e live. other r e (p live)))
  where
    other :
        (r : PublishSession)
        → has_id_of x r ≡ false
        → (y : PublishSession) × Elem y (x ∷ xs) × (y.id ≡ r.id)
        → (y : PublishSession) × Elem y xs × (y.id ≡ r.id)
    other r e (y, inl same, q) = absurd (ground (arith, ap (λ (z : PublishSession). z.id) same))
    other r e (y, inr m, q) = (y, m, q)

pub close_stale-append :
    (t : ℕ) (stale rows : List PublishSession) (row : PublishSession)
    → All (λ x. x.id ≢ row.id) stale
    → close_stale t stale (rows ++ row ∷ []) ≡ close_stale t stale rows ++ row ∷ []
unfolding close_stale
close_stale-append t [] rows row a = refl
close_stale-append t (x ∷ xs) rows row a =
    ap (close_stale t xs) (update_where-append (has_id_of x) (closed_as t x) rows (row ∷ []) ∙ kept)
    ∙ close_stale-append t xs (update_where (has_id_of x) (closed_as t x) rows) row a.1
  where
    kept :
        update_where (has_id_of x) (closed_as t x) rows
          ++ update_where (has_id_of x) (closed_as t x) (row ∷ [])
        ≡ update_where (has_id_of x) (closed_as t x) rows ++ row ∷ []
    kept = ap (λ z. update_where (has_id_of x) (closed_as t x) rows ++ z ∷ []) (ground (arith, a.0))

-- The stale sessions are the other open ones of the name.
pub stale-Pending :
    (stream : String) (n : ℕ) (row : PublishSession) (rows : List PublishSession)
    → All (λ r. r.id < n) rows
    → All (Pending stream (stale_sessions stream n (rows ++ row ∷ []))) rows
unfolding stale_sessions Sessions.find_active
stale-Pending stream n row rows below = All-of_Elem _ rows (λ r m live. (
  r,
  filter-Elem _ (Sessions.find_active none (rows ++ row ∷ []))
      (sort_by-Elem newer _ r
        (filter-Elem _ (rows ++ row ∷ []) (Elem-append_left rows (row ∷ []) r m) (ground arith)))
      (ground (arith, All-Elem (λ (z : PublishSession). z.id < n) rows below m)),
  refl,
))

pub stale-ne :
    (stream : String) (n : ℕ) (rows : List PublishSession)
    → All (λ x. x.id ≢ n) (stale_sessions stream n rows)
unfolding stale_sessions
stale-ne stream n rows =
    All-of_Elem _ (stale_sessions stream n rows)
      (λ x m e. ground (arith, (Elem-filter _ (Sessions.find_active none rows) {x = x} m).1))

pub close_stale-ids :
    (n t : ℕ) (stale rows : List PublishSession)
    → All (λ r. r.id < n) rows
    → All (λ r. r.id < n) (close_stale t stale rows)
unfolding close_stale
close_stale-ids n t [] rows a = a
close_stale-ids n t (x ∷ xs) rows a = close_stale-ids n t xs _ (
    All-update_where (λ (r : PublishSession). r.id < n) (λ (r : PublishSession). r.id < n)
      (has_id_of x) (closed_as t x) rows a (λ r b e. b) (λ r b e. b))
