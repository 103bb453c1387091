-- ===== src/Archive/Retention.antt =====
-- What a retention sweep takes out, and what it leaves.
use constrainable.Base.{
  ℕ, ◌-◌, ◌*◌, ◌≤◌, ◌<◌, ◌≡◌, ◌≢◌, ◌↔◌, inl, inr, refl, sym, String, Bool, true, false, not, List,
  [], ◌∷◌, Elem, All, All-Elem, Table, All-of_Elem, Elem-filter, filter-Elem, filter, ltb, length,
  ◌==◌, str_eq, eq_iff, Bool-cases, arith,
}
use mathlib.Core.Path.{subst}
use constrainable.Schema.Recording.{Recording}
use constrainable.Database.Recordings
use constrainable.Archive.{
  Archive, segments_of, remove_file, remove_files, drop_expired, day_ms, run_retention,
  sweep_expired, clean_orphan_tmp,
}
use constrainable.Schema.{timestamp}

Elem-remove_file :
    (p : String) (files : List String) (f : String)
    → Elem f (remove_file p files) ↔ (Elem f files × (p ≢ f))
Elem-remove_file p files f = (
  λ h.
      let r = Elem-filter (λ x. not (str_eq x p)) files {x = f} h in
      (r.0, λ e. absurd (ground (arith, eq_iff f p, r.1, sym e))),
  λ h. filter-Elem (λ x. not (str_eq x p)) files {x = f} h.0 (ground (arith, eq_iff f p, h.1)),
)

-- A file is left if it was there and is not one of those to remove.
Elem-remove_files :
    (ps files : List String) (f : String)
    → Elem f (remove_files ps files) ↔ (Elem f files × (Elem f ps → ⊥))
unfolding remove_files
Elem-remove_files [] files f = (λ h. (h, λ m. m), λ h. h.0)
Elem-remove_files (p ∷ ps) files f =
    let one = Elem-remove_file p files f in
    let rest = Elem-remove_files ps (remove_file p files) f in
    (
      λ h.
          let r = rest.0 h in
          let q = one.0 r.0 in (q.0, λ m. elim m [ inl e ↦ q.1 e | inr n ↦ r.1 n ]),
      λ h. rest.1 (one.1 (h.0, λ e. h.1 (inl e)), λ m. h.1 (inr m)),
    )

-- What is left after the loop: the recordings with another id than every one of the list, and the files
-- that are no segment of one of them.
drop_expired-recordings :
    (rs : List Recording) (a : Archive) (x : Recording)
    → Elem x (drop_expired rs a).recordings.rows
      ↔ (Elem x a.recordings.rows × All (λ r. r.id ≢ x.id) rs)
unfolding drop_expired Recordings.remove
drop_expired-recordings [] a x = (λ h. (h, tt), λ h. h.0)
drop_expired-recordings (r ∷ rs) a x =
    let rest =
      drop_expired-recordings rs
        (record a {
          recordings = Recordings.remove r.id a.recordings;
          files = remove_files (segments_of r) a.files;
        })
        x in
    (
      λ h.
          let q = rest.0 h in
          let m = Elem-filter (λ y. not (y.id == r.id)) a.recordings.rows {x = x} q.0 in
          (m.0, ((λ e. absurd (ground (arith, m.1, e))), q.1)),
      λ h. rest.1 (
        filter-Elem (λ y. not (y.id == r.id)) a.recordings.rows {x = x} h.0 (ground (arith, h.1.0)),
        h.1.1,
      ),
    )

drop_expired-files :
    (rs : List Recording) (a : Archive) (f : String)
    → Elem f (drop_expired rs a).files ↔ (Elem f a.files × All (λ r. Elem f (segments_of r) → ⊥) rs)
unfolding drop_expired Recordings.remove
drop_expired-files [] a f = (λ h. (h, tt), λ h. h.0)
drop_expired-files (r ∷ rs) a f =
    let rest =
      drop_expired-files rs
        (record a {
          recordings = Recordings.remove r.id a.recordings;
          files = remove_files (segments_of r) a.files;
        })
        f in
    let one = Elem-remove_files (segments_of r) a.files f in
    (
      λ h. let q = rest.0 h in let m = one.0 q.0 in (m.0, (m.1, q.1)),
      λ h. rest.1 (one.1 (h.0, h.1.0), h.1.1),
    )

-- The time before which a recording has expired, in whole seconds.
abbrev pub cutoff : ℕ → ℕ → ℕ
cutoff now days = timestamp (now - days * day_ms)

swept :
    (now days : ℕ) (a : Archive)
    → days ≢ 0
    → ((run_retention now days a).1.recordings
        ≡ (drop_expired (Recordings.find_expired (cutoff now days) a.recordings.rows) a).recordings)
      × ((run_retention now days a).1.files
          ≡ (drop_expired (Recordings.find_expired (cutoff now days) a.recordings.rows) a).files)
unfolding run_retention sweep_expired clean_orphan_tmp
swept now days a ne =
    let some_days : (days == 0) ≡ false = ground arith in
    elim (Bool-cases (length (Recordings.find_expired (cutoff now days) a.recordings.rows) == 0)) [
      | inl e ↦ rw some_days (rw e (refl, refl))
      | inr e ↦ rw some_days (rw e (refl, refl))
    ]

-- A sweep with a retention of some days leaves just the recordings that have not expired, and just the
-- files that are no segment of one that has. No two recordings have the same id.
pub run_retention-left :
    (now days : ℕ) (a : Archive)
    → days ≢ 0
    → ((x y : Recording)
        → Elem x a.recordings.rows
        → Elem y a.recordings.rows
        → x.id ≡ y.id
        → x ≡ y)
    → ((x : Recording)
        → Elem x (run_retention now days a).1.recordings.rows
          ↔ (Elem x a.recordings.rows × (cutoff now days ≤ x.started_at)))
      × ((f : String)
          → Elem f (run_retention now days a).1.files ↔ (
              Elem f a.files
              × ((r : Recording)
                  → Elem r a.recordings.rows
                  → r.started_at < cutoff now days
                  → Elem f (segments_of r)
                  → ⊥)))
unfolding Recordings.find_expired
run_retention-left now days a ne ids =
    let w = swept now days a ne in
    let expired = Recordings.find_expired (cutoff now days) a.recordings.rows in
    (
      λ x.
          let left = drop_expired-recordings expired a x in
          (
            λ h.
                let q = left.0 (subst (λ (t : Table Recording). Elem x t.rows) w.0 h) in
                (q.0, young x q.0 q.1),
            λ h.
                subst (λ (t : Table Recording). Elem x t.rows) (sym w.0)
                  (left.1 (h.0, All-of_Elem _ expired (λ r m e. apart x r h.0 h.1 m e))),
          ),
      λ f.
          let left = drop_expired-files expired a f in
          (
            λ h.
                let q = left.0 (subst (Elem f) w.1 h) in
                (
                  q.0,
                  λ r m old n.
                      All-Elem (λ (y : Recording). Elem f (segments_of y) → ⊥) expired q.1
                        (filter-Elem is_old a.recordings.rows {x = r} m (ground arith)) n,
                ),
            λ h. subst (Elem f) (sym w.1) (
                left.1 (
                  h.0,
                  All-of_Elem _ expired (λ r m n.
                      let e = Elem-filter is_old a.recordings.rows {x = r} m in
                      h.1 r e.0 (ground (arith, e.1)) n),
                )),
          ),
    )
  where
    is_old : Recording → Bool
    is_old r = ltb r.started_at (cutoff now days)

    young :
        (x : Recording)
        → Elem x a.recordings.rows
        → All (λ r. r.id ≢ x.id) (filter is_old a.recordings.rows)
        → cutoff now days ≤ x.started_at
    young x m all = elim (Bool-cases (is_old x)) [
      | inl old ↦ absurd (
          All-Elem (λ (r : Recording). r.id ≢ x.id) (filter is_old a.recordings.rows) all
            (filter-Elem is_old a.recordings.rows {x = x} m old) refl)
      | inr new ↦ ground (arith, new)
    ]

    apart :
        (x r : Recording)
        → Elem x a.recordings.rows
        → cutoff now days ≤ x.started_at
        → Elem r (filter is_old a.recordings.rows)
        → r.id ≢ x.id
    apart x r m late n e =
        let q = Elem-filter is_old a.recordings.rows {x = r} n in
        let same = ids r x q.0 m e in
        absurd (ground (arith, subst (λ (y : Recording). is_old y ≡ true) same q.1, late))
