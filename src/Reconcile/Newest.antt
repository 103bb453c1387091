-- ===== src/Reconcile/Newest.antt =====
-- The map of the newest ids by name that `reconcileStaleSessions` makes.
use constrainable.Base.{
  ℕ, ◌≤◌, ◌≡◌, sym, ap, ◌∙◌, inl, inr, String, false, some, List, [], ◌∷◌, All, Bool-cases, ltb,
  Option-cases, map_get-set_self, str_eq, eq_iff, map_get, map_get-set, arith,
}
use constrainable.Schema.{PublishSession}
use constrainable.Reconcile.{newest_by_name, note_newest}

-- The map has an id no smaller than that of any session of the name.
note_newest_max :
    (s : PublishSession) (m : List (String × ℕ))
    → (k : ℕ) × (map_get s.stream_name (note_newest s m) ≡ some k)
      × (s.id ≤ k)
      × ((j : ℕ) → map_get s.stream_name m ≡ some j → j ≤ k)
unfolding note_newest
note_newest_max s m = elim (Option-cases (map_get s.stream_name m)) [
  | inl e ↦
      rw (e, note_newest) (s.id, map_get-set_self s.stream_name s.id m, omega arith, λ j h. cc)
  | inr (cur, e) ↦ elim (Bool-cases (ltb cur s.id)) [
    | inl less ↦
        rw (e, note_newest)
          (rw less (s.id, map_get-set_self s.stream_name s.id m, omega arith, λ j h. ground arith))
    | inr more ↦ rw (e, note_newest) (rw more (cur, e, ground arith, λ j h. ground arith))
  ]
]

note_newest_self :
    (s : PublishSession) (m : List (String × ℕ)) (name : String)
    → s.stream_name ≡ name
    → (k : ℕ) × (map_get name (note_newest s m) ≡ some k)
      × (s.id ≤ k)
      × ((j : ℕ) → map_get name m ≡ some j → j ≤ k)
note_newest_self s m name e =
    let r = note_newest_max s m in
    (
      r.0,
      ap (λ n. map_get n (note_newest s m)) (sym e) ∙ r.1,
      r.2,
      λ j h. r.3 j (ap (λ n. map_get n m) e ∙ h),
    )

note_newest-other :
    (s : PublishSession) (m : List (String × ℕ)) (name : String)
    → str_eq s.stream_name name ≡ false
    → map_get name (note_newest s m) ≡ map_get name m
unfolding note_newest
note_newest-other s m name ne = ground (arith, map_get-set s.stream_name name s.id m)

note_newest-grows :
    (s : PublishSession) (m : List (String × ℕ)) (name : String) (j : ℕ)
    → map_get name m ≡ some j
    → (k : ℕ) × (map_get name (note_newest s m) ≡ some k) × (j ≤ k)
note_newest-grows s m name j h = elim (Bool-cases (str_eq s.stream_name name)) [
  | inl same ↦
      let r = note_newest_self s m name ((eq_iff s.stream_name name).0 same) in (r.0, r.1, r.3 j h)
  | inr other ↦ (j, note_newest-other s m name other ∙ h, omega arith)
]

pub newest_by_name-ge :
    (ss : List PublishSession) (m : List (String × ℕ)) (name : String) (i : ℕ)
    → map_get name (newest_by_name ss m) ≡ some i
    → ((j : ℕ) → map_get name m ≡ some j → j ≤ i) × All (λ s. s.stream_name ≡ name → s.id ≤ i) ss
unfolding newest_by_name
newest_by_name-ge [] m name i h = (λ j p. ground arith, tt)
newest_by_name-ge (s ∷ ss) m name i h =
    let r = newest_by_name-ge ss (note_newest s m) name i h in
    (
      (λ j p. let g = note_newest-grows s m name j p in omega (arith, g.2, r.0 g.0 g.1)),
      ((λ e. (let g = note_newest_self s m name e in omega (arith, g.2, r.0 g.0 g.1))), r.1),
    )
