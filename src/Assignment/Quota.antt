-- ===== src/Assignment/Quota.antt =====
-- The allocator keeps to the caps while it can, and always finds a node if there is one.
use constrainable.Base.{
  ◌≤◌, ◌⊎◌, ℕ, ◌<◌, ◌≡◌, refl, sym, ap, ◌∙◌, inl, inr, String, Bool, true, Option, some, List, [],
  ◌∷◌, Elem, filter, Elem-filter, filter-Elem, sort_by, sort_by-Elem, Elem-sort_by, ltb, arith,
}
use constrainable.Server.{MediaNodeInfo}
use constrainable.Assignment.{
  Candidate, under_quota, before_free, before_full, candidates, pick, allocate,
}

sort_some :
    (cs : List Candidate) (c : Candidate) (lt : Candidate → Candidate → Bool)
    → Elem c cs
    → (d : Candidate) × (ds : List Candidate) × (sort_by lt cs ≡ d ∷ ds)
sort_some cs c lt m = shape (sort_by lt cs) (sort_by-Elem lt cs c m)
  where
    shape :
        (ds : List Candidate) → Elem c ds → (d : Candidate) × (es : List Candidate) × (ds ≡ d ∷ es)
    shape [] n = absurd n
    shape (d ∷ ds) n = (d, ds, refl)

-- The head of a sorted list is one of its elements.
head-Elem :
    (cs : List Candidate) (lt : Candidate → Candidate → Bool) (d : Candidate) (ds : List Candidate)
    → sort_by lt cs ≡ d ∷ ds
    → Elem d cs
head-Elem cs lt d ds e = Elem-sort_by lt cs d (rw e (inl refl))

-- The pick for a candidate list that has one.
pick-Elem :
    (cs : List Candidate) (c : Candidate)
    → Elem c cs
    → (d : Candidate) × Elem d cs
      × (pick cs ≡ some d.node_id)
      × (under_quota c ≡ true → under_quota d ≡ true)
unfolding pick
pick-Elem cs c m = go (sort_by before_free (filter under_quota cs)) refl
  where
    go :
        (ds : List Candidate)
        → sort_by before_free (filter under_quota cs) ≡ ds
        → (d : Candidate) × Elem d cs
          × (pick cs ≡ some d.node_id)
          × (under_quota c ≡ true → under_quota d ≡ true)
    go (d ∷ ds) e =
        let found =
          Elem-filter under_quota cs {x = d}
            (head-Elem (filter under_quota cs) before_free d ds e) in
        (d, found.0, rw (e, pick) refl, λ q. found.1)
    go [] e =
        let r = sort_some cs c before_full m in
        (
          r.0,
          head-Elem cs before_full r.0 r.1 r.2,
          rw (e, pick) (rw r.2 refl),
          λ q. absurd (
              rw e at (
                sort_by-Elem before_free (filter under_quota cs) c
                  (filter-Elem under_quota cs m q))),
        )

candidates-Elem :
    (cap count : String → ℕ) (measured : String → Option ℕ) (nodes : List MediaNodeInfo)
    → ((n : MediaNodeInfo)
        → Elem n nodes
        → (c : Candidate) × Elem c (candidates cap count measured nodes)
          × (under_quota c ≡ ltb (count n.node_id) (cap n.node_id)))
      × ((c : Candidate)
          → Elem c (candidates cap count measured nodes)
          → (n : MediaNodeInfo) × Elem n nodes
            × (n.node_id ≡ c.node_id)
            × (under_quota c ≡ ltb (count n.node_id) (cap n.node_id)))
unfolding candidates
candidates-Elem cap count measured [] = (λ n m. absurd m, λ c m. absurd m)
candidates-Elem cap count measured (x ∷ nodes) =
    let rest = candidates-Elem cap count measured nodes in
    (
      λ n m. elim m [
        | inl e ↦ (_, inl refl, ap (λ (k : MediaNodeInfo). ltb (count k.node_id) (cap k.node_id)) e)
        | inr k ↦ (let r = rest.0 n k in (r.0, inr r.1, r.2))
      ],
      λ c m. elim m [
        | inl e ↦ (
          x,
          inl refl,
          ap (λ (k : Candidate). k.node_id) e,
          sym (ap (λ (k : Candidate). under_quota k) e),
        )
        | inr k ↦ (let r = rest.1 c k in (r.0, inr r.1, r.2, r.3))
      ],
    )

-- If a node `n` is registered, then the allocator picks a registered node, and one that is below its
-- cap unless `n` has reached its own.
pub allocate-under_quota :
    (cap count : String → ℕ) (measured : String → Option ℕ) (nodes : List MediaNodeInfo)
    (n : MediaNodeInfo)
    → Elem n nodes
    → (p : MediaNodeInfo) × Elem p nodes
      × (allocate cap count measured nodes ≡ some p.node_id)
      × ((count p.node_id < cap p.node_id) ⊎ (cap n.node_id ≤ count n.node_id))
unfolding allocate
allocate-under_quota cap count measured nodes n m =
    let both = candidates-Elem cap count measured nodes in
    let c = both.0 n m in
    let d = pick-Elem (candidates cap count measured nodes) c.0 c.1 in
    let p = both.1 d.0 d.1 in (p.0, p.1, d.2 ∙ ap some (sym p.2), ground (arith, c.2, p.3, d.3))
