-- ===== src/EventService/Aliases.antt =====
-- What the writes of the table of retired keys do to its rows and to its lookup.
use constrainable.Base.{
  false, ℕ, String, ◌≡◌, ◌≢◌, ◌⊎◌, refl, sym, ap, ◌∙◌, inl, inr, Option, some, none, List, [], ◌∷◌,
  Elem, Elem-filter, Elem-append_cases, Elem-update_cases, Bool-cases, Option-cases, any,
  update_where, ◌++◌, eq_iff, str_eq, ◌==◌, holds, if◌then◌else◌, arith,
}
use constrainable.Schema.{EventSlugAlias}
use constrainable.Database.EventSlugAliases

pub Elem-remove :
    (slug : String) (xs : List EventSlugAlias) (a : EventSlugAlias)
    → Elem a (EventSlugAliases.remove slug xs)
    → Elem a xs × (a.old_slug ≢ slug)
unfolding EventSlugAliases.remove
Elem-remove slug xs a m =
    let r = Elem-filter _ xs {x = a} m in (r.0, λ e. cc (r.1, (eq_iff a.old_slug slug).1 e))

pub Elem-remove_by_event :
    (i : ℕ) (xs : List EventSlugAlias) (a : EventSlugAlias)
    → Elem a (EventSlugAliases.remove_by_event i xs)
    → Elem a xs × (a.event_id ≢ i)
unfolding EventSlugAliases.remove_by_event
Elem-remove_by_event i xs a m =
    let r = Elem-filter _ xs {x = a} m in (r.0, λ e. ground (arith, r.1))

any-false :
    (slug : String) (xs : List EventSlugAlias) (a : EventSlugAlias)
    → Elem a xs
    → any (λ b. str_eq b.old_slug slug) xs ≡ false
    → str_eq a.old_slug slug ≡ false
any-false slug [] a m h = absurd m
any-false slug (x ∷ xs) a m h = ground (arith, any-false slug xs a)

pub Elem-set :
    (slug : String) (i : ℕ) (xs : List EventSlugAlias) (a : EventSlugAlias)
    → Elem a (EventSlugAliases.set slug i xs)
    → ((a.old_slug ≡ slug) × (a.event_id ≡ i)) ⊎ (Elem a xs × (a.old_slug ≢ slug))
unfolding EventSlugAliases.set
Elem-set slug i xs a m = elim (Bool-cases (any (λ b. str_eq b.old_slug slug) xs)) [
  | inl there ↦
      let (b, mb, q) =
        Elem-update_cases (λ b. str_eq b.old_slug slug) (λ b. record b { event_id = i }) xs {x = a}
          (rw (there, EventSlugAliases.set) at m) in
      elim (Bool-cases (str_eq b.old_slug slug)) [
        | inl hit ↦
            let r : a ≡ record b { event_id = i } = q ∙ rw hit refl in
            inl (
              ap (λ (x : EventSlugAlias). x.old_slug) r ∙ (eq_iff b.old_slug slug).0 hit,
              ap (λ (x : EventSlugAlias). x.event_id) r,
            )
        | inr miss ↦
            let r : a ≡ b = q ∙ rw miss refl in
            inr (rw r (mb, λ e. cc (miss, (eq_iff b.old_slug slug).1 e)))
      ]
  | inr fresh ↦ elim (Elem-append_cases xs _ {x = a} (rw (fresh, EventSlugAliases.set) at m)) [
    | inl there ↦
        inr (there, λ e. cc (any-false slug xs a there fresh, (eq_iff a.old_slug slug).1 e))
    | inr q ↦ inl (
      ap (λ (x : EventSlugAlias). x.old_slug) (sym q),
      ap (λ (x : EventSlugAlias). x.event_id) (sym q),
    )
  ]
]

-- Whose the retired key was.
pub retired : String → List EventSlugAlias → Option ℕ
retired t [] = none
retired t (a ∷ xs) = if str_eq a.old_slug t then some a.event_id else retired t xs

pub find_by_old_slug-none :
    (t : String) (xs : List EventSlugAlias)
    → EventSlugAliases.find_by_old_slug t xs ≡ none
    → retired t xs ≡ none
unfolding EventSlugAliases.find_by_old_slug retired
find_by_old_slug-none t [] h = refl
find_by_old_slug-none t (a ∷ xs) h = ground (arith, find_by_old_slug-none t xs)

pub find_by_old_slug-some :
    (t : String) (xs : List EventSlugAlias) (a : EventSlugAlias)
    → EventSlugAliases.find_by_old_slug t xs ≡ some a
    → (retired t xs ≡ some a.event_id) × Elem a xs
unfolding EventSlugAliases.find_by_old_slug retired
find_by_old_slug-some t [] a h = cc
find_by_old_slug-some t (b ∷ xs) a h = ground (arith, find_by_old_slug-some t xs a)

pub retired-remove :
    (slug t : String) (xs : List EventSlugAlias)
    → retired t (EventSlugAliases.remove slug xs) ≡ (if str_eq slug t then none else retired t xs)
unfolding EventSlugAliases.remove retired
retired-remove slug t [] = ground arith
retired-remove slug t (a ∷ xs) =
    ground
      (arith, retired-remove slug t xs, eq_iff a.old_slug slug, eq_iff a.old_slug t, eq_iff slug t)

retired-update :
    (slug t : String) (i : ℕ) (xs : List EventSlugAlias)
    → retired t (update_where (λ a. str_eq a.old_slug slug) (λ a. record a { event_id = i }) xs) ≡ (
        if str_eq slug t
        then (if any (λ a. str_eq a.old_slug slug) xs then some i else none)
        else retired t xs)
unfolding retired
retired-update slug t i [] = ground arith
retired-update slug t i (a ∷ xs) =
    ground (
      arith,
      retired-update slug t i xs,
      eq_iff a.old_slug slug,
      eq_iff a.old_slug t,
      eq_iff slug t,
    )

retired-append :
    (slug t : String) (i : ℕ) (xs : List EventSlugAlias)
    → any (λ a. str_eq a.old_slug slug) xs ≡ false
    → retired t (xs ++ record { old_slug = slug; event_id = i } ∷ [])
      ≡ (if str_eq slug t then some i else retired t xs)
unfolding retired
retired-append slug t i [] h = ground arith
retired-append slug t i (a ∷ xs) h =
    ground (
      arith,
      retired-append slug t i xs,
      eq_iff a.old_slug slug,
      eq_iff a.old_slug t,
      eq_iff slug t,
    )

pub retired-set :
    (slug t : String) (i : ℕ) (xs : List EventSlugAlias)
    → retired t (EventSlugAliases.set slug i xs) ≡ (if str_eq slug t then some i else retired t xs)
unfolding EventSlugAliases.set
retired-set slug t i xs = elim (Bool-cases (any (λ a. str_eq a.old_slug slug) xs)) [
  | inl there ↦ rw there (retired-update slug t i xs ∙ rw there refl)
  | inr fresh ↦ rw fresh (retired-append slug t i xs fresh)
]

pub retired-Elem :
    (t : String) (xs : List EventSlugAlias) (i : ℕ)
    → retired t xs ≡ some i
    → (a : EventSlugAlias) × Elem a xs × (a.old_slug ≡ t) × (a.event_id ≡ i)
unfolding retired
retired-Elem t [] i h = cc
retired-Elem t (a ∷ xs) i h = elim (Bool-cases (str_eq a.old_slug t)) [
  | inl hit ↦ (a, inl refl, (eq_iff a.old_slug t).0 hit, ground arith)
  | inr miss ↦ let (b, m, p, q) = retired-Elem t xs i (ground arith) in (b, inr m, p, q)
]

pub retired-none :
    (t : String) (xs : List EventSlugAlias)
    → ((a : EventSlugAlias) → Elem a xs → a.old_slug ≢ t)
    → retired t xs ≡ none
unfolding retired
retired-none t [] h = refl
retired-none t (a ∷ xs) h =
    ground (arith, retired-none t xs (λ b m. h b (inr m)), eq_iff a.old_slug t, h a (inl refl))

pub retired-remove_by_event :
    (i : ℕ) (t : String) (xs : List EventSlugAlias)
    → ((a b : EventSlugAlias)
        → Elem a xs
        → Elem b xs
        → a.old_slug ≡ b.old_slug
        → a.event_id ≡ b.event_id)
    → retired t (EventSlugAliases.remove_by_event i xs)
      ≡ (if holds (λ j. j == i) (retired t xs) then none else retired t xs)
unfolding EventSlugAliases.remove_by_event retired
retired-remove_by_event i t [] u = refl
retired-remove_by_event i t (a ∷ xs) u =
    let rest = retired-remove_by_event i t xs (λ b c m n. u b c (inr m) (inr n)) in
    elim (Option-cases (retired t xs)) [
      | inl e ↦ ground (arith, rest, e)
      | inr (j, e) ↦
          let (b, m, p, q) = retired-Elem t xs j e in
          let same : a.old_slug ≡ t → a.event_id ≡ j =
            λ h. u a b (inl refl) (inr m) (h ∙ sym p) ∙ q in
          ground (arith, rest, e, same, eq_iff a.old_slug t)
    ]
