-- ===== src/Base/Changes.antt =====
-- Filters, sorting and the first element of a list some of whose elements are changed in what neither
-- looks at.
use mathlib.Core.Path.{◌≡◌, refl, ap, ◌∙◌, subst}
use mathlib.Core.Bool.{Bool, true, false}
use mathlib.Core.Logic.{inl, inr}
use mathlib.Core.List.{List, [], ◌∷◌}
use mathlib.Core.Option.{some}
use native.Mathlib.Omega.{arith}
use constrainable.Base.Tests.{if◌then◌else◌, Bool-cases}
use constrainable.Base.Lists.{filter, head?, find?}
use constrainable.Base.Tables.{update_where, insert_by, sort_by}

module _ {A : Type 0} (p : A → Bool) (f : A → A) where
  pub filter-update_where :
      (q : A → Bool) (xs : List A)
      → ((x : A) → q (f x) ≡ q x)
      → filter q (update_where p f xs) ≡ update_where p f (filter q xs)
  filter-update_where q [] same = refl
  filter-update_where q (x ∷ xs) same = ground (arith, filter-update_where q xs same, same x)

  insert_by-update_where :
      (lt : A → A → Bool) (x : A) (ys : List A)
      → ((a b : A) → lt (f a) b ≡ lt a b)
      → ((a b : A) → lt a (f b) ≡ lt a b)
      → insert_by lt (if p x then f x else x) (update_where p f ys)
        ≡ update_where p f (insert_by lt x ys)
  insert_by-update_where lt x [] l r = refl
  insert_by-update_where lt x (y ∷ ys) l r =
      ground (arith, insert_by-update_where lt x ys l r, l y x, r y x, l y (f x), r (f y) x)

  pub sort_by-update_where :
      (lt : A → A → Bool) (xs : List A)
      → ((a b : A) → lt (f a) b ≡ lt a b)
      → ((a b : A) → lt a (f b) ≡ lt a b)
      → sort_by lt (update_where p f xs) ≡ update_where p f (sort_by lt xs)
  sort_by-update_where lt [] l r = refl
  sort_by-update_where lt (x ∷ xs) l r =
      ap (insert_by lt (if p x then f x else x)) (sort_by-update_where lt xs l r)
      ∙ insert_by-update_where lt x (sort_by lt xs) l r

  pub head?-update_where :
      (xs : List A) {x : A}
      → head? xs ≡ some x
      → head? (update_where p f xs) ≡ some (if p x then f x else x)
  head?-update_where [] h = cc
  head?-update_where (y ∷ xs) h = ground (arith, h)

  pub find?-update_where :
      (q : A → Bool) (xs : List A) {x : A}
      → ((a : A) → q (f a) ≡ q a)
      → find? q xs ≡ some x
      → find? q (update_where p f xs) ≡ some (if p x then f x else x)
  find?-update_where q [] same h = cc
  find?-update_where q (y ∷ xs) {x} same h = elim (Bool-cases (q y)) [
    | inl hit ↦
        let e : y ≡ x = cc (rw hit at h) in
        ap (λ (z : A). find? q ((if p z then f z else z) ∷ update_where p f xs)) e
        ∙ kept (subst (λ (z : A). q z ≡ true) e hit)
    | inr miss ↦ rw (changed y false miss) (find?-update_where q xs {x = x} same (rw miss at h))
  ]
    where
      changed : (z : A) (b : Bool) → q z ≡ b → q (if p z then f z else z) ≡ b
      changed z b e = elim (Bool-cases (p z)) [ inl t ↦ rw t (same z ∙ e) | inr t ↦ rw t e ]

      kept :
          q x ≡ true
          → find? q ((if p x then f x else x) ∷ update_where p f xs) ≡ some (if p x then f x else x)
      kept e = rw (changed x true e) refl
