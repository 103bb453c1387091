-- ===== src/Base/Rows.antt =====
-- Two lists of the same length whose elements are related one by one: a table before and after a
-- change of its rows.
use mathlib.Core.Path.{◌≡◌, refl, subst}
use mathlib.Core.Logic.{inl, inr}
use mathlib.Core.Bool.{Bool, true, false}
use mathlib.Core.List.{List, [], ◌∷◌}
use mathlib.Core.Option.{some}
use constrainable.Base.Tests.{if◌then◌else◌, Bool-cases}
use constrainable.Base.Lists.{find?, Elem, All}
use constrainable.Base.Tables.{update_where}

module _ {A : Type 0} (R : A → A → Type 0) where
  abbrev pub Along : List A → List A → Type 0
  Along [] [] = Unit
  Along [] (y ∷ ys) = ⊥
  Along (x ∷ xs) [] = ⊥
  Along (x ∷ xs) (y ∷ ys) = R x y × Along xs ys

  pub Along-refl : ((x : A) → R x x) → (xs : List A) → Along xs xs
  Along-refl r [] = tt
  Along-refl r (x ∷ xs) = (r x, Along-refl r xs)

  pub Along-trans :
      ((x y z : A) → R x y → R y z → R x z)
      → (xs ys zs : List A) → Along xs ys
      → Along ys zs
      → Along xs zs
  Along-trans t [] [] [] h k = tt
  Along-trans t [] [] (z ∷ zs) h k = absurd k
  Along-trans t [] (y ∷ ys) zs h k = absurd h
  Along-trans t (x ∷ xs) [] zs h k = absurd h
  Along-trans t (x ∷ xs) (y ∷ ys) [] h k = absurd k
  Along-trans t (x ∷ xs) (y ∷ ys) (z ∷ zs) h k = (t x y z h.0 k.0, Along-trans t xs ys zs h.1 k.1)

  pub Along-update_where :
      (p : A → Bool) (f : A → A)
      → ((x : A) → R x x)
      → ((x : A) → R x (f x))
      → (xs : List A) → Along xs (update_where p f xs)
  Along-update_where p f same step [] = tt
  Along-update_where p f same step (x ∷ xs) = (head (p x), Along-update_where p f same step xs)
    where
      head : (b : Bool) → R x (if b then f x else x)
      head true = step x
      head false = same x

  -- A search for what the relation keeps finds the related element.
  pub find?-Along :
      (p : A → Bool)
      → ((x y : A) → R x y → p y ≡ p x)
      → (xs ys : List A) {x : A} → Along xs ys
      → find? p xs ≡ some x
      → (y : A) × (find? p ys ≡ some y) × R x y
  find?-Along p keep [] ys a h = cc
  find?-Along p keep (z ∷ xs) [] a h = absurd a
  find?-Along p keep (z ∷ xs) (y ∷ ys) {x} a h = elim (Bool-cases (p z)) [
    | inl hit ↦
        let same : z ≡ x = cc (rw hit at h) in
        (y, rw (keep z y a.0, hit) refl, subst (λ (w : A). R w y) same a.0)
    | inr miss ↦
        let r = find?-Along p keep xs ys {x = x} a.1 (rw miss at h) in
        (r.0, rw (keep z y a.0, miss) r.1, r.2)
  ]

  pub Elem-Along : (xs ys : List A) {y : A} → Along xs ys → Elem y ys → (x : A) × Elem x xs × R x y
  Elem-Along [] [] a m = absurd m
  Elem-Along [] (z ∷ ys) a m = absurd a
  Elem-Along (x ∷ xs) [] a m = absurd m
  Elem-Along (x ∷ xs) (z ∷ ys) a (inl e) = (x, inl refl, subst (λ (w : A). R x w) e a.0)
  Elem-Along (x ∷ xs) (z ∷ ys) {y} a (inr m) =
      let r = Elem-Along xs ys {y = y} a.1 m in (r.0, inr r.1, r.2)

  -- What holds of every element, where the relation carries it over.
  pub All-Along :
      (P Q : A → Type 0)
      → ((x y : A) → R x y → P x → Q y)
      → (xs ys : List A) → Along xs ys
      → All P xs
      → All Q ys
  All-Along P Q step [] [] a h = tt
  All-Along P Q step [] (y ∷ ys) a h = absurd a
  All-Along P Q step (x ∷ xs) [] a h = absurd a
  All-Along P Q step (x ∷ xs) (y ∷ ys) a h = (step x y a.0 h.0, All-Along P Q step xs ys a.1 h.1)

pub Along-mono :
    {A : Type 0} (R S : A → A → Type 0)
    → ((x y : A) → R x y → S x y)
    → (xs ys : List A) → Along R xs ys
    → Along S xs ys
Along-mono R S f [] [] a = tt
Along-mono R S f [] (y ∷ ys) a = absurd a
Along-mono R S f (x ∷ xs) [] a = absurd a
Along-mono R S f (x ∷ xs) (y ∷ ys) a = (f x y a.0, Along-mono R S f xs ys a.1)
