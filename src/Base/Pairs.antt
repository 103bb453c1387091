-- ===== src/Base/Pairs.antt =====
-- Lists of which every two elements stand in a relation, the earlier one first.
use native.Mathlib.Omega.{arith}
use mathlib.Core.Bool.{Bool}
use mathlib.Core.List.{List, [], ◌∷◌, ◌++◌}
use constrainable.Base.Lists.{All, filter}
use constrainable.Base.Rows.{Along, All-Along}

module _ {A : Type 0} where
  pub All-append_last :
      (P : A → Type 0) (xs : List A) (y : A) → All P xs → P y → All P (xs ++ y ∷ [])
  All-append_last P [] y a p = (p, tt)
  All-append_last P (x ∷ xs) y a p = (a.0, All-append_last P xs y a.1 p)

  pub All-filter : (P : A → Type 0) (p : A → Bool) (xs : List A) → All P xs → All P (filter p xs)
  All-filter P p [] a = tt
  All-filter P p (x ∷ xs) a = ground (arith, All-filter P p xs)

module _ {A : Type 0} (R : A → A → Type 0) where
  abbrev pub Pairwise : List A → Type 0
  Pairwise [] = Unit
  Pairwise (x ∷ xs) = All (R x) xs × Pairwise xs

  pub Pairwise-append_last :
      (xs : List A) (y : A) → Pairwise xs → All (λ x. R x y) xs → Pairwise (xs ++ y ∷ [])
  Pairwise-append_last [] y h d = (tt, tt)
  Pairwise-append_last (x ∷ xs) y h d =
      (All-append_last (R x) xs y h.0 d.0, Pairwise-append_last xs y h.1 d.1)

  pub Pairwise-filter : (p : A → Bool) (xs : List A) → Pairwise xs → Pairwise (filter p xs)
  Pairwise-filter p [] h = tt
  Pairwise-filter p (x ∷ xs) h = ground (arith, Pairwise-filter p xs, All-filter (R x) p xs)

  -- A change of the rows that the relation does not see.
  pub Pairwise-Along :
      (S : A → A → Type 0)
      → ((x y z w : A) → S x z → S y w → R x y → R z w)
      → (xs ys : List A) → Along S xs ys
      → Pairwise xs
      → Pairwise ys
  Pairwise-Along S keep [] [] a h = tt
  Pairwise-Along S keep [] (y ∷ ys) a h = absurd a
  Pairwise-Along S keep (x ∷ xs) [] a h = absurd a
  Pairwise-Along S keep (x ∷ xs) (y ∷ ys) a h = (
    All-Along S (R x) (R y) (λ u v s r. keep x u y v a.0 s r) xs ys a.1 h.0,
    Pairwise-Along S keep xs ys a.1 h.1,
  )
