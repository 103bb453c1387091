-- ===== src/Base/Lists.antt =====
-- Lists under Boolean tests, and their lengths in native numbers.
use Prim.Native.Nat.{ℕ, suc, ◌+◌, ◌≤◌, ◌<◌}
use mathlib.Core.Path.{◌≡◌, refl}
use mathlib.Core.Logic.{◌⊎◌, inl, inr}
use mathlib.Core.Bool.{Bool, true, false, ◌||◌}
use mathlib.Core.List.{List, [], ◌∷◌, ◌++◌}
use mathlib.Core.Option.{Option, none, some}
use native.Mathlib.Omega.{arith}
use constrainable.Base.Tests.{if◌then◌else◌}

module _ {ℓ} {A : Type ℓ} where
  abbrev pub length : List A → ℕ
  length [] = 0
  length (x ∷ xs) = suc (length xs)

  pub length-append : (xs ys : List A) → length (xs ++ ys) ≡ length xs + length ys
  length-append [] ys = omega arith
  length-append (x ∷ xs) ys = omega (arith, length-append xs ys)

  abbrev pub head? : List A → Option A
  head? [] = none
  head? (x ∷ xs) = some x

  -- xs.filter(p)
  abbrev pub filter : (A → Bool) → List A → List A
  filter p [] = []
  filter p (x ∷ xs) = if p x then x ∷ filter p xs else filter p xs

  -- xs.find(p)
  abbrev pub find? : (A → Bool) → List A → Option A
  find? p [] = none
  find? p (x ∷ xs) = if p x then some x else find? p xs

  -- xs.some(p)
  abbrev pub any : (A → Bool) → List A → Bool
  any p [] = false
  any p (x ∷ xs) = p x || any p xs

  -- Every element satisfies `P`.
  abbrev pub All {κ} : (A → Type κ) → List A → Type κ
  All P [] = Unit
  All P (x ∷ xs) = P x × All P xs

module _ {A : Type 0} where
  -- `x` stands in the list.
  abbrev pub Elem : A → List A → Type 0
  Elem x [] = ⊥
  Elem x (y ∷ ys) = (y ≡ x) ⊎ Elem x ys

  pub find?-some :
      (p : A → Bool) (xs : List A) {x : A} → find? p xs ≡ some x → Elem x xs × (p x ≡ true)
  find?-some p [] h = cc
  find?-some p (y ∷ ys) {x} h = ground (arith, find?-some p ys {x = x})

  pub find?-none :
      (p : A → Bool) (xs : List A) {x : A} → find? p xs ≡ none → Elem x xs → p x ≡ false
  find?-none p [] h m = absurd m
  find?-none p (y ∷ ys) {x} h m = ground (arith, find?-none p ys {x = x})

  pub Elem-filter :
      (p : A → Bool) (xs : List A) {x : A} → Elem x (filter p xs) → Elem x xs × (p x ≡ true)
  Elem-filter p [] h = absurd h
  Elem-filter p (y ∷ ys) {x} h = ground (arith, Elem-filter p ys {x = x})

  pub filter-Elem :
      (p : A → Bool) (xs : List A) {x : A} → Elem x xs → p x ≡ true → Elem x (filter p xs)
  filter-Elem p [] h e = h
  filter-Elem p (y ∷ ys) {x} h e = ground (arith, filter-Elem p ys {x = x})

  pub All-Elem : (P : A → Type 0) (xs : List A) {x : A} → All P xs → Elem x xs → P x
  All-Elem P [] a m = absurd m
  All-Elem P (y ∷ ys) {x} a (inl e) = rw (← e) a.0
  All-Elem P (y ∷ ys) a (inr m) = All-Elem P ys a.1 m

  pub All-of_Elem : (P : A → Type 0) (xs : List A) → ((x : A) → Elem x xs → P x) → All P xs
  All-of_Elem P [] f = tt
  All-of_Elem P (y ∷ ys) f = (f y (inl refl), All-of_Elem P ys (λ x m. f x (inr m)))

  pub All-mono : (P Q : A → Type 0) (xs : List A) → ((x : A) → P x → Q x) → All P xs → All Q xs
  All-mono P Q [] f a = tt
  All-mono P Q (x ∷ xs) f a = (f x a.0, All-mono P Q xs f a.1)

  pub length-filter : (p : A → Bool) (xs : List A) → length (filter p xs) ≤ length xs
  length-filter p [] = omega arith
  length-filter p (y ∷ ys) = ground (arith, length-filter p ys)

  -- A filter that drops an element makes the list shorter.
  pub length-filter_drop :
      (p : A → Bool) (xs : List A) {x : A}
      → Elem x xs
      → p x ≡ false
      → length (filter p xs) < length xs
  length-filter_drop p [] m h = absurd m
  length-filter_drop p (y ∷ ys) {x} m h =
      ground (arith, length-filter p ys, length-filter_drop p ys {x = x})
