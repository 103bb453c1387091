-- ===== src/Base/Tables.antt =====
-- SQL tables as lists of rows in the order of their ids, and what the queries do to them. A row's
-- id comes from a sequence that only grows (`primaryKey({ autoIncrement: true })`).
use Prim.Native.Nat.{ℕ, ◌+◌}
use mathlib.Core.Path.{◌≡◌, refl, sym, ap}
use mathlib.Core.Bool.{Bool, true, false, not}
use mathlib.Core.Logic.{◌⊎◌, inl, inr}
use mathlib.Core.List.{List, [], ◌∷◌, ◌++◌}
use native.Mathlib.Omega.{arith}
use mathlib.Core.Option.{some, none}
use constrainable.Base.Tests.{Bool-cases, if◌then◌else◌, ◌==◌}
use constrainable.Base.Lists.{filter, find?, Elem, All}

pub record Table {ℓ} (A : Type ℓ) : Type ℓ where
  pub rows : List A
  pub next_id : ℕ

module _ {ℓ} {A : Type ℓ} where
  -- update(…).set(…).where(p)
  abbrev pub update_where : (A → Bool) → (A → A) → List A → List A
  update_where p f [] = []
  update_where p f (x ∷ xs) = (if p x then f x else x) ∷ update_where p f xs

  abbrev pub updated : (A → Bool) → (A → A) → Table A → Table A
  updated p f t = record t { rows = update_where p f t.rows }

  -- delete(…).where(p)
  abbrev pub deleted : (A → Bool) → Table A → Table A
  deleted p t = record t { rows = filter (λ x. not (p x)) t.rows }

  -- insert(…).values(…): the row is made from its id.
  abbrev pub inserted : (ℕ → A) → Table A → Table A
  inserted mk t = record { rows = t.rows ++ mk t.next_id ∷ []; next_id = t.next_id + 1 }

  -- Stable insertion, as of `orderBy` and `sort`: `lt x y` says that x comes strictly before y.
  abbrev pub insert_by : (A → A → Bool) → A → List A → List A
  insert_by lt x [] = x ∷ []
  insert_by lt x (y ∷ ys) = if lt y x then y ∷ insert_by lt x ys else x ∷ y ∷ ys

  abbrev pub sort_by : (A → A → Bool) → List A → List A
  sort_by lt [] = []
  sort_by lt (x ∷ xs) = insert_by lt x (sort_by lt xs)

module _ {A : Type 0} where
  pub Elem-append_left : (xs ys : List A) (x : A) → Elem x xs → Elem x (xs ++ ys)
  Elem-append_left [] ys x m = absurd m
  Elem-append_left (z ∷ xs) ys x (inl e) = inl e
  Elem-append_left (z ∷ xs) ys x (inr m) = inr (Elem-append_left xs ys x m)

  pub Elem-append_last : (xs : List A) (x : A) → Elem x (xs ++ x ∷ [])
  Elem-append_last [] x = inl refl
  Elem-append_last (y ∷ xs) x = inr (Elem-append_last xs x)

  pub insert_by-Elem :
      (lt : A → A → Bool) (y : A) (xs : List A) {x : A}
      → (y ≡ x) ⊎ Elem x xs
      → Elem x (insert_by lt y xs)
  insert_by-Elem lt y [] h = h
  insert_by-Elem lt y (z ∷ xs) {x} h = ground (arith, insert_by-Elem lt y xs {x = x})

  -- Sorting loses no element, and adds none.
  pub sort_by-Elem : (lt : A → A → Bool) (xs : List A) (x : A) → Elem x xs → Elem x (sort_by lt xs)
  sort_by-Elem lt [] x m = m
  sort_by-Elem lt (y ∷ xs) x m =
      insert_by-Elem lt y (sort_by lt xs) (ground (arith, sort_by-Elem lt xs x))

  Elem-insert_by :
      (lt : A → A → Bool) (y : A) (xs : List A) {x : A}
      → Elem x (insert_by lt y xs)
      → (y ≡ x) ⊎ Elem x xs
  Elem-insert_by lt y [] h = h
  Elem-insert_by lt y (z ∷ xs) {x} h = ground (arith, Elem-insert_by lt y xs {x = x})

  pub Elem-sort_by : (lt : A → A → Bool) (xs : List A) (x : A) → Elem x (sort_by lt xs) → Elem x xs
  Elem-sort_by lt [] x m = m
  Elem-sort_by lt (y ∷ xs) x m =
      ground (arith, Elem-insert_by lt y (sort_by lt xs) {x = x}, Elem-sort_by lt xs x)

  pub update_where-append :
      (p : A → Bool) (f : A → A) (xs ys : List A)
      → update_where p f (xs ++ ys) ≡ update_where p f xs ++ update_where p f ys
  update_where-append p f [] ys = refl
  update_where-append p f (x ∷ xs) ys =
      ap (◌∷◌ (if p x then f x else x)) (update_where-append p f xs ys)

  pub All-update_where :
      (P Q : A → Type 0) (p : A → Bool) (f : A → A) (xs : List A)
      → All P xs
      → ((x : A) → P x → p x ≡ true → Q (f x))
      → ((x : A) → P x → p x ≡ false → Q x)
      → All Q (update_where p f xs)
  All-update_where P Q p f [] a hit miss = tt
  All-update_where P Q p f (x ∷ xs) a hit miss =
      (head (p x) refl, All-update_where P Q p f xs a.1 hit miss)
    where
      head : (b : Bool) → p x ≡ b → Q (if b then f x else x)
      head true e = hit x a.0 e
      head false e = miss x a.0 e

  -- Only the last row passes.
  pub filter-append_last :
      (p : A → Bool) (xs : List A) (y : A)
      → All (λ x. p x ≡ false) xs
      → p y ≡ true
      → filter p (xs ++ y ∷ []) ≡ y ∷ []
  filter-append_last p [] y a e = rw e
  filter-append_last p (x ∷ xs) y a e = rw a.0 (filter-append_last p xs y a.1 e)

  -- After a change of the rows of one key, the rows of that key are changed ones.
  pub All-update_key :
      (Q : A → Type 0) (key : A → ℕ) (i : ℕ) (f : A → A) (xs : List A)
      → ((x : A) → Q (f x))
      → All (λ x. key x ≡ i → Q x) (update_where (λ x. key x == i) f xs)
  All-update_key Q key i f [] hit = tt
  All-update_key Q key i f (x ∷ xs) hit = (head (key x == i) refl, All-update_key Q key i f xs hit)
    where
      head :
          (b : Bool) → (key x == i) ≡ b → key (if b then f x else x) ≡ i → Q (if b then f x else x)
      head true e q = hit x
      head false e q = absurd (ground arith)

  pub Elem-update_where :
      (p : A → Bool) (f : A → A) (xs : List A) {x : A}
      → Elem x xs
      → p x ≡ false
      → Elem x (update_where p f xs)
  Elem-update_where p f [] m e = absurd m
  Elem-update_where p f (y ∷ xs) {x} m e = ground (arith, Elem-update_where p f xs {x = x})

  pub Elem-append_cases :
      (xs : List A) (y : A) {x : A} → Elem x (xs ++ y ∷ []) → Elem x xs ⊎ (y ≡ x)
  Elem-append_cases [] y (inl e) = inr e
  Elem-append_cases [] y (inr n) = absurd n
  Elem-append_cases (z ∷ xs) y {x} m = ground (arith, Elem-append_cases xs y {x = x})

  -- A row after a change is one of before, changed if it passes.
  pub Elem-update_cases :
      (p : A → Bool) (f : A → A) (xs : List A) {x : A}
      → Elem x (update_where p f xs)
      → (y : A) × Elem y xs × (x ≡ (if p y then f y else y))
  Elem-update_cases p f [] m = absurd m
  Elem-update_cases p f (z ∷ xs) (inl e) = (z, inl refl, sym e)
  Elem-update_cases p f (z ∷ xs) {x} (inr m) =
      let r = Elem-update_cases p f xs {x = x} m in (r.0, inr r.1, r.2)

  pub Elem-update_hit :
      (p : A → Bool) (f : A → A) (xs : List A) {x : A}
      → Elem x xs
      → p x ≡ true
      → Elem (f x) (update_where p f xs)
  Elem-update_hit p f [] m e = absurd m
  Elem-update_hit p f (y ∷ xs) {x} (inl q) e = inl (rw (q, e) refl)
  Elem-update_hit p f (y ∷ xs) (inr m) e = inr (Elem-update_hit p f xs m e)

  pub find?-append_last :
      (p : A → Bool) (xs : List A) (y : A) → p y ≡ false → find? p (xs ++ y ∷ []) ≡ find? p xs
  find?-append_last p [] y h = rw h refl
  find?-append_last p (x ∷ xs) y h = ground (arith, find?-append_last p xs y h)

  pub find?-Elem :
      (p : A → Bool) (xs : List A) {x : A}
      → Elem x xs
      → p x ≡ true
      → (y : A) × (find? p xs ≡ some y)
  find?-Elem p [] m e = absurd m
  find?-Elem p (y ∷ xs) {x} m e = elim (Bool-cases (p y)) [
    | inl hit ↦ (y, rw hit refl)
    | inr miss ↦ let r = find?-Elem p xs {x = x} (ground arith) e in (r.0, rw miss r.1)
  ]

  -- The last row, if no other passes.
  pub find?-append_hit :
      (p : A → Bool) (xs : List A) (y : A)
      → find? p xs ≡ none
      → p y ≡ true
      → find? p (xs ++ y ∷ []) ≡ some y
  find?-append_hit p [] y h e = rw e refl
  find?-append_hit p (x ∷ xs) y h e = ground (arith, find?-append_hit p xs y)
