-- ===== src/Base/Tests.antt =====
-- Boolean tests on numbers, the conditional, and the tests on optional values that JavaScript's
-- `??` and `== null` make.
use Prim.Native.Nat.{ℕ, compare, Ordering}
use mathlib.Core.Path.{◌≡◌, refl}
use mathlib.Core.Logic.{◌↔◌, ◌⊎◌, inl, inr}
use mathlib.Core.Bool.{Bool, true, false}
use mathlib.Core.Option.{Option, none, some}
use native.Mathlib.Omega.{arith}

abbrev pub ltb : ℕ → ℕ → Bool
ltb a b = elim (compare a b) [ Ordering.lt ↦ true | _ ↦ false ]

abbrev pub leb : ℕ → ℕ → Bool
leb a b = elim (compare a b) [ Ordering.gt ↦ false | _ ↦ true ]

infix 50 ◌==◌
abbrev pub ◌==◌ : ℕ → ℕ → Bool
a == b = elim (compare a b) [ Ordering.eq ↦ true | _ ↦ false ]

infix 1 if◌then◌else◌
abbrev pub if◌then◌else◌ {ℓ} : {A : Type ℓ} → Bool → A → A → A
if true then x else y = x
if false then x else y = y

pub ==_iff : (a b : ℕ) → ((a == b) ≡ true) ↔ (a ≡ b)
==_iff a b = ground arith

pub ==_refl : (a : ℕ) → (a == a) ≡ true
==_refl a = ground arith

pub if_true {ℓ} : {A : Type ℓ} (b : Bool) (x y : A) → b ≡ true → (if b then x else y) ≡ x
if_true b x y h = rw h

pub Bool-cases : (b : Bool) → (b ≡ true) ⊎ (b ≡ false)
Bool-cases true = inl refl
Bool-cases false = inr refl

module _ {ℓ} {A : Type ℓ} where
  pub Option-cases : (o : Option A) → (o ≡ none) ⊎ ((a : A) × (o ≡ some a))
  Option-cases none = inl refl
  Option-cases (some a) = inr (a, refl)

  -- o != null
  abbrev pub is_some : Option A → Bool
  is_some none = false
  is_some (some a) = true

  -- o ?? d
  abbrev pub or_else : Option A → A → A
  or_else none d = d
  or_else (some a) d = a

  -- o ?? p, where p may be missing too
  abbrev pub or_option : Option A → Option A → Option A
  or_option none p = p
  or_option (some a) p = some a

  -- Is there a value, and does it pass the test?
  abbrev pub holds : (A → Bool) → Option A → Bool
  holds p none = false
  holds p (some a) = p a

  pub holds-some :
      (p : A → Bool) (o : Option A) → holds p o ≡ true → (a : A) × (o ≡ some a) × (p a ≡ true)
  holds-some p none h = cc
  holds-some p (some a) h = (a, refl, h)

  pub or_option-some :
      (o p : Option A) {a : A} → or_option o p ≡ some a → (o ≡ some a) ⊎ (p ≡ some a)
  or_option-some none p h = inr h
  or_option-some (some a) p h = inl h
