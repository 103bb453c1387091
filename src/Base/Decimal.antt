-- ===== src/Base/Decimal.antt =====
-- `${n}` for a number: its decimal digits.
use Prim.Native.Nat.{ℕ, zero, suc, ◌+◌, ◌-◌, ◌*◌, ◌/◌, ◌%◌, ◌<◌}
use Prim.Native.Char.{Char, code}
use Prim.Native.String.{String, char_at}
use mathlib.Core.Path.{◌≡◌, refl, subst}
use mathlib.Core.Logic.{inl, inr}
use mathlib.Core.Bool.{Bool, true, false}
use native.Mathlib.Omega.{arith}
use constrainable.Base.Tests.{ltb, if◌then◌else◌, Bool-cases}
use constrainable.Base.Text.{str_append, all_chars, is_digit, is_empty}

digit : ℕ → Char
digit d = char_at "0123456789" d

-- The digits of a number below the fuel.
digits : ℕ → ℕ → String
unfolding digit
digits zero n = String.[]
digits (suc k) n =
    let rest = digits k (n / 10) in
    if ltb n 10
    then String.◌∷◌ (digit n) String.[]
    else str_append rest (String.◌∷◌ (digit (n % 10)) String.[])

unfoldable pub decimal : ℕ → String
unfolding digits
decimal n = digits (n + 1) n

-- The number that digits stand for, after what stands before them.
abbrev pub value : ℕ → String → ℕ
value acc String.[] = acc
value acc (String.◌∷◌ c s) = value (acc * 10 + (code c - 48)) s

value-append : (acc : ℕ) (s t : String) → value acc (str_append s t) ≡ value (value acc s) t
value-append acc String.[] t = refl
value-append acc (String.◌∷◌ c s) t = value-append (acc * 10 + (code c - 48)) s t

code-digit : (d : ℕ) → d < 10 → code (digit d) ≡ 48 + d
unfolding digit
code-digit zero h = refl
code-digit (suc zero) h = refl
code-digit (suc (suc zero)) h = refl
code-digit (suc (suc (suc zero))) h = refl
code-digit (suc (suc (suc (suc zero)))) h = refl
code-digit (suc (suc (suc (suc (suc zero))))) h = refl
code-digit (suc (suc (suc (suc (suc (suc zero)))))) h = refl
code-digit (suc (suc (suc (suc (suc (suc (suc zero))))))) h = refl
code-digit (suc (suc (suc (suc (suc (suc (suc (suc zero)))))))) h = refl
code-digit (suc (suc (suc (suc (suc (suc (suc (suc (suc zero))))))))) h = refl
code-digit (suc (suc (suc (suc (suc (suc (suc (suc (suc (suc d)))))))))) h =
    absurd (omega (arith, h))

value-digits : (k n : ℕ) → n < k → value 0 (digits k n) ≡ n
unfolding digits
value-digits zero n h = absurd (omega (arith, h))
value-digits (suc k) n h = elim (Bool-cases (ltb n 10)) [
  | inl small ↦
      let below : n < 10 = ground (arith, small) in
      rw (digits, small) (omega (arith, code-digit n below))
  | inr large ↦
      let ten : 10 * 1 < n + 1 = ground (arith, large) in
      let rest = value-digits k (n / 10) (omega (arith, h, ten)) in
      rw (digits, large, value-append 0 (digits k (n / 10)) _, rest)
        (omega (arith, code-digit (n % 10) (omega arith)))
]

-- A number is what its digits stand for.
pub value-decimal : (n : ℕ) → value 0 (decimal n) ≡ n
unfolding decimal
value-decimal n = value-digits (n + 1) n (omega arith)

all_chars-append :
    (p : ℕ → Bool) (s t : String)
    → all_chars p s ≡ true
    → all_chars p t ≡ true
    → all_chars p (str_append s t) ≡ true
all_chars-append p String.[] t h k = k
all_chars-append p (String.◌∷◌ c s) t h k = ground (arith, all_chars-append p s t, h, k)

digit-is_digit : (d : ℕ) → d < 10 → is_digit (code (digit d)) ≡ true
digit-is_digit d h = let e = code-digit d h in ground (arith, e, h)

is_digit-digits : (k n : ℕ) → n < k → all_chars is_digit (digits k n) ≡ true
unfolding digits
is_digit-digits zero n h = absurd (omega (arith, h))
is_digit-digits (suc k) n h = elim (Bool-cases (ltb n 10)) [
  | inl small ↦
      let below : n < 10 = ground (arith, small) in
      rw (digits, small) (rw (digit-is_digit n below) refl)
  | inr large ↦
      let ten : 10 * 1 < n + 1 = ground (arith, large) in
      rw (digits, large)
        (all_chars-append is_digit (digits k (n / 10)) (String.◌∷◌ (digit (n % 10)) String.[])
          (is_digit-digits k (n / 10) (omega (arith, h, ten)))
          (rw (digit-is_digit (n % 10) (omega arith)) refl))
]

-- The decimal text has digits only.
pub is_digit-decimal : (n : ℕ) → all_chars is_digit (decimal n) ≡ true
unfolding decimal
is_digit-decimal n = is_digit-digits (n + 1) n (omega arith)

is_empty-append : (s : String) (c : Char) → is_empty (str_append s (String.◌∷◌ c String.[])) ≡ false
is_empty-append String.[] c = refl
is_empty-append (String.◌∷◌ d s) c = refl

is_empty-digits : (k n : ℕ) → is_empty (digits (suc k) n) ≡ false
unfolding digits
is_empty-digits k n = elim (Bool-cases (ltb n 10)) [
  | inl small ↦ rw small refl
  | inr large ↦ rw large (is_empty-append (digits k (n / 10)) (digit (n % 10)))
]

-- It has one at least.
pub is_empty-decimal : (n : ℕ) → is_empty (decimal n) ≡ false
unfolding decimal
is_empty-decimal n =
    let e : suc n ≡ n + 1 = omega arith in
    subst (λ (k : ℕ). is_empty (digits k n) ≡ false) e (is_empty-digits n n)
