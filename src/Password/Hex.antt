-- ===== src/Password/Hex.antt =====
-- Bytes as texts: `Buffer.toString('hex')`, and `Buffer.from(s, 'hex')`, which stops at the first
-- pair of characters that is not one of hexadecimal digits.
use Prim.Native.Char.{Char, code}
use Prim.Native.String.{char_at}
use constrainable.Base.{
  ℕ, zero, suc, ◌+◌, ◌-◌, ◌*◌, ◌/◌, ◌%◌, ◌<◌, ◌≡◌, ◌↔◌, refl, ap, String, Bool, true, false, Option,
  some, none, List, [], ◌∷◌, All, ◌==◌, ◌&&◌, leb, is_digit, str_append, split_first, if◌then◌else◌,
  arith, ◌∙◌,
}

abbrev pub IsBytes : List ℕ → Type 0
IsBytes bs = All (λ b. b < 256) bs

hex_digit : ℕ → Char
hex_digit d = char_at "0123456789abcdef" d

hex_value : ℕ → Option ℕ
hex_value c =
    if is_digit c
    then some (c - b'0')
    else if leb b'a' c && leb c b'f'
    then some (c - b'a' + 10)
    else if leb b'A' c && leb c b'F'
    then some (c - b'A' + 10)
    else none

unfoldable pub to_hex : List ℕ → String
unfolding hex_digit
to_hex [] = String.[]
to_hex (b ∷ bs) = String.◌∷◌ (hex_digit (b / 16)) (String.◌∷◌ (hex_digit (b % 16)) (to_hex bs))

unfoldable pub from_hex : String → List ℕ
unfolding hex_value
from_hex String.[] = []
from_hex (String.◌∷◌ c String.[]) = []
from_hex (String.◌∷◌ c (String.◌∷◌ d s)) = elim (hex_value (code c)) [
  | none ↦ []
  | some h ↦ elim (hex_value (code d)) [ none ↦ [] | some l ↦ (h * 16 + l) ∷ from_hex s ]
]

abbrev pub is_nil : List ℕ → Bool
is_nil [] = true
is_nil (b ∷ bs) = false

-- Buffers of the same length and content.
unfoldable pub bytes_eq : List ℕ → List ℕ → Bool
bytes_eq [] [] = true
bytes_eq [] (b ∷ bs) = false
bytes_eq (a ∷ xs) [] = false
bytes_eq (a ∷ xs) (b ∷ bs) = (a == b) && bytes_eq xs bs

pub bytes_eq_iff : (xs ys : List ℕ) → (bytes_eq xs ys ≡ true) ↔ (xs ≡ ys)
unfolding bytes_eq
bytes_eq_iff [] [] = (λ h. refl, λ h. refl)
bytes_eq_iff [] (y ∷ ys) = (λ h. cc, λ h. cc)
bytes_eq_iff (x ∷ xs) [] = (λ h. cc, λ h. cc)
bytes_eq_iff (x ∷ xs) (y ∷ ys) =
    (λ h. ground (arith, bytes_eq_iff xs ys), λ h. ground (arith, bytes_eq_iff xs ys))

-- A hexadecimal digit: its value, and that it is neither the colon nor the dollar sign.
digit_lem :
    (d : ℕ)
    → d < 16
    → (hex_value (code (hex_digit d)) ≡ some d)
      × ((code (hex_digit d) == b':') ≡ false)
      × ((b'$' == code (hex_digit d)) ≡ false)
unfolding hex_digit hex_value
digit_lem zero h = (refl, refl, refl)
digit_lem (suc zero) h = (refl, refl, refl)
digit_lem (suc (suc zero)) h = (refl, refl, refl)
digit_lem (suc (suc (suc zero))) h = (refl, refl, refl)
digit_lem (suc (suc (suc (suc zero)))) h = (refl, refl, refl)
digit_lem (suc (suc (suc (suc (suc zero))))) h = (refl, refl, refl)
digit_lem (suc (suc (suc (suc (suc (suc zero)))))) h = (refl, refl, refl)
digit_lem (suc (suc (suc (suc (suc (suc (suc zero))))))) h = (refl, refl, refl)
digit_lem (suc (suc (suc (suc (suc (suc (suc (suc zero)))))))) h = (refl, refl, refl)
digit_lem (suc (suc (suc (suc (suc (suc (suc (suc (suc zero))))))))) h = (refl, refl, refl)
digit_lem (suc (suc (suc (suc (suc (suc (suc (suc (suc (suc zero)))))))))) h = (refl, refl, refl)
digit_lem (suc (suc (suc (suc (suc (suc (suc (suc (suc (suc (suc zero))))))))))) h =
    (refl, refl, refl)
digit_lem (suc (suc (suc (suc (suc (suc (suc (suc (suc (suc (suc (suc zero)))))))))))) h =
    (refl, refl, refl)
digit_lem (suc (suc (suc (suc (suc (suc (suc (suc (suc (suc (suc (suc (suc zero))))))))))))) h =
    (refl, refl, refl)
digit_lem (suc (suc (suc (suc (suc (suc (suc (suc (suc (suc (suc (suc (suc (suc zero))))))))))))))
      h =
    (refl, refl, refl)
digit_lem
      (suc (suc (suc (suc (suc (suc (suc (suc (suc (suc (suc (suc (suc (suc (suc zero)))))))))))))))
      h =
    (refl, refl, refl)
digit_lem
      (suc
        (suc (suc (suc (suc (suc (suc (suc (suc (suc (suc (suc (suc (suc (suc (suc d))))))))))))))))
      h =
    absurd (omega (arith, h))

high : (b : ℕ) → b < 256 → b / 16 < 16
high b h = omega arith

low : (b : ℕ) → b % 16 < 16
low b = omega arith

from_hex_pair :
    (c d : Char) (s : String) (h l : ℕ)
    → hex_value (code c) ≡ some h
    → hex_value (code d) ≡ some l
    → from_hex (String.◌∷◌ c (String.◌∷◌ d s)) ≡ (h * 16 + l) ∷ from_hex s
unfolding from_hex
from_hex_pair c d s h l p q = rw (p, from_hex) (rw (q, from_hex) refl)

pub from_hex-to_hex : (bs : List ℕ) → IsBytes bs → from_hex (to_hex bs) ≡ bs
unfolding to_hex from_hex
from_hex-to_hex [] h = refl
from_hex-to_hex (b ∷ bs) h =
    from_hex_pair (hex_digit (b / 16)) (hex_digit (b % 16)) (to_hex bs) (b / 16) (b % 16)
      (digit_lem (b / 16) (high b h.0)).0 (digit_lem (b % 16) (low b)).0
    ∙ rw (from_hex-to_hex bs h.1) (ap (λ (n : ℕ). n ∷ bs) (omega arith))

-- The text of bytes has no colon, so that the first one is what is appended.
pub split_first-to_hex :
    (bs : List ℕ) (t : String)
    → IsBytes bs
    → split_first b':' (str_append (to_hex bs) (str_append ":" t)) ≡ some (to_hex bs, t)
unfolding split_first to_hex
split_first-to_hex [] t h = refl
split_first-to_hex (b ∷ bs) t h =
    rw
      (
        (digit_lem (b / 16) (high b h.0)).1,
        (digit_lem (b % 16) (low b)).1,
        split_first-to_hex bs t h.1,
      )
      refl

-- The text of bytes does not start with a dollar sign.
pub to_hex-first :
    (b : ℕ) (bs : List ℕ)
    → b < 256
    → (c : Char) × (s : String) × (to_hex (b ∷ bs) ≡ String.◌∷◌ c s) × ((b'$' == code c) ≡ false)
unfolding to_hex
to_hex-first b bs h = (hex_digit (b / 16), _, refl, (digit_lem (b / 16) (high b h)).2)
