-- ===== src/FileServer/Ranges.antt =====
-- What a range that is asked for gets.
use Prim.Native.Char.{Char, code}
use constrainable.Base.{
  ℕ, ◌+◌, ◌-◌, ◌≡◌, ◌||◌, inl, inr, refl, ap, ◌∙◌, String, true, false, some, is_digit, all_chars,
  str_append, leb, ltb, decimal, value-decimal, is_digit-decimal, is_empty-decimal, Bool-cases,
  if◌then◌else◌,
}
use constrainable.FileServer.{
  span_digits, after_dash, match_here, range_exec, group_value, partial, unsatisfiable, serve_file,
}

span_digits-append :
    (s : String) (c : Char) (t : String)
    → all_chars is_digit s ≡ true
    → is_digit (code c) ≡ false
    → span_digits (str_append s (String.◌∷◌ c t)) ≡ (s, String.◌∷◌ c t)
unfolding span_digits
span_digits-append String.[] c t h e = rw e refl
span_digits-append (String.◌∷◌ d s) c t h e = elim (Bool-cases (is_digit (code d))) [
  | inl hit ↦ rw (hit, span_digits-append s c t (rw hit at h) e) refl
  | inr miss ↦ cc (rw miss at h)
]

span_digits-all : (s : String) → all_chars is_digit s ≡ true → span_digits s ≡ (s, String.[])
unfolding span_digits
span_digits-all String.[] h = refl
span_digits-all (String.◌∷◌ d s) h = elim (Bool-cases (is_digit (code d))) [
  | inl hit ↦ rw (hit, span_digits-all s (rw hit at h)) refl
  | inr miss ↦ cc (rw miss at h)
]

-- The header for the bytes from `a` to `b`.
abbrev pub range_header : ℕ → ℕ → String
range_header a b = str_append "bytes=" (str_append (decimal a) (str_append "-" (decimal b)))

match_here-header : (a b : ℕ) → match_here (range_header a b) ≡ some (decimal a, decimal b)
unfolding match_here after_dash
match_here-header a b =
    ap (λ (r : String × String). after_dash r.0 r.1)
      (span_digits-append (decimal a) "-" (decimal b) (is_digit-decimal a) refl)
    ∙ ap (λ (r : String × String). some (decimal a, r.0))
        (span_digits-all (decimal b) (is_digit-decimal b))

range_exec-header : (a b : ℕ) → range_exec (range_header a b) ≡ some (decimal a, decimal b)
unfolding range_exec
range_exec-header a b = rw (match_here-header a b, range_exec) refl

group_value-decimal : (n : ℕ) → group_value (decimal n) ≡ some n
unfolding group_value
group_value-decimal n = rw (is_empty-decimal n, value-decimal n) refl

-- A request for the bytes from `a` to `b` is answered with just that range if `a` is a byte of the
-- file and not after `b`, and is refused otherwise. The end `b` is not held against the size: one past
-- the file is promised as asked for.
pub serve_file-range_header :
    (a b size : ℕ)
    → serve_file (some (range_header a b)) size
      ≡ (if ltb b a || leb size a then unsatisfiable size else partial a b size (b - a + 1))
unfolding serve_file
serve_file-range_header a b size =
    rw (range_exec-header a b) (rw (group_value-decimal a, group_value-decimal b) refl)
