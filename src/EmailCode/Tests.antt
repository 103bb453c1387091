-- ===== src/EmailCode/Tests.antt =====
-- Codes issued and guessed, and the theorems of this part at them.
use constrainable.Base.{◌≡◌, refl, true, false, String, List, [], ◌∷◌, ℕ, arith}
use constrainable.EmailCode.{issue_code, consume_code, consume_all}
use constrainable.EmailCode.Attempts.{consume_code-once, consume_code-exhausted}

right : (consume_code 2000 "a@b.c" "s1" "1234" (issue_code 1000 "a@b.c" "s1" "1234" [])).0 ≡ true
unfolding consume_code issue_code
right = refl

other_session :
    (consume_code 2000 "a@b.c" "s2" "1234" (issue_code 1000 "a@b.c" "s1" "1234" [])).0 ≡ false
unfolding consume_code issue_code
other_session = refl

consume_code-once_example :
    let first = consume_code 2000 "a@b.c" "s1" "1234" (issue_code 1000 "a@b.c" "s1" "1234" []) in
    (first.0 ≡ true) × ((consume_code 3000 "a@b.c" "s1" "1234" first.1).0 ≡ false)
consume_code-once_example =
    consume_code-once "a@b.c" "s1" 1000 2000 3000 "1234" "1234" [] tt (omega arith)

abbrev guesses : List (ℕ × String)
guesses = (2000, "1") ∷ (2001, "2") ∷ (2002, "3") ∷ (2003, "4") ∷ (2004, "5") ∷ []

consume_code-exhausted_example :
    let r = consume_all "a@b.c" "s1" guesses (issue_code 1000 "a@b.c" "s1" "1234" []) in
    (r.0 ≡ false) × ((consume_code 3000 "a@b.c" "s1" "1234" r.1).0 ≡ false)
consume_code-exhausted_example =
    consume_code-exhausted "a@b.c" "s1" 1000 3000 "1234" guesses [] tt
      (λ e. cc, (λ e. cc, (λ e. cc, (λ e. cc, (λ e. cc, tt))))) (omega arith)
