-- ===== src/Password/Tests.antt =====
-- A hash, and the check of two passwords against it.
use constrainable.Base.{ℕ, ◌≡◌, refl, String, true, false, split_first, List, [], ◌∷◌}
use constrainable.Password.Hex.{to_hex, from_hex, bytes_eq}
use constrainable.Password.{hash_password, verify_password}

-- A digest that is the salt after one byte.
abbrev argon2id : String → List ℕ → List ℕ
argon2id plain salt = 171 ∷ salt

hashed : hash_password argon2id (1 ∷ 254 ∷ []) "secret" ≡ "01fe:ab01fe"
unfolding hash_password to_hex
hashed = refl

-- With a digest that sees no more than the salt every password is accepted.
accepted : verify_password argon2id (λ p s. false) "guess" "01fe:ab01fe" ≡ true
unfolding verify_password split_first from_hex bytes_eq
accepted = refl
