-- ===== src/Password/RoundTrip.antt =====
-- A password verifies against the hash that was made of it, and what else does.
use constrainable.Base.{
  ℕ, ◌≡◌, ◌↔◌, ◌≢◌, refl, String, Bool, true, false, List, [], ◌∷◌, str_append, is_empty,
}
use constrainable.Password.Hex.{
  IsBytes, to_hex, from_hex-to_hex, split_first-to_hex, to_hex-first, bytes_eq_iff,
}
use constrainable.Password.{
  hash_password, verify_password, is_legacy_hash, hash_token, verify_token,
}

not_legacy :
    (salt : List ℕ) (t : String)
    → salt ≢ []
    → IsBytes salt
    → is_legacy_hash (str_append (to_hex salt) t) ≡ false
unfolding is_legacy_hash
not_legacy [] t ne h = absurd (ne refl)
not_legacy (b ∷ bs) t ne h = let first = to_hex-first b bs h.0 in rw (first.2) (rw (first.3) refl)

-- A password is accepted against a hash exactly if argon2id gives for it, under the salt of the hash,
-- the bytes that it gave for the password of the hash. The salt has a byte; all are below 256.
pub verify_password-hash_password :
    (argon2id : String → List ℕ → List ℕ) (bun_verify : String → String → Bool) (salt : List ℕ)
    (plain other : String)
    → salt ≢ []
    → IsBytes salt
    → IsBytes (argon2id plain salt)
    → (verify_password argon2id bun_verify other (hash_password argon2id salt plain) ≡ true)
      ↔ (argon2id other salt ≡ argon2id plain salt)
unfolding verify_password hash_password
verify_password-hash_password argon2id bun_verify [] plain other ne bytes out = absurd (ne refl)
verify_password-hash_password argon2id bun_verify (b ∷ bs) plain other ne bytes out =
    rw
      (
        not_legacy (b ∷ bs) (str_append ":" (to_hex (argon2id plain (b ∷ bs)))) ne bytes,
        split_first-to_hex (b ∷ bs) (to_hex (argon2id plain (b ∷ bs))) bytes,
        from_hex-to_hex (b ∷ bs) bytes,
        from_hex-to_hex (argon2id plain (b ∷ bs)) out,
      )
      (bytes_eq_iff (argon2id other (b ∷ bs)) (argon2id plain (b ∷ bs)))

-- The hash of a token is not empty and verifies the token.
pub verify_token-hash_token :
    (argon2id : String → List ℕ → List ℕ) (bun_verify : String → String → Bool) (salt : List ℕ)
    (token : String)
    → salt ≢ []
    → IsBytes salt
    → IsBytes (argon2id token salt)
    → (is_empty (hash_token argon2id salt token) ≡ false)
      × (verify_token argon2id bun_verify token (hash_token argon2id salt token) ≡ true)
unfolding hash_token verify_token hash_password
verify_token-hash_token argon2id bun_verify salt token ne bytes out = (
  filled salt ne bytes,
  (verify_password-hash_password argon2id bun_verify salt token token ne bytes out).1 refl,
)
  where
    filled : (s : List ℕ) → s ≢ [] → IsBytes s → is_empty (hash_token argon2id s token) ≡ false
    filled [] n h = absurd (n refl)
    filled (b ∷ bs) n h = rw ((to_hex-first b bs h.0).2) refl
