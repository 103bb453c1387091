-- ===== src/Password.antt =====
-- app/server/utils/password.ts with its uses in app/server/utils/token.ts, and app/server/utils/authmod.ts. `argon2id` is that of @noble/hashes,
-- `bun_verify` is `Bun.password.verify`, `md5_base64` is the base64 text of an MD5 digest, and `encrypt`
-- and `decrypt` are those of app/server/utils/crypto.ts. A byte is a number below 256; `salt` is what
-- `randomBytes` gives.
pub mod Hex
pub mod RoundTrip
mod Tests
use constrainable.Base.{
  ℕ, String, Bool, false, some, none, List, str_eq, str_append, starts_with, split_first,
  if◌then◌else◌,
}
use constrainable.Password.Hex.{to_hex, from_hex, bytes_eq, is_nil}

abbrev pub legacy_phc_prefix : String
legacy_phc_prefix = "$argon2"

pub is_legacy_hash : String → Bool
is_legacy_hash stored = starts_with legacy_phc_prefix stored

-- `salt` is random.
pub hash_password : (argon2id : String → List ℕ → List ℕ) (salt : List ℕ) (plain : String) → String
hash_password argon2id salt plain =
    str_append (to_hex salt) (str_append ":" (to_hex (argon2id plain salt)))

unfoldable pub verify_password :
    (argon2id : String → List ℕ → List ℕ) (bun_verify : String → String → Bool)
    (plain stored : String)
    → Bool
unfolding is_legacy_hash
verify_password argon2id bun_verify plain stored =
    if is_legacy_hash stored then bun_verify plain stored else elim (split_first b':' stored) [
      | none ↦ false
      | some (salt_hex, hash_hex) ↦
          if is_nil (from_hex salt_hex)
          then false
          else bytes_eq (argon2id plain (from_hex salt_hex)) (from_hex hash_hex)
    ]

-- `hashToken` and `verifyToken` of app/server/utils/token.ts
unfoldable pub hash_token :
    (argon2id : String → List ℕ → List ℕ) (salt : List ℕ) (token : String) → String
hash_token argon2id salt token = hash_password argon2id salt token

unfoldable pub verify_token :
    (argon2id : String → List ℕ → List ℕ) (bun_verify : String → String → Bool)
    (token hash : String)
    → Bool
verify_token argon2id bun_verify token hash = verify_password argon2id bun_verify token hash

-- librtmp's `salted2`
compute_verifier : (md5_base64 : String → String) (user salt password : String) → String
compute_verifier md5_base64 user salt password =
    md5_base64 (str_append user (str_append salt password))

-- The salt, which is random, and the verifier for the table.
unfoldable pub mint_authmod :
    (md5_base64 encrypt : String → String) (salt user password : String) → String × String
unfolding compute_verifier
mint_authmod md5_base64 encrypt salt user password =
    (salt, encrypt (compute_verifier md5_base64 user salt password))

unfoldable pub verify_response :
    (md5_base64 : String → String) (stored_verifier opaque challenge response : String) → Bool
verify_response md5_base64 stored_verifier opaque challenge response =
    str_eq (md5_base64 (str_append stored_verifier (str_append opaque challenge))) response
