-- ===== src/Registration.antt =====
-- app/server/utils/registration.ts: which email addresses may register. `is_match` is
-- `picomatch.isMatch` of a text and a list of globs, without regard to case.
use constrainable.Base.{
  String, Bool, true, false, not, ◌&&◌, ◌||◌, some, none, List, [], ◌∷◌, any, ◌==◌, is_empty,
  is_space, all_chars, split_first, trim, to_lower_case, includes, join, str_append, if◌then◌else◌,
}
use Prim.Native.Char.{code}

-- `registration` of the configuration
pub record RegistrationConfig : Type 0 where
  pub whitelist_enabled : Bool
  pub whitelist : List String
  pub disallowed_patterns : List String

-- [^@\s]+
abbrev pub is_part : String → Bool
is_part s = not (is_empty s) && all_chars (λ c. not (c == b'@') && not (is_space c)) s

-- Does a dot with something after it stand in the text?
has_dot : String → Bool
has_dot String.[] = false
has_dot (String.◌∷◌ c s) = ((code c == b'.') && not (is_empty s)) || has_dot s

-- [^@\s]+\.[^@\s]+
is_domain : String → Bool
unfolding has_dot
is_domain String.[] = false
is_domain (String.◌∷◌ c s) = is_part (String.◌∷◌ c s) && has_dot s

-- EMAIL_RE
unfoldable pub is_email : String → Bool
unfolding is_domain
is_email s = elim (split_first b'@' s) [
  | none ↦ false
  | some (part, domain) ↦ is_part part && is_domain domain
]

unfoldable pub normalize_email : String → String
normalize_email email = to_lower_case (trim email)

unfoldable pub is_disallowed_email : RegistrationConfig → String → Bool
is_disallowed_email cfg email =
    any (λ p. not (is_empty p) && includes (to_lower_case p) (to_lower_case email))
      cfg.disallowed_patterns

abbrev is_nil : List String → Bool
is_nil [] = true
is_nil (x ∷ xs) = false

email_matches_whitelist :
    (is_match : String → List String → Bool) (email : String) (patterns : List String) → Bool
email_matches_whitelist is_match email patterns =
    if is_nil patterns then false else is_match (to_lower_case email) patterns

unfoldable pub passes_whitelist :
    (is_match : String → List String → Bool) → RegistrationConfig → String → Bool
unfolding email_matches_whitelist
passes_whitelist is_match cfg email =
    if not cfg.whitelist_enabled
    then true
    else if is_nil cfg.whitelist
    then true
    else email_matches_whitelist is_match email cfg.whitelist

unfoldable pub describe_email_rules : RegistrationConfig → String
describe_email_rules cfg =
    if cfg.whitelist_enabled && not (is_nil cfg.whitelist)
    then str_append "allowed email patterns: " (join ", " cfg.whitelist)
    else ""
