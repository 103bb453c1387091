-- ===== src/EmailCode.antt =====
-- app/server/utils/email-code.ts: codes that prove an email address at registration.
pub mod Attempts
mod Tests
use constrainable.Base.{
  ℕ, ◌+◌, String, Bool, true, false, some, none, List, [], ◌∷◌, leb, str_eq, str_append, map_get,
  map_set, map_delete, if◌then◌else◌,
}

pub record Entry : Type 0 where
  pub code : String
  pub expires_at : ℕ
  pub attempts : ℕ

-- the map `codes`
abbrev pub Codes : Type 0
Codes = List (String × Entry)

-- 10 * 60 * 1000
abbrev pub code_ttl_ms : ℕ
code_ttl_ms = 600000

abbrev pub max_attempts : ℕ
max_attempts = 5

pub key : String → String → String
key email session = str_append email (str_append ":" session)

pub sweep : ℕ → Codes → Codes
sweep now [] = []
sweep now ((k, e) ∷ m) = if leb e.expires_at now then sweep now m else (k, e) ∷ sweep now m

pub issue_code : ℕ → String → String → String → Codes → Codes
unfolding sweep key map_set
issue_code now email session code m =
    map_set (key email session)
      (record { code = code; expires_at = now + code_ttl_ms; attempts = 0 }) (sweep now m)

-- A guess at an entry that is there. The comparison of the two buffers in constant time is that of
-- the texts.
pub guess : String → String → Entry → Codes → Bool × Codes
unfolding map_set map_delete
guess k code entry m =
    if str_eq code entry.code
    then (true, map_delete k m)
    else if leb max_attempts (entry.attempts + 1)
    then (false, map_delete k m)
    else (false, map_set k (record entry { attempts = entry.attempts + 1 }) m)

pub consume_code : ℕ → String → String → String → Codes → Bool × Codes
unfolding sweep key guess map_get
consume_code now email session code m =
    let m' = sweep now m in
    let k = key email session in
    elim (map_get k m') [ none ↦ (false, m') | some entry ↦ guess k code entry m' ]

-- Guesses at one code, each with its time, in order: was any of them right?
pub consume_all : String → String → List (ℕ × String) → Codes → Bool × Codes
unfolding consume_code
consume_all email session [] m = (false, m)
consume_all email session ((now, code) ∷ gs) m =
    let (ok, m') = consume_code now email session code m in
    let rest = consume_all email session gs m' in if ok then (true, m') else rest
