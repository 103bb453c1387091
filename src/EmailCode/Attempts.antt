-- ===== src/EmailCode/Attempts.antt =====
-- A code is good once, until it expires, and for five guesses.
use constrainable.Base.{
  ℕ, suc, ◌+◌, ◌≤◌, ◌<◌, ◌≡◌, ◌≢◌, refl, ap, ◌∙◌, inl, inr, String, Bool, true, false, Option, some,
  none, List, [], ◌∷◌, All, length, leb, str_eq, eq_iff, eq_refl, map_get, map_set, map_delete,
  map_get-delete, map_get-set_self, map_get-delete_self, Option-cases, Bool-cases, arith,
  if◌then◌else◌,
}
use constrainable.EmailCode.{
  Entry, Codes, code_ttl_ms, max_attempts, key, sweep, issue_code, guess, consume_code, consume_all,
}

-- What a sweep leaves under a key, of a map that has the key once.
abbrev pub unexpired : ℕ → Option Entry → Option Entry
unexpired now none = none
unexpired now (some e) = if leb e.expires_at now then none else some e

-- Each key stands once.
abbrev pub IsMap : Codes → Type 0
IsMap [] = Unit
IsMap ((k, e) ∷ m) = (map_get k m ≡ none) × IsMap m

map_get-sweep :
    (now : ℕ) (k : String) (m : Codes)
    → IsMap m
    → map_get k (sweep now m) ≡ unexpired now (map_get k m)
unfolding sweep map_get
map_get-sweep now k [] v = refl
map_get-sweep now k ((j, e) ∷ m) v = ground (arith, map_get-sweep now k m v.1, eq_iff j k, v.0)

map_delete-IsMap : (k : String) (m : Codes) → IsMap m → IsMap (map_delete k m)
unfolding map_delete
map_delete-IsMap k [] v = tt
map_delete-IsMap k ((j, e) ∷ m) v =
    ground (arith, map_delete-IsMap k m v.1, map_get-delete k j m, v.0)

map_set-IsMap : (k : String) (e : Entry) (m : Codes) → IsMap m → IsMap (map_set k e m)
unfolding map_set
map_set-IsMap k e m v = (map_get-delete_self k m, map_delete-IsMap k m v)

sweep-IsMap : (now : ℕ) (m : Codes) → IsMap m → IsMap (sweep now m)
unfolding sweep
sweep-IsMap now [] v = tt
sweep-IsMap now ((j, e) ∷ m) v =
    ground (arith, sweep-IsMap now m v.1, map_get-sweep now j m v.1, v.0)

issue_code-IsMap :
    (now : ℕ) (email session code : String) (m : Codes)
    → IsMap m
    → IsMap (issue_code now email session code m)
unfolding issue_code
issue_code-IsMap now email session code m v =
    map_set-IsMap (key email session)
      (record { code = code; expires_at = now + code_ttl_ms; attempts = 0 }) (sweep now m)
      (sweep-IsMap now m v)

consume_code-IsMap :
    (now : ℕ) (email session code : String) (m : Codes)
    → IsMap m
    → IsMap (consume_code now email session code m).1
unfolding consume_code guess
consume_code-IsMap now email session code m v =
    elim (Option-cases (map_get (key email session) (sweep now m))) [
      | inl e ↦ rw (e, consume_code) (sweep-IsMap now m v)
      | inr (entry, e) ↦
          rw (e, consume_code)
            (ground (
              arith,
              map_delete-IsMap (key email session) (sweep now m) (sweep-IsMap now m v),
              map_set-IsMap (key email session) (record entry { attempts = entry.attempts + 1 })
                  (sweep now m) (sweep-IsMap now m v),
            ))
    ]

module _ (email session : String) where
  -- The entry of a code that was just issued.
  issued-get :
      (now : ℕ) (code : String) (m : Codes)
      → map_get (key email session) (issue_code now email session code m)
        ≡ some (record { code = code; expires_at = now + code_ttl_ms; attempts = 0 })
  unfolding issue_code
  issued-get now code m = map_get-set_self (key email session) _ (sweep now m)

  consume_code-none :
      (now : ℕ) (code : String) (m : Codes)
      → IsMap m
      → unexpired now (map_get (key email session) m) ≡ none
      → consume_code now email session code m ≡ (false, sweep now m)
  unfolding consume_code
  consume_code-none now code m v e =
      rw (map_get-sweep now (key email session) m v ∙ e, consume_code)

  consume_code-some :
      (now : ℕ) (code : String) (m : Codes) (e : Entry)
      → IsMap m
      → unexpired now (map_get (key email session) m) ≡ some e
      → consume_code now email session code m ≡ guess (key email session) code e (sweep now m)
  unfolding consume_code
  consume_code-some now code m e v h =
      rw (map_get-sweep now (key email session) m v ∙ h, consume_code)

  -- A code that is issued and then consumed before it expires is accepted, and accepted once: any
  -- later guess at it fails.
  pub consume_code-once :
      (now later last : ℕ) (code any_code : String) (m : Codes)
      → IsMap m
      → later < now + code_ttl_ms
      → let first = consume_code later email session code (issue_code now email session code m) in
        (first.0 ≡ true) × ((consume_code last email session any_code first.1).0 ≡ false)
  unfolding guess
  consume_code-once now later last code any_code m v soon =
      let k = key email session in
      let m1 = issue_code now email session code m in
      let v1 = issue_code-IsMap now email session code m v in
      let entry : Entry = record { code = code; expires_at = now + code_ttl_ms; attempts = 0 } in
      let fresh : unexpired later (some entry) ≡ some entry = ground arith in
      let hit =
        consume_code-some later code m1 entry v1
          (ap (unexpired later) (issued-get now code m) ∙ fresh) in
      let first : consume_code later email session code m1 ≡ (true, map_delete k (sweep later m1)) =
        hit ∙ rw eq_refl in
      let v2 = map_delete-IsMap k (sweep later m1) (sweep-IsMap later m1 v1) in
      rw first (
        refl,
        ap (λ (r : Bool × Codes). r.0)
            (consume_code-none last any_code _ v2
              (ap (unexpired last) (map_get-delete_self k (sweep later m1)))),
      )

  -- From its expiry on, no guess at a code is accepted.
  pub consume_code-expired :
      (now later : ℕ) (code any_code : String) (m : Codes)
      → IsMap m
      → now + code_ttl_ms ≤ later
      → (consume_code later email session any_code (issue_code now email session code m)).0 ≡ false
  consume_code-expired now later code any_code m v late =
      ap (λ (r : Bool × Codes). r.0)
        (consume_code-none later any_code _ (issue_code-IsMap now email session code m v)
          (ap (unexpired later) (issued-get now code m) ∙ ground arith))

  -- At most `n` more wrong guesses are open for the code.
  abbrev Left : ℕ → String → Codes → Type 0
  Left n code m =
      (e : Entry)
      → map_get (key email session) m ≡ some e
      → (e.code ≡ code) × (e.attempts < max_attempts) × (max_attempts ≤ e.attempts + n)

  wrong_entry :
      (n : ℕ) (code wrong : String) (e : Entry) (m : Codes)
      → wrong ≢ code
      → (e.code ≡ code) × (e.attempts < max_attempts) × (max_attempts ≤ e.attempts + suc n)
      → let r = guess (key email session) wrong e m in (r.0 ≡ false) × Left n code r.1
  unfolding guess
  wrong_entry n code wrong e m ne left =
      let k = key email session in
      let more = record e { attempts = e.attempts + 1 } in
      let differs : str_eq wrong e.code ≡ false = ground (arith, eq_iff wrong e.code, left.0, ne) in
      rw differs (elim (Bool-cases (leb max_attempts (e.attempts + 1))) [
        | inl last ↦ rw last (refl, λ x p. cc (map_get-delete_self k m))
        | inr again ↦
            rw again
              (refl, λ x p. ground (arith, map_get-set_self k more m, left.0, left.1, left.2))
      ])

  unexpired-some : (now : ℕ) (o : Option Entry) {e : Entry} → unexpired now o ≡ some e → o ≡ some e
  unexpired-some now none h = cc
  unexpired-some now (some x) h = ground arith

  wrong_guess :
      (now n : ℕ) (code wrong : String) (m : Codes)
      → IsMap m
      → wrong ≢ code
      → Left (suc n) code m
      → let r = consume_code now email session wrong m in (r.0 ≡ false) × Left n code r.1
  wrong_guess now n code wrong m v ne left =
      let k = key email session in
      elim (Option-cases (unexpired now (map_get k m))) [
        | inl e ↦
            rw (consume_code-none now wrong m v e) (refl, λ x p. cc (map_get-sweep now k m v, e))
        | inr (entry, e) ↦ rw (consume_code-some now wrong m entry v e) (
            wrong_entry n code wrong entry (sweep now m) ne
              (left entry (unexpired-some now (map_get k m) e)))
      ]

  wrong_guesses :
      (code : String) (gs : List (ℕ × String)) (n : ℕ) (m : Codes)
      → IsMap m
      → All (λ g. g.1 ≢ code) gs
      → Left (length gs + n) code m
      → let r = consume_all email session gs m in (r.0 ≡ false) × IsMap r.1 × Left n code r.1
  unfolding consume_all
  wrong_guesses code [] n m v wrong left =
      (refl, v, λ e p. (let l = left e p in (l.0, l.1, omega (arith, l.2))))
  wrong_guesses code ((now, c) ∷ gs) n m v wrong left =
      let g =
        wrong_guess now (length gs + n) code c m v wrong.0
          (λ e p. (let l = left e p in (l.0, l.1, omega (arith, l.2)))) in
      let rest =
        wrong_guesses code gs n _ (consume_code-IsMap now email session c m v) wrong.1 g.1 in
      rw g.0 rest

  -- After five wrong guesses, at any times, the right code is refused too.
  pub consume_code-exhausted :
      (now last : ℕ) (code : String) (gs : List (ℕ × String)) (m : Codes)
      → IsMap m
      → All (λ g. g.1 ≢ code) gs
      → max_attempts ≤ length gs
      → let r = consume_all email session gs (issue_code now email session code m) in
        (r.0 ≡ false) × ((consume_code last email session code r.1).0 ≡ false)
  consume_code-exhausted now last code gs m v wrong many =
      let k = key email session in
      let m1 = issue_code now email session code m in
      let r =
        wrong_guesses code gs 0 m1 (issue_code-IsMap now email session code m v) wrong
          (λ e p. ground (arith, issued-get now code m)) in
      let m2 = (consume_all email session gs m1).1 in
      let none_left : unexpired last (map_get k m2) ≡ none =
        elim (Option-cases (unexpired last (map_get k m2))) [
          | inl e ↦ e
          | inr (entry, e) ↦
              let l = r.2 entry (unexpired-some last (map_get k m2) e) in
              absurd (omega (arith, l.1, l.2))
        ] in
      (r.0, ap (λ (x : Bool × Codes). x.0) (consume_code-none last code m2 r.1 none_left))
