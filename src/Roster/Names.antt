-- ===== src/Roster/Names.antt =====
-- The loop that looks for a stream name finds one, in at most one round more than there are keys.
use constrainable.Base.{
  zero, suc, ℕ, ◌+◌, ◌≤◌, ◌<◌, String, true, false, not, ◌&&◌, ◌≡◌, ◌≢◌, refl, sym, ap, ◌∙◌, inl,
  inr, some, List, [], ◌∷◌, ◌==◌, arith, str_drop, value, filter, eq_iff, length, str_length,
  str_eq, Bool-cases, str_append, decimal, value-decimal, Option-cases, find?-some,
  length-filter_drop,
}
use constrainable.Schema.{StreamKey}
use constrainable.Database.StreamKeys
use constrainable.Roster.Keys.{numbered, is_available, available_name, ensure_unique_stream_name}

drop-append : (a s : String) → str_drop (str_length a) (str_append a s) ≡ s
drop-append String.[] s = refl
drop-append (String.◌∷◌ c a) s = drop-append a s

drop-all : (a : String) → str_drop (str_length a) a ≡ ""
drop-all String.[] = refl
drop-all (String.◌∷◌ c a) = drop-all a

-- The number behind the base and the dash.
suffix : String → ℕ
suffix String.[] = 1
suffix (String.◌∷◌ c s) = value 0 s

suffix-numbered :
    (base : String) (n : ℕ) → suffix (str_drop (str_length base) (numbered base n)) ≡ n
unfolding suffix numbered
suffix-numbered base n = elim (Bool-cases (n == 1)) [
  | inl one ↦ rw (numbered, one, drop-all base) (ground (arith, one))
  | inr more ↦ rw (numbered, more, drop-append base (str_append "-" (decimal n))) (value-decimal n)
]

numbered-inj : (base : String) (m n : ℕ) → numbered base m ≡ numbered base n → m ≡ n
numbered-inj base m n h =
    sym (suffix-numbered base m)
    ∙ ap (λ name. suffix (str_drop (str_length base) name)) h
    ∙ suffix-numbered base n

-- The keys that have another name.
abbrev others : String → List StreamKey → List StreamKey
others name ks = filter (λ k. not (str_eq k.stream_name name)) ks

module _ (event enrollment : ℕ) where
  find-others :
      (name other : String) (ks : List StreamKey)
      → name ≢ other
      → StreamKeys.find_by_event_and_name event name (others other ks)
        ≡ StreamKeys.find_by_event_and_name event name ks
  unfolding StreamKeys.find_by_event_and_name
  find-others name other [] ne = refl
  find-others name other (k ∷ ks) ne =
      ground
        (arith, find-others name other ks ne, eq_iff k.stream_name name, eq_iff k.stream_name other)

  is_available-others :
      (name other : String) (ks : List StreamKey)
      → name ≢ other
      → is_available event enrollment name (others other ks) ≡ is_available event enrollment name ks
  unfolding is_available
  is_available-others name other ks ne = rw (is_available, find-others name other ks ne) refl

  available_name-others :
      (base other : String) (fuel n : ℕ) (ks : List StreamKey)
      → ((m : ℕ) → n ≤ m → numbered base m ≢ other)
      → available_name fuel event enrollment base n (others other ks)
        ≡ available_name fuel event enrollment base n ks
  unfolding available_name
  available_name-others base other zero n ks ne = refl
  available_name-others base other (suc fuel) n ks ne =
      rw
        (
          available_name,
          is_available-others (numbered base n) other ks (ne n (omega arith)),
          available_name-others base other fuel (n + 1) ks (λ m le. ne m (omega (arith, le))),
        )
        refl

  -- A name that is not available is that of a key.
  others-length :
      (name : String) (ks : List StreamKey)
      → is_available event enrollment name ks ≡ false
      → length (others name ks) < length ks
  unfolding is_available StreamKeys.find_by_event_and_name
  others-length name ks h = elim (Option-cases (StreamKeys.find_by_event_and_name event name ks)) [
    | inl e ↦ cc (rw (is_available, e) at h)
    | inr (k, e) ↦
        let (m, q) =
          find?-some (λ k. (k.event_id == event) && str_eq k.stream_name name) ks {x = k} e in
        length-filter_drop (λ k. not (str_eq k.stream_name name)) ks {x = k} m (ground (arith, q))
  ]

  available_name-some :
      (base : String) (fuel n : ℕ) (ks : List StreamKey)
      → length ks < fuel
      → (m : ℕ) × (n ≤ m)
        × (available_name fuel event enrollment base n ks ≡ some (numbered base m))
        × (is_available event enrollment (numbered base m) ks ≡ true)
  unfolding available_name
  available_name-some base zero n ks lt = absurd (omega (arith, lt))
  available_name-some base (suc fuel) n ks lt =
      elim (Bool-cases (is_available event enrollment (numbered base n) ks)) [
        | inl free ↦ (n, omega arith, rw (available_name, free) refl, free)
        | inr taken ↦
            let name = numbered base n in
            let less = others-length name ks taken in
            let (m, le, p, q) =
              available_name-some base fuel (n + 1) (others name ks) (omega (arith, less, lt)) in
            let differs : (j : ℕ) → n + 1 ≤ j → numbered base j ≢ name =
              λ j above e. omega (arith, above, numbered-inj base j n e) in
            (
              m,
              omega (arith, le),
              rw (available_name, taken)
                  (sym (available_name-others base name fuel (n + 1) ks differs) ∙ p),
              sym (is_available-others (numbered base m) name ks (differs m le)) ∙ q,
            )
      ]

-- The search for a stream name ends, whatever keys there are: it gives the base or the base with a
-- number, a name that no key of the event has, or none but a first one of the enrollment itself.
pub ensure_unique_stream_name-is_available :
    (event enrollment : ℕ) (base : String) (ks : List StreamKey)
    → (m : ℕ) × (1 ≤ m)
      × (ensure_unique_stream_name event enrollment base ks ≡ some (numbered base m))
      × (is_available event enrollment (numbered base m) ks ≡ true)
unfolding ensure_unique_stream_name
ensure_unique_stream_name-is_available event enrollment base ks =
    available_name-some event enrollment base (length ks + 1) 1 ks (omega arith)
