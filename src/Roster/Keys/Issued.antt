-- ===== src/Roster/Keys/Issued.antt =====
-- The table of stream keys after a key has been issued.
use constrainable.Base.{
  ℕ, ◌<◌, String, false, ◌&&◌, ◌≡◌, ◌≢◌, refl, sym, ap, ◌∙◌, inl, inr, some, none, ◌==◌, arith,
  Table, Elem, Option-cases, Elem-append_last, Elem-append_cases, find?-some, str_eq,
  Elem-update_cases, Elem-update_hit, ==_refl, eq_iff, Bool-cases, if_true, ==_iff,
}
use constrainable.Schema.{StreamKey}
use constrainable.Database.StreamKeys
use constrainable.Roster.Keys.{key_row, issue_key}

-- Ids of keys are different, and below the next one.
pub record HasKeyIds (t : Table StreamKey) : Type 0 where
  pub same_id : (k m : StreamKey) → Elem k t.rows → Elem m t.rows → k.id ≡ m.id → k ≡ m
  pub below : (k : StreamKey) → Elem k t.rows → k.id < t.next_id

-- A key of the event and name with the hash, that is not revoked.
pub record IsIssued (event : ℕ) (name hashed : String) (k : StreamKey) : Type 0 where
  pub event_id : k.event_id ≡ event
  pub stream_name : k.stream_name ≡ name
  pub token_hash : k.token_hash ≡ hashed
  pub revoked : k.revoked ≡ false

abbrev rotated : String → String → ℕ → StreamKey → StreamKey
rotated hashed preview enrollment k = record k {
  token_hash = hashed;
  token_preview = preview;
  revoked = false;
  last_used_at = none;
  enrollment_id = some enrollment;
}

-- In the table `t'`, made from `t`, the row with the id `i` is the issued key, and the other rows are
-- those of before.
abbrev pub HasIssued : ℕ → String → String → Table StreamKey → ℕ → Table StreamKey → Type 0
HasIssued event name hashed t i t' =
    ((k : StreamKey) × Elem k t'.rows × (k.id ≡ i) × IsIssued event name hashed k)
    × ((k : StreamKey) → Elem k t'.rows → k.id ≡ i → IsIssued event name hashed k)
    × ((k : StreamKey) → Elem k t'.rows → k.id ≢ i → Elem k t.rows)

pub HasIssued-to :
    {event : ℕ} {name hashed : String} (t : Table StreamKey) {u u' : Table StreamKey} {i j : ℕ}
    → i ≡ j
    → u ≡ u'
    → HasIssued event name hashed t i u
    → HasIssued event name hashed t j u'
HasIssued-to t p q h = rw (← p, ← q) h

module _ (event enrollment : ℕ) (name hashed preview : String) (t : Table StreamKey) where
  rotated-IsIssued :
      (c : StreamKey)
      → c.event_id ≡ event
      → c.stream_name ≡ name
      → IsIssued event name hashed (rotated hashed preview enrollment c)
  rotated-IsIssued c p q = record {
    event_id = p;
    stream_name = q;
    token_hash = refl;
    revoked = refl;
  }

  pub issue_key-IsIssued :
      HasKeyIds t
      → let r = issue_key event enrollment name hashed preview t in
        HasIssued event name hashed t r.0 r.1
  unfolding issue_key key_row StreamKeys.rotate StreamKeys.insert StreamKeys.find_by_event_and_name
  issue_key-IsIssued ids =
      elim (Option-cases (StreamKeys.find_by_event_and_name event name t.rows)) [
        | inl e ↦
            let new = key_row event enrollment name hashed preview t.next_id in
            let good : IsIssued event name hashed new = record {
              event_id = refl;
              stream_name = refl;
              token_hash = refl;
              revoked = refl;
            } in
            rw (issue_key, e)
              (
                (new, Elem-append_last t.rows new, refl, good),
                (λ k m p. elim (Elem-append_cases t.rows new {x = k} m) [
                  | inl old ↦ absurd (omega (arith, ids.below k old, p))
                  | inr q ↦ rw (← q) good
                ]),
                (λ k m ne. elim (Elem-append_cases t.rows new {x = k} m) [
                  | inl old ↦ old
                  | inr q ↦ absurd (ne (ap (λ (x : StreamKey). x.id) (sym q)))
                ]),
              )
        | inr (c, e) ↦
            let (mc, q) =
              find?-some (λ k. (k.event_id == event) && str_eq k.stream_name name) t.rows {x = c}
                e in
            let p : c.event_id ≡ event = ground (arith, q) in
            let n : c.stream_name ≡ name = ground (arith, eq_iff c.stream_name name, q) in
            let f : StreamKey → StreamKey = rotated hashed preview enrollment in
            rw (issue_key, e)
              (
                (
                  f c,
                  Elem-update_hit (λ k. k.id == c.id) f t.rows mc (==_refl c.id),
                  refl,
                  rotated-IsIssued c p n,
                ),
                (λ k m r0.
                    let (y, my, r) = Elem-update_cases (λ k. k.id == c.id) f t.rows {x = k} m in
                    elim (Bool-cases (y.id == c.id)) [
                      | inl hit ↦
                          let same : k ≡ f y = r ∙ if_true (y.id == c.id) (f y) y hit in
                          let y_is_c = ids.same_id y c my mc ((==_iff y.id c.id).0 hit) in
                          rw (same, y_is_c) (rotated-IsIssued c p n)
                      | inr miss ↦
                          let same : k ≡ y = r ∙ rw miss refl in
                          cc (
                            miss,
                            (==_iff y.id c.id).1 (ap (λ (x : StreamKey). x.id) (sym same) ∙ r0),
                          )
                    ]),
                (λ k m ne.
                    let (y, my, r) = Elem-update_cases (λ k. k.id == c.id) f t.rows {x = k} m in
                    elim (Bool-cases (y.id == c.id)) [
                      | inl hit ↦
                          let same : k ≡ f y = r ∙ if_true (y.id == c.id) (f y) y hit in
                          absurd (ne (ap (λ (x : StreamKey). x.id) same ∙ (==_iff y.id c.id).0 hit))
                      | inr miss ↦ let same : k ≡ y = r ∙ rw miss refl in rw same my
                    ]),
              )
      ]
