-- ===== src/Accounts/Unique.antt =====
-- Emails and ids of accounts, over sequences of the calls that open, change and delete accounts.
pub mod Kept
pub mod Calls
use constrainable.Base.{
  Pairwise, Pairwise-append_last, Pairwise-filter, Pairwise-Along, All-append_last, All-filter,
  arith, Along, Along-refl, Along-trans, Along-update_where, ℕ, ◌≡◌, ◌≢◌, refl, ◌∙◌, ◌==◌, Bool,
  ◌<◌, All, Table, updated, All-Along, Elem, deleted, inserted, All-of_Elem, All-Elem, sym, ◌+◌,
  All-mono,
}
use constrainable.Schema.{User}

-- Two rows with the same keys.
abbrev pub SameKeys : User → User → Type 0
SameKeys u v = (v.id ≡ u.id) × (v.email ≡ u.email)

-- Two rows that share neither.
abbrev pub Apart : User → User → Type 0
Apart u v = (v.id ≢ u.id) × (v.email ≢ u.email)

-- Ids and emails name one account each, and ids are below the sequence.
pub record IsUnique (t : Table User) : Type 0 where
  pub apart : Pairwise Apart t.rows
  pub below : All (λ u. u.id < t.next_id) t.rows

-- A table with the same rows, as far as their keys go.
pub record KeepsKeys (a b : Table User) : Type 0 where
  pub rows : Along SameKeys a.rows b.rows
  pub next_id : b.next_id ≡ a.next_id

pub KeepsKeys-refl : (t : Table User) → KeepsKeys t t
KeepsKeys-refl t = record { rows = Along-refl SameKeys (λ u. (refl, refl)) t.rows; next_id = refl }

pub KeepsKeys-trans : (a b c : Table User) → KeepsKeys a b → KeepsKeys b c → KeepsKeys a c
KeepsKeys-trans a b c h k = record {
  rows =
      Along-trans SameKeys (λ u v w p q. (q.0 ∙ p.0, q.1 ∙ p.1)) a.rows b.rows c.rows h.rows k.rows;
  next_id = k.next_id ∙ h.next_id;
}

-- An update of the rows of one account that leaves its keys.
pub update :
    (i : ℕ) (f : User → User) (t : Table User)
    → ((u : User) → SameKeys u (f u))
    → KeepsKeys t (updated (λ u. u.id == i) f t)
update i f t h = record {
  rows = Along-update_where SameKeys (λ u. u.id == i) f (λ u. (refl, refl)) h t.rows;
  next_id = refl;
}

pub KeepsKeys-IsUnique : (a b : Table User) → KeepsKeys a b → IsUnique a → IsUnique b
KeepsKeys-IsUnique a b k h = record {
  apart =
      Pairwise-Along Apart SameKeys (λ x y z w s r d. rw (s.0, s.1, r.0, r.1) d) a.rows b.rows
        k.rows h.apart;
  below =
      All-Along SameKeys (λ u. u.id < a.next_id) (λ u. u.id < b.next_id)
        (λ x y s lt. rw (s.0, k.next_id) lt) a.rows b.rows k.rows h.below;
}

-- A row that is inserted under a new email.
pub inserted-IsUnique :
    (mk : ℕ → User) (t : Table User)
    → (mk t.next_id).id ≡ t.next_id
    → ((u : User) → Elem u t.rows → u.email ≢ (mk t.next_id).email)
    → IsUnique t
    → IsUnique (inserted mk t)
inserted-IsUnique mk t own free h = record {
  apart = Pairwise-append_last Apart t.rows (mk t.next_id) h.apart (
      All-of_Elem _ t.rows (λ u m. (
        λ e.
            ground (arith, own, All-Elem (λ (x : User). x.id < t.next_id) t.rows {x = u} h.below m),
        λ e. free u m (sym e),
      )));
  below =
      All-append_last (λ (u : User). u.id < t.next_id + 1) t.rows (mk t.next_id)
        (All-mono _ _ t.rows (λ u lt. ground arith) h.below) (ground (arith, own));
}

pub deleted-IsUnique : (p : User → Bool) (t : Table User) → IsUnique t → IsUnique (deleted p t)
deleted-IsUnique p t h = record {
  apart = Pairwise-filter Apart _ t.rows h.apart;
  below = All-filter (λ u. u.id < t.next_id) _ t.rows h.below;
}
