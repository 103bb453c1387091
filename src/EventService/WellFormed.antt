-- ===== src/EventService/WellFormed.antt =====
-- What holds of the tables of events and aliases in every state: ids and keys name one event each, and
-- a retired key to one event that is there.
use constrainable.Base.{
  if_true, Elem-update_hit, Elem-update_where, ◌⊎◌, ℕ, ◌<◌, ◌≡◌, ◌≢◌, refl, sym, ap, ◌∙◌, inl, inr,
  List, [], ◌∷◌, Elem, Elem-append_cases, Elem-append_left, Elem-update_cases, Elem-filter,
  filter-Elem, ==_iff, Bool-cases, Table, updated, inserted, deleted, ◌==◌, arith,
}
use constrainable.Schema.{Event, EventSlugAlias}

pub record IsWellFormed (t : Table Event) (aliases : List EventSlugAlias) : Type 0 where
  pub same_id : (e f : Event) → Elem e t.rows → Elem f t.rows → e.id ≡ f.id → e ≡ f
  pub same_slug : (e f : Event) → Elem e t.rows → Elem f t.rows → e.slug ≡ f.slug → e ≡ f
  pub below : (e : Event) → Elem e t.rows → e.id < t.next_id
  pub owned :
      (a : EventSlugAlias) → Elem a aliases → (e : Event) × Elem e t.rows × (e.id ≡ a.event_id)
  pub same_alias :
      (a b : EventSlugAlias)
      → Elem a aliases
      → Elem b aliases
      → a.old_slug ≡ b.old_slug
      → a.event_id ≡ b.event_id
  pub current :
      (a : EventSlugAlias) (e : Event)
      → Elem a aliases
      → Elem e t.rows
      → a.old_slug ≡ e.slug
      → a.event_id ≡ e.id

module _ (t : Table Event) (aliases : List EventSlugAlias) (w : IsWellFormed t aliases) where
  -- Any aliases will do that keep their owners right.
  pub aliases-IsWellFormed :
      (bs : List EventSlugAlias)
      → ((a : EventSlugAlias) → Elem a bs → (e : Event) × Elem e t.rows × (e.id ≡ a.event_id))
      → ((a b : EventSlugAlias)
          → Elem a bs
          → Elem b bs
          → a.old_slug ≡ b.old_slug
          → a.event_id ≡ b.event_id)
      → ((a : EventSlugAlias) (e : Event)
          → Elem a bs
          → Elem e t.rows
          → a.old_slug ≡ e.slug
          → a.event_id ≡ e.id)
      → IsWellFormed t bs
  aliases-IsWellFormed bs o u c = record {
    same_id = w.same_id;
    same_slug = w.same_slug;
    below = w.below;
    owned = o;
    same_alias = u;
    current = c;
  }

  -- A new row whose key is nobody's, and nobody's alias.
  pub inserted-IsWellFormed :
      (mk : ℕ → Event)
      → (mk t.next_id).id ≡ t.next_id
      → ((e : Event) → Elem e t.rows → e.slug ≢ (mk t.next_id).slug)
      → ((a : EventSlugAlias) → Elem a aliases → a.old_slug ≢ (mk t.next_id).slug)
      → IsWellFormed (inserted mk t) aliases
  inserted-IsWellFormed mk own fresh free = record {
    same_id = λ e f m n p. elim (Elem-append_cases t.rows new {x = e} m) [
      | inl m' ↦ elim (Elem-append_cases t.rows new {x = f} n) [
        | inl n' ↦ w.same_id e f m' n' p
        | inr q ↦ absurd (omega (arith, w.below e m', own, p, ap (λ (x : Event). x.id) q))
      ]
      | inr q ↦ elim (Elem-append_cases t.rows new {x = f} n) [
        | inl n' ↦ absurd (omega (arith, w.below f n', own, p, ap (λ (x : Event). x.id) q))
        | inr r ↦ sym q ∙ r
      ]
    ];
    same_slug = λ e f m n p. elim (Elem-append_cases t.rows new {x = e} m) [
      | inl m' ↦ elim (Elem-append_cases t.rows new {x = f} n) [
        | inl n' ↦ w.same_slug e f m' n' p
        | inr q ↦ absurd (fresh e m' (p ∙ ap (λ (x : Event). x.slug) (sym q)))
      ]
      | inr q ↦ elim (Elem-append_cases t.rows new {x = f} n) [
        | inl n' ↦ absurd (fresh f n' (sym p ∙ ap (λ (x : Event). x.slug) (sym q)))
        | inr r ↦ sym q ∙ r
      ]
    ];
    below = λ e m. elim (Elem-append_cases t.rows new {x = e} m) [
      | inl m' ↦ omega (arith, w.below e m')
      | inr q ↦ omega (arith, own, ap (λ (x : Event). x.id) q)
    ];
    owned = λ a m. let o = w.owned a m in (o.0, Elem-append_left t.rows (new ∷ []) o.0 o.1, o.2);
    same_alias = w.same_alias;
    current = λ a e m n p. elim (Elem-append_cases t.rows new {x = e} n) [
      | inl n' ↦ w.current a e m n' p
      | inr q ↦ absurd (free a m (p ∙ ap (λ (x : Event). x.slug) (sym q)))
    ];
  }
    where
      new : Event
      new = mk t.next_id

  abbrev Changed : ℕ → (Event → Event) → Event → Event → Type 0
  Changed i f y x = ((y.id ≡ i) × (x ≡ f y)) ⊎ ((y.id ≢ i) × (x ≡ y))

  changed :
      (i : ℕ) (f : Event → Event)
      → ((e : Event) → (f e).id ≡ e.id)
      → (x : Event) → Elem x (updated (λ e. e.id == i) f t).rows
      → (y : Event) × Elem y t.rows × ((x.id ≡ y.id) × Changed i f y x)
  changed i f keeps x m =
      let (y, my, q) = Elem-update_cases (λ e. e.id == i) f t.rows {x = x} m in
      elim (Bool-cases (y.id == i)) [
        | inl hit ↦
            let r : x ≡ f y = q ∙ if_true (y.id == i) (f y) y hit in
            (y, my, (ap (λ (e : Event). e.id) r ∙ keeps y, inl ((==_iff y.id i).0 hit, r)))
        | inr miss ↦
            let r : x ≡ y = q ∙ rw miss refl in
            (y, my, (ap (λ (e : Event). e.id) r, inr (ground (arith), r)))
      ]

  joined :
      (i : ℕ) (f : Event → Event) (y z : Event) {x x' : Event}
      → Changed i f y x
      → Changed i f z x'
      → y ≡ z
      → x ≡ x'
  joined i f y z (inl (h, q)) (inl (k, r)) p = q ∙ ap f p ∙ sym r
  joined i f y z (inr (h, q)) (inr (k, r)) p = q ∙ p ∙ sym r
  joined i f y z (inl (h, q)) (inr (k, r)) p = absurd (k (ap (λ (e : Event). e.id) (sym p) ∙ h))
  joined i f y z (inr (h, q)) (inl (k, r)) p = absurd (h (ap (λ (e : Event). e.id) p ∙ k))

  updated-has :
      (i : ℕ) (f : Event → Event)
      → ((e : Event) → (f e).id ≡ e.id)
      → (e : Event) → Elem e t.rows
      → (x : Event) × Elem x (updated (λ e. e.id == i) f t).rows × (x.id ≡ e.id)
  updated-has i f keeps e m = elim (Bool-cases (e.id == i)) [
    | inl hit ↦ (f e, Elem-update_hit (λ x. x.id == i) f t.rows m hit, keeps e)
    | inr miss ↦ (e, Elem-update_where (λ x. x.id == i) f t.rows m miss, refl)
  ]

  -- A change of the row with the id `i` that keeps its id, and leads to a key that no other event has
  -- and no other event's alias.
  pub updated-IsWellFormed :
      (i : ℕ) (f : Event → Event)
      → ((e : Event) → (f e).id ≡ e.id)
      → ((e g : Event) → Elem e t.rows → Elem g t.rows → e.id ≡ i → g.id ≢ i → (f e).slug ≢ g.slug)
      → ((a : EventSlugAlias) (e : Event)
          → Elem a aliases
          → Elem e t.rows
          → e.id ≡ i
          → a.old_slug ≡ (f e).slug
          → a.event_id ≡ i)
      → IsWellFormed (updated (λ e. e.id == i) f t) aliases
  updated-IsWellFormed i f keeps fresh free = record {
    same_id = λ e g m n p.
        let (y, my, cy) = changed i f keeps e m in
        let (z, mz, cz) = changed i f keeps g n in
        joined i f y z cy.1 cz.1 (w.same_id y z my mz (sym cy.0 ∙ p ∙ cz.0));
    same_slug = λ e g m n p.
        let (y, my, cy) = changed i f keeps e m in
        let (z, mz, cz) = changed i f keeps g n in
        elim cy.1 [
          | inl (hit, q) ↦ elim cz.1 [
            | inl (hit', r) ↦ q ∙ ap f (w.same_id y z my mz (hit ∙ sym hit')) ∙ sym r
            | inr (miss, r) ↦ absurd (
                fresh y z my mz hit miss
                  (ap (λ (x : Event). x.slug) (sym q) ∙ p ∙ ap (λ (x : Event). x.slug) r))
          ]
          | inr (miss, q) ↦ elim cz.1 [
            | inl (hit, r) ↦ absurd (
                fresh z y mz my hit miss
                  (ap (λ (x : Event). x.slug) (sym r) ∙ sym p ∙ ap (λ (x : Event). x.slug) q))
            | inr (miss', r) ↦
                q
                ∙ w.same_slug y z my mz
                    (ap (λ (x : Event). x.slug) (sym q) ∙ p ∙ ap (λ (x : Event). x.slug) r)
                ∙ sym r
          ]
        ];
    below = λ e m. let (y, my, cy) = changed i f keeps e m in omega (arith, w.below y my, cy.0);
    owned = λ a m.
        let (e, me, own) = w.owned a m in
        let (x, mx, q) = updated-has i f keeps e me in (x, mx, q ∙ own);
    same_alias = w.same_alias;
    current = λ a e m n p.
        let (y, my, cy) = changed i f keeps e n in
        elim cy.1 [
          | inl (hit, q) ↦ free a y m my hit (p ∙ ap (λ (x : Event). x.slug) q) ∙ sym hit ∙ sym cy.0
          | inr (miss, q) ↦ w.current a y m my (p ∙ ap (λ (x : Event). x.slug) q) ∙ sym cy.0
        ];
  }

  pub deleted-IsWellFormed :
      (i : ℕ)
      → ((a : EventSlugAlias) → Elem a aliases → a.event_id ≢ i)
      → IsWellFormed (deleted (λ e. e.id == i) t) aliases
  deleted-IsWellFormed i gone = record {
    same_id = λ e f m n. w.same_id e f (Elem-filter _ t.rows m).0 (Elem-filter _ t.rows n).0;
    same_slug = λ e f m n. w.same_slug e f (Elem-filter _ t.rows m).0 (Elem-filter _ t.rows n).0;
    below = λ e m. w.below e (Elem-filter _ t.rows m).0;
    owned = λ a m.
        let o = w.owned a m in (o.0, filter-Elem _ t.rows o.1 (ground (arith, gone a m, o.2)), o.2);
    same_alias = w.same_alias;
    current = λ a e m n. w.current a e m (Elem-filter _ t.rows n).0;
  }
