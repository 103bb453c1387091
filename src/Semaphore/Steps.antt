-- ===== src/Semaphore/Steps.antt =====
-- What every history of the semaphore keeps.
use mathlib.Core.List.{append_assoc, append-nil}
use constrainable.Base.{
  ℕ, ◌+◌, ◌-◌, ◌<◌, ◌≤◌, ◌≡◌, refl, sym, ap, ◌∙◌, ◌⊎◌, inl, inr, List, [], ◌∷◌, ◌++◌, arith, length,
  length-append, max, leb, Bool-cases,
}
use constrainable.Semaphore.{
  System, pump_loop, pump, run, finish, set_max, create, Reach, start, run_step, resume,
  resume_step, finish_step, resize_step,
}
use constrainable.Semaphore.Pump.{granted-prefix, count_lem, queued-full, count_bound, granted-head}

-- How many slots are taken: by tasks that run, and by tasks that have been woken to run.
abbrev pub holders : System → ℕ
holders s = length s.woken + length s.running

pub record Inv (submitted : List ℕ) (s : System) : Type 0 where
  pub permits : s.active ≡ holders s
  pub full : (s.waiters ≡ []) ⊎ (s.capacity ≤ s.active)
  pub order : s.served ++ s.waiters ≡ submitted

-- `pump` needs no more than the count and the order to be right.
pump-Inv :
    (ts : List ℕ) (s : System) → s.active ≡ holders s → s.served ++ s.waiters ≡ ts → Inv ts (pump s)
unfolding pump
pump-Inv ts s p o = record {
  permits = omega (
    arith,
    count_lem s.capacity s.active s.waiters,
    length-append s.woken (pump_loop s.capacity s.active s.waiters).granted,
  );
  full = queued-full s.capacity s.active s.waiters;
  order =
      append_assoc s.served _ _
      ∙ ap (◌++◌ s.served) (granted-prefix s.capacity s.active s.waiters)
      ∙ o;
}

run-Inv : (ts : List ℕ) (s : System) (t : ℕ) → Inv ts s → Inv (ts ++ t ∷ []) (run t s)
unfolding run
run-Inv ts s t v = elim (Bool-cases (leb s.capacity s.active)) [
  | inl full ↦ rw full (record {
    permits = v.permits;
    full = inr (ground arith);
    order = sym (append_assoc s.served s.waiters (t ∷ [])) ∙ ap (λ l. l ++ t ∷ []) v.order;
  })
  | inr room ↦ rw room (record {
    permits = omega (arith, v.permits, length-append s.running (t ∷ []));
    full = ground (arith, v.full);
    order = idle (ground (arith, v.full));
  })
]
  where
    idle : s.waiters ≡ [] → (s.served ++ t ∷ []) ++ s.waiters ≡ ts ++ t ∷ []
    idle e =
        rw (e, append-nil (s.served ++ t ∷ []))
          (ap (λ l. l ++ t ∷ [])
            (sym (append-nil s.served) ∙ (ap (◌++◌ s.served) (sym e)) ∙ v.order))

resume-Inv :
    (ts : List ℕ) (s : System) (t : ℕ) (rest : List ℕ)
    → s.woken ≡ t ∷ rest
    → Inv ts s
    → Inv ts (resume t rest s)
unfolding resume
resume-Inv ts s t rest e v = record {
  permits = omega (arith, v.permits, ap length e, length-append s.running (t ∷ []));
  full = v.full;
  order = v.order;
}

finish-Inv :
    (ts : List ℕ) (s : System) (t : ℕ) (before after : List ℕ)
    → s.running ≡ before ++ t ∷ after
    → Inv ts s
    → Inv ts (finish (before ++ after) s)
unfolding finish
finish-Inv ts s t before after e v =
    pump-Inv ts _
      (omega (
        arith,
        v.permits,
        ap length e,
        length-append before (t ∷ after),
        length-append before after,
      ))
      v.order

-- Whatever calls are made, and whenever woken tasks resume between them, one permit is out for each
-- task that is woken or runs, slots are given in the order in which the tasks were submitted, and
-- a task waits only while every slot is taken.
pub Reach-Inv : {cap : ℕ} {ts : List ℕ} {s : System} → Reach cap ts s → Inv ts s
unfolding create set_max
Reach-Inv start = record { permits = refl; full = inl refl; order = refl }
Reach-Inv (run_step {ts} {s} t r) = run-Inv ts s t (Reach-Inv r)
Reach-Inv (resume_step {ts} {s} t rest e r) = resume-Inv ts s t rest e (Reach-Inv r)
Reach-Inv (finish_step {ts} {s} t before after e r) = finish-Inv ts s t before after e (Reach-Inv r)
Reach-Inv (resize_step {ts} {s} n r) = pump-Inv ts _ (Reach-Inv r).permits (Reach-Inv r).order

capacity_pos : {cap : ℕ} {ts : List ℕ} {s : System} → 1 ≤ cap → Reach cap ts s → 1 ≤ s.capacity
unfolding create run resume finish set_max pump
capacity_pos h start = h
capacity_pos h (run_step {s} t r) = ground (arith, capacity_pos h r)
capacity_pos h (resume_step t rest e r) = capacity_pos h r
capacity_pos h (finish_step t before after e r) = capacity_pos h r
capacity_pos h (resize_step n r) = omega arith

-- No deadlock: while a task waits, some task holds a slot, and its end will pump the queue.
pub waiting_has_holder :
    {cap : ℕ} {ts : List ℕ} {s : System} (w : ℕ) (ws : List ℕ)
    → 1 ≤ cap
    → Reach cap ts s
    → s.waiters ≡ w ∷ ws
    → 1 ≤ holders s
waiting_has_holder {s} w ws h r e =
    ground (arith, capacity_pos h r, (Reach-Inv r).permits, (Reach-Inv r).full)

-- When a task ends, by return or by throw, and the cap was not exceeded, the task that has waited
-- longest gets the next slot.
pub finish-served :
    {cap : ℕ} {ts : List ℕ} {s : System} (t w : ℕ) (before after ws : List ℕ)
    → Reach cap ts s
    → s.running ≡ before ++ t ∷ after
    → s.active ≤ s.capacity
    → s.waiters ≡ w ∷ ws
    → (more : List ℕ) × ((finish (before ++ after) s).served ≡ s.served ++ w ∷ more)
unfolding finish pump
finish-served {s} t w before after ws r e fits waits = (
  (pump_loop s.capacity (s.active - 1 + 1) ws).granted,
  ap (λ l. s.served ++ (pump_loop s.capacity (s.active - 1) l).granted) waits
      ∙ ap (◌++◌ s.served) (granted-head s.capacity (s.active - 1) w ws room),
)
  where
    room : s.active - 1 < s.capacity
    room = omega (arith, (Reach-Inv r).permits, ap length e, length-append before (t ∷ after), fits)

-- The caps that a history sets stay within `b`.
abbrev pub CapsWithin : ℕ → {cap : ℕ} {ts : List ℕ} {s : System} → Reach cap ts s → Type 0
CapsWithin b {cap} start = cap ≤ b
CapsWithin b (run_step t r) = CapsWithin b r
CapsWithin b (resume_step t rest e r) = CapsWithin b r
CapsWithin b (finish_step t before after e r) = CapsWithin b r
CapsWithin b (resize_step n r) = (max 1 n ≤ b) × CapsWithin b r

within :
    (b : ℕ) {cap : ℕ} {ts : List ℕ} {s : System} (r : Reach cap ts s)
    → CapsWithin b r
    → (s.active ≤ b) × (s.capacity ≤ b)
unfolding create run resume finish set_max pump
within b start h = (omega arith, h)
within b (run_step {s} t r) h = ground (arith, within b r h)
within b (resume_step t rest e r) h = within b r h
within b (finish_step {s} t before after e r) h =
    ground (arith, within b r h, count_bound s.capacity (s.active - 1) s.waiters)
within b (resize_step {s} n r) h =
    ground (arith, within b r h.1, count_bound (max 1 n) s.active s.waiters)

-- If no cap of a history exceeds `b`, then at most `b` tasks run at once.
pub running-le :
    (b : ℕ) {cap : ℕ} {ts : List ℕ} {s : System} (r : Reach cap ts s)
    → CapsWithin b r
    → length s.running ≤ b
running-le b r h = omega (arith, (Reach-Inv r).permits, (within b r h).0)
