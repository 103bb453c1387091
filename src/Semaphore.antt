-- ===== src/Semaphore.antt =====
-- app/server/utils/semaphore.ts: the counting semaphore that caps concurrent probes. A task is a
-- number. What the event loop does between two awaits is one step: a call of `run` up to its first
-- await, the resumption of a task after that await, the end of a task's `fn` with its `finally` block,
-- or a call of `setMax`. A task that `pump` grants a slot is woken: its `fn` starts when it resumes, a
-- microtask later, and other steps may come first.
pub mod Pump
pub mod Steps
mod Tests
use constrainable.Base.{ℕ, ◌+◌, ◌-◌, ◌≡◌, List, [], ◌∷◌, ◌++◌, ltb, leb, max, if◌then◌else◌}

pub record AsyncSemaphore : Type 0 where
  -- the tasks whose `resolve` is queued, oldest first
  pub waiters : List ℕ
  pub active : ℕ
  pub capacity : ℕ

-- What the loop of `pump` computes: the new count, the tasks granted in order, those still queued.
pub record Pumped : Type 0 where
  pub count : ℕ
  pub granted : List ℕ
  pub queued : List ℕ

-- `while (active < max && waiters.length > 0)`
pub pump_loop : ℕ → ℕ → List ℕ → Pumped
pump_loop cap count [] = record { count = count; granted = []; queued = [] }
pump_loop cap count (w ∷ ws) =
    let rest = pump_loop cap (count + 1) ws in
    if ltb count cap
    then record { count = rest.count; granted = w ∷ rest.granted; queued = rest.queued }
    else record { count = count; granted = []; queued = w ∷ ws }

-- The semaphore, with the tasks that hold a slot: those woken, whose resumption is queued, oldest
-- first, and those whose `fn` is running. The order in which slots were given is
-- kept.
pub record System : Type 0 where
  pub semaphore : AsyncSemaphore
  pub open semaphore use *
  pub woken : List ℕ
  pub running : List ℕ
  pub served : List ℕ

pub pump : System → System
unfolding pump_loop
pump s =
    let p = pump_loop s.capacity s.active s.waiters in
    record s {
      semaphore = record { waiters = p.queued; active = p.count; capacity = s.capacity };
      woken = s.woken ++ p.granted;
      served = s.served ++ p.granted;
    }

-- `run(fn)`: queue behind a full semaphore, else take a slot and start.
pub run : ℕ → System → System
run t s =
    if leb s.capacity s.active
    then record s { semaphore = record s.semaphore { waiters = s.waiters ++ t ∷ [] } }
    else record s {
      semaphore = record s.semaphore { active = s.active + 1 };
      running = s.running ++ t ∷ [];
      served = s.served ++ t ∷ [];
    }

-- The oldest woken task `t` goes on after its await and calls its `fn`; `rest` are woken still.
pub resume : ℕ → List ℕ → System → System
resume t rest s = record s { woken = rest; running = s.running ++ t ∷ [] }

-- The `finally` block of `run`, once the tasks left running are `rest`.
pub finish : List ℕ → System → System
unfolding pump
finish rest s =
    pump (record s { semaphore = record s.semaphore { active = s.active - 1 }; running = rest })

-- `setMax(n)`
pub set_max : ℕ → System → System
unfolding pump
set_max n s = pump (record s { semaphore = record s.semaphore { capacity = max 1 n } })

-- `new AsyncSemaphore(max)`
pub create : ℕ → System
create cap = record {
  semaphore = record { waiters = []; active = 0; capacity = cap };
  woken = [];
  running = [];
  served = [];
}

-- A history: the tasks submitted by calls of `run`, in order, and the state reached.
pub data Reach (cap : ℕ) : List ℕ → System → Type 0 where
  start : Reach cap [] (create cap)
  run_step :
      {ts : List ℕ} {s : System} (t : ℕ) → Reach cap ts s → Reach cap (ts ++ t ∷ []) (run t s)
  resume_step :
      {ts : List ℕ} {s : System} (t : ℕ) (rest : List ℕ)
      → s.woken ≡ t ∷ rest
      → Reach cap ts s
      → Reach cap ts (resume t rest s)
  finish_step :
      {ts : List ℕ} {s : System} (t : ℕ) (before after : List ℕ)
      → s.running ≡ before ++ t ∷ after
      → Reach cap ts s
      → Reach cap ts (finish (before ++ after) s)
  resize_step : {ts : List ℕ} {s : System} (n : ℕ) → Reach cap ts s → Reach cap ts (set_max n s)
