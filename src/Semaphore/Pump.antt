-- ===== src/Semaphore/Pump.antt =====
-- The loop of `pump`: it grants a prefix of the queue, and stops only at the cap or at the end.
use constrainable.Base.{
  ℕ, ◌+◌, ◌≤◌, ◌<◌, ◌≡◌, refl, ◌⊎◌, inl, inr, List, [], ◌∷◌, ◌++◌, arith, length,
}
use constrainable.Semaphore.{pump_loop}

pub granted-prefix :
    (cap count : ℕ) (ws : List ℕ)
    → (pump_loop cap count ws).granted ++ (pump_loop cap count ws).queued ≡ ws
unfolding pump_loop
granted-prefix cap count [] = refl
granted-prefix cap count (w ∷ ws) = ground (arith, granted-prefix cap (count + 1) ws)

pub count_lem :
    (cap count : ℕ) (ws : List ℕ)
    → (pump_loop cap count ws).count ≡ count + length (pump_loop cap count ws).granted
unfolding pump_loop
count_lem cap count [] = omega arith
count_lem cap count (w ∷ ws) = ground (arith, count_lem cap (count + 1) ws)

pub queued-full :
    (cap count : ℕ) (ws : List ℕ)
    → ((pump_loop cap count ws).queued ≡ []) ⊎ (cap ≤ (pump_loop cap count ws).count)
unfolding pump_loop
queued-full cap count [] = inl refl
queued-full cap count (w ∷ ws) = ground (arith, queued-full cap (count + 1) ws)

pub count_bound :
    (cap count : ℕ) (ws : List ℕ)
    → ((pump_loop cap count ws).count ≤ cap) ⊎ ((pump_loop cap count ws).count ≡ count)
unfolding pump_loop
count_bound cap count [] = inr refl
count_bound cap count (w ∷ ws) = ground (arith, count_bound cap (count + 1) ws)

-- A free slot goes to the head of the queue.
pub granted-head :
    (cap count w : ℕ) (ws : List ℕ)
    → count < cap
    → (pump_loop cap count (w ∷ ws)).granted ≡ w ∷ (pump_loop cap (count + 1) ws).granted
unfolding pump_loop
granted-head cap count w ws h = ground arith
