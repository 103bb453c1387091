-- ===== src/Semaphore/Tests.antt =====
-- Runs of the semaphore, and its theorems at concrete histories.
use constrainable.Base.{◌≡◌, refl, [], ◌∷◌}
use constrainable.Semaphore.{
  System, create, run, set_max, Reach, start, run_step, resume, resume_step, resize_step,
}
use constrainable.Semaphore.Steps.{Inv, Reach-Inv}

-- A cap of 1, and three tasks submitted.
abbrev busy : System
busy = run 12 (run 11 (run 10 (create 1)))

abbrev busy_history : Reach 1 (10 ∷ 11 ∷ 12 ∷ []) busy
busy_history = run_step 12 (run_step 11 (run_step 10 start))

one_runs : (busy.running ≡ 10 ∷ []) × (busy.waiters ≡ 11 ∷ 12 ∷ [])
unfolding create run
one_runs = (refl, refl)

-- The cap grows: those who waited are woken, and a fourth task that needs not wait begins before
-- they do.
abbrev overtaken : System
overtaken = run 13 (set_max 4 busy)

overtaken_runs :
    (overtaken.running ≡ 10 ∷ 13 ∷ [])
    × (overtaken.woken ≡ 11 ∷ 12 ∷ [])
    × (overtaken.served ≡ 10 ∷ 11 ∷ 12 ∷ 13 ∷ [])
unfolding create run set_max
overtaken_runs = (refl, refl, refl)

woken_is : overtaken.woken ≡ 11 ∷ 12 ∷ []
unfolding create run set_max
woken_is = refl

Reach-Inv_example : Inv (10 ∷ 11 ∷ 12 ∷ 13 ∷ []) (resume 11 (12 ∷ []) overtaken)
Reach-Inv_example =
    Reach-Inv (resume_step 11 (12 ∷ []) woken_is (run_step 13 (resize_step 4 busy_history)))
