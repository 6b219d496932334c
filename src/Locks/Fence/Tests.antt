-- ===== src/Locks/Fence/Tests.antt =====
-- The theorems on the fence at a schedule of two waiting threads and one that notifies.
use cppev.Prelude.{◌-◌, ◌≤◌, ◌<◌, ◌≡◌, refl, true, false, List, [], ◌∷◌}
use cppev.Locks.Fence.{Phase, outside, asleep, passed, announcing, notified, Move, go, run}
use cppev.Locks.Fence.Counting.{through, sleepers, waiters}
use cppev.Locks.Fence.Waking.{run-through}

abbrev threads : List Phase
threads = outside ∷ outside ∷ announcing ∷ []

-- Both waiting threads fall asleep, then the third one notifies, and the first one wakes.
abbrev schedule : List Move
schedule = go 0 0 ∷ go 0 0 ∷ go 1 0 ∷ go 1 0 ∷ go 2 0 ∷ go 2 0 ∷ go 0 0 ∷ []

scheduled :
    run schedule (record { ok = false; phases = threads })
    ≡ record { ok = true; phases = passed ∷ asleep ∷ notified ∷ [] }
unfolding run
scheduled = refl

run-through_example :
    let f = run schedule (record { ok = false; phases = threads }) in
    (0 < through f.phases → f.ok ≡ true) × (f.ok ≡ true → sleepers f.phases ≤ waiters threads - 1)
run-through_example = run-through schedule threads refl
