-- ===== src/TaskQueue/Tests.antt =====
-- The theorems on the task queue at a concrete schedule.
use cppev.Prelude.{◌+◌, ◌≡◌, refl, List, [], ◌∷◌, ◌++◌}
use cppev.TaskQueue.{finished, init, Action, add, stop_all, work, run}
use cppev.TaskQueue.Draining.{count, in_work, run-in_order, run-drained}

-- Two workers run three tasks and end.
abbrev schedule : List Action
schedule =
    work 0
    ∷ add (7 ∷ 8 ∷ [])
    ∷ work 0
    ∷ work 1
    ∷ add (7 ∷ [])
    ∷ stop_all
    ∷ work 1
    ∷ work 1
    ∷ work 0
    ∷ work 0
    ∷ work 1
    ∷ work 1
    ∷ []

run-in_order_example :
    ((run (init 2) schedule).started ++ (run (init 2) schedule).queue
      ≡ (run (init 2) schedule).added)
    × (count 7 (run (init 2) schedule).started
        ≡ in_work 7 (run (init 2) schedule).phases + count 7 (run (init 2) schedule).done)
run-in_order_example = run-in_order 2 schedule 7

run-drained_example : count 7 (run (init 2) schedule).done ≡ count 7 (run (init 2) schedule).added
unfolding run init
run-drained_example = run-drained 2 schedule 7 finished (finished ∷ []) refl (refl, (refl, tt)) refl
