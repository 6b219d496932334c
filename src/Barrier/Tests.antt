-- ===== src/Barrier/Tests.antt =====
-- The theorems on the barrier at concrete schedules.
use cppev.Prelude.{◌≤◌, ◌≡◌, refl, [], ◌∷◌, arith, get_or}
use cppev.Prelude.Int.{pos}
use cppev.Barrier.{outside, waiting, passed, Barrier, init, run}
use cppev.Barrier.Passing.{arrivals, run-passes, extra-arrival}

run-passes_example : 2 ≤ arrivals (run (init 2 3) (0 ∷ 1 ∷ 0 ∷ [])).phases
unfolding run init
run-passes_example = run-passes 2 3 (0 ∷ 1 ∷ 0 ∷ []) (omega arith)

-- Two threads have arrived and the first has not woken up; a third is on its way.
abbrev full : Barrier
full = record { count = pos 0; phases = waiting ∷ passed ∷ outside ∷ [] }

full_start : run (init 2 3) (0 ∷ 1 ∷ []) ≡ full
unfolding run init
full_start = refl

extra-arrival_example : get_or (run full (2 ∷ 0 ∷ 0 ∷ [])).phases 0 passed ≡ waiting
extra-arrival_example = extra-arrival full 2 0 (0 ∷ 0 ∷ []) refl refl refl
