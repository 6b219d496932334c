-- ===== src/Runnable/Tests.antt =====
-- The promise at an object that is run twice.
use cppev.Prelude.{◌≤◌, ◌≡◌, true, List, [], ◌∷◌, leb, ◌⊎◌}
use cppev.Runnable.{Move, runs, enters, returns, fresh, run_moves, wait_for}
use cppev.Runnable.Promise.{finishes, run_moves-finishes}

-- The second thread returns from run_impl while the first is in it, and then the first does.
abbrev twice : List Move
twice = runs true ∷ enters 0 true ∷ runs true ∷ enters 1 true ∷ returns 1 ∷ returns 0 ∷ []

run_moves-finishes_example :
    let w = run_moves twice fresh in
    (wait_for w ≡ leb 1 (finishes w.threads)) × ((w.terminated ≡ true) ⊎ (finishes w.threads ≤ 1))
run_moves-finishes_example = run_moves-finishes twice
