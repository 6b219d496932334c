-- ===== src/Scheduler/Thread.antt =====
-- The thread of timed_scheduler in src/include/cppev/scheduler.h, and ceil_time_point of
-- src/include/cppev/utils.h. Times are in nanoseconds, and a task takes no time: the thread's clock is
-- its own count.
pub mod Periodic
pub mod Times
pub mod Intervals
use cppev.Prelude.{
  ℕ, zero, suc, ◌+◌, ◌-◌, ◌*◌, ◌/◌, ◌%◌, ◌<◌, ◌≤◌, ◌≡◌, Bool, arith, List, [], ◌∷◌, ◌++◌, Option,
  none, some, if◌then◌else◌,
}
use cppev.Scheduler.{Table}

-- What the thread does: init_tasks and exit_tasks by their indices, a call of a handler with the time
-- that it gets, and a sleep until a time.
pub data Effect : Type 0 where
  init_task exit_task sleep_until : ℕ → Effect
  call : ℕ → ℕ → Effect

-- ceil_time_point: the next whole second
unfoldable pub ceil_time_point : ℕ → ℕ
ceil_time_point stamp = (stamp / 1_000_000_000 + 1) * 1_000_000_000

-- For every time stamp, ceil_time_point is a whole second that is later, by at most a second; for a
-- stamp that is a whole second already it is the next one.
pub ceil_time_point_bounds :
    (stamp : ℕ)
    → (stamp < ceil_time_point stamp)
      × (ceil_time_point stamp ≤ stamp + 1_000_000_000)
      × (ceil_time_point stamp % 1_000_000_000 ≡ 0)
      × (stamp % 1_000_000_000 ≡ 0 → ceil_time_point stamp ≡ stamp + 1_000_000_000)
unfolding ceil_time_point
ceil_time_point_bounds stamp = omega arith

-- for (auto idx : curr->second) timer_handlers_[idx](tp_curr…)
abbrev pub handler_calls : ℕ → List ℕ → List Effect
handler_calls time [] = []
handler_calls time (h ∷ hs) = call h time ∷ handler_calls time hs

-- The span behind the stamp k.
abbrev pub span : ℕ → ℕ → Table → ℕ
span interval k [] = interval - k
span interval k ((next, hs) ∷ rest) = next - k

-- while (!stop_) for (…; !stop_ && …; ): the first argument counts the tests of stop_ that still find
-- it false, and the third is what is left of the round, none at the test of the outer loop.
unfoldable pub loop : ℕ → ℕ → Table → Option Table → ℕ → List Effect
loop zero interval tasks at time = []
loop (suc tests) interval tasks none time = loop tests interval tasks (some tasks) time
loop (suc tests) interval tasks (some []) time = loop tests interval tasks none time
loop (suc tests) interval tasks (some ((k, hs) ∷ rest)) time =
    let next = time + span interval k rest in
    handler_calls time hs ++ sleep_until next ∷ loop tests interval tasks (some rest) next

abbrev pub inits : ℕ → ℕ → List Effect
inits i zero = []
inits i (suc n) = init_task i ∷ inits (suc i) n

abbrev pub exits : ℕ → ℕ → List Effect
exits i zero = []
exits i (suc n) = exit_task i ∷ exits (suc i) n

-- tp_curr before the loop
abbrev pub start_time : Bool → ℕ → ℕ
start_time align now = if align then ceil_time_point now else now

abbrev pub aligned : Bool → ℕ → List Effect
aligned align now = if align then sleep_until (ceil_time_point now) ∷ [] else []

-- The thread that finds stop_ false `tests` times, with the numbers of its first and last tasks.
unfoldable pub thread : ℕ → ℕ → Bool → ℕ → ℕ → ℕ → Table → List Effect
unfolding loop ceil_time_point
thread init_tasks exit_tasks align now tests interval tasks =
    inits 0 init_tasks
    ++ (aligned align now
        ++ (loop tests interval tasks none (start_time align now) ++ exits 0 exit_tasks))
