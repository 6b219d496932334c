-- ===== src/Runnable.antt =====
-- The thread base class of src/include/cppev/runnable.h, as steps of the threads that run() creates.
-- pthread_create, pthread_join and the cancellation of a thread are moves of a schedule.
pub mod Promise
mod Tests
use cppev.Prelude.{
  ℕ, zero, suc, ◌-◌, Bool, true, false, List, [], ◌∷◌, ◌++◌, Option, none, some, length, get_elem?,
  set, if◌then◌else◌,
}
use cppev.Nio.{Outcome, returned, threw, undefined, waiting}

-- A thread of thr_func: before run_impl, in it, behind set_value, or ended by pthread_cancel.
pub data Phase : Type 0 where
  created running finished cancelled : Phase

-- `threads` are those that run() has created, the last of which is thr_; `is_set` says that prom_ has
-- its value, and `terminated` that an exception has left thr_func, which ends the program.
pub record Runnable : Type 0 where
  pub threads : List Phase
  pub is_set : Bool
  pub terminated : Bool

abbrev pub fresh : Runnable
fresh = record { threads = []; is_set = false; terminated = false }

-- run(), with what pthread_create answers
unfoldable pub run : Bool → Runnable → Outcome Runnable
run true w = returned (record w { threads = w.threads ++ created ∷ [] })
run false w = threw

-- What happens next: a call of run(), the pthread_setcancel calls of a thread, its return from
-- run_impl, or its end at a cancellation point.
pub data Move : Type 0 where
  runs : Bool → Move
  enters : ℕ → Bool → Move
  returns is_cancelled : ℕ → Move

abbrev pub after_run : Runnable → Outcome Runnable → Runnable
after_run w (returned w') = w'
after_run w threw = w
after_run w undefined = w
after_run w waiting = w

abbrev pub begin_impl : ℕ → Bool → Runnable → Option Phase → Runnable
begin_impl i true w (some created) = record w { threads = set w.threads i running }
begin_impl i false w (some created) = record w { terminated = true }
begin_impl i ok w (some running) = w
begin_impl i ok w (some finished) = w
begin_impl i ok w (some cancelled) = w
begin_impl i ok w none = w

-- prom_.set_value(true) throws if it was called before.
abbrev pub set_value : ℕ → Runnable → Option Phase → Runnable
set_value i w (some running) = record {
  threads = set w.threads i finished;
  is_set = true;
  terminated = w.is_set;
}
set_value i w (some created) = w
set_value i w (some finished) = w
set_value i w (some cancelled) = w
set_value i w none = w

abbrev pub cancel_at : ℕ → Runnable → Option Phase → Runnable
cancel_at i w (some running) = record w { threads = set w.threads i cancelled }
cancel_at i w (some created) = w
cancel_at i w (some finished) = w
cancel_at i w (some cancelled) = w
cancel_at i w none = w

unfoldable pub move_of : Move → Runnable → Runnable
unfolding run
move_of (runs ok) w = after_run w (run ok w)
move_of (enters i ok) w = begin_impl i ok w (get_elem? w.threads i)
move_of (returns i) w = set_value i w (get_elem? w.threads i)
move_of (is_cancelled i) w = cancel_at i w (get_elem? w.threads i)

-- A program that was terminated makes no more moves.
abbrev pub step : Move → Runnable → Runnable
step m w = if w.terminated then w else move_of m w

abbrev pub run_moves : List Move → Runnable → Runnable
run_moves [] w = w
run_moves (m ∷ moves) w = run_moves moves (step m w)

-- wait_for(span): whether the future is ready
unfoldable pub wait_for : Runnable → Bool
wait_for w = w.is_set

abbrev pub join_of : Option Phase → Outcome (Unit {0})
join_of (some finished) = returned tt
join_of (some cancelled) = returned tt
join_of (some created) = waiting
join_of (some running) = waiting
join_of none = undefined

-- join() of thr_, the last thread; without one it has no defined result
unfoldable pub join : Runnable → Outcome (Unit {0})
join w = join_of (get_elem? w.threads (length w.threads - 1))
