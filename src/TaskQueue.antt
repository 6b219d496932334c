-- ===== src/TaskQueue.antt =====
-- The task queue of a thread pool: namespace task_queue of src/include/cppev/thread_pool.h.
-- A step is what one thread does while it holds lock_, or the end of a handler; a schedule is a list
-- of steps. A worker that waits on cond_ may wake at any time, and then tests its condition again.
pub mod Draining
mod Tests
use cppev.Prelude.{
  ℕ, zero, suc, ◌+◌, Bool, true, false, ◌||◌, List, [], ◌∷◌, ◌++◌, if◌then◌else◌, ◌==◌, get_or, set,
  replicate,
}

-- Where a worker is in run_impl: before the lock, in cond_.wait, in handler(), or past the loop.
pub data Phase : Type 0 where
  idle sleeping finished : Phase
  running : ℕ → Phase

-- `added` and `started` are all handlers so far in the order of queue_.push and of queue_.pop, `done`
-- those that have returned; `late` says that one was added after stop().
pub record Pool : Type 0 where
  pub queue : List ℕ
  pub stop : Bool
  pub phases : List Phase
  pub added : List ℕ
  pub started : List ℕ
  pub done : List ℕ
  pub late : Bool

pub init : ℕ → Pool
init thr_num = record {
  queue = [];
  stop = false;
  phases = replicate thr_num idle;
  added = [];
  started = [];
  done = [];
  late = false;
}

-- add_task, for one handler and for a vector
unfoldable pub add_tasks : List ℕ → Pool → Pool
add_tasks ts s = record s { queue = s.queue ++ ts; added = s.added ++ ts; late = s.late || s.stop }

pub request_stop : Pool → Pool
request_stop s = record s { stop = true }

-- The body of the loop under the lock: an empty queue ends the worker or puts it to sleep, and
-- otherwise the front is taken.
take_front : List ℕ → ℕ → Pool → Pool
take_front [] i s = record s { phases = set s.phases i (if s.stop then finished else sleeping) }
take_front (t ∷ q) i s = record s {
  queue = q;
  started = s.started ++ t ∷ [];
  phases = set s.phases i (running t);
}

advance : Phase → ℕ → Pool → Pool
unfolding take_front
advance idle i s = take_front s.queue i s
advance sleeping i s = take_front s.queue i s
advance (running t) i s = record s { done = s.done ++ t ∷ []; phases = set s.phases i idle }
advance finished i s = s

pub data Action : Type 0 where
  add : List ℕ → Action
  stop_all : Action
  work : ℕ → Action

pub step : Pool → Action → Pool
unfolding add_tasks request_stop advance
step s (add ts) = add_tasks ts s
step s stop_all = request_stop s
step s (work i) = advance (get_or s.phases i finished) i s

pub run : Pool → List Action → Pool
unfolding step
run s [] = s
run s (a ∷ actions) = run (step s a) actions
