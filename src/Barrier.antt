-- ===== src/Barrier.antt =====
-- The barrier shared among processes: pshared_barrier of src/include/cppev/lock.h and src/lib/lock.cc.
-- The mutex and the condition variable are pthread's. A step is what one thread does while it holds
-- lock_; a waiting thread may wake at any time, and then tests its condition again.
pub mod Passing
mod Tests
use cppev.Prelude.{
  ℕ, zero, suc, ◌+◌, Bool, true, false, List, [], ◌∷◌, if◌then◌else◌, get_or, set, replicate,
}
use cppev.Prelude.Int.{ℤ, pos, negsuc}

-- Before wait(), in cond_.wait, returned from wait(), or out of it by the exception.
pub data Phase : Type 0 where
  outside waiting passed threw : Phase

pub record Barrier : Type 0 where
  pub count : ℤ
  pub phases : List Phase

-- pshared_barrier(count), before any of the threads
pub init : ℕ → ℕ → Barrier
init count threads = record { count = pos count; phases = replicate threads outside }

-- --count_
abbrev pub decremented : ℤ → ℤ
decremented (pos zero) = negsuc 0
decremented (pos (suc n)) = pos n
decremented (negsuc n) = negsuc (suc n)

-- What the three branches behind the decrement make of the thread.
abbrev pub arrived : ℤ → Phase
arrived (pos zero) = passed
arrived (pos (suc n)) = waiting
arrived (negsuc n) = threw

-- The predicate of cond_.wait: count_ == 0
abbrev pub woken : ℤ → Phase
woken (pos zero) = passed
woken (pos (suc n)) = waiting
woken (negsuc n) = waiting

-- Thread i goes on, from the phase that it is in.
pub advance : Phase → ℕ → Barrier → Barrier
advance outside i b = record {
  count = decremented b.count;
  phases = set b.phases i (arrived (decremented b.count));
}
advance waiting i b = record b { phases = set b.phases i (woken b.count) }
advance passed i b = b
advance threw i b = b

pub run : Barrier → List ℕ → Barrier
unfolding advance
run b [] = b
run b (i ∷ threads) = run (advance (get_or b.phases i passed) i b) threads
