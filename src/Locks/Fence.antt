-- ===== src/Locks/Fence.antt =====
-- pshared_one_time_fence of src/include/cppev/lock.h and src/lib/lock.cc.
-- A step is one test of ok_ outside the lock, or what a thread does while it holds lock_: the wait of
-- pthread_cond_wait begins and the lock is released at once. A sleeping thread may wake at any time.
pub mod Counting
pub mod Waking
pub mod Stranding
mod Tests
use cppev.Prelude.{ℕ, zero, suc, ◌+◌, Bool, true, false, List, [], ◌∷◌, if◌then◌else◌, get_or, set}

-- A thread that calls wait(): before its first test of ok_, before the lock, in cond_.wait, awake and
-- about to lock, returned. One that calls notify(): before its test, before the lock, returned.
pub data Phase : Type 0 where
  outside locking asleep woken passed : Phase
  announcing entering notified : Phase

pub record Fence : Type 0 where
  pub ok : Bool
  pub phases : List Phase

abbrev pub is_asleep : Phase → Bool
is_asleep asleep = true
is_asleep _ = false

abbrev pub wake_first : List Phase → List Phase
wake_first [] = []
wake_first (p ∷ ps) = if is_asleep p then woken ∷ ps else p ∷ wake_first ps

-- pthread_cond_signal wakes a sleeping thread, if there is one: thread j, or else the first.
abbrev pub signal : ℕ → List Phase → List Phase
signal j ps = if is_asleep (get_or ps j passed) then set ps j woken else wake_first ps

-- Thread i goes on, from the phase that it is in; a signal of it is for thread j.
unfoldable pub advance : Phase → ℕ → ℕ → Fence → Fence
advance outside i j f = record f { phases = set f.phases i (if f.ok then passed else locking) }
advance locking i j f = record f { phases = set f.phases i (if f.ok then passed else asleep) }
advance asleep i j f = f
advance woken i j f = record f { phases = set f.phases i (if f.ok then passed else asleep) }
advance passed i j f = f
advance announcing i j f = record f {
  phases = set f.phases i (if f.ok then notified else entering);
}
advance entering i j f = record { ok = true; phases = signal j (set f.phases i notified) }
advance notified i j f = f

-- Thread i goes on with a signal for thread j, or thread i wakes without a signal.
pub data Move : Type 0 where
  go : ℕ → ℕ → Move
  wake : ℕ → Move

unfoldable pub step : Move → Fence → Fence
unfolding advance
step (go i j) f = advance (get_or f.phases i passed) i j f
step (wake i) f = record f {
  phases = if is_asleep (get_or f.phases i passed) then set f.phases i woken else f.phases;
}

unfoldable pub run : List Move → Fence → Fence
unfolding step
run [] f = f
run (m ∷ moves) f = run moves (step m f)
