-- ===== src/Locks/Spinlock.antt =====
-- spinlock of src/lib/lock.cc: the spin locks of pthread are a parameter; where the system has none,
-- spinlock is an atomic flag.
use cppev.Prelude.{
  ℕ, ◌≡◌, ◌≢◌, refl, Bool, true, false, not, List, [], none, if◌then◌else◌, inl, inr, ◌⊎◌,
}
use cppev.Nio.{Outcome, returned, threw, waiting}
use cppev.Locks.Exclusive.{LockOps, IsLock, LockCall, hold_all, held, act_all, act_all-hold_all}
use cppev.Locks.Mutex.{PthreadCode, success, busy, error, blocked, or_error, or_busy}

-- A spin lock of pthread: a thread that locks a held one spins, or gets EDEADLK.
pub record PthreadSpin : Type 1 where
  pub Spin : Type 0
  pub taken : Spin → Bool
  pub spin_lock : Spin → PthreadCode Spin
  pub spin_trylock : Spin → PthreadCode Spin
  pub spin_unlock : Spin → PthreadCode Spin
  pub lock_untaken :
      (s : Spin) → taken s ≡ false → (s' : Spin) × (spin_lock s ≡ success s') × (taken s' ≡ true)
  pub lock_taken : (s : Spin) → taken s ≡ true → (spin_lock s ≡ blocked) ⊎ (spin_lock s ≡ error)
  pub trylock_untaken :
      (s : Spin) → taken s ≡ false → (s' : Spin) × (spin_trylock s ≡ success s') × (taken s' ≡ true)
  pub trylock_taken : (s : Spin) → taken s ≡ true → spin_trylock s ≡ busy
  pub unlock_taken :
      (s : Spin) → taken s ≡ true → (s' : Spin) × (spin_unlock s ≡ success s') × (taken s' ≡ false)

module _ (p : PthreadSpin) where
  open p use {
    Spin, taken, spin_lock, spin_trylock, spin_unlock, lock_untaken, lock_taken, trylock_untaken,
    trylock_taken, unlock_taken,
  }

  unfoldable pub lock : Spin → Outcome Spin
  lock s = or_error (spin_lock s)

  unfoldable pub trylock : Spin → Outcome (Bool × Spin)
  trylock s = or_busy s (spin_trylock s)

  unfoldable pub unlock : Spin → Outcome Spin
  unlock s = or_error (spin_unlock s)

  abbrev pub spinlock : LockOps
  spinlock = record { State = Spin; lock = λ t. lock; try = λ t. trylock; unlock = λ t. unlock }

  no_spin : (s s' : Spin) → taken s ≡ true → lock s ≢ returned s'
  unfolding lock
  no_spin s s' h e = elim (lock_taken s h) [
    | inl spins ↦ let f : ◌≡◌ {A = Outcome Spin} waiting (returned s') = rw spins at e in absurd cc
    | inr fails ↦ let f : ◌≡◌ {A = Outcome Spin} threw (returned s') = rw fails at e in absurd cc
  ]

  spinlock-IsLock : IsLock spinlock (λ s. taken s ≡ false) (λ t s. taken s ≡ true)
  unfolding lock trylock unlock
  spinlock-IsLock = record {
    lock_free = λ t s h. let (s', e, o) = lock_untaken s h in (s', rw e, o);
    lock_held = λ t u s s' h. no_spin s s' h;
    try_free = λ t s h. let (s', e, o) = trylock_untaken s h in (s', rw e, o);
    try_held = λ t u s h. rw (trylock_taken s h);
    unlock_held = λ t s h. let (s', e, o) = unlock_taken s h in (s', rw e, o);
  }

-- std::atomic_flag: what it was, and that it is set now
abbrev test_and_set : Bool → Bool × Bool
test_and_set flag = (flag, true)

-- while (lock_.test_and_set(…)): a thread that finds the flag set goes on
unfoldable pub flag_lock : Bool → Outcome Bool
flag_lock flag = let (old, flag') = test_and_set flag in if old then waiting else returned flag'

unfoldable pub flag_unlock : Bool → Outcome Bool
flag_unlock flag = returned false

unfoldable pub flag_trylock : Bool → Outcome (Bool × Bool)
flag_trylock flag = let (old, flag') = test_and_set flag in returned (not old, flag')

abbrev pub flag_spinlock : LockOps
flag_spinlock = record {
  State = Bool;
  lock = λ t. flag_lock;
  try = λ t. flag_trylock;
  unlock = λ t. flag_unlock;
}

flag_spinlock-IsLock : IsLock flag_spinlock (λ s. s ≡ false) (λ t s. s ≡ true)
unfolding flag_lock flag_trylock flag_unlock
flag_spinlock-IsLock = record {
  lock_free = λ t s h. (true, rw h, refl);
  lock_held =
      λ t u s s' h e. let f : ◌≡◌ {A = Outcome Bool} waiting (returned s') = rw h at e in absurd cc;
  try_free = λ t s h. (true, rw h, refl);
  try_held = λ t u s h. rw h;
  unlock_held = λ t s h. (false, refl, refl);
}

-- From a spinlock that is free, in either implementation, whatever calls of lock, trylock and unlock
-- the threads make, each thread unlocking only what it holds, those that have the lock are the holder
-- of an abstract lock: at most one at a time, and a call that meets a holder does not get it.
pub spinlock-hold_all :
    (p : PthreadSpin) (moves : List (ℕ × LockCall)) (s : PthreadSpin.Spin p)
    → PthreadSpin.taken p s ≡ false
    → ((act_all (spinlock p) moves (record { state = s; holders = [] })).holders
        ≡ held (hold_all none moves))
      × ((act_all flag_spinlock moves (record { state = false; holders = [] })).holders
          ≡ held (hold_all none moves))
spinlock-hold_all p moves s h = (
  act_all-hold_all (spinlock p) (spinlock-IsLock p) moves s h,
  act_all-hold_all flag_spinlock flag_spinlock-IsLock moves false refl,
)
