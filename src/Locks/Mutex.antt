-- ===== src/Locks/Mutex.antt =====
-- pshared_lock of src/lib/lock.cc. The mutexes of pthread are a parameter.
use cppev.Prelude.{
  ℕ, ◌≡◌, ◌≢◌, ap, ◌∙◌, Bool, true, false, List, [], Option, none, some, ◌==◌, ==_iff, inl, inr,
  Bool-cases,
}
use cppev.Nio.{Outcome, returned, threw, waiting, ◌>>=◌}
use cppev.Locks.Exclusive.{LockOps, IsLock, LockCall, hold_all, held, act_all, act_all-hold_all}

-- What a call of pthread returns: zero with the new state, EBUSY, another error, or nothing yet.
pub data PthreadCode (S : Type 0) : Type 0 where
  success : S → PthreadCode S
  busy : PthreadCode S
  error : PthreadCode S
  blocked : PthreadCode S

-- An error-checking mutex: a thread that locks what it holds, or unlocks what it does not hold, gets an
-- error, and a thread that locks what another holds waits.
pub record Pthread : Type 1 where
  pub Mutex : Type 0
  pub owner : Mutex → Option ℕ
  pub mutex_lock : ℕ → Mutex → PthreadCode Mutex
  pub mutex_trylock : ℕ → Mutex → PthreadCode Mutex
  pub mutex_unlock : ℕ → Mutex → PthreadCode Mutex
  pub lock_unowned :
      (t : ℕ) (m : Mutex)
      → owner m ≡ none
      → (m' : Mutex) × (mutex_lock t m ≡ success m') × (owner m' ≡ some t)
  pub lock_other :
      (t u : ℕ) (m : Mutex) → owner m ≡ some u → (u == t) ≡ false → mutex_lock t m ≡ blocked
  pub relock : (t : ℕ) (m : Mutex) → owner m ≡ some t → mutex_lock t m ≡ error
  pub trylock_unowned :
      (t : ℕ) (m : Mutex)
      → owner m ≡ none
      → (m' : Mutex) × (mutex_trylock t m ≡ success m') × (owner m' ≡ some t)
  pub trylock_owned : (t u : ℕ) (m : Mutex) → owner m ≡ some u → mutex_trylock t m ≡ busy
  pub unlock_owned :
      (t : ℕ) (m : Mutex)
      → owner m ≡ some t
      → (m' : Mutex) × (mutex_unlock t m ≡ success m') × (owner m' ≡ none)
  pub unlock_unowned : (t : ℕ) (m : Mutex) → owner m ≢ some t → mutex_unlock t m ≡ error

-- if (ret != 0) throw_system_error(…)
abbrev pub or_error : {S : Type 0} → PthreadCode S → Outcome S
or_error (success s) = returned s
or_error busy = threw
or_error error = threw
or_error blocked = waiting

-- EBUSY is the answer false.
abbrev pub or_busy : {S : Type 0} → S → PthreadCode S → Outcome (Bool × S)
or_busy s (success s') = returned (true, s')
or_busy s busy = returned (false, s)
or_busy s error = threw
or_busy s blocked = waiting

-- pshared_lock(): the codes of the six calls, in their order
unfoldable pub construct_lock :
    (attr_init settype setprotocol setpshared init destroy : PthreadCode (Unit {0}))
    → Outcome (Unit {0})
construct_lock attr_init settype setprotocol setpshared init destroy = do
  a ← or_error attr_init
  b ← or_error settype
  c ← or_error setprotocol
  d ← or_error setpshared
  m ← or_error init
  or_error destroy

module _ (p : Pthread) where
  open p use {
    Mutex, owner, mutex_lock, mutex_trylock, mutex_unlock, lock_unowned, lock_other, relock,
    trylock_unowned, trylock_owned, unlock_owned, unlock_unowned,
  }

  unfoldable pub lock : ℕ → Mutex → Outcome Mutex
  lock t m = or_error (mutex_lock t m)

  unfoldable pub try_lock : ℕ → Mutex → Outcome (Bool × Mutex)
  try_lock t m = or_busy m (mutex_trylock t m)

  unfoldable pub unlock : ℕ → Mutex → Outcome Mutex
  unlock t m = or_error (mutex_unlock t m)

  abbrev pub pshared_lock : LockOps
  pshared_lock = record { State = Mutex; lock = lock; try = try_lock; unlock = unlock }

  locked_by : (t u : ℕ) (m m' : Mutex) → owner m ≡ some u → lock t m ≢ returned m'
  unfolding lock
  locked_by t u m m' h e = elim (Bool-cases (u == t)) [
    | inl own ↦
        let stuck : mutex_lock t m ≡ error = relock t m (h ∙ ap some ((==_iff u t).0 own)) in
        let f : ◌≡◌ {A = Outcome Mutex} threw (returned m') = rw stuck at e in absurd cc
    | inr other ↦
        let f : ◌≡◌ {A = Outcome Mutex} waiting (returned m') =
          rw (lock_other t u m h other) at e in
        absurd cc
  ]

  pshared_lock-IsLock : IsLock pshared_lock (λ m. owner m ≡ none) (λ t m. owner m ≡ some t)
  unfolding lock try_lock unlock
  pshared_lock-IsLock = record {
    lock_free = λ t m h. let (m', e, o) = lock_unowned t m h in (m', rw e, o);
    lock_held = λ t u m m' h. locked_by t u m m' h;
    try_free = λ t m h. let (m', e, o) = trylock_unowned t m h in (m', rw e, o);
    try_held = λ t u m h. rw (trylock_owned t u m h);
    unlock_held = λ t m h. let (m', e, o) = unlock_owned t m h in (m', rw e, o);
  }

  -- From a pshared_lock that no thread owns, whatever calls of lock, try_lock and unlock the threads
  -- make, each thread unlocking only what it holds, those that have the lock are the holder of an
  -- abstract lock: at most one at a time, and a call that meets a holder does not get it.
  pub pshared_lock-hold_all :
      (moves : List (ℕ × LockCall)) (m : Mutex)
      → owner m ≡ none
      → (act_all pshared_lock moves (record { state = m; holders = [] })).holders
        ≡ held (hold_all none moves)
  pshared_lock-hold_all moves m h = act_all-hold_all pshared_lock pshared_lock-IsLock moves m h

  -- A thread that locks a pshared_lock again, and a thread that unlocks one it does not own, get an
  -- exception.
  misuse-threw :
      (t u : ℕ) (m : Mutex)
      → owner m ≡ some t
      → owner m ≢ some u
      → (lock t m ≡ threw) × (unlock u m ≡ threw)
  unfolding lock unlock
  misuse-threw t u m h n = (rw (relock t m h), rw (unlock_unowned u m n))
