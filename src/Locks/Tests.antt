-- ===== src/Locks/Tests.antt =====
-- The theorems on locks and conditions at concrete threads.
use cppev.Prelude.{
  ℕ, ◌≡◌, ◌≢◌, refl, ap, inl, inr, Bool-cases, List, [], ◌∷◌, ◌++◌, Option, none, some, ltb, ◌==◌,
  ==_refl, ==_iff, if◌then◌else◌,
}
use cppev.Nio.{waiting, threw}
use cppev.Locks.Exclusive.{LockCall, locks, tries, unlocks, hold_all, held, act_all}
use cppev.Locks.Mutex.{
  PthreadCode, success, busy, error, blocked, Pthread, pshared_lock, pshared_lock-hold_all,
}
use cppev.Locks.Condition.{wait_until, first, or_else, wakes, wait_until-first}

-- A mutex is its owner.
abbrev lock_by : ℕ → Option ℕ → PthreadCode (Option ℕ)
lock_by t none = success (some t)
lock_by t (some u) = if u == t then error else blocked

abbrev trylock_by : ℕ → Option ℕ → PthreadCode (Option ℕ)
trylock_by t none = success (some t)
trylock_by t (some u) = busy

abbrev unlock_by : ℕ → Option ℕ → PthreadCode (Option ℕ)
unlock_by t none = error
unlock_by t (some u) = if u == t then success none else error

unlock_other : (t : ℕ) (m : Option ℕ) → m ≢ some t → unlock_by t m ≡ error
unlock_other t none h = refl
unlock_other t (some u) h = elim (Bool-cases (u == t)) [
  | inl own ↦ absurd (h (ap some ((==_iff u t).0 own)))
  | inr other ↦ rw other
]

abbrev mutexes : Pthread
mutexes = record {
  Mutex = Option ℕ;
  owner = λ m. m;
  mutex_lock = lock_by;
  mutex_trylock = trylock_by;
  mutex_unlock = unlock_by;
  lock_unowned = λ t m h. (some t, rw h, refl);
  lock_other = λ t u m h o. rw (h, o);
  relock = λ t m h. rw (h, ==_refl t);
  trylock_unowned = λ t m h. (some t, rw h, refl);
  trylock_owned = λ t u m h. rw h;
  unlock_owned = λ t m h. (none, rw (h, ==_refl t), refl);
  unlock_unowned = unlock_other;
}

abbrev two_threads : List (ℕ × LockCall)
two_threads = (1, locks) ∷ (2, tries) ∷ (2, locks) ∷ (1, unlocks) ∷ (2, tries) ∷ (1, locks) ∷ []

pshared_lock-hold_all_example :
    (act_all (pshared_lock mutexes) two_threads (record { state = none; holders = [] })).holders
    ≡ held (hold_all none two_threads)
pshared_lock-hold_all_example = pshared_lock-hold_all mutexes two_threads none refl

-- The condition holds at the second wake.
wait_until-first_example :
    (wait_until (λ n. ltb 2 n) (wakes (1 ∷ 3 ∷ [])) 0
      ≡ or_else waiting (first (λ n. ltb 2 n) (0 ∷ 1 ∷ 3 ∷ [])))
    × (wait_until (λ n. ltb 2 n) (wakes (1 ∷ 3 ∷ []) ++ error ∷ []) 0
        ≡ or_else threw (first (λ n. ltb 2 n) (0 ∷ 1 ∷ 3 ∷ [])))
wait_until-first_example = wait_until-first (λ n. ltb 2 n) (1 ∷ 3 ∷ []) [] 0
