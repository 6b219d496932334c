-- ===== src/Locks/Condition.antt =====
-- pshared_cond of src/lib/lock.cc. The shared state that a condition reads is a parameter: other
-- threads change it while the lock is given up in pthread_cond_wait.
use cppev.Prelude.{
  ◌≡◌, Bool, true, false, List, [], ◌∷◌, ◌++◌, append-nil, Option, none, some, if◌then◌else◌, inl,
  inr, Bool-cases,
}
use cppev.Nio.{Outcome, returned, threw, waiting, ◌>>=◌}
use cppev.Locks.Mutex.{PthreadCode, success, error, or_error}

-- pshared_cond(): the codes of the four calls, in their order
unfoldable pub construct_cond :
    (attr_init setpshared init destroy : PthreadCode (Unit {0})) → Outcome (Unit {0})
construct_cond attr_init setpshared init destroy = do
  a ← or_error attr_init
  b ← or_error setpshared
  c ← or_error init
  or_error destroy

-- notify_one and notify_all: the code of pthread_cond_signal and of pthread_cond_broadcast
unfoldable pub notify_one : {S : Type 0} → PthreadCode S → Outcome S
notify_one code = or_error code

unfoldable pub notify_all : {S : Type 0} → PthreadCode S → Outcome S
notify_all code = or_error code

module _ {S : Type 0} where
  -- wait(lock): the code of pthread_cond_wait, with the shared state as the thread finds it when it has
  -- the lock again. A thread may wake up without a notification.
  unfoldable pub wait : PthreadCode S → Outcome S
  wait code = or_error code

  -- wait(lock, cond): while (!cond()) wait(lock), with the codes of the calls of pthread_cond_wait
  unfoldable pub wait_until : (S → Bool) → List (PthreadCode S) → S → Outcome S
  unfolding wait
  wait_until cond [] s = if cond s then returned s else waiting
  wait_until cond (code ∷ codes) s =
      let rest = wait code >>= wait_until cond codes in if cond s then returned s else rest

  -- The first state that satisfies the condition.
  abbrev pub first : (S → Bool) → List S → Option S
  first cond [] = none
  first cond (s ∷ ss) = if cond s then some s else first cond ss

  abbrev pub or_else : Outcome S → Option S → Outcome S
  or_else o none = o
  or_else o (some s) = returned s

  abbrev pub wakes : List S → List (PthreadCode S)
  wakes [] = []
  wakes (s ∷ ss) = success s ∷ wakes ss

  returns_at :
      (cond : S → Bool) (codes : List (PthreadCode S)) (s : S)
      → cond s ≡ true
      → wait_until cond codes s ≡ returned s
  unfolding wait_until
  returns_at cond [] s h = rw h
  returns_at cond (code ∷ codes) s h = rw h

  waits_first :
      (cond : S → Bool) (woken : List S) (codes : List (PthreadCode S)) (s : S) (o : Outcome S)
      → ((t : S) → cond t ≡ false → wait_until cond codes t ≡ o)
      → wait_until cond (wakes woken ++ codes) s ≡ or_else o (first cond (s ∷ woken))
  unfolding wait_until wait
  waits_first cond [] codes s o last = elim (Bool-cases (cond s)) [
    | inl holds ↦ rw (holds, returns_at cond codes s holds)
    | inr fails ↦ rw fails (last s fails)
  ]
  waits_first cond (t ∷ woken) codes s o last = elim (Bool-cases (cond s)) [
    | inl holds ↦ rw holds
    | inr fails ↦ rw fails (waits_first cond woken codes t o last)
  ]

  -- wait with a condition, whatever wakes the thread up, returns in the first state that it sees with
  -- the lock in which the condition holds. If there is none, it goes on waiting, or throws if
  -- pthread_cond_wait fails.
  pub wait_until-first :
      (cond : S → Bool) (woken : List S) (codes : List (PthreadCode S)) (s : S)
      → (wait_until cond (wakes woken) s ≡ or_else waiting (first cond (s ∷ woken)))
        × (wait_until cond (wakes woken ++ error ∷ codes) s
            ≡ or_else threw (first cond (s ∷ woken)))
  unfolding wait_until wait
  wait_until-first cond woken codes s = (
    rw (← append-nil (wakes woken)) (waits_first cond woken [] s waiting (λ t h. rw h)),
    waits_first cond woken (error ∷ codes) s threw (λ t h. rw h),
  )
