-- ===== src/Ipc/Counting.antt =====
-- acquire, try_acquire and release of semaphore in src/lib/ipc.cc.
use cppev.Prelude.{ℕ, zero, suc, ◌+◌, ◌≤◌, ◌<◌, ◌≡◌, refl, ◌∙◌, Bool, true, false, arith}
use cppev.Nio.{Outcome, returned, threw, waiting, ◌>>=◌}

-- SEM_VALUE_MAX
abbrev pub sem_value_max : ℕ
sem_value_max = 2_147_483_647

-- A call gives the semaphore back, blocks, answers EAGAIN or EINTR, or fails otherwise.
pub data Answer (Sem : Type 0) : Type 0 where
  done : Sem → Answer Sem
  blocked again interrupted failed : Answer Sem

-- sem_wait(3), sem_trywait(3) and sem_post(3), where no signal comes: a wait takes one from a value
-- that is not zero, sem_trywait answers EAGAIN at zero, and a post adds one up to the largest value.
pub record Semaphores : Type 1 where
  pub Sem : Type 0
  pub value : Sem → ℕ
  pub sem_wait : Sem → Answer Sem
  pub sem_trywait : Sem → Answer Sem
  pub sem_post : Sem → Answer Sem
  pub waited :
      (s : Sem) (n : ℕ) → value s ≡ suc n → (t : Sem) × (sem_wait s ≡ done t) × (value t ≡ n)
  pub tried :
      (s : Sem) (n : ℕ) → value s ≡ suc n → (t : Sem) × (sem_trywait s ≡ done t) × (value t ≡ n)
  pub tried_zero : (s : Sem) → value s ≡ 0 → sem_trywait s ≡ again
  pub posted :
      (s : Sem)
      → value s < sem_value_max
      → (t : Sem) × (sem_post s ≡ done t) × (value t ≡ value s + 1)

-- Every -1 throws.
abbrev or_throw : {A : Type 0} → Answer A → Outcome A
or_throw (done s) = returned s
or_throw blocked = waiting
or_throw _ = threw

module _ (sems : Semaphores) where
  open sems use {Sem, value, sem_wait, sem_trywait, sem_post, waited, tried, tried_zero, posted}

  unfoldable pub acquire : ℕ → Sem → Outcome Sem
  acquire zero s = returned s
  acquire (suc count) s = do t ← or_throw (sem_wait s); acquire count t

  unfoldable pub release : ℕ → Sem → Outcome Sem
  release zero s = returned s
  release (suc count) s = do t ← or_throw (sem_post s); release count t

  abbrev answered : Sem → Answer Sem → Outcome (Bool × Sem)
  answered s (done t) = returned (true, t)
  answered s blocked = waiting
  answered s again = returned (false, s)
  answered s interrupted = returned (false, s)
  answered s failed = threw

  unfoldable pub try_acquire : Sem → Outcome (Bool × Sem)
  try_acquire s = answered s (sem_trywait s)

  release_step :
      (count : ℕ) (s t : Sem) → sem_post s ≡ done t → release (suc count) s ≡ release count t
  unfolding release
  release_step count s t e = rw e

  acquire_step :
      (count : ℕ) (s t : Sem) → sem_wait s ≡ done t → acquire (suc count) s ≡ acquire count t
  unfolding acquire
  acquire_step count s t e = rw e

  pub release-value :
      (count : ℕ) (s : Sem)
      → value s + count ≤ sem_value_max
      → (t : Sem) × (release count s ≡ returned t) × (value t ≡ value s + count)
  unfolding release
  release-value zero s h = (s, refl, omega arith)
  release-value (suc count) s h =
      let (t, e, more) = posted s (omega arith) in
      let (u, f, sum) = release-value count t (omega arith) in
      (u, release_step count s t e ∙ f, omega arith)

  pub acquire-value :
      (count n : ℕ) (s : Sem)
      → value s ≡ n + count
      → (t : Sem) × (acquire count s ≡ returned t) × (value t ≡ n)
  unfolding acquire
  acquire-value zero n s h = (s, refl, omega arith)
  acquire-value (suc count) n s h =
      let (t, e, less) = waited s (n + count) (omega arith) in
      let (u, f, left) = acquire-value count n t less in (u, acquire_step count s t e ∙ f, left)

  -- A release within the largest value returns and adds its count; an acquire of the same count then
  -- returns without blocking and restores the value.
  pub acquire-release :
      (count : ℕ) (s : Sem)
      → value s + count ≤ sem_value_max
      → (t u : Sem) × (release count s ≡ returned t)
        × (value t ≡ value s + count)
        × (acquire count t ≡ returned u)
        × (value u ≡ value s)
  acquire-release count s h =
      let (t, e, sum) = release-value count s h in
      let (u, f, back) = acquire-value count (value s) t sum in (t, u, e, sum, f, back)

  -- try_acquire returns at every value: true and one less where the value is not zero, and false and
  -- the same semaphore where it is.
  pub try_acquire-value :
      (s z : Sem) (n : ℕ)
      → value s ≡ suc n
      → value z ≡ 0
      → (t : Sem) × (try_acquire s ≡ returned (true, t))
        × (value t ≡ n)
        × (try_acquire z ≡ returned (false, z))
  unfolding try_acquire
  try_acquire-value s z n h i =
      let (t, e, less) = tried s n h in (t, rw e, less, rw (tried_zero z i))
