-- ===== src/Locks/Guards.antt =====
-- pshared_rwlock and its guards in src/lib/lock.cc. A lock goes by its address.
use cppev.Prelude.{
  ℕ, suc, ◌+◌, ◌≡◌, Bool, true, false, Option, none, some, arith, ◌==◌, ==_refl, if◌then◌else◌,
}
use cppev.Nio.{Outcome, returned, threw, ◌>>=◌}

-- What a pthread_rwlock function returns: zero, EBUSY, EAGAIN, or another error.
pub data Code : Type 0 where
  success busy again error : Code

-- The locks of pthread. `depth` is how often the calling thread has acquired a lock and not released
-- it: an acquisition that succeeds adds one, and what was acquired can be released, once.
pub record RwLocks : Type 1 where
  pub State : Type 0
  pub depth : State → ℕ → ℕ
  pub sys_rdlock : State → ℕ → Code × State
  pub sys_wrlock : State → ℕ → Code × State
  pub sys_tryrdlock : State → ℕ → Code × State
  pub sys_trywrlock : State → ℕ → Code × State
  pub sys_unlock : State → ℕ → Code × State
  pub read_locked :
      (s s' : State) (l k : ℕ)
      → sys_rdlock s l ≡ (success, s')
      → depth s' k ≡ depth s k + (if l == k then 1 else 0)
  pub write_locked :
      (s s' : State) (l k : ℕ)
      → sys_wrlock s l ≡ (success, s')
      → depth s' k ≡ depth s k + (if l == k then 1 else 0)
  pub unlocked :
      (s : State) (l n : ℕ)
      → depth s l ≡ suc n
      → (s' : State) × (sys_unlock s l ≡ (success, s'))
        × ((k : ℕ) → depth s' k + (if l == k then 1 else 0) ≡ depth s k)

module _ (locks : RwLocks) where
  open locks use {
    State, depth, sys_rdlock, sys_wrlock, sys_tryrdlock, sys_trywrlock, sys_unlock, read_locked,
    write_locked, unlocked,
  }

  -- A return code that is not zero throws.
  abbrev checked : Code × State → Outcome State
  checked (success, s) = returned s
  checked (_, s) = threw

  abbrev pub unlock : State → ℕ → Outcome State
  unlock s lock = checked (sys_unlock s lock)

  abbrev pub rdlock : State → ℕ → Outcome State
  rdlock s lock = checked (sys_rdlock s lock)

  abbrev pub wrlock : State → ℕ → Outcome State
  wrlock s lock = checked (sys_wrlock s lock)

  abbrev pub try_read : Code × State → Outcome (Bool × State)
  try_read (success, s) = returned (true, s)
  try_read (busy, s) = returned (false, s)
  try_read (again, s) = returned (false, s)
  try_read (error, s) = threw

  abbrev pub try_rdlock : State → ℕ → Outcome (Bool × State)
  try_rdlock s lock = try_read (sys_tryrdlock s lock)

  -- EAGAIN is no answer of pthread_rwlock_trywrlock that the code expects.
  abbrev pub try_write : Code × State → Outcome (Bool × State)
  try_write (success, s) = returned (true, s)
  try_write (busy, s) = returned (false, s)
  try_write (_, s) = threw

  abbrev pub try_wrlock : State → ℕ → Outcome (Bool × State)
  try_wrlock s lock = try_write (sys_trywrlock s lock)

  -- rwlock_ of a guard: none is the null pointer.
  abbrev pub Guard : Type 0
  Guard = Option ℕ

  unfoldable pub rdlockguard : State → ℕ → Outcome (Guard × State)
  rdlockguard s lock = do t ← rdlock s lock; returned (some lock, t)

  unfoldable pub wrlockguard : State → ℕ → Outcome (Guard × State)
  wrlockguard s lock = do t ← wrlock s lock; returned (some lock, t)

  -- operator= of both guards: the lock that `self` had is forgotten
  unfoldable pub move_assign : Guard → Guard → Guard × Guard
  move_assign self other = (other, none)

  -- catch (...) {}
  abbrev swallow : State → Outcome State → State
  swallow s (returned t) = t
  swallow s _ = s

  -- The destructor of both guards.
  unfoldable pub destroy : Guard → State → State
  destroy none s = s
  destroy (some lock) s = swallow s (unlock s lock)

  destroy-depth :
      (s : State) (l n k : ℕ)
      → depth s l ≡ suc n
      → depth (destroy (some l) s) k + (if l == k then 1 else 0) ≡ depth s k
  unfolding destroy
  destroy-depth s l n k h = let (t, e, less) = unlocked s l n h in rw e (less k)

  -- A guard of either kind whose constructor gets the lock holds it once more until its destructor,
  -- which then leaves every lock with as many acquisitions as before.
  destroy-guard :
      (s r w : State) (l k : ℕ)
      → sys_rdlock s l ≡ (success, r)
      → sys_wrlock s l ≡ (success, w)
      → (rdlockguard s l ≡ returned (some l, r))
        × (depth r l ≡ depth s l + 1)
        × (depth (destroy (some l) r) k ≡ depth s k)
        × (wrlockguard s l ≡ returned (some l, w))
        × (depth w l ≡ depth s l + 1)
        × (depth (destroy (some l) w) k ≡ depth s k)
  unfolding rdlockguard wrlockguard
  destroy-guard s r w l k e f =
      let once : (l == l) ≡ true = ==_refl l in
      let read_at : depth r l ≡ depth s l + 1 = rw once at (read_locked s r l l e) in
      let write_at : depth w l ≡ depth s l + 1 = rw once at (write_locked s w l l f) in
      let read_end = destroy-depth r l (depth s l) k (omega arith) in
      let write_end = destroy-depth w l (depth s l) k (omega arith) in
      let read_more = read_locked s r l k e in
      let write_more = write_locked s w l k f in
      (rw e, read_at, omega arith, rw f, write_at, omega arith)

  -- When two guards hold two different locks and the second is assigned to the first, both
  -- destructors together release the second lock only: the first stays acquired.
  move_assign_leak :
      (s t u : State) (x y : ℕ)
      → (x == y) ≡ false
      → (y == x) ≡ false
      → sys_rdlock s x ≡ (success, t)
      → sys_rdlock t y ≡ (success, u)
      → let after = move_assign (some x) (some y) in
        let last = destroy after.1 (destroy after.0 u) in
        (depth last x ≡ depth s x + 1) × (depth last y ≡ depth s y)
  unfolding move_assign destroy
  move_assign_leak s t u x y differ differ' e f =
      let same_x : (x == x) ≡ true = ==_refl x in
      let same_y : (y == y) ≡ true = ==_refl y in
      let x_first : depth t x ≡ depth s x + 1 = rw same_x at (read_locked s t x x e) in
      let y_first : depth t y ≡ depth s y + 0 = rw differ at (read_locked s t x y e) in
      let x_second : depth u x ≡ depth t x + 0 = rw differ' at (read_locked t u y x f) in
      let y_second : depth u y ≡ depth t y + 1 = rw same_y at (read_locked t u y y f) in
      let x_end = rw differ' at (destroy-depth u y (depth t y) x (omega arith)) in
      let y_end = rw same_y at (destroy-depth u y (depth t y) y (omega arith)) in
      (omega arith, omega arith)
