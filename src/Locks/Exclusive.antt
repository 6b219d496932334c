-- ===== src/Locks/Exclusive.antt =====
-- What a lock of src/include/cppev/lock.h promises its threads: lock(), a try and unlock() as an
-- interface, its laws, and threads that use it. An abstract lock is the thread that holds it, if any.
use cppev.Prelude.{
  ℕ, ◌≡◌, ◌≢◌, refl, sym, ap, subst, Bool, true, false, List, [], ◌∷◌, Option, none, some, ◌==◌,
  ==_iff, if◌then◌else◌, inl, inr, Bool-cases,
}
use cppev.Nio.{Outcome, returned, threw, undefined, waiting}

-- The calls of a thread, which goes by a number: `waiting` is a call that has not returned yet.
pub record LockOps : Type 1 where
  pub State : Type 0
  pub lock : ℕ → State → Outcome State
  pub try : ℕ → State → Outcome (Bool × State)
  pub unlock : ℕ → State → Outcome State

pub record IsLock (ops : LockOps) (Free : LockOps.State ops → Type 0)
    (HeldBy : ℕ → LockOps.State ops → Type 0) : Type 0 where
  pub lock_free :
      (t : ℕ) (s : LockOps.State ops)
      → Free s
      → (s' : LockOps.State ops) × (LockOps.lock ops t s ≡ returned s') × HeldBy t s'
  pub lock_held :
      (t u : ℕ) (s s' : LockOps.State ops) → HeldBy u s → LockOps.lock ops t s ≢ returned s'
  pub try_free :
      (t : ℕ) (s : LockOps.State ops)
      → Free s
      → (s' : LockOps.State ops) × (LockOps.try ops t s ≡ returned (true, s')) × HeldBy t s'
  pub try_held :
      (t u : ℕ) (s : LockOps.State ops) → HeldBy u s → LockOps.try ops t s ≡ returned (false, s)
  pub unlock_held :
      (t : ℕ) (s : LockOps.State ops)
      → HeldBy t s
      → (s' : LockOps.State ops) × (LockOps.unlock ops t s ≡ returned s') × Free s'

pub data LockCall : Type 0 where
  locks tries unlocks : LockCall

-- The abstract lock. A thread unlocks only what it holds.
abbrev pub hold : Option ℕ → ℕ → LockCall → Option ℕ
hold none t locks = some t
hold none t tries = some t
hold none t unlocks = none
hold (some u) t locks = some u
hold (some u) t tries = some u
hold (some u) t unlocks = if u == t then none else some u

abbrev pub hold_all : Option ℕ → List (ℕ × LockCall) → Option ℕ
hold_all h [] = h
hold_all h ((t, a) ∷ moves) = hold_all (hold h t a) moves

abbrev pub held : Option ℕ → List ℕ
held none = []
held (some t) = t ∷ []

abbrev remove : ℕ → List ℕ → List ℕ
remove t [] = []
remove t (u ∷ us) = if u == t then remove t us else u ∷ remove t us

abbrev member : ℕ → List ℕ → Bool
member t [] = false
member t (u ∷ us) = if u == t then true else member t us

module _ (ops : LockOps) where
  open ops use {State, lock, try, unlock}

  -- The lock, and the threads whose call has given them the lock.
  pub record Users : Type 0 where
    pub state : State
    pub holders : List ℕ

  abbrev locked : ℕ → Users → Outcome State → Users
  locked t w (returned s) = record { state = s; holders = t ∷ w.holders }
  locked t w threw = w
  locked t w undefined = w
  locked t w waiting = w

  abbrev tried : ℕ → Users → Outcome (Bool × State) → Users
  tried t w (returned (true, s)) = record { state = s; holders = t ∷ w.holders }
  tried t w (returned (false, s)) = record w { state = s }
  tried t w threw = w
  tried t w undefined = w
  tried t w waiting = w

  abbrev unlocked : ℕ → Users → Outcome State → Users
  unlocked t w (returned s) = record { state = s; holders = remove t w.holders }
  unlocked t w threw = w
  unlocked t w undefined = w
  unlocked t w waiting = w

  abbrev pub act : ℕ → LockCall → Users → Users
  act t locks w = locked t w (lock t w.state)
  act t tries w = tried t w (try t w.state)
  act t unlocks w = if member t w.holders then unlocked t w (unlock t w.state) else w

  abbrev pub act_all : List (ℕ × LockCall) → Users → Users
  act_all [] w = w
  act_all ((t, a) ∷ moves) w = act_all moves (act t a w)

  module _ {Free : State → Type 0} {HeldBy : ℕ → State → Type 0}
      (laws : IsLock ops Free HeldBy) where
    open laws use {lock_free, lock_held, try_free, try_held, unlock_held}

    abbrev Matches : Option ℕ → State → Type 0
    Matches none s = Free s
    Matches (some t) s = HeldBy t s

    abbrev Refines : Users → Option ℕ → Type 0
    Refines w h = (w.holders ≡ held h) × Matches h w.state

    abbrev users : State → Option ℕ → Users
    users s h = record { state = s; holders = held h }

    refused :
        (t : ℕ) (w : Users) (o : Outcome State) → ((s : State) → o ≢ returned s) → locked t w o ≡ w
    refused t w (returned s) never = absurd (never s refl)
    refused t w threw never = refl
    refused t w undefined never = refl
    refused t w waiting never = refl

    act-users :
        (t : ℕ) (a : LockCall) (h : Option ℕ) (s : State)
        → Matches h s
        → Refines (act t a (users s h)) (hold h t a)
    act-users t locks none s f = let (s', got, now) = lock_free t s f in rw got (refl, now)
    act-users t locks (some u) s f =
        subst (λ x. Refines x (some u))
          (sym (refused t (users s (some u)) (lock t s) (λ s'. lock_held t u s s' f))) (refl, f)
    act-users t tries none s f = let (s', got, now) = try_free t s f in rw got (refl, now)
    act-users t tries (some u) s f = rw (try_held t u s f) (refl, f)
    act-users t unlocks none s f = (refl, f)
    act-users t unlocks (some u) s f = elim (Bool-cases (u == t)) [
      | inl own ↦
          let own' : u ≡ t = (==_iff u t).0 own in
          let (s', got, now) = unlock_held t s (subst (λ x. HeldBy x s) own' f) in
          rw (own, got) (rw own refl, now)
      | inr other ↦ rw other (refl, f)
    ]

    act-Refines :
        (t : ℕ) (a : LockCall) (h : Option ℕ) (w : Users)
        → Refines w h
        → Refines (act t a w) (hold h t a)
    act-Refines t a h w (e, f) =
        let same : users w.state h ≡ w = ap (λ hs. record w { holders = hs }) (sym e) in
        subst (λ x. Refines (act t a x) (hold h t a)) same (act-users t a h w.state f)

    act_all-Refines :
        (moves : List (ℕ × LockCall)) (h : Option ℕ) (w : Users)
        → Refines w h
        → Refines (act_all moves w) (hold_all h moves)
    act_all-Refines [] h w r = r
    act_all-Refines ((t, a) ∷ moves) h w r =
        act_all-Refines moves (hold h t a) (act t a w) (act-Refines t a h w r)

    -- For a lock with the laws of the interface that no thread holds at first, and any sequence of
    -- calls, the threads that have the lock are those of the abstract lock: one or none.
    pub act_all-hold_all :
        (moves : List (ℕ × LockCall)) (s : State)
        → Free s
        → (act_all moves (record { state = s; holders = [] })).holders ≡ held (hold_all none moves)
    act_all-hold_all moves s f =
        (act_all-Refines moves none (record { state = s; holders = [] }) (refl, f)).0
