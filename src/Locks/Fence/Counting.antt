-- ===== src/Locks/Fence/Counting.antt =====
-- How many threads are in which phase, and what a signal changes of that.
use cppev.Prelude.{
  ℕ, zero, suc, ◌+◌, ◌-◌, ◌≡◌, ◌≢◌, refl, sym, ap, inl, inr, true, List, [], ◌∷◌, arith, Bool-cases,
  get_or, set,
}
use cppev.Locks.Fence.{
  Phase, outside, locking, asleep, woken, passed, announcing, entering, notified, is_asleep,
  wake_first, signal,
}

abbrev pub sum_of : (Phase → ℕ) → List Phase → ℕ
sum_of f [] = 0
sum_of f (p ∷ ps) = f p + sum_of f ps

-- The threads that call wait(), those that sleep in it, and those that have returned from it.
abbrev pub waits : Phase → ℕ
waits announcing = 0
waits entering = 0
waits notified = 0
waits _ = 1

abbrev pub sleeps : Phase → ℕ
sleeps asleep = 1
sleeps _ = 0

abbrev pub is_through : Phase → ℕ
is_through passed = 1
is_through _ = 0

abbrev pub waiters : List Phase → ℕ
waiters = sum_of waits

abbrev pub sleepers : List Phase → ℕ
sleepers = sum_of sleeps

abbrev pub through : List Phase → ℕ
through = sum_of is_through

pub sum_of-set :
    (f : Phase → ℕ) (ps : List Phase) (i : ℕ) (p q : Phase)
    → get_or ps i passed ≡ q
    → q ≢ passed
    → sum_of f (set ps i p) + f q ≡ sum_of f ps + f p
sum_of-set f [] i p q e h = absurd (h (sym e))
sum_of-set f (r ∷ ps) zero p q e h = let e' = ap f e in omega arith
sum_of-set f (r ∷ ps) (suc i) p q e h = omega (arith, sum_of-set f ps i p q e h)

-- What a signal does to the three counts.
pub record Signalled (ps qs : List Phase) : Type 0 where
  pub same_waiters : waiters qs ≡ waiters ps
  pub fewer : sleepers qs ≡ sleepers ps - 1
  pub same_through : through qs ≡ through ps

-- A thread in front that does not sleep.
Signalled-cons :
    (p : Phase) (ps qs : List Phase) → sleeps p ≡ 0 → Signalled ps qs → Signalled (p ∷ ps) (p ∷ qs)
Signalled-cons p ps qs z s =
    let w = s.same_waiters in
    let f = s.fewer in
    let t = s.same_through in
    record { same_waiters = omega arith; fewer = omega arith; same_through = omega arith }

wake_first-Signalled : (ps : List Phase) → Signalled ps (wake_first ps)
wake_first-Signalled [] = record { same_waiters = refl; fewer = omega arith; same_through = refl }
wake_first-Signalled (asleep ∷ ps) = record {
  same_waiters = omega arith;
  fewer = omega arith;
  same_through = omega arith;
}
wake_first-Signalled (outside ∷ ps) = Signalled-cons outside ps _ refl (wake_first-Signalled ps)
wake_first-Signalled (locking ∷ ps) = Signalled-cons locking ps _ refl (wake_first-Signalled ps)
wake_first-Signalled (woken ∷ ps) = Signalled-cons woken ps _ refl (wake_first-Signalled ps)
wake_first-Signalled (passed ∷ ps) = Signalled-cons passed ps _ refl (wake_first-Signalled ps)
wake_first-Signalled (announcing ∷ ps) =
    Signalled-cons announcing ps _ refl (wake_first-Signalled ps)
wake_first-Signalled (entering ∷ ps) = Signalled-cons entering ps _ refl (wake_first-Signalled ps)
wake_first-Signalled (notified ∷ ps) = Signalled-cons notified ps _ refl (wake_first-Signalled ps)

pub asleep_of : (p : Phase) → is_asleep p ≡ true → p ≡ asleep
asleep_of asleep e = refl
asleep_of outside e = cc
asleep_of locking e = cc
asleep_of woken e = cc
asleep_of passed e = cc
asleep_of announcing e = cc
asleep_of entering e = cc
asleep_of notified e = cc

pub signal-Signalled : (j : ℕ) (ps : List Phase) → Signalled ps (signal j ps)
signal-Signalled j ps = elim (Bool-cases (is_asleep (get_or ps j passed))) [
  | inl sleeping ↦
      let e = asleep_of (get_or ps j passed) sleeping in
      let w = sum_of-set waits ps j woken asleep e (λ k. cc) in
      let s = sum_of-set sleeps ps j woken asleep e (λ k. cc) in
      let t = sum_of-set is_through ps j woken asleep e (λ k. cc) in
      rw sleeping
        (record { same_waiters = omega arith; fewer = omega arith; same_through = omega arith })
  | inr awake ↦ rw awake (wake_first-Signalled ps)
]
