-- ===== src/Locks/Fence/Waking.antt =====
-- Who gets through the fence.
use cppev.Prelude.{
  ℕ, ◌-◌, ◌≤◌, ◌<◌, ◌≡◌, ◌≢◌, refl, inl, inr, Bool, true, false, List, [], ◌∷◌, arith, Bool-cases,
  if◌then◌else◌, get_or, set,
}
use cppev.Locks.Fence.{
  Phase, outside, locking, asleep, woken, passed, announcing, entering, notified, Fence, is_asleep,
  advance, Move, go, wake, step, run,
}
use cppev.Locks.Fence.Counting.{
  waits, sleeps, is_through, waiters, sleepers, through, sum_of-set, asleep_of, signal-Signalled,
}

-- Nobody is through while ok_ is false; when it is true, one of the threads that call wait(), or have
-- returned from it, does not sleep.
abbrev Told : Bool → List Phase → Type 0
Told false ps = through ps ≡ 0
Told true ps = sleepers ps ≤ waiters ps - 1

record Guarded (n : ℕ) (ok : Bool) (ps : List Phase) : Type 0 where
  kind : waiters ps ≡ n
  told : Told ok ps

-- Thread i, which waits and does not sleep, takes another phase.
set-Guarded :
    (n i : ℕ) (ok : Bool) (q : Phase) (ps : List Phase)
    → get_or ps i passed ≡ q
    → q ≢ passed
    → waits q ≡ 1
    → sleeps q ≡ 0
    → is_through q ≡ 0
    → (closed : Phase) → waits closed ≡ 1
    → is_through closed ≡ 0
    → Guarded n ok ps
    → Guarded n ok (set ps i (if ok then passed else closed))
set-Guarded n i false q ps e ne wq sq tq closed wc tc g =
    let k = g.kind in
    let t = g.told in
    let w = sum_of-set waits ps i closed q e ne in
    let u = sum_of-set is_through ps i closed q e ne in
    record { kind = omega arith; told = omega arith }
set-Guarded n i true q ps e ne wq sq tq closed wc tc g =
    let k = g.kind in
    let t = g.told in
    let w = sum_of-set waits ps i passed q e ne in
    let s = sum_of-set sleeps ps i passed q e ne in
    record { kind = omega arith; told = omega arith }

-- A thread that notifies takes another phase of it.
set_announcer :
    (n i : ℕ) (ok : Bool) (p q : Phase) (ps : List Phase)
    → get_or ps i passed ≡ q
    → q ≢ passed
    → (waits q ≡ 0) × (sleeps q ≡ 0) × (is_through q ≡ 0)
    → (waits p ≡ 0) × (sleeps p ≡ 0) × (is_through p ≡ 0)
    → Guarded n ok ps
    → Guarded n ok (set ps i p)
set_announcer n i ok p q ps e ne (wq, sq, tq) (wp, sp, tp) g =
    let k = g.kind in
    let w = sum_of-set waits ps i p q e ne in
    let s = sum_of-set sleeps ps i p q e ne in
    let t = sum_of-set is_through ps i p q e ne in
    let ew : waiters (set ps i p) ≡ waiters ps = omega arith in
    let es : sleepers (set ps i p) ≡ sleepers ps = omega arith in
    let et : through (set ps i p) ≡ through ps = omega arith in
    record { kind = omega arith; told = told_same ok g.told ew es et }
  where
    told_same :
        (b : Bool)
        → Told b ps
        → waiters (set ps i p) ≡ waiters ps
        → sleepers (set ps i p) ≡ sleepers ps
        → through (set ps i p) ≡ through ps
        → Told b (set ps i p)
    told_same false h ew es et = omega arith
    told_same true h ew es et = omega arith

sleepers_few : (ps : List Phase) → sleepers ps ≤ waiters ps
sleepers_few [] = omega arith
sleepers_few (p ∷ ps) = let h = sleepers_few ps in let k = few p in omega arith
  where
    few : (q : Phase) → sleeps q ≤ waits q
    few outside = omega arith
    few locking = omega arith
    few asleep = omega arith
    few woken = omega arith
    few passed = omega arith
    few announcing = omega arith
    few entering = omega arith
    few notified = omega arith

if_announcing :
    (ok : Bool)
    → let p = if ok then notified else entering in
      (waits p ≡ 0) × (sleeps p ≡ 0) × (is_through p ≡ 0)
if_announcing true = (refl, refl, refl)
if_announcing false = (refl, refl, refl)

advance-Guarded :
    (n i j : ℕ) (q : Phase) (f : Fence)
    → get_or f.phases i passed ≡ q
    → Guarded n f.ok f.phases
    → Guarded n (advance q i j f).ok (advance q i j f).phases
unfolding advance
advance-Guarded n i j outside f e g =
    set-Guarded n i f.ok outside f.phases e (λ k. cc) refl refl refl locking refl refl g
advance-Guarded n i j locking f e g =
    set-Guarded n i f.ok locking f.phases e (λ k. cc) refl refl refl asleep refl refl g
advance-Guarded n i j asleep f e g = g
advance-Guarded n i j woken f e g =
    set-Guarded n i f.ok woken f.phases e (λ k. cc) refl refl refl asleep refl refl g
advance-Guarded n i j passed f e g = g
advance-Guarded n i j announcing f e g =
    set_announcer n i f.ok (if f.ok then notified else entering) announcing f.phases e (λ k. cc)
      (refl, refl, refl) (if_announcing f.ok) g
advance-Guarded n i j entering f e g =
    let ps = set f.phases i notified in
    let h =
      set_announcer n i f.ok notified entering f.phases e (λ k. cc) (refl, refl, refl)
        (refl, refl, refl) g in
    let s = signal-Signalled j ps in
    let k = h.kind in
    let a = s.same_waiters in
    let b = s.fewer in let c = sleepers_few ps in record { kind = omega arith; told = omega arith }
advance-Guarded n i j notified f e g = g

wake-Guarded :
    (n i : ℕ) (ok : Bool) (ps : List Phase)
    → Guarded n ok ps
    → Guarded n ok (if is_asleep (get_or ps i passed) then set ps i woken else ps)
wake-Guarded n i ok ps g = elim (Bool-cases (is_asleep (get_or ps i passed))) [
  | inl sleeping ↦
      let e = asleep_of (get_or ps i passed) sleeping in
      let k = g.kind in
      let w = sum_of-set waits ps i woken asleep e (λ k. cc) in
      let s = sum_of-set sleeps ps i woken asleep e (λ k. cc) in
      let t = sum_of-set is_through ps i woken asleep e (λ k. cc) in
      rw sleeping (record {
        kind = omega arith;
        told = told_less ok g.told (omega arith) (omega arith) (omega arith);
      })
  | inr awake ↦ rw awake g
]
  where
    told_less :
        (b : Bool)
        → Told b ps
        → waiters (set ps i woken) ≡ waiters ps
        → sleepers (set ps i woken) ≤ sleepers ps
        → through (set ps i woken) ≡ through ps
        → Told b (set ps i woken)
    told_less false h ew es et = omega arith
    told_less true h ew es et = omega arith

run-Guarded :
    (n : ℕ) (moves : List Move) (f : Fence)
    → Guarded n f.ok f.phases
    → Guarded n (run moves f).ok (run moves f).phases
unfolding run step
run-Guarded n [] f g = g
run-Guarded n (go i j ∷ moves) f g = run-Guarded n moves _ (advance-Guarded n i j _ f refl g)
run-Guarded n (wake i ∷ moves) f g = run-Guarded n moves _ (wake-Guarded n i f.ok f.phases g)

-- Whatever the schedule and whichever thread a signal wakes: from a closed fence that no thread has
-- passed, a thread is through only when ok_ is set; and once it is set, at least one of the threads
-- that call wait(), those counted that have returned from it, is not asleep. So with one thread that
-- calls wait(), that thread is not asleep; with more, the others may all be.
pub run-through :
    (moves : List Move) (ps : List Phase)
    → through ps ≡ 0
    → let f = run moves (record { ok = false; phases = ps }) in
      (0 < through f.phases → f.ok ≡ true) × (f.ok ≡ true → sleepers f.phases ≤ waiters ps - 1)
run-through moves ps h =
    let f = run moves (record { ok = false; phases = ps }) in
    let g =
      run-Guarded (waiters ps) moves (record { ok = false; phases = ps })
        (record { kind = refl; told = h }) in
    let k = g.kind in
    elim (Bool-cases f.ok) [
      | inl open_now ↦
          let t : sleepers f.phases ≤ waiters f.phases - 1 = rw open_now at g.told in
          (λ _. open_now, λ _. omega arith)
      | inr closed ↦
          let t : through f.phases ≡ 0 = rw closed at g.told in (λ p. absurd (omega arith), λ p. cc)
    ]
