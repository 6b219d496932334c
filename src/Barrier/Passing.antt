-- ===== src/Barrier/Passing.antt =====
-- Who passes the barrier, and when.
use cppev.Prelude.{
  ℕ, zero, suc, ◌+◌, ◌≤◌, ◌<◌, ◌≡◌, ◌≢◌, refl, sym, ap, ◌⊎◌, inl, inr, Bool, true, false, List, [],
  ◌∷◌, arith, get_or, set, replicate,
}
use cppev.Prelude.Int.{ℤ, pos, negsuc}
use cppev.Barrier.{
  Phase, outside, waiting, passed, threw, Barrier, init, decremented, arrived, woken, advance, run,
}

-- The threads that have called wait().
abbrev pub has_arrived : Phase → ℕ
has_arrived outside = 0
has_arrived _ = 1

abbrev pub arrivals : List Phase → ℕ
arrivals [] = 0
arrivals (p ∷ ps) = has_arrived p + arrivals ps

abbrev pub has_passed : Phase → ℕ
has_passed passed = 1
has_passed _ = 0

abbrev pub passes : List Phase → ℕ
passes [] = 0
passes (p ∷ ps) = has_passed p + passes ps

arrivals-set :
    (ps : List Phase) (i : ℕ) (p q : Phase)
    → get_or ps i passed ≡ q
    → q ≢ passed
    → arrivals (set ps i p) + has_arrived q ≡ arrivals ps + has_arrived p
arrivals-set [] i p q e h = absurd (h (sym e))
arrivals-set (r ∷ ps) zero p q e h = let e' = ap has_arrived e in omega arith
arrivals-set (r ∷ ps) (suc i) p q e h = omega (arith, arrivals-set ps i p q e h)

passes-set :
    (ps : List Phase) (i : ℕ) (p q : Phase)
    → get_or ps i passed ≡ q
    → q ≢ passed
    → passes (set ps i p) + has_passed q ≡ passes ps + has_passed p
passes-set [] i p q e h = absurd (h (sym e))
passes-set (r ∷ ps) zero p q e h = let e' = ap has_passed e in omega arith
passes-set (r ∷ ps) (suc i) p q e h = omega (arith, passes-set ps i p q e h)

-- count_ is the number that the barrier was made for, less the arrivals; while it is positive no
-- thread has passed.
abbrev Counted : ℕ → ℤ → List Phase → Type 0
Counted n (pos zero) ps = arrivals ps ≡ n
Counted n (pos (suc k)) ps = (arrivals ps + suc k ≡ n) × (passes ps ≡ 0)
Counted n (negsuc k) ps = arrivals ps ≡ n + suc k

arrive-Counted :
    (n i : ℕ) (c : ℤ) (ps : List Phase)
    → get_or ps i passed ≡ outside
    → Counted n c ps
    → Counted n (decremented c) (set ps i (arrived (decremented c)))
arrive-Counted n i (pos zero) ps e h =
    let a = arrivals-set ps i threw outside e (λ q. cc) in omega arith
arrive-Counted n i (pos (suc zero)) ps e h =
    let a = arrivals-set ps i passed outside e (λ q. cc) in omega arith
arrive-Counted n i (pos (suc (suc k))) ps e h =
    let a = arrivals-set ps i waiting outside e (λ q. cc) in
    let b = passes-set ps i waiting outside e (λ q. cc) in omega arith
arrive-Counted n i (negsuc k) ps e h =
    let a = arrivals-set ps i threw outside e (λ q. cc) in omega arith

wake-Counted :
    (n i : ℕ) (c : ℤ) (ps : List Phase)
    → get_or ps i passed ≡ waiting
    → Counted n c ps
    → Counted n c (set ps i (woken c))
wake-Counted n i (pos zero) ps e h =
    let a = arrivals-set ps i passed waiting e (λ q. cc) in omega arith
wake-Counted n i (pos (suc k)) ps e h =
    let a = arrivals-set ps i waiting waiting e (λ q. cc) in
    let b = passes-set ps i waiting waiting e (λ q. cc) in omega arith
wake-Counted n i (negsuc k) ps e h =
    let a = arrivals-set ps i waiting waiting e (λ q. cc) in omega arith

advance-Counted :
    (n i : ℕ) (p : Phase) (b : Barrier)
    → get_or b.phases i passed ≡ p
    → Counted n b.count b.phases
    → Counted n (advance p i b).count (advance p i b).phases
unfolding advance
advance-Counted n i outside b e h = arrive-Counted n i b.count b.phases e h
advance-Counted n i waiting b e h = wake-Counted n i b.count b.phases e h
advance-Counted n i passed b e h = h
advance-Counted n i threw b e h = h

run-Counted :
    (n : ℕ) (b : Barrier) (threads : List ℕ)
    → Counted n b.count b.phases
    → Counted n (run b threads).count (run b threads).phases
unfolding run
run-Counted n b [] h = h
run-Counted n b (i ∷ threads) h = run-Counted n _ threads (advance-Counted n i _ b refl h)

none_yet : (m : ℕ) → (arrivals (replicate m outside) ≡ 0) × (passes (replicate m outside) ≡ 0)
none_yet zero = (refl, refl)
none_yet (suc m) = let a = none_yet m in (omega arith, omega arith)

Counted-init : (n m : ℕ) → Counted n (pos n) (replicate m outside)
Counted-init zero m = (none_yet m).0
Counted-init (suc n) m = let a = none_yet m in (omega arith, a.1)

passed_late : (n : ℕ) (c : ℤ) (ps : List Phase) → Counted n c ps → 0 < passes ps → n ≤ arrivals ps
passed_late n (pos zero) ps h p = omega arith
passed_late n (pos (suc k)) ps h p = absurd (omega arith)
passed_late n (negsuc k) ps h p = omega arith

-- Whatever the schedule of any number of threads, once a thread has passed a barrier made for n
-- threads, at least n threads have called wait().
pub run-passes :
    (n m : ℕ) (threads : List ℕ)
    → 0 < passes (run (init n m) threads).phases
    → n ≤ arrivals (run (init n m) threads).phases
unfolding init
run-passes n m threads h = passed_late n _ _ (run-Counted n (init n m) threads (Counted-init n m)) h

-- A negative count stays negative.
abbrev pub is_negative : ℤ → Bool
is_negative (pos n) = false
is_negative (negsuc n) = true

get_or-set_other :
    (ps : List Phase) (i j : ℕ) (p q : Phase)
    → get_or ps j passed ≡ q
    → (p ≡ q) ⊎ (i ≢ j)
    → get_or (set ps i p) j passed ≡ q
get_or-set_other [] i j p q e h = e
get_or-set_other (r ∷ ps) zero zero p q e (inl h) = h
get_or-set_other (r ∷ ps) zero zero p q e (inr h) = absurd (h refl)
get_or-set_other (r ∷ ps) zero (suc j) p q e h = e
get_or-set_other (r ∷ ps) (suc i) zero p q e h = e
get_or-set_other (r ∷ ps) (suc i) (suc j) p q e (inl h) = get_or-set_other ps i j p q e (inl h)
get_or-set_other (r ∷ ps) (suc i) (suc j) p q e (inr h) =
    get_or-set_other ps i j p q e (inr (λ k. h (ap suc k)))

-- Thread j waits, and the count is negative.
record Stuck (j : ℕ) (b : Barrier) : Type 0 where
  below : is_negative b.count ≡ true
  waits : get_or b.phases j passed ≡ waiting

arrive_negative :
    (c : ℤ)
    → is_negative c ≡ true
    → (is_negative (decremented c) ≡ true) × (arrived (decremented c) ≡ threw) × (woken c ≡ waiting)
arrive_negative (pos n) h = cc
arrive_negative (negsuc n) h = (refl, refl, refl)

advance-Stuck :
    (i j : ℕ) (p : Phase) (b : Barrier)
    → get_or b.phases i passed ≡ p
    → Stuck j b
    → Stuck j (advance p i b)
unfolding advance
advance-Stuck i j outside b e s = record {
  below = (arrive_negative b.count s.below).0;
  waits =
      get_or-set_other b.phases i j (arrived (decremented b.count)) waiting s.waits (
        inr
          (λ k. let w = s.waits in let e' : get_or b.phases j passed ≡ outside = rw k at e in cc));
}
advance-Stuck i j waiting b e s = record {
  below = s.below;
  waits =
      get_or-set_other b.phases i j (woken b.count) waiting s.waits
        (inl (arrive_negative b.count s.below).2);
}
advance-Stuck i j passed b e s = s
advance-Stuck i j threw b e s = s

run-Stuck : (j : ℕ) (b : Barrier) (threads : List ℕ) → Stuck j b → Stuck j (run b threads)
unfolding run
run-Stuck j b [] s = s
run-Stuck j b (i ∷ threads) s = run-Stuck j _ threads (advance-Stuck i j _ b refl s)

-- When a thread calls wait() after the count has come to zero, and another thread has not yet left
-- cond_.wait by then, that other thread waits for ever: in no further schedule does it pass.
pub extra-arrival :
    (b : Barrier) (i j : ℕ) (threads : List ℕ)
    → b.count ≡ pos 0
    → get_or b.phases i passed ≡ outside
    → get_or b.phases j passed ≡ waiting
    → get_or (run b (i ∷ threads)).phases j passed ≡ waiting
unfolding run advance
extra-arrival b i j threads zero_left out waits =
    rw (run, out, advance)
      (run-Stuck j _ threads (record {
        below = rw zero_left;
        waits =
            get_or-set_other b.phases i j (arrived (decremented b.count)) waiting waits
              (inr (λ k. let e : get_or b.phases j passed ≡ outside = rw k at out in cc));
      })).waits
