-- ===== src/Locks/Fence/Stranding.antt =====
-- Threads that are not woken.
use cppev.Prelude.{
  ℕ, zero, suc, ◌≤◌, ◌≡◌, ◌≢◌, refl, sym, ap, ◌∙◌, inl, inr, true, List, [], ◌∷◌, arith, Bool-cases,
  get_or, set, get_or-set_keep,
}
use cppev.Locks.Fence.{
  Phase, outside, locking, asleep, woken, passed, announcing, entering, notified, Fence, is_asleep,
  advance, Move, go, wake, step, run,
}
use cppev.Locks.Fence.Counting.{sum_of, sum_of-set, asleep_of}

-- No spurious wake of thread j.
abbrev pub Undisturbed : ℕ → List Move → Type 0
Undisturbed j [] = Unit {0}
Undisturbed j (go i k ∷ moves) = Undisturbed j moves
Undisturbed j (wake i ∷ moves) = (i ≢ j) × Undisturbed j moves

abbrev pub enters : Phase → ℕ
enters entering = 1
enters _ = 0

-- The fence is open, nobody is about to signal, and thread j sleeps.
record Stranded (j : ℕ) (f : Fence) : Type 0 where
  open_now : f.ok ≡ true
  silent : sum_of enters f.phases ≡ 0
  sleeping : get_or f.phases j passed ≡ asleep

entering_counted : (ps : List Phase) (i : ℕ) → get_or ps i passed ≡ entering → 1 ≤ sum_of enters ps
entering_counted [] i e = cc
entering_counted (p ∷ ps) zero e = let f = ap enters e in omega arith
entering_counted (p ∷ ps) (suc i) e = omega (arith, entering_counted ps i e)

move-Stranded :
    (i j : ℕ) (p q : Phase) (f : Fence)
    → get_or f.phases i passed ≡ q
    → q ≢ passed
    → q ≢ asleep
    → enters p ≡ 0
    → Stranded j f
    → Stranded j (record { ok = true; phases = set f.phases i p })
move-Stranded i j p q f e ne na z s =
    let c = sum_of-set enters f.phases i p q e ne in
    let h = s.silent in
    record {
      open_now = refl;
      silent = omega arith;
      sleeping = get_or-set_keep f.phases i j p asleep passed s.sleeping (
          inr (λ k.
            let w = s.sleeping in
            let e' : get_or f.phases j passed ≡ q = rw k at e in na (sym e' ∙ w)));
    }

advance-Stranded :
    (i k j : ℕ) (q : Phase) (f : Fence)
    → get_or f.phases i passed ≡ q
    → Stranded j f
    → Stranded j (advance q i k f)
unfolding advance
advance-Stranded i k j outside f e s =
    let o = s.open_now in rw o (move-Stranded i j passed outside f e (λ k. cc) (λ k. cc) refl s)
advance-Stranded i k j locking f e s =
    let o = s.open_now in rw o (move-Stranded i j passed locking f e (λ k. cc) (λ k. cc) refl s)
advance-Stranded i k j asleep f e s = s
advance-Stranded i k j woken f e s =
    let o = s.open_now in rw o (move-Stranded i j passed woken f e (λ k. cc) (λ k. cc) refl s)
advance-Stranded i k j passed f e s = s
advance-Stranded i k j announcing f e s =
    let o = s.open_now in
    rw o (move-Stranded i j notified announcing f e (λ k. cc) (λ k. cc) refl s)
advance-Stranded i k j entering f e s =
    let c = entering_counted f.phases i e in let h = s.silent in absurd (omega arith)
advance-Stranded i k j notified f e s = s

run-Stranded :
    (j : ℕ) (moves : List Move) (f : Fence)
    → Undisturbed j moves
    → Stranded j f
    → Stranded j (run moves f)
unfolding run step
run-Stranded j [] f u s = s
run-Stranded j (go i k ∷ moves) f u s = run-Stranded j moves _ u (advance-Stranded i k j _ f refl s)
run-Stranded j (wake i ∷ moves) f (ne, u) s =
    run-Stranded j moves _ u (elim (Bool-cases (is_asleep (get_or f.phases i passed))) [
      | inl sleeping ↦
          let e = asleep_of (get_or f.phases i passed) sleeping in
          let c = sum_of-set enters f.phases i woken asleep e (λ k. cc) in
          let h = s.silent in
          rw sleeping (record {
            open_now = s.open_now;
            silent = omega arith;
            sleeping = get_or-set_keep f.phases i j woken asleep passed s.sleeping (inr ne);
          })
      | inr awake ↦
          rw awake (record { open_now = s.open_now; silent = s.silent; sleeping = s.sleeping })
    ])

-- A thread that still sleeps in wait() when the fence is open and no thread is between its test of
-- ok_ and its signal sleeps for ever, whatever the others do, unless it wakes without a signal.
run-stranded :
    (j : ℕ) (moves : List Move) (f : Fence)
    → f.ok ≡ true
    → sum_of enters f.phases ≡ 0
    → get_or f.phases j passed ≡ asleep
    → Undisturbed j moves
    → get_or (run moves f).phases j passed ≡ asleep
run-stranded j moves f o e a u =
    (run-Stranded j moves f u (record { open_now = o; silent = e; sleeping = a })).sleeping
