-- ===== src/TaskQueue/Draining.antt =====
-- The tasks of a pool under any schedule: what is added, started, in work and done.
use cppev.Prelude.{
  ℕ, zero, suc, ◌+◌, ◌≡◌, ◌≢◌, refl, sym, ap, ◌∙◌, ◌⊎◌, inl, inr, Bool, true, false, ◌||◌, List, [],
  ◌∷◌, ◌++◌, append-nil, append_assoc, arith, if◌then◌else◌, ◌==◌, get_or, set, replicate,
  Bool-cases,
}
use cppev.TaskQueue.{
  Phase, idle, sleeping, finished, running, Pool, init, add_tasks, request_stop, take_front,
  advance, Action, add, stop_all, work, step, run,
}

abbrev pub count : ℕ → List ℕ → ℕ
count x [] = 0
count x (y ∷ ys) = (if x == y then 1 else 0) + count x ys

count-append : (x : ℕ) (ys zs : List ℕ) → count x (ys ++ zs) ≡ count x ys + count x zs
count-append x [] zs = omega arith
count-append x (y ∷ ys) zs = omega (arith, count-append x ys zs)

-- Whether a worker is at the task x.
abbrev at_task : ℕ → Phase → ℕ
at_task x (running t) = if x == t then 1 else 0
at_task x _ = 0

abbrev pub in_work : ℕ → List Phase → ℕ
in_work x [] = 0
in_work x (p ∷ ps) = at_task x p + in_work x ps

abbrev pub is_finished : Phase → Bool
is_finished finished = true
is_finished _ = false

abbrev pub some_finished : List Phase → Bool
some_finished [] = false
some_finished (p ∷ ps) = is_finished p || some_finished ps

abbrev pub AllFinished : List Phase → Type 0
AllFinished [] = Unit {0}
AllFinished (p ∷ ps) = (p ≡ finished) × AllFinished ps

-- Handlers are started in the order in which they were added; each started one is in work or done;
-- a worker ends only after stop(), and then the queue is empty unless a task came late.
pub record Inv (s : Pool) : Type 0 where
  pub in_order : s.started ++ s.queue ≡ s.added
  pub accounted : (x : ℕ) → count x s.started ≡ in_work x s.phases + count x s.done
  pub stopped : (some_finished s.phases ≡ true) → s.stop ≡ true
  pub drained : (some_finished s.phases ≡ true) → s.late ≡ false → s.queue ≡ []

in_work-set :
    (x : ℕ) (ps : List Phase) (i : ℕ) (p q : Phase)
    → get_or ps i finished ≡ q
    → q ≢ finished
    → in_work x (set ps i p) + at_task x q ≡ in_work x ps + at_task x p
in_work-set x [] i p q e h = absurd (h (sym e))
in_work-set x (r ∷ ps) zero p q e h = let e' = ap (at_task x) e in omega arith
in_work-set x (r ∷ ps) (suc i) p q e h = omega (arith, in_work-set x ps i p q e h)

some_finished-set :
    (ps : List Phase) (i : ℕ) (p : Phase)
    → some_finished (set ps i p) ≡ true
    → (is_finished p ≡ true) ⊎ (some_finished ps ≡ true)
some_finished-set [] i p e = inr e
some_finished-set (r ∷ ps) zero p e = ground arith
some_finished-set (r ∷ ps) (suc i) p e = ground (arith, some_finished-set ps i p)

-- A worker that is at no task and not past the loop.
abbrev IsWaiting : Phase → Type 0
IsWaiting idle = Unit {0}
IsWaiting sleeping = Unit {0}
IsWaiting _ = ⊥

waiting_at : (x : ℕ) (q : Phase) → IsWaiting q → at_task x q ≡ 0
waiting_at x idle w = refl
waiting_at x sleeping w = refl
waiting_at x finished w = refl
waiting_at x (running t) w = absurd w

waiting-ne-finished : (q : Phase) → IsWaiting q → q ≢ finished
waiting-ne-finished idle w e = cc
waiting-ne-finished sleeping w e = cc
waiting-ne-finished finished w e = w
waiting-ne-finished (running t) w e = cc

-- A phase that carries no task takes the place of a waiting one.
accounted_same :
    (s : Pool) (i : ℕ) (p q : Phase) (x : ℕ)
    → Inv s
    → get_or s.phases i finished ≡ q
    → IsWaiting q
    → at_task x p ≡ 0
    → count x s.started ≡ in_work x (set s.phases i p) + count x s.done
accounted_same s i p q x v e w h =
    let a = v.accounted x in
    let b = in_work-set x s.phases i p q e (waiting-ne-finished q w) in
    let c = waiting_at x q w in omega arith

take_front-Inv :
    (queue : List ℕ) (i : ℕ) (s : Pool) (q : Phase)
    → s.queue ≡ queue
    → get_or s.phases i finished ≡ q
    → IsWaiting q
    → Inv s
    → Inv (take_front queue i s)
unfolding take_front
take_front-Inv [] i s q e f w v = elim (Bool-cases s.stop) [
  | inl stopped ↦ rw stopped (record {
    in_order = v.in_order;
    accounted = λ x. accounted_same s i finished q x v f w refl;
    stopped = λ _. refl;
    drained = λ _ _. e;
  })
  | inr on ↦
      let none_new : some_finished (set s.phases i sleeping) ≡ true
          → some_finished s.phases ≡ true =
        λ h. ground (arith, some_finished-set s.phases i sleeping h) in
      rw on (record {
        in_order = v.in_order;
        accounted = λ x. accounted_same s i sleeping q x v f w refl;
        stopped = λ h. sym on ∙ v.stopped (none_new h);
        drained = λ h l. e;
      })
]
take_front-Inv (t ∷ queue) i s q e f w v = record {
  in_order = append_assoc s.started (t ∷ []) queue ∙ ap (λ r. s.started ++ r) (sym e) ∙ v.in_order;
  accounted = λ x.
      let a = v.accounted x in
      let b = in_work-set x s.phases i (running t) q f (waiting-ne-finished q w) in
      let c = waiting_at x q w in omega (arith, count-append x s.started (t ∷ []));
  stopped = λ h. v.stopped (ground (arith, some_finished-set s.phases i (running t) h));
  drained = λ h l. absurd (
      cons_ne t queue
        (sym e ∙ v.drained (ground (arith, some_finished-set s.phases i (running t) h)) l));
}
  where
    cons_ne : (t : ℕ) (queue : List ℕ) → ◌≢◌ {A = List ℕ} (t ∷ queue) []
    cons_ne t queue h = cc

advance-Inv :
    (q : Phase) (i : ℕ) (s : Pool) → get_or s.phases i finished ≡ q → Inv s → Inv (advance q i s)
unfolding advance
advance-Inv idle i s f v = take_front-Inv s.queue i s idle refl f tt v
advance-Inv sleeping i s f v = take_front-Inv s.queue i s sleeping refl f tt v
advance-Inv finished i s f v = v
advance-Inv (running t) i s f v = record {
  in_order = v.in_order;
  accounted = λ x.
      let a = v.accounted x in
      let b = in_work-set x s.phases i idle (running t) f (λ h. cc) in
      omega (arith, count-append x s.done (t ∷ []));
  stopped = λ h. v.stopped (ground (arith, some_finished-set s.phases i idle h));
  drained = λ h. v.drained (ground (arith, some_finished-set s.phases i idle h));
}

-- Every step of every thread keeps the invariant.
pub step-Inv : (s : Pool) (a : Action) → Inv s → Inv (step s a)
unfolding step add_tasks request_stop
step-Inv s (add ts) v = record {
  in_order = sym (append_assoc s.started s.queue ts) ∙ ap (λ r. r ++ ts) v.in_order;
  accounted = v.accounted;
  stopped = v.stopped;
  drained = λ h l. absurd (let e = v.stopped h in ground arith);
}
step-Inv s stop_all v = record {
  in_order = v.in_order;
  accounted = v.accounted;
  stopped = λ _. refl;
  drained = v.drained;
}
step-Inv s (work i) v = advance-Inv _ i s refl v

run-Inv : (s : Pool) (actions : List Action) → Inv s → Inv (run s actions)
unfolding run
run-Inv s [] v = v
run-Inv s (a ∷ actions) v = run-Inv (step s a) actions (step-Inv s a v)

in_work-init : (x n : ℕ) → in_work x (replicate n idle) ≡ 0
in_work-init x zero = refl
in_work-init x (suc n) = omega (arith, in_work-init x n)

some_finished-init : (n : ℕ) → some_finished (replicate n idle) ≡ false
some_finished-init zero = refl
some_finished-init (suc n) = some_finished-init n

init-Inv : (n : ℕ) → Inv (init n)
unfolding init
init-Inv n = record {
  in_order = refl;
  accounted = λ x. omega (arith, in_work-init x n);
  stopped = λ h. absurd (let e = some_finished-init n in cc);
  drained = λ h l. refl;
}

none_in_work : (x : ℕ) (ps : List Phase) → AllFinished ps → in_work x ps ≡ 0
none_in_work x [] h = refl
none_in_work x (p ∷ ps) h = let e = ap (at_task x) h.0 in omega (arith, none_in_work x ps h.1)

some_of_all : (p : Phase) (ps : List Phase) → AllFinished (p ∷ ps) → some_finished (p ∷ ps) ≡ true
some_of_all p ps h = let e = ap is_finished h.0 in ground arith

-- After any schedule of a pool, the tasks started so far and then those in the queue are the tasks
-- added, in the order in which they were added; and each task was started as often as it is in work
-- or done, so none is run twice.
pub run-in_order :
    (n : ℕ) (actions : List Action) (x : ℕ)
    → let s = run (init n) actions in
      (s.started ++ s.queue ≡ s.added) × (count x s.started ≡ in_work x s.phases + count x s.done)
run-in_order n actions x =
    let v = run-Inv (init n) actions (init-Inv n) in (v.in_order, v.accounted x)

-- When, after any schedule of a pool, all its workers are past the loop, of which there is at least
-- one, and no task was added after stop(), then every task was done as often as it was added.
pub run-drained :
    (n : ℕ) (actions : List Action) (x : ℕ) (p : Phase) (ps : List Phase)
    → (run (init n) actions).phases ≡ p ∷ ps
    → AllFinished (p ∷ ps)
    → (run (init n) actions).late ≡ false
    → count x (run (init n) actions).done ≡ count x (run (init n) actions).added
run-drained n actions x p ps e h l =
    let s = run (init n) actions in
    let v = run-Inv (init n) actions (init-Inv n) in
    let over : some_finished s.phases ≡ true = ap some_finished e ∙ some_of_all p ps h in
    let all_started : s.started ≡ s.added =
      sym (append-nil s.started) ∙ ap (λ q. s.started ++ q) (sym (v.drained over l)) ∙ v.in_order in
    let none_left : in_work x s.phases ≡ 0 = ap (in_work x) e ∙ none_in_work x (p ∷ ps) h in
    let a = v.accounted x in let b = ap (count x) all_started in omega arith
