-- ===== src/Scheduler/Thread/Times.antt =====
-- The calls of the whole thread of a timed scheduler.
use Prim.Native.Nat.{◌∣◌}
use native.Mathlib.Nat.{mod-lt, mod-mod_of_dvd}
use mathlib.Core.List.{Perm, filter_map}
use mathlib.Core.List.Perm
use cppev.Prelude.{
  Option, subst, sym, Bool-cases, inl, inr, ◌≤◌, arith, ℕ, zero, suc, ◌+◌, ◌*◌, ◌%◌, ◌<◌, ◌≡◌, refl,
  ap, ap₂, ◌∙◌, Bool, true, false, List, [], ◌∷◌, ◌++◌, append-nil, none, some, ◌==◌, get_or,
  if◌then◌else◌,
}
use cppev.Scheduler.{
  Table, lcm_of, gcd_of, Item, heap_items, IsTop, EachIsTop, Pops, indices, timed_scheduler,
}
use cppev.Scheduler.Rounds.{Good, enter_all_total, tasks_of_entry}
use cppev.Scheduler.Due.{handlers_at, due_at, DividesOrder, enter_all-handlers_at}
use cppev.Scheduler.Thread.{Effect, inits, exits, start_time, aligned, loop, thread}
use cppev.Scheduler.Thread.Periodic.{
  tests_of, called_at, called_at-append, called_at-rounds, loop-rounds,
}

abbrev pub DividedBy : ℕ → List ℕ → List ℕ → Type 0
DividedBy n intervals [] = Unit {0}
DividedBy n intervals (idx ∷ order) = (get_or intervals idx 0 ∣ n) × DividedBy n intervals order

due_at-mod :
    (n q i : ℕ) (intervals order : List ℕ)
    → DividedBy n intervals order
    → due_at (q % n) intervals i order ≡ due_at q intervals i order
due_at-mod n q i intervals [] d = refl
due_at-mod n q i intervals (idx ∷ order) d =
    ap₂ ◌++◌
      (ap (λ x. if x == 0 then i ∷ [] else []) (mod-mod_of_dvd (get_or intervals idx 0) q d.0))
      (due_at-mod n q (i + 1) intervals order d.1)

inits_silent : (time i n : ℕ) → called_at time (inits i n) ≡ []
inits_silent time i zero = refl
inits_silent time i (suc n) = inits_silent time (suc i) n

exits_silent : (time i n : ℕ) → called_at time (exits i n) ≡ []
exits_silent time i zero = refl
exits_silent time i (suc n) = exits_silent time (suc i) n

aligned_silent : (time : ℕ) (align : Bool) (now : ℕ) → called_at time (aligned align now) ≡ []
aligned_silent time true now = refl
aligned_silent time false now = refl

silent_first :
    (time : ℕ) (xs ys : List Effect)
    → called_at time xs ≡ []
    → called_at time (xs ++ ys) ≡ called_at time ys
silent_first time xs ys h = called_at-append time xs ys ∙ ap (λ zs. zs ++ called_at time ys) h

thread_calls :
    (first_tasks last_tasks : ℕ) (align : Bool) (now r n q : ℕ) (table : Table)
    → Good n table
    → q < r * n
    → called_at
        (start_time align now + q)
        (thread first_tasks last_tasks align now (tests_of r table) n table)
      ≡ handlers_at (q % n) table
unfolding thread
thread_calls first_tasks last_tasks align now r n q table good b =
    let time = start_time align now + q in
    let looped = loop (tests_of r table) n table none (start_time align now) in
    silent_first time (inits 0 first_tasks) _ (inits_silent time 0 first_tasks)
    ∙ silent_first time (aligned align now) _ (aligned_silent time align now)
    ∙ called_at-append time looped (exits 0 last_tasks)
    ∙ ap₂ ◌++◌ (ap (called_at time) (loop-rounds r n (start_time align now) table good))
        (exits_silent time 0 last_tasks)
    ∙ append-nil _
    ∙ called_at-rounds r n (start_time align now) q table good.0 b

-- The tasks whose interval divides t.
abbrev due_item : ℕ → List ℕ → Item → Option Item
due_item t intervals x = if t % get_or intervals x.1 0 == 0 then some x else none

abbrev pub due_items : ℕ → List ℕ → List Item → List Item
due_items t intervals [] = []
due_items t intervals (x ∷ xs) =
    if t % get_or intervals x.1 0 == 0
    then x ∷ due_items t intervals xs
    else due_items t intervals xs

due_items-filter_map :
    (t : ℕ) (intervals : List ℕ) (xs : List Item)
    → filter_map (due_item t intervals) xs ≡ due_items t intervals xs
unfolding filter_map
due_items-filter_map t intervals [] = refl
due_items-filter_map t intervals (x ∷ xs) = elim (Bool-cases (t % get_or intervals x.1 0 == 0)) [
  | inl due ↦ rw due (ap (λ ys. x ∷ ys) (due_items-filter_map t intervals xs))
  | inr other ↦ rw other (due_items-filter_map t intervals xs)
]

due_items-perm :
    (t : ℕ) (intervals : List ℕ) (xs ys : List Item)
    → Perm xs ys
    → Perm (due_items t intervals xs) (due_items t intervals ys)
due_items-perm t intervals xs ys p =
    subst (λ z. Perm z (due_items t intervals ys)) (due_items-filter_map t intervals xs)
      (subst (Perm (filter_map (due_item t intervals) xs)) (due_items-filter_map t intervals ys)
        (Perm.filter_map (due_item t intervals) p))

-- No task has a lower priority than one behind it.
abbrev pub NotBelow : Item → List Item → Type 0
NotBelow x [] = Unit {0}
NotBelow x (y ∷ ys) = (y.0 ≤ x.0) × NotBelow x ys

abbrev pub IsByPriority : List Item → Type 0
IsByPriority [] = Unit {0}
IsByPriority (x ∷ xs) = NotBelow x xs × IsByPriority xs

due_items-NotBelow :
    (t : ℕ) (intervals : List ℕ) (x : Item) (xs : List Item)
    → IsTop x xs
    → NotBelow x (due_items t intervals xs)
due_items-NotBelow t intervals x [] h = tt
due_items-NotBelow t intervals x (y ∷ ys) h = elim (Bool-cases (t % get_or intervals y.1 0 == 0)) [
  | inl due ↦ let top = h.0 in rw due (ground arith, due_items-NotBelow t intervals x ys h.1)
  | inr other ↦ rw other (due_items-NotBelow t intervals x ys h.1)
]

due_items-IsByPriority :
    (t : ℕ) (intervals : List ℕ) (xs : List Item)
    → EachIsTop xs
    → IsByPriority (due_items t intervals xs)
due_items-IsByPriority t intervals [] h = tt
due_items-IsByPriority t intervals (x ∷ xs) h =
    elim (Bool-cases (t % get_or intervals x.1 0 == 0)) [
      | inl due ↦
          rw due
            (due_items-NotBelow t intervals x xs h.0, due_items-IsByPriority t intervals xs h.1)
      | inr other ↦ rw other (due_items-IsByPriority t intervals xs h.1)
    ]

-- The tasks of handlers: timer_handlers_ has them in the order of the pops.
abbrev pub tasks_called : List Item → List ℕ → List Item
tasks_called popped [] = []
tasks_called popped (h ∷ hs) = get_or popped h (0, 0) ∷ tasks_called popped hs

tasks_called-due_at :
    (t i : ℕ) (intervals : List ℕ) (popped xs : List Item)
    → ((k : ℕ) → get_or popped (i + k) (0, 0) ≡ get_or xs k (0, 0))
    → tasks_called popped (due_at t intervals i (indices xs)) ≡ due_items t intervals xs
tasks_called-due_at t i intervals popped [] same = refl
tasks_called-due_at t i intervals popped (x ∷ xs) same =
    let rest = tasks_called-due_at t (i + 1) intervals popped xs (λ k.
      let e : i + 1 + k ≡ i + suc k = omega arith in
      ap (λ n. get_or popped n (0, 0)) e ∙ same (suc k)) in
    let z : i + 0 ≡ i = omega arith in
    let here : get_or popped i (0, 0) ≡ x = ap (λ n. get_or popped n (0, 0)) (sym z) ∙ same 0 in
    elim (Bool-cases (t % get_or intervals x.1 0 == 0)) [
      | inl due ↦ rw due (ap₂ ◌∷◌ here rest)
      | inr other ↦ rw other rest
    ]

-- A thread that stop_ ends after r whole rounds, whose table was built from at least one task: n is a
-- multiple of the intervals of the tasks, and g a divisor of them. At each time of the r rounds it
-- calls just the tasks whose interval divides the time since the start, each of them once, and none
-- after one of lower priority.
pub thread-due_at :
    (priorities intervals : List ℕ) (x : Item) (popped : List Item) (n g : ℕ)
    (first_tasks last_tasks : ℕ) (align : Bool) (now r : ℕ)
    → Pops (heap_items 0 priorities) (x ∷ popped)
    → lcm_of intervals ≡ some n
    → gcd_of intervals ≡ some g
    → 0 < n
    → 0 < g
    → DividesOrder g intervals (indices (x ∷ popped))
    → DividedBy n intervals (indices (x ∷ popped))
    → (table : Table) × (timed_scheduler intervals (x ∷ popped) ≡ some (n, table))
      × ((q : ℕ)
          → q < r * n
          → let calls = tasks_called (x ∷ popped) (
              called_at
                (start_time align now + q)
                (thread first_tasks last_tasks align now (tests_of r table) n table)) in
            Perm calls (due_items q intervals (heap_items 0 priorities)) × IsByPriority calls)
unfolding handlers_at timed_scheduler
thread-due_at priorities intervals x popped n g first_tasks last_tasks align now r pops e f p h d
      m =
    let order = indices popped in
    let (u, built, good) = enter_all_total n g x.1 intervals order p h in
    (
      u,
      tasks_of_entry intervals (x.1 ∷ order) n g u e f built,
      λ q b.
          let calls =
            thread_calls first_tasks last_tasks align now r n q u good b
            ∙ enter_all-handlers_at n g 0 (q % n) intervals (x.1 ∷ order) [] u h d (mod-lt q p) tt
                built
            ∙ due_at-mod n q 0 intervals (x.1 ∷ order) m in
          let same =
            ap (tasks_called (x ∷ popped)) calls
            ∙ tasks_called-due_at q 0 intervals (x ∷ popped) (x ∷ popped) (λ k.
              let z : 0 + k ≡ k = omega arith in ap (λ i. get_or (x ∷ popped) i (0, 0)) z) in
          (
            subst (λ c. Perm c (due_items q intervals (heap_items 0 priorities))) (sym same)
                (due_items-perm q intervals (x ∷ popped) (heap_items 0 priorities) pops.same),
            subst IsByPriority (sym same)
                (due_items-IsByPriority q intervals (x ∷ popped) pops.tops),
          ),
    )
