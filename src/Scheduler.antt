-- ===== src/Scheduler.antt =====
-- The table of a timed scheduler: the constructor and the loop of src/include/cppev/scheduler.h.
-- Intervals are in nanoseconds; they come from frequencies in floating point, which is not modelled.
-- The heap that orders the tasks is std::priority_queue with tuple_less, which compares only the
-- priorities; it does not say in which order it gives up tasks of one priority, so what it pops is an
-- argument, of which Pops says what the queue promises.
pub mod Rounds
pub mod Due
pub mod Thread
mod Tests
use mathlib.Core.List.{Perm}
use cppev.Prelude.{
  ℕ, zero, suc, ◌+◌, ◌-◌, ◌%◌, ◌≡◌, Bool, true, false, List, [], ◌∷◌, ◌++◌, Option, none, some, ltb,
  ◌==◌, if◌then◌else◌, ◌>>=◌, get_or,
}
use cppev.Utils.Numbers.{greatest_common_divisors, least_common_multiples}

-- tasks_: the time stamps in ascending order, each with the indices of its handlers
abbrev pub Table : Type 0
Table = List (ℕ × List ℕ)

-- tasks_[stamp].push_back(handler)
unfoldable pub push_task : ℕ → ℕ → Table → Table
push_task stamp handler [] = (stamp, handler ∷ []) ∷ []
push_task stamp handler ((k, hs) ∷ table) =
    if stamp == k
    then (k, hs ++ handler ∷ []) ∷ table
    else if ltb stamp k
    then (stamp, handler ∷ []) ∷ (k, hs) ∷ table
    else (k, hs) ∷ push_task stamp handler table

-- if (stamp % intervals[idx] == 0) …
abbrev pub enter_due : ℕ → ℕ → ℕ → Table → Table
enter_due stamp interval handler table =
    if stamp % interval == 0 then push_task stamp handler table else table

-- for (stamp = 0; stamp < lcm; stamp += gcd), from `stamp` on; the first argument is fuel
unfoldable pub enter : ℕ → ℕ → ℕ → ℕ → ℕ → ℕ → Table → Option Table
enter zero stamp lcm gcd interval handler table = none
enter (suc fuel) stamp lcm gcd interval handler table = elim (ltb stamp lcm) [
  | true ↦
      enter fuel (stamp + gcd) lcm gcd interval handler (enter_due stamp interval handler table)
  | false ↦ some table
]

-- while (!timer_tasks_heap.empty()), with the number of handlers so far
unfoldable pub enter_all : ℕ → ℕ → List ℕ → ℕ → List ℕ → Table → Option Table
unfolding enter
enter_all lcm gcd intervals handler [] table = some table
enter_all lcm gcd intervals handler (idx ∷ order) table = do
  t ← enter (lcm + 1) 0 lcm gcd (get_or intervals idx 0) handler table
  enter_all lcm gcd intervals (handler + 1) order t

-- A single interval is its own multiple and divisor.
abbrev pub lcm_of : List ℕ → Option ℕ
unfolding least_common_multiples
lcm_of [] = none
lcm_of (n ∷ []) = some n
lcm_of (n ∷ m ∷ ns) = least_common_multiples (n ∷ m ∷ ns)

abbrev pub gcd_of : List ℕ → Option ℕ
unfolding greatest_common_divisors
gcd_of [] = none
gcd_of (n ∷ []) = some n
gcd_of (n ∷ m ∷ ns) = greatest_common_divisors (n ∷ m ∷ ns)

-- interval_ and tasks_, for the tasks in the order in which the heap gives them up
unfoldable pub tasks_of : List ℕ → List ℕ → Option (ℕ × Table)
unfolding enter_all
tasks_of intervals order = do
  lcm ← lcm_of intervals
  gcd ← gcd_of intervals
  table ← enter_all lcm gcd intervals 0 order []
  some (lcm, table)

-- A tuple (priority, index) of timer_tasks_heap.
abbrev pub Item : Type 0
Item = ℕ × ℕ

-- tuple_less<…, 0>
abbrev pub tuple_less : Item → Item → Bool
tuple_less lhs rhs = ltb lhs.0 rhs.0

-- The pushes: for (i = 0; …) timer_tasks_heap.push({ priority, i }), from i on
abbrev pub heap_items : ℕ → List ℕ → List Item
heap_items i [] = []
heap_items i (p ∷ priorities) = (p, i) ∷ heap_items (i + 1) priorities

-- top() is never less than what is left in the heap.
abbrev pub IsTop : Item → List Item → Type 0
IsTop x [] = Unit {0}
IsTop x (y ∷ ys) = (tuple_less x y ≡ false) × IsTop x ys

abbrev pub EachIsTop : List Item → Type 0
EachIsTop [] = Unit {0}
EachIsTop (x ∷ xs) = IsTop x xs × EachIsTop xs

-- Until it is empty, the heap gives up just what was pushed, its top each time.
pub record Pops (pushed popped : List Item) : Type 0 where
  pub same : Perm popped pushed
  pub tops : EachIsTop popped

abbrev pub indices : List Item → List ℕ
indices [] = []
indices (x ∷ xs) = x.1 ∷ indices xs

-- interval_ and tasks_ of the constructor, with what the heap pops
unfoldable pub timed_scheduler : List ℕ → List Item → Option (ℕ × Table)
unfolding tasks_of
timed_scheduler intervals popped = tasks_of intervals (indices popped)

-- The span behind each stamp in one round of the thread.
unfoldable pub spans : ℕ → Table → List ℕ
spans interval [] = []
spans interval ((k, hs) ∷ []) = (interval - k) ∷ []
spans interval ((k, hs) ∷ (k', hs') ∷ table) = (k' - k) ∷ spans interval ((k', hs') ∷ table)
