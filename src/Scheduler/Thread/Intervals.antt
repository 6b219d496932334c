-- ===== src/Scheduler/Thread/Intervals.antt =====
-- The thread of a timed scheduler from the intervals and priorities of its tasks.
use Prim.Native.Nat.{◌∣◌}
use native.Mathlib.Nat.{dvd_refl, dvd-zero, pos_of_dvd_of_pos}
use mathlib.Core.List.{Perm, filter_map}
use mathlib.Core.List.Perm
use cppev.Prelude.{
  ℕ, zero, suc, ◌+◌, ◌*◌, ◌≤◌, ◌<◌, ◌≡◌, refl, subst, inl, inr, Bool, Bool-cases, true, List, [],
  ◌∷◌, Option, none, some, arith, ltb, get_or, if◌then◌else◌, length,
}
use cppev.Utils.Numbers.{int64_limit}
use cppev.Utils.Numbers.Gcd.{AllPositive, DividesAll, greatest_common_divisors-greatest}
use cppev.Utils.Numbers.Lcm.{MultipleOf, least_common_multiples-multiple}
use cppev.Scheduler.{Table, lcm_of, gcd_of, Item, heap_items, Pops, indices, timed_scheduler}
use cppev.Scheduler.Due.{DividesOrder}
use cppev.Scheduler.Thread.{start_time, thread}
use cppev.Scheduler.Thread.Periodic.{tests_of, called_at}
use cppev.Scheduler.Thread.Times.{DividedBy, due_items, tasks_called, IsByPriority, thread-due_at}

lcm_of-multiple :
    (n m : ℕ) (ns : List ℕ)
    → AllPositive (n ∷ ns)
    → 0 < m
    → MultipleOf m (n ∷ ns)
    → m < int64_limit
    → (l : ℕ) × (lcm_of (n ∷ ns) ≡ some l) × (0 < l) × MultipleOf l (n ∷ ns)
unfolding lcm_of
lcm_of-multiple n m [] a h all fits = (n, refl, a.0, (dvd_refl n, tt))
lcm_of-multiple n m (k ∷ ns) a h all fits = least_common_multiples-multiple n k m ns a h all fits

gcd_of-divides :
    (n : ℕ) (ns : List ℕ)
    → AllPositive (n ∷ ns)
    → (g : ℕ) × (gcd_of (n ∷ ns) ≡ some g) × (0 < g) × DividesAll g (n ∷ ns)
unfolding gcd_of
gcd_of-divides n [] a = (n, refl, a.0, (dvd_refl n, tt))
gcd_of-divides n (k ∷ ns) a =
    let (g, e, all, most) = greatest_common_divisors-greatest n k ns a in
    (g, e, pos_of_dvd_of_pos all.0 a.0, all)

divides_any : (g i : ℕ) (ns : List ℕ) → DividesAll g ns → g ∣ get_or ns i 0
divides_any g i [] a = dvd-zero g
divides_any g zero (n ∷ ns) a = a.0
divides_any g (suc i) (n ∷ ns) a = divides_any g i ns a.1

divides_order : (g : ℕ) (ns order : List ℕ) → DividesAll g ns → DividesOrder g ns order
divides_order g ns [] a = tt
divides_order g ns (i ∷ order) a = (divides_any g i ns a, divides_order g ns order a)

multiple_any : (m i : ℕ) (ns : List ℕ) → MultipleOf m ns → i < length ns → get_or ns i 0 ∣ m
multiple_any m i [] a h = absurd (omega arith)
multiple_any m zero (n ∷ ns) a h = a.0
multiple_any m (suc i) (n ∷ ns) a h = multiple_any m i ns a.1 (omega arith)

-- The tasks whose index is not below n.
outside : ℕ → Item → Option Item
outside n x = if ltb x.1 n then none else some x

outside-heap_items :
    (n i : ℕ) (priorities : List ℕ)
    → i + length priorities ≤ n
    → filter_map (outside n) (heap_items i priorities) ≡ []
unfolding filter_map outside
outside-heap_items n i [] h = refl
outside-heap_items n i (p ∷ priorities) h =
    let within : ltb i n ≡ true = ground arith in
    rw within (outside-heap_items n (i + 1) priorities (omega arith))

all_divide :
    (m : ℕ) (ns : List ℕ) (xs : List Item)
    → MultipleOf m ns
    → filter_map (outside (length ns)) xs ≡ []
    → DividedBy m ns (indices xs)
unfolding filter_map outside
all_divide m ns [] a e = tt
all_divide m ns (x ∷ xs) a e = elim (Bool-cases (ltb x.1 (length ns))) [
  | inl within ↦ (multiple_any m x.1 ns a (ground arith), all_divide m ns xs a (rw within at e))
  | inr past ↦ absurd (cc (rw past at e))
]

popped_divide :
    (m : ℕ) (ns priorities : List ℕ) (popped : List Item)
    → MultipleOf m ns
    → length priorities ≡ length ns
    → Perm popped (heap_items 0 priorities)
    → DividedBy m ns (indices popped)
popped_divide m ns priorities popped a same p = all_divide m ns popped a (
    Perm.eq-nil (
      subst (Perm (filter_map (outside (length ns)) popped))
        (outside-heap_items (length ns) 0 priorities (omega arith))
        (Perm.filter_map (outside (length ns)) p)))

-- The tasks have positive intervals with a positive common multiple below 2 ^ 63, and there is at
-- least one. Then the constructor builds a table, with an interval n of which each interval of a task
-- is a divisor. A thread that stop_ ends after r whole rounds calls, at each time of these rounds, just
-- the tasks whose interval divides the time since the start, each of them once, and none after one of
-- lower priority; the start is the next whole second if it is aligned.
pub thread-due_items :
    (priority interval : ℕ) (priorities intervals : List ℕ) (x : Item) (popped : List Item) (m : ℕ)
    (first_tasks last_tasks : ℕ) (align : Bool) (now r : ℕ)
    → length priorities ≡ length intervals
    → Pops (heap_items 0 (priority ∷ priorities)) (x ∷ popped)
    → AllPositive (interval ∷ intervals)
    → 0 < m
    → MultipleOf m (interval ∷ intervals)
    → m < int64_limit
    → (n : ℕ) × (table : Table) × (timed_scheduler (interval ∷ intervals) (x ∷ popped)
        ≡ some (n, table))
      × (0 < n)
      × MultipleOf n (interval ∷ intervals)
      × ((q : ℕ)
          → q < r * n
          → let calls = tasks_called (x ∷ popped) (
              called_at
                (start_time align now + q)
                (thread first_tasks last_tasks align now (tests_of r table) n table)) in
            Perm calls (due_items q (interval ∷ intervals) (heap_items 0 (priority ∷ priorities)))
            × IsByPriority calls)
thread-due_items priority interval priorities intervals x popped m first_tasks last_tasks align now
      r same pops positive h all fits =
    let ns = interval ∷ intervals in
    let (n, e, some_n, multiple) = lcm_of-multiple interval m intervals positive h all fits in
    let (g, f, some_g, divides) = gcd_of-divides interval intervals positive in
    let order = divides_order g ns (indices (x ∷ popped)) divides in
    let by =
      popped_divide n ns (priority ∷ priorities) (x ∷ popped) multiple (omega arith) pops.same in
    let (table, built, calls) =
      thread-due_at (priority ∷ priorities) ns x popped n g first_tasks last_tasks align now r pops
        e f some_n some_g order by in
    (n, table, built, some_n, multiple, calls)
