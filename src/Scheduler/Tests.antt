-- ===== src/Scheduler/Tests.antt =====
-- The theorems on the scheduler at three tasks.
use native.Mathlib.Nat.{dvd_of_mod-eq-zero}
use mathlib.Core.List.{Perm}
use mathlib.Core.List.Perm
use cppev.Prelude.{◌<◌, ◌*◌, ℕ, ◌+◌, ◌≡◌, refl, true, List, [], ◌∷◌, some, arith}
use cppev.Utils.Numbers.{greatest_common_divisors, least_common_multiples}
use cppev.Scheduler.{push_task, Table, tasks_of, timed_scheduler, Item, heap_items, Pops}
use cppev.Scheduler.Thread.{start_time, thread}
use cppev.Scheduler.Thread.Periodic.{tests_of, called_at}
use cppev.Utils.Numbers.Lcm.{MultipleOf}
use cppev.Scheduler.Thread.Times.{due_items, tasks_called, IsByPriority}
use cppev.Scheduler.Thread.Intervals.{thread-due_items}

abbrev intervals : List ℕ
intervals = 4 ∷ 6 ∷ 2 ∷ []

tasks_of_run :
    tasks_of intervals (2 ∷ 0 ∷ 1 ∷ [])
    ≡ some (
      12,
      (0, 0 ∷ 1 ∷ 2 ∷ [])
          ∷ (2, 0 ∷ [])
          ∷ (4, 0 ∷ 1 ∷ [])
          ∷ (6, 0 ∷ 2 ∷ [])
          ∷ (8, 0 ∷ 1 ∷ [])
          ∷ (10, 0 ∷ [])
          ∷ [],
    )
unfolding tasks_of push_task greatest_common_divisors least_common_multiples
tasks_of_run = refl

-- What the heap pops: the third task has the highest priority, the others have the same.
abbrev popped : List Item
popped = (20, 2) ∷ (17, 0) ∷ (17, 1) ∷ []

popped-Pops : Pops (heap_items 0 (17 ∷ 17 ∷ 20 ∷ [])) popped
popped-Pops = record {
  same =
      Perm.trans (Perm.swap (17, 0) (20, 2) ((17, 1) ∷ []))
        (Perm.cons (17, 0) (Perm.swap (17, 1) (20, 2) []));
  tops = ((refl, (refl, tt)), ((refl, tt), (tt, tt)));
}

-- Three rounds from the next second, with one first task and two last ones.
thread-due_items_example :
    (n : ℕ) × (table : Table) × (timed_scheduler intervals popped ≡ some (n, table))
    × (0 < n)
    × MultipleOf n intervals
    × ((q : ℕ)
        → q < 3 * n
        → let calls = tasks_called popped (
            called_at
              (start_time true 1_500_000_000 + q)
              (thread 1 2 true 1_500_000_000 (tests_of 3 table) n table)) in
          Perm calls (due_items q intervals (heap_items 0 (17 ∷ 17 ∷ 20 ∷ [])))
          × IsByPriority calls)
thread-due_items_example =
    thread-due_items 17 4 (17 ∷ 20 ∷ []) (6 ∷ 2 ∷ []) (20, 2) ((17, 0) ∷ (17, 1) ∷ []) 12 1 2 true
      1_500_000_000 3 refl popped-Pops (omega arith, (omega arith, (omega arith, tt))) (omega arith)
      (dvd_of_mod-eq-zero 4 refl, (dvd_of_mod-eq-zero 6 refl, (dvd_of_mod-eq-zero 2 refl, tt)))
      (omega arith)
