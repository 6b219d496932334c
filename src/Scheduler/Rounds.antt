-- ===== src/Scheduler/Rounds.antt =====
-- The stamps of the table of src/include/cppev/scheduler.h, and the spans of one round.
use cppev.Prelude.{
  ℕ, zero, suc, ◌+◌, ◌-◌, ◌%◌, ◌≤◌, ◌<◌, ◌≡◌, refl, ap, ◌∙◌, inl, inr, true, false, List, [], ◌∷◌,
  some, arith, ltb, ◌==◌, get_or, Bool-cases,
}
use cppev.Scheduler.{Table, push_task, enter_due, enter, enter_all, lcm_of, gcd_of, tasks_of, spans}

-- The stamps ascend from `low`, and stay below n.
abbrev pub Ascending : ℕ → ℕ → Table → Type 0
Ascending n low [] = Unit {0}
Ascending n low ((k, hs) ∷ table) = (low ≤ k) × (k < n) × Ascending n (suc k) table

abbrev pub StartsAtZero : Table → Type 0
StartsAtZero [] = ⊥
StartsAtZero ((k, hs) ∷ table) = k ≡ 0

abbrev pub sum : List ℕ → ℕ
sum [] = 0
sum (x ∷ xs) = x + sum xs

sum-spans :
    (n low k : ℕ) (hs : List ℕ) (table : Table)
    → Ascending n low ((k, hs) ∷ table)
    → sum (spans n ((k, hs) ∷ table)) + k ≡ n
unfolding spans
sum-spans n low k hs [] a = let h = a.1 in omega arith
sum-spans n low k hs ((k', hs') ∷ table) a =
    let h = a.2.0 in let ih = sum-spans n (suc k) k' hs' table a.2 in omega arith

pub push_task-Ascending :
    (n low s i : ℕ) (table : Table)
    → low ≤ s
    → s < n
    → Ascending n low table
    → Ascending n low (push_task s i table)
unfolding push_task
push_task-Ascending n low s i [] h b a = (h, b, tt)
push_task-Ascending n low s i ((k, hs) ∷ table) h b a = elim (Bool-cases (s == k)) [
  | inl same ↦ rw same a
  | inr differs ↦ elim (Bool-cases (ltb s k)) [
    | inl front ↦ rw (differs, front) (h, b, (ground arith, a.1, a.2))
    | inr behind ↦
        rw (differs, behind)
          (a.0, a.1, push_task-Ascending n (suc k) s i table (ground arith) b a.2)
  ]
]

push_task-StartsAtZero :
    (s i : ℕ) (table : Table) → StartsAtZero table → StartsAtZero (push_task s i table)
unfolding push_task
push_task-StartsAtZero s i [] z = absurd z
push_task-StartsAtZero s i ((k, hs) ∷ table) z = elim (Bool-cases (s == k)) [
  | inl same ↦ rw same z
  | inr differs ↦ elim (Bool-cases (ltb s k)) [
    | inl front ↦ absurd (ground arith)
    | inr behind ↦ rw (differs, behind) z
  ]
]

push_zero :
    (i : ℕ) (n : ℕ) (table : Table) → Ascending n 0 table → StartsAtZero (push_task 0 i table)
unfolding push_task
push_zero i n [] a = refl
push_zero i n ((zero, hs) ∷ table) a = refl
push_zero i n ((suc k, hs) ∷ table) a =
    let differs : (0 == suc k) ≡ false = ground arith in
    let front : ltb 0 (suc k) ≡ true = ground arith in rw (differs, front) refl

-- The table is ascending, and has the stamp 0.
abbrev pub Good : ℕ → Table → Type 0
Good n table = Ascending n 0 table × StartsAtZero table

pub enter_due-Good :
    (n s x i : ℕ) (table : Table) → s < n → Good n table → Good n (enter_due s x i table)
enter_due-Good n s x i table b g = elim (Bool-cases (s % x == 0)) [
  | inl due ↦
      rw due (
        push_task-Ascending n 0 s i table (omega arith) b g.0,
        push_task-StartsAtZero s i table g.1,
      )
  | inr other ↦ rw other g
]

pub enter_step :
    (fuel s n g x i : ℕ) (table : Table)
    → ltb s n ≡ true
    → enter (suc fuel) s n g x i table ≡ enter fuel (s + g) n g x i (enter_due s x i table)
unfolding enter
enter_step fuel s n g x i table e = rw (e, enter)

enter-Good :
    (fuel s n g x i : ℕ) (table : Table)
    → 0 < g
    → n - s < fuel
    → Good n table
    → (t : Table) × (enter fuel s n g x i table ≡ some t) × Good n t
unfolding enter
enter-Good zero s n g x i table h f good = absurd (omega arith)
enter-Good (suc fuel) s n g x i table h f good = elim (Bool-cases (ltb s n)) [
  | inr past ↦ (table, rw (past, enter), good)
  | inl within ↦
      let b : s < n = ground arith in
      let (t, e, ends) =
        enter-Good fuel (s + g) n g x i (enter_due s x i table) h (omega arith)
          (enter_due-Good n s x i table b good) in
      (t, enter_step fuel s n g x i table within ∙ e, ends)
]

-- The first handler is due at 0.
enter_first :
    (n g x i : ℕ) (table : Table)
    → 0 < g
    → 0 < n
    → Ascending n 0 table
    → (t : Table) × (enter (n + 1) 0 n g x i table ≡ some t) × Good n t
enter_first n g x i table h p a =
    let b : ltb 0 n ≡ true = ground arith in
    let due : (0 % x == 0) ≡ true = ground arith in
    let entered : enter_due 0 x i table ≡ push_task 0 i table = rw due in
    let more : n + 1 ≡ suc n = omega arith in
    let (t, e, ends) =
      enter-Good n (0 + g) n g x i (push_task 0 i table) h (omega arith)
        (push_task-Ascending n 0 0 i table (omega arith) p a, push_zero i n table a) in
    (t, rw more (enter_step n 0 n g x i table b ∙ ap (enter n (0 + g) n g x i) entered ∙ e), ends)

pub enter_all_step :
    (n g i idx : ℕ) (intervals order : List ℕ) (table t : Table)
    → enter (n + 1) 0 n g (get_or intervals idx 0) i table ≡ some t
    → enter_all n g intervals i (idx ∷ order) table ≡ enter_all n g intervals (i + 1) order t
unfolding enter_all
enter_all_step n g i idx intervals order table t e = rw e

enter_all-Good :
    (n g i : ℕ) (intervals order : List ℕ) (table : Table)
    → 0 < g
    → Good n table
    → (t : Table) × (enter_all n g intervals i order table ≡ some t) × Good n t
unfolding enter_all
enter_all-Good n g i intervals [] table h good = (table, refl, good)
enter_all-Good n g i intervals (idx ∷ order) table h good =
    let (t, e, next) =
      enter-Good (n + 1) 0 n g (get_or intervals idx 0) i table h (omega arith) good in
    let (u, f, ends) = enter_all-Good n g (i + 1) intervals order t h next in
    (u, enter_all_step n g i idx intervals order table t e ∙ f, ends)

-- With at least one task the loops end.
pub enter_all_total :
    (n g idx : ℕ) (intervals order : List ℕ)
    → 0 < n
    → 0 < g
    → (table : Table) × (enter_all n g intervals 0 (idx ∷ order) [] ≡ some table) × Good n table
enter_all_total n g idx intervals order p h =
    let (t, first, good) = enter_first n g (get_or intervals idx 0) 0 [] h p tt in
    let (u, rest, ends) = enter_all-Good n g 1 intervals order t h good in
    (u, enter_all_step n g 0 idx intervals order [] t first ∙ rest, ends)

pub tasks_of_entry :
    (intervals order : List ℕ) (n g : ℕ) (table : Table)
    → lcm_of intervals ≡ some n
    → gcd_of intervals ≡ some g
    → enter_all n g intervals 0 order [] ≡ some table
    → tasks_of intervals order ≡ some (n, table)
unfolding tasks_of
tasks_of_entry intervals order n g table e f h = rw (e, f, h)

sum_of_all : (n : ℕ) (table : Table) → Good n table → sum (spans n table) ≡ n
sum_of_all n [] good = absurd good.1
sum_of_all n ((k, hs) ∷ table) good =
    let z = good.1 in let s = sum-spans n 0 k hs table good.0 in omega arith

-- With at least one task, a positive multiple and a positive divisor of the intervals, the table of the
-- scheduler is built: its stamps ascend from 0 and stay below the multiple, and the spans of one round
-- of the thread add up to the multiple.
tasks_of-Ascending :
    (intervals order : List ℕ) (idx n g : ℕ)
    → lcm_of intervals ≡ some n
    → gcd_of intervals ≡ some g
    → 0 < n
    → 0 < g
    → (table : Table) × (tasks_of intervals (idx ∷ order) ≡ some (n, table))
      × Ascending n 0 table
      × StartsAtZero table
      × (sum (spans n table) ≡ n)
tasks_of-Ascending intervals order idx n g e f p h =
    let (u, built, good) = enter_all_total n g idx intervals order p h in
    (u, tasks_of_entry intervals (idx ∷ order) n g u e f built, good.0, good.1, sum_of_all n u good)
