-- ===== src/Scheduler/Due.antt =====
-- Which handlers the table of the scheduler has at which stamp.
use Prim.Native.Nat.{◌∣◌}
use native.Mathlib.Nat.{
  dvd_trans, dvd_of_mod-eq-zero, dvd-sub, le_of_dvd, dvd-add, dvd_refl, dvd-zero,
}
use cppev.Prelude.{
  ℕ, zero, suc, ◌+◌, ◌-◌, ◌%◌, ◌≤◌, ◌<◌, ◌≡◌, refl, sym, ap, ◌∙◌, inl, inr, Bool, true, false, ◌&&◌,
  List, [], ◌∷◌, ◌++◌, append-nil, append_assoc, Option, some, arith, ltb, leb, ◌==◌, ==_refl,
  if◌then◌else◌, get_or, Bool-cases, Option-cases,
}
use cppev.Scheduler.{Table, push_task, enter_due, enter, enter_all, lcm_of, gcd_of, tasks_of}
use cppev.Scheduler.Rounds.{
  Ascending, push_task-Ascending, enter_step, enter_all_step, enter_all_total, tasks_of_entry,
}

-- The handlers of a stamp.
unfoldable pub handlers_at : ℕ → Table → List ℕ
handlers_at t [] = []
handlers_at t ((k, hs) ∷ table) = if t == k then hs else handlers_at t table

pub at_below :
    (n low t : ℕ) (table : Table) → Ascending n low table → t < low → handlers_at t table ≡ []
unfolding handlers_at
at_below n low t [] a h = refl
at_below n low t ((k, hs) ∷ table) a h =
    let k_above = a.0 in
    let differs : (t == k) ≡ false = ground arith in
    rw differs (at_below n (suc k) t table a.2 (omega arith))

abbrev alone : Bool → ℕ → List ℕ
alone b i = if b then i ∷ [] else []

handlers_at-push_task :
    (n low s i t : ℕ) (table : Table)
    → Ascending n low table
    → handlers_at t (push_task s i table) ≡ handlers_at t table ++ alone (t == s) i
unfolding handlers_at push_task
handlers_at-push_task n low s i t [] a = refl
handlers_at-push_task n low s i t ((k, hs) ∷ table) a = elim (Bool-cases (s == k)) [
  | inl same ↦ elim (Bool-cases (t == k)) [
    | inl here ↦ let e : (t == s) ≡ true = ground arith in rw (same, here, e)
    | inr there ↦
        let e : (t == s) ≡ false = ground arith in
        rw (same, there, e) (sym (append-nil (handlers_at t table)))
  ]
  | inr differs ↦ elim (Bool-cases (ltb s k)) [
    | inl front ↦ elim (Bool-cases (t == s)) [
      | inl here ↦
          let e : (t == k) ≡ false = ground arith in
          let past : handlers_at t table ≡ [] = at_below n (suc k) t table a.2 (ground arith) in
          rw (differs, front, here, e, past)
      | inr there ↦ rw (differs, front, there) (sym (append-nil _))
    ]
    | inr behind ↦ elim (Bool-cases (t == k)) [
      | inl here ↦
          let e : (t == s) ≡ false = ground arith in
          rw (differs, behind, here, e) (sym (append-nil hs))
      | inr there ↦ rw (differs, behind, there) (handlers_at-push_task n (suc k) s i t table a.2)
    ]
  ]
]

handlers_at-enter_due :
    (n s x i t : ℕ) (table : Table)
    → Ascending n 0 table
    → handlers_at t (enter_due s x i table)
      ≡ handlers_at t table ++ alone ((s % x == 0) && (t == s)) i
handlers_at-enter_due n s x i t table a = elim (Bool-cases (s % x == 0)) [
  | inl due ↦ rw due (handlers_at-push_task n 0 s i t table a)
  | inr other ↦ rw other (sym (append-nil (handlers_at t table)))
]

enter_due-Ascending :
    (n s x i : ℕ) (table : Table)
    → s < n
    → Ascending n 0 table
    → Ascending n 0 (enter_due s x i table)
enter_due-Ascending n s x i table b a = elim (Bool-cases (s % x == 0)) [
  | inl due ↦ rw due (push_task-Ascending n 0 s i table (omega arith) b a)
  | inr other ↦ rw other a
]

-- Between s and s + g there is no multiple of an interval that g divides.
none_between : (g s x t : ℕ) → g ∣ x → g ∣ s → s < t → t < s + g → (t % x == 0) ≡ false
none_between g s x t gx gs lo hi = elim (Bool-cases (t % x == 0)) [
  | inr other ↦ other
  | inl due ↦
      let at_x : x ∣ t = dvd_of_mod-eq-zero x (ground arith) in
      let gap : g ∣ t - s = dvd-sub g (dvd_trans g gx at_x) gs in
      let large : g ≤ t - s = le_of_dvd (omega arith) gap in absurd (omega arith)
]

-- The stamp t is still to come and due.
abbrev to_come : ℕ → ℕ → ℕ → Bool
to_come s x t = leb s t && (t % x == 0)

merged :
    (g s x t i : ℕ)
    → 0 < g
    → g ∣ x
    → g ∣ s
    → alone ((s % x == 0) && (t == s)) i ++ alone (to_come (s + g) x t) i ≡ alone (to_come s x t) i
merged g s x t i h gx gs = elim (Bool-cases (leb s t)) [
  | inr past ↦ ground arith
  | inl reached ↦ elim (Bool-cases (t == s)) [
    | inl now ↦
        let later : leb (s + g) s ≡ false = ground arith in
        let at_once : leb s s ≡ true = ground arith in
        let same : t ≡ s = ground arith in
        rw (same, later, at_once, ==_refl s)
          (append-nil (alone ((s % x == 0) && true) i) ∙ ground arith)
    | inr after ↦ elim (Bool-cases (leb (s + g) t)) [
      | inl far ↦ ground arith
      | inr near ↦ let no = none_between g s x t gx gs (ground arith) (ground arith) in ground arith
    ]
  ]
]

enter-handlers_at :
    (fuel n g s x i t : ℕ) (table out : Table)
    → 0 < g
    → g ∣ x
    → g ∣ s
    → t < n
    → Ascending n 0 table
    → enter fuel s n g x i table ≡ some out
    → (handlers_at t out ≡ handlers_at t table ++ alone (to_come s x t) i) × Ascending n 0 out
unfolding enter
enter-handlers_at zero n g s x i t table out h gx gs b a e = cc
enter-handlers_at (suc fuel) n g s x i t table out h gx gs b a e = elim (Bool-cases (ltb s n)) [
  | inr past ↦
      let same : ◌≡◌ {A = Option Table} (some table) (some out) = rw (past, enter) at e in
      let gone : leb s t ≡ false = ground arith in
      let same' : table ≡ out = ground arith in
      rw (← same', gone) (sym (append-nil (handlers_at t table)), a)
  | inl within ↦
      let next = enter_due s x i table in
      let a' = enter_due-Ascending n s x i table (ground arith) a in
      let e' : enter fuel (s + g) n g x i next ≡ some out =
        sym (enter_step fuel s n g x i table within) ∙ e in
      let (ih, ends) =
        enter-handlers_at fuel n g (s + g) x i t next out h gx (dvd-add g gs (dvd_refl g)) b a'
          e' in
      (
        ih
            ∙ ap (λ q. q ++ alone (to_come (s + g) x t) i) (handlers_at-enter_due n s x i t table a)
            ∙ append_assoc (handlers_at t table) _ _
            ∙ ap (λ q. handlers_at t table ++ q) (merged g s x t i h gx gs),
        ends,
      )
]

-- The handlers whose interval divides t, from handler i on.
abbrev pub due_at : ℕ → List ℕ → ℕ → List ℕ → List ℕ
due_at t intervals i [] = []
due_at t intervals i (idx ∷ order) =
    alone (t % get_or intervals idx 0 == 0) i ++ due_at t intervals (i + 1) order

abbrev pub DividesOrder : ℕ → List ℕ → List ℕ → Type 0
DividesOrder g intervals [] = Unit {0}
DividesOrder g intervals (idx ∷ order) =
    (g ∣ get_or intervals idx 0) × DividesOrder g intervals order

pub enter_all-handlers_at :
    (n g i t : ℕ) (intervals order : List ℕ) (table out : Table)
    → 0 < g
    → DividesOrder g intervals order
    → t < n
    → Ascending n 0 table
    → enter_all n g intervals i order table ≡ some out
    → handlers_at t out ≡ handlers_at t table ++ due_at t intervals i order
unfolding enter_all
enter_all-handlers_at n g i t intervals [] table out h d b a e =
    let same : ◌≡◌ {A = Option Table} (some table) (some out) = e in
    let same' : table ≡ out = ground arith in rw (← same') (sym (append-nil (handlers_at t table)))
enter_all-handlers_at n g i t intervals (idx ∷ order) table out h d b a e =
    let x = get_or intervals idx 0 in
    elim (Option-cases (enter (n + 1) 0 n g x i table)) [
      | inl stuck ↦ absurd (cc (rw (stuck, enter_all) at e))
      | inr (next, made) ↦
          let (found, ends) =
            enter-handlers_at (n + 1) n g 0 x i t table next h d.0 (dvd-zero g) b a made in
          let from_zero : leb 0 t ≡ true = ground arith in
          let here : handlers_at t next ≡ handlers_at t table ++ alone (t % x == 0) i =
            rw from_zero at found in
          let e' : enter_all n g intervals (i + 1) order next ≡ some out =
            sym (enter_all_step n g i idx intervals order table next made) ∙ e in
          enter_all-handlers_at n g (i + 1) t intervals order next out h d.1 b ends e'
          ∙ ap (λ q. q ++ due_at t intervals (i + 1) order) here
          ∙ append_assoc (handlers_at t table) _ _
    ]

-- With at least one task, a positive multiple of the intervals, and a positive divisor of them that
-- divides the interval of each task of the order, the table is built, and for every stamp below the
-- multiple it has just those handlers whose interval divides the stamp, in the order of priority.
tasks_of-handlers_at :
    (intervals order : List ℕ) (idx n g : ℕ)
    → lcm_of intervals ≡ some n
    → gcd_of intervals ≡ some g
    → 0 < n
    → 0 < g
    → DividesOrder g intervals (idx ∷ order)
    → (table : Table) × (tasks_of intervals (idx ∷ order) ≡ some (n, table))
      × ((t : ℕ) → t < n → handlers_at t table ≡ due_at t intervals 0 (idx ∷ order))
unfolding handlers_at
tasks_of-handlers_at intervals order idx n g e f p h d =
    let (u, built, filled) = enter_all_total n g idx intervals order p h in
    (
      u,
      tasks_of_entry intervals (idx ∷ order) n g u e f built,
      λ t b. enter_all-handlers_at n g 0 t intervals (idx ∷ order) [] u h d b tt built,
    )
