-- ===== src/Scheduler/Thread/Periodic.antt =====
-- When the thread of a timed scheduler calls its handlers.
use native.Mathlib.Nat.{mod-eq_of_lt, add-mod_right}
use cppev.Prelude.{
  ℕ, zero, suc, ◌+◌, ◌-◌, ◌*◌, ◌%◌, ◌≤◌, ◌<◌, ◌≡◌, refl, sym, ap, ap₂, ◌∙◌, inl, inr, true, false,
  List, [], ◌∷◌, ◌++◌, append-nil, append_assoc, Option, none, some, arith, ltb, ◌==◌,
  if◌then◌else◌, Bool-cases,
}
use cppev.Scheduler.{Table}
use cppev.Scheduler.Rounds.{Ascending, Good}
use cppev.Scheduler.Due.{handlers_at, at_below}
use cppev.Scheduler.Thread.{Effect, init_task, exit_task, sleep_until, call, handler_calls, loop}

-- One round from `base`, by absolute times: each stamp k is served at base + k.
abbrev pub round_effects : ℕ → ℕ → Table → List Effect
round_effects n base [] = []
round_effects n base ((k, hs) ∷ []) = handler_calls (base + k) hs ++ sleep_until (base + n) ∷ []
round_effects n base ((k, hs) ∷ (k', hs') ∷ rest) =
    handler_calls (base + k) hs ++ sleep_until (base + k') ∷ round_effects n base ((k', hs') ∷ rest)

abbrev pub rounds : ℕ → ℕ → ℕ → Table → List Effect
rounds zero n base table = []
rounds (suc r) n base table = round_effects n base table ++ rounds r n (base + n) table

-- The tests of stop_ in what is left of a round, and in r whole rounds.
abbrev tests_in : Table → ℕ → ℕ
tests_in [] m = suc m
tests_in (entry ∷ rest) m = suc (tests_in rest m)

abbrev pub tests_of : ℕ → Table → ℕ
tests_of zero table = 0
tests_of (suc r) table = suc (tests_in table (tests_of r table))

abbrev rest_of : Table → Option Table
rest_of table = some table

-- What is left of a round ends at its absolute end.
loop-round :
    (n base m low k : ℕ) (hs : List ℕ) (rest tasks : Table)
    → Ascending n low ((k, hs) ∷ rest)
    → loop (tests_in ((k, hs) ∷ rest) m) n tasks (some ((k, hs) ∷ rest)) (base + k)
      ≡ round_effects n base ((k, hs) ∷ rest) ++ loop m n tasks none (base + n)
unfolding loop
loop-round n base m low k hs [] tasks a =
    let b = a.1 in
    let ends : base + k + (n - k) ≡ base + n = omega arith in
    rw ends (
      sym (
        append_assoc (handler_calls (base + k) hs) (sleep_until (base + n) ∷ [])
          (loop m n tasks none (base + n))))
loop-round n base m low k hs ((k', hs') ∷ rest) tasks a =
    let up = a.2.0 in
    let ends : base + k + (k' - k) ≡ base + k' = omega arith in
    let ih = loop-round n base m (suc k) k' hs' rest tasks a.2 in
    let after = loop m n tasks none (base + n) in
    rw ends (
      ap (λ es. handler_calls (base + k) hs ++ sleep_until (base + k') ∷ es) ih
      ∙ sym (
          append_assoc (handler_calls (base + k) hs)
            (sleep_until (base + k') ∷ round_effects n base ((k', hs') ∷ rest)) after))

pub loop-rounds :
    (r n base : ℕ) (table : Table)
    → Good n table
    → loop (tests_of r table) n table none base ≡ rounds r n base table
unfolding loop
loop-rounds zero n base table good = refl
loop-rounds (suc r) n base [] good = absurd good.1
loop-rounds (suc r) n base ((k, hs) ∷ rest) good =
    let table = (k, hs) ∷ rest in
    let first : base ≡ base + k = let z = good.1 in omega arith in
    let round = loop-round n base (tests_of r table) 0 k hs rest table good.0 in
    ap (loop (tests_in table (tests_of r table)) n table (some table)) first
    ∙ round
    ∙ ap (λ es. round_effects n base table ++ es) (loop-rounds r n (base + n) table good)

-- The handlers that are called at a time.
abbrev pub called_at : ℕ → List Effect → List ℕ
called_at time [] = []
called_at time (call h t ∷ es) = if t == time then h ∷ called_at time es else called_at time es
called_at time (init_task i ∷ es) = called_at time es
called_at time (exit_task i ∷ es) = called_at time es
called_at time (sleep_until t ∷ es) = called_at time es

pub called_at-append :
    (time : ℕ) (xs ys : List Effect)
    → called_at time (xs ++ ys) ≡ called_at time xs ++ called_at time ys
called_at-append time [] ys = refl
called_at-append time (call h t ∷ es) ys = elim (Bool-cases (t == time)) [
  | inl now ↦ rw now (ap (λ hs. h ∷ hs) (called_at-append time es ys))
  | inr other ↦ rw other (called_at-append time es ys)
]
called_at-append time (init_task i ∷ es) ys = called_at-append time es ys
called_at-append time (exit_task i ∷ es) ys = called_at-append time es ys
called_at-append time (sleep_until t ∷ es) ys = called_at-append time es ys

called_at-handler_calls :
    (time t : ℕ) (hs : List ℕ)
    → called_at time (handler_calls t hs) ≡ (if t == time then hs else [])
called_at-handler_calls time t [] = ground arith
called_at-handler_calls time t (h ∷ hs) = ground (arith, called_at-handler_calls time t hs)

-- No call of a round is earlier than its first stamp.
called_before :
    (n base low time : ℕ) (table : Table)
    → Ascending n low table
    → time < base + low
    → called_at time (round_effects n base table) ≡ []
called_before n base low time [] a h = refl
called_before n base low time ((k, hs) ∷ []) a h =
    let up = a.0 in
    let other : (base + k == time) ≡ false = ground arith in
    called_at-append time (handler_calls (base + k) hs) (sleep_until (base + n) ∷ [])
    ∙ append-nil _
    ∙ called_at-handler_calls time (base + k) hs
    ∙ rw other
called_before n base low time ((k, hs) ∷ (k', hs') ∷ rest) a h =
    let up = a.0 in
    let other : (base + k == time) ≡ false = ground arith in
    let later : called_at time (round_effects n base ((k', hs') ∷ rest)) ≡ [] =
      called_before n base (suc k) time ((k', hs') ∷ rest) a.2 (omega arith) in
    called_at-append time (handler_calls (base + k) hs) _
    ∙ ap (λ xs. called_at time (handler_calls (base + k) hs) ++ xs) later
    ∙ append-nil _
    ∙ called_at-handler_calls time (base + k) hs
    ∙ rw other

-- A round serves each stamp once.
called_at-round :
    (n base low t : ℕ) (table : Table)
    → Ascending n low table
    → called_at (base + t) (round_effects n base table) ≡ handlers_at t table
unfolding handlers_at
called_at-round n base low t [] a = refl
called_at-round n base low t ((k, hs) ∷ []) a =
    called_at-append (base + t) (handler_calls (base + k) hs) (sleep_until (base + n) ∷ [])
    ∙ append-nil _
    ∙ called_at-handler_calls (base + t) (base + k) hs
    ∙ ground arith
called_at-round n base low t ((k, hs) ∷ (k', hs') ∷ rest) a =
    called_at-append (base + t) (handler_calls (base + k) hs) _
    ∙ ap₂ ◌++◌ (called_at-handler_calls (base + t) (base + k) hs)
        (called_at-round n base (suc k) t ((k', hs') ∷ rest) a.2)
    ∙ elim (Bool-cases (t == k)) [
      | inl now ↦
          let now' : (base + k == base + t) ≡ true = ground arith in
          let past : handlers_at t ((k', hs') ∷ rest) ≡ [] =
            at_below n (suc k) t ((k', hs') ∷ rest) a.2 (ground arith) in
          rw (now', now) (ap (λ xs. hs ++ xs) past ∙ append-nil hs)
      | inr other ↦ let other' : (base + k == base + t) ≡ false = ground arith in rw (other', other)
    ]

called_before_rounds :
    (r n base time : ℕ) (table : Table)
    → Ascending n 0 table
    → time < base
    → called_at time (rounds r n base table) ≡ []
called_before_rounds zero n base time table a h = refl
called_before_rounds (suc r) n base time table a h =
    called_at-append time (round_effects n base table) (rounds r n (base + n) table)
    ∙ ap₂ ◌++◌ (called_before n base 0 time table a (omega arith))
        (called_before_rounds r n (base + n) time table a (omega arith))

at_above : (n low t : ℕ) (table : Table) → Ascending n low table → n ≤ t → handlers_at t table ≡ []
unfolding handlers_at
at_above n low t [] a h = refl
at_above n low t ((k, hs) ∷ table) a h =
    let below = a.1 in
    let other : (t == k) ≡ false = ground arith in rw other (at_above n (suc k) t table a.2 h)

pub called_at-rounds :
    (r n base q : ℕ) (table : Table)
    → Ascending n 0 table
    → q < r * n
    → called_at (base + q) (rounds r n base table) ≡ handlers_at (q % n) table
called_at-rounds zero n base q table a h = absurd (omega arith)
called_at-rounds (suc r) n base q table a h =
    called_at-append (base + q) (round_effects n base table) (rounds r n (base + n) table)
    ∙ ap (λ xs. xs ++ called_at (base + q) (rounds r n (base + n) table))
        (called_at-round n base 0 q table a)
    ∙ elim (Bool-cases (ltb q n)) [
      | inl first ↦
          let here : q % n ≡ q = mod-eq_of_lt (ground arith) in
          let rest = called_before_rounds r n (base + n) (base + q) table a (ground arith) in
          rw here (ap (λ xs. handlers_at q table ++ xs) rest ∙ append-nil _)
      | inr later ↦
          let up : n ≤ q = ground arith in
          let none_here : handlers_at q table ≡ [] = at_above n 0 q table a up in
          let shifted : base + q ≡ base + n + (q - n) = omega arith in
          let same : (q - n) % n ≡ q % n =
            sym (add-mod_right (q - n) n) ∙ ap (λ x. x % n) (omega arith) in
          let less : q - n < r * n = grind arith in
          ap (λ xs. xs ++ called_at (base + q) (rounds r n (base + n) table)) none_here
          ∙ ap (λ x. called_at x (rounds r n (base + n) table)) shifted
          ∙ called_at-rounds r n (base + n) (q - n) table a less
          ∙ ap (λ x. handlers_at x table) same
    ]
