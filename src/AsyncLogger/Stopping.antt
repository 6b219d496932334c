-- ===== src/AsyncLogger/Stopping.antt =====
-- When run_impl writes what was logged, and what happens when the destructor stops it.
use cppev.Prelude.{
  ℕ, ◌≡◌, refl, sym, ap, subst, ◌∙◌, Bool, true, false, not, List, [], ◌∷◌, ◌++◌, append-nil,
  if◌then◌else◌,
}
use cppev.Nio.{Outcome, returned, waiting, ◌>>=◌, returned-bind}
use cppev.Buffer.{size, contents}
use cppev.AsyncLogger.{
  nobody, buffer_at, testing, locking, falling_asleep, asleep, writing, ended, Destructor,
  not_called, stopping, joining, Text, System, is_zero, notify, insert, end_line, line_bytes,
  write_out, destroy, Move, log_text, log_end, write_step, destroy_step, wake, step, run,
}
use cppev.AsyncLogger.Pending.{Consistent, all_bytes, other_buffer, held}
use cppev.AsyncLogger.Stepping.{run-Consistent, swapped}

-- run_impl has ended, and these bytes were passed to write(2).
record Over (passed : List ℕ) (s : System) : Type 0 where
  over : s.writer ≡ ended
  all : s.passed ≡ passed

destroy-Over :
    (d : Destructor) (passed : List ℕ) (s t : System)
    → s.destructor ≡ d
    → Over passed s
    → destroy s ≡ returned t
    → Over passed t
destroy-Over not_called passed s t e o f =
    let made : record s { logger = record (s.logger) { stop = true }; destructor = stopping } ≡ t =
      let g : ◌≡◌ {A = Outcome System}
          (returned
            (record s { logger = record (s.logger) { stop = true }; destructor = stopping }))
          (returned t) =
        rw e at f in
      cc in
    subst (Over passed) made (record { over = o.over; all = o.all })
destroy-Over stopping passed s t e o f =
    let made : record s { writer = notify s.writer; destructor = joining } ≡ t =
      let g : ◌≡◌ {A = Outcome System}
          (returned (record s { writer = notify s.writer; destructor = joining })) (returned t) =
        rw e at f in
      cc in
    subst (Over passed) made (record { over = ap notify o.over; all = o.all })
destroy-Over joining passed s t e o f =
    let g : ◌≡◌ {A = Outcome System} waiting (returned t) = rw e at f in absurd cc

step-Over :
    (m : Move) (passed : List ℕ) (s t : System)
    → Over passed s
    → step m s ≡ returned t
    → Over passed t
unfolding step
step-Over (log_text u time thread str) passed s t o e =
    let l = s.logger in
    let (m, e1, e2) = returned-bind (insert u time thread str l) _ t e in
    let text : Text = record { thread = u; bytes = line_bytes l time thread str; ends = false } in
    let made : record s { logger = m; logged = s.logged ++ text ∷ [] } ≡ t = cc in
    subst (Over passed) made (record { over = o.over; all = o.all })
step-Over (log_end u time thread) passed s t o e =
    let l = s.logger in
    let (m, e1, e2) = returned-bind (end_line u time thread l) _ t e in
    let text : Text = record {
      thread = u;
      bytes = line_bytes l time thread (10 ∷ []);
      ends = true;
    } in
    let made : record s { logger = m; writer = notify s.writer; logged = s.logged ++ text ∷ [] }
        ≡ t =
      cc in
    subst (Over passed) made (record { over = ap notify o.over; all = o.all })
step-Over write_step passed s t o e =
    let f = o.over in let g : ◌≡◌ {A = Outcome System} waiting (returned t) = rw f at e in absurd cc
step-Over destroy_step passed s t o e = destroy-Over s.destructor passed s t refl o e
step-Over wake passed s t o e =
    let made : record s { writer = notify s.writer } ≡ t = cc in
    subst (Over passed) made (record { over = ap notify o.over; all = o.all })

run-Over :
    (moves : List Move) (passed : List ℕ) (s t : System)
    → Over passed s
    → run moves s ≡ returned t
    → Over passed t
unfolding run
run-Over [] passed s t o e = let made : s ≡ t = cc in subst (Over passed) made o
run-Over (m ∷ moves) passed s t o e =
    let (u, e1, e2) = returned-bind (step m s) (run moves) t e in
    run-Over moves passed u t (step-Over m passed s u o e1) e2

test_ends :
    (s : System)
    → s.writer ≡ testing
    → s.logger.stop ≡ true
    → step write_step s ≡ returned (record s { writer = ended })
unfolding step
test_ends s e f =
    let tested : step write_step s
        ≡ returned (record s { writer = if s.logger.stop then ended else locking }) =
      rw e in
    tested ∙ ap (λ b. returned (record s { writer = if b then ended else locking })) f

-- What is logged while run_impl writes is lost when stop_ is set by then: if run_impl is at its test
-- with stop_ set, then after any schedule that begins with the test no more bytes than before have
-- been passed to write(2), and what the current buffer holds are the bytes that are missing.
run-lost :
    (s t : System) (moves : List Move)
    → Consistent s
    → s.writer ≡ testing
    → s.logger.stop ≡ true
    → run (write_step ∷ moves) s ≡ returned t
    → (t.passed ≡ s.passed)
      × (s.passed ++ contents (buffer_at t.logger t.logger.curr) ≡ all_bytes t.logged)
unfolding run step
run-lost s t moves c at_test stops e =
    let (u, e1, e2) = returned-bind (step write_step s) (run moves) t e in
    let made : record s { writer = ended } ≡ u = let f = test_ends s at_test stops in cc in
    let o =
      run-Over moves s.passed u t (subst (Over s.passed) made (record { over = refl; all = refl }))
        e2 in
    let d = run-Consistent (write_step ∷ moves) s t c e in
    let empty : contents (other_buffer t.logger) ≡ [] = let w = o.over in rw w at d.apart in
    let rest = contents (buffer_at t.logger t.logger.curr) in
    (
      o.all,
      sym (ap (λ p. p ++ rest) o.all) ∙ sym (ap (λ b. t.passed ++ (b ++ rest)) empty) ∙ d.account,
    )

-- The destructor does not wake run_impl when it sets stop_ and notifies between the test of the
-- condition and the sleep, for which the destructor needs no lock: then run_impl sleeps with stop_
-- set, the destructor is in join(), and neither can go on.
missed_notification :
    (s : System)
    → s.writer ≡ falling_asleep
    → s.destructor ≡ not_called
    → (t : System) × (run (destroy_step ∷ destroy_step ∷ write_step ∷ []) s ≡ returned t)
      × (t.logger.stop ≡ true)
      × (t.logged ≡ s.logged)
      × (step write_step t ≡ waiting)
      × (step destroy_step t ≡ waiting)
unfolding run step
missed_notification s e f = (
  record s {
    logger = record (s.logger) { stop = true; holder = nobody };
    writer = asleep;
    destructor = joining;
  },
  rw (e, f),
  refl,
  refl,
  refl,
  refl,
)

-- What is left of the buffers when the swapped one has been written.
swapped-write_out :
    (i : Bool) (s : System)
    → s.logger.curr ≡ i
    → is_zero (size (buffer_at s.logger s.logger.curr)) ≡ false
    → contents (other_buffer s.logger) ≡ []
    → let t = write_out s.logger.curr (swapped s) in
      (t.writer ≡ testing)
      × (t.logged ≡ s.logged)
      × (contents (buffer_at t.logger t.logger.curr) ≡ [])
swapped-write_out false s h text old =
    let text' : is_zero (size s.logger.first) ≡ false = rw h at text in
    rw (h, text') (refl, refl, let o : contents s.logger.second ≡ [] = rw h at old in o)
swapped-write_out true s h text old =
    let text' : is_zero (size s.logger.second) ≡ false = rw h at text in
    rw (h, text') (refl, refl, let o : contents s.logger.first ≡ [] = rw h at old in o)

-- In a consistent state, as every schedule from the start reaches: if run_impl is awake in front of its
-- lock, no thread holds the lock, and the current buffer has text, then the next two steps of run_impl,
-- when no other thread's step comes between, pass to write(2) all that has been logged and not yet
-- passed, and both buffers are empty.
pub run-written :
    (s : System)
    → Consistent s
    → s.writer ≡ locking
    → s.logger.holder ≡ nobody
    → is_zero (size (buffer_at s.logger s.logger.curr)) ≡ false
    → (t : System) × (run (write_step ∷ write_step ∷ []) s ≡ returned t)
      × (t.passed ≡ all_bytes s.logged)
      × (t.logged ≡ s.logged)
      × (held t.logger ≡ [])
unfolding run step
run-written s c e free text =
    let l = s.logger in
    let u = swapped s in
    let v = write_out l.curr u in
    let first : step write_step s ≡ returned u =
      rw (e, free, text)
        (ap
          (λ h. returned (record s {
            logger = record l { holder = h; curr = not l.curr };
            writer = writing l.curr;
          }))
          free) in
    let both : run (write_step ∷ write_step ∷ []) s ≡ returned v =
      ap (λ o. o >>= run (write_step ∷ [])) first in
    let d = run-Consistent (write_step ∷ write_step ∷ []) s v c both in
    let old : contents (other_buffer l) ≡ [] = rw e at c.apart in
    let (at_test, same, empty) = swapped-write_out l.curr s refl text old in
    let used : contents (other_buffer v.logger) ≡ [] = rw at_test at d.apart in
    let none_held : held v.logger ≡ [] =
      ap (λ b. b ++ contents (buffer_at v.logger v.logger.curr)) used ∙ empty in
    (
      v,
      both,
      sym (append-nil v.passed)
          ∙ sym (ap (λ b. v.passed ++ b) none_held)
          ∙ d.account
          ∙ ap all_bytes same,
      same,
      none_held,
    )
