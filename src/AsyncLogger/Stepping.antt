-- ===== src/AsyncLogger/Stepping.antt =====
-- What each step of the logger and its thread does to the texts on their way.
use cppev.Prelude.{
  ℕ, suc, ◌≡◌, refl, sym, ap, subst, ◌∙◌, ◌⊎◌, inl, inr, Bool, true, false, not, ◌||◌, List, [],
  ◌∷◌, ◌++◌, some, arith, Bool-cases, if◌then◌else◌,
}
use cppev.Nio.{Outcome, returned, waiting, returned-bind}
use cppev.Buffer.{Buffer, size, clear, create, contents}
use cppev.Buffer.Bounds.{IsValid, create-IsValid}
use cppev.Buffer.Contents.{clear-IsValid}
use cppev.AsyncLogger.{
  Holder, nobody, logging, writing_thread, Logger, buffer_at, with_buffer, insert, end_line,
  line_bytes, Writer, testing, locking, falling_asleep, asleep, woken, writing, ended, Destructor,
  not_called, stopping, joining, System, is_zero, notify, section, write_out, run_impl, destroy,
  Move, log_text, log_end, write_step, destroy_step, wake, step, run, started,
}
use cppev.AsyncLogger.Locking.{
  Balanced, Balanced-levels, Put-Balanced, called, released, insert-Put, end_line-Put,
}
use cppev.AsyncLogger.Pending.{
  other_buffer, Apart, Consistent, empty_contents, contents-clear, Extended, Put-Extended, logs,
  call-Consistent, swap_account, write_account, with_buffer-fields,
}

twice : (i : Bool) → i ≡ not (not i)
twice false = refl
twice true = refl

abbrev pub swapped : System → System
swapped s = record s {
  logger = record (s.logger) { holder = nobody; curr = not s.logger.curr };
  writer = writing s.logger.curr;
}

abbrev pub about_to_sleep : System → System
about_to_sleep s = record s {
  logger = record (s.logger) { holder = writing_thread };
  writer = falling_asleep;
}

-- run_impl swaps the buffers, or falls asleep with the lock, which nobody holds.
pub section-cases :
    (h : Holder) (s t : System)
    → s.logger.holder ≡ h
    → section s ≡ returned t
    → (h ≡ nobody) × ((swapped s ≡ t) ⊎ (about_to_sleep s ≡ t))
section-cases nobody s t e f =
    let l = s.logger in
    elim (Bool-cases (not (is_zero (size (buffer_at l l.curr))) || l.stop)) [
      | inl go ↦
          let g : ◌≡◌ {A = Outcome System} (returned (swapped s)) (returned t) = rw (e, go) at f in
          (refl, inl cc)
      | inr wait ↦
          let g : ◌≡◌ {A = Outcome System} (returned (about_to_sleep s)) (returned t) =
            rw (e, wait) at f in
          (refl, inr cc)
    ]
section-cases (logging u) s t e f =
    let g : ◌≡◌ {A = Outcome System} waiting (returned t) = rw e at f in absurd cc
section-cases writing_thread s t e f =
    let g : ◌≡◌ {A = Outcome System} waiting (returned t) = rw e at f in absurd cc

section-Consistent :
    (s t : System)
    → contents (other_buffer s.logger) ≡ []
    → Consistent s
    → section s ≡ returned t
    → Consistent t
section-Consistent s t z c f =
    let l = s.logger in
    let (free, next) = section-cases l.holder s t refl f in
    let b : Balanced nobody l.depth l.recur_level = rw free at c.balanced in
    elim next [
      | inl e ↦ subst Consistent e (record {
        valid = c.valid;
        balanced = b;
        apart = twice l.curr;
        account = ap (λ q. s.passed ++ q) (swap_account l.curr l refl z) ∙ c.account;
      })
      | inr e ↦
          subst Consistent e
            (record { valid = c.valid; balanced = b; apart = (z, refl); account = c.account })
    ]

emptied :
    (i : Bool) (l : Logger) (b : Buffer)
    → l.curr ≡ i
    → contents b ≡ []
    → contents (other_buffer (with_buffer l (not l.curr) b)) ≡ []
emptied false l b h e = rw (h, e)
emptied true l b h e = rw (h, e)

write_out-Consistent :
    (prev : Bool) (s : System)
    → prev ≡ not s.logger.curr
    → Consistent s
    → Consistent (write_out prev s)
write_out-Consistent prev s e c =
    let l = s.logger in
    let buf = buffer_at l prev in
    let buf_valid = c.valid prev in
    elim (Bool-cases (is_zero (size buf))) [
      | inl nothing ↦
          let none_left : contents (other_buffer l) ≡ [] =
            rw e at (empty_contents buf buf_valid nothing) in
          rw nothing (record {
            valid = c.valid;
            balanced = c.balanced;
            apart = none_left;
            account = c.account;
          })
      | inr some_text ↦
          let (same, balanced, valid) =
            with_buffer-fields l prev (clear buf) (clear-IsValid buf buf_valid) c.valid in
          rw some_text (record {
            valid = valid;
            balanced = subst (λ (T : Type 0). T) (sym balanced) c.balanced;
            apart =
                rw e (
                  emptied l.curr l (clear (other_buffer l)) refl (contents-clear (other_buffer l)));
            account = rw e (
                write_account l.curr s.passed l (clear (other_buffer l)) refl
                  (contents-clear (other_buffer l))
                ∙ c.account);
          })
    ]

tested-Apart :
    (stop : Bool) (l : Logger)
    → contents (other_buffer l) ≡ []
    → Apart (if stop then ended else locking) l
tested-Apart true l a = a
tested-Apart false l a = a

run_impl-Consistent :
    (w : Writer) (s t : System)
    → s.writer ≡ w
    → Consistent s
    → run_impl s ≡ returned t
    → Consistent t
run_impl-Consistent testing s t e c f =
    let tested = record s { writer = if s.logger.stop then ended else locking } in
    let g : ◌≡◌ {A = Outcome System} (returned tested) (returned t) = rw e at f in
    let made : tested ≡ t = cc in
    subst Consistent made (record {
      valid = c.valid;
      balanced = c.balanced;
      apart = tested-Apart s.logger.stop s.logger (rw e at c.apart);
      account = c.account;
    })
run_impl-Consistent locking s t e c f = section-Consistent s t (rw e at c.apart) c (rw e at f)
run_impl-Consistent falling_asleep s t e c f =
    let a : Apart falling_asleep s.logger = rw e at c.apart in
    let slept = record s { logger = record (s.logger) { holder = nobody }; writer = asleep } in
    let g : ◌≡◌ {A = Outcome System} (returned slept) (returned t) = rw e at f in
    let made : slept ≡ t = cc in
    let b : Balanced writing_thread s.logger.depth s.logger.recur_level = rw a.1 at c.balanced in
    subst Consistent made
      (record { valid = c.valid; balanced = b; apart = a.0; account = c.account })
run_impl-Consistent asleep s t e c f =
    let g : ◌≡◌ {A = Outcome System} waiting (returned t) = rw e at f in absurd cc
run_impl-Consistent woken s t e c f = section-Consistent s t (rw e at c.apart) c (rw e at f)
run_impl-Consistent (writing prev) s t e c f =
    let g : ◌≡◌ {A = Outcome System} (returned (write_out prev s)) (returned t) = rw e at f in
    let made : write_out prev s ≡ t = cc in
    subst Consistent made (write_out-Consistent prev s (rw e at c.apart) c)
run_impl-Consistent ended s t e c f =
    let g : ◌≡◌ {A = Outcome System} waiting (returned t) = rw e at f in absurd cc

notify-Apart : (w : Writer) (l : Logger) → Apart w l → Apart (notify w) l
notify-Apart asleep l a = a
notify-Apart testing l a = a
notify-Apart locking l a = a
notify-Apart falling_asleep l a = a
notify-Apart woken l a = a
notify-Apart (writing prev) l a = a
notify-Apart ended l a = a

stop-Apart : (w : Writer) (l : Logger) → Apart w l → Apart w (record l { stop = true })
stop-Apart asleep l a = a
stop-Apart testing l a = a
stop-Apart locking l a = a
stop-Apart falling_asleep l a = a
stop-Apart woken l a = a
stop-Apart (writing prev) l a = a
stop-Apart ended l a = a

destroy-Consistent :
    (d : Destructor) (s t : System)
    → s.destructor ≡ d
    → Consistent s
    → destroy s ≡ returned t
    → Consistent t
destroy-Consistent not_called s t e c f =
    let stopped = record s { logger = record (s.logger) { stop = true }; destructor = stopping } in
    let g : ◌≡◌ {A = Outcome System} (returned stopped) (returned t) = rw e at f in
    let made : stopped ≡ t = cc in
    subst Consistent made (record {
      valid = c.valid;
      balanced = c.balanced;
      apart = stop-Apart s.writer s.logger c.apart;
      account = c.account;
    })
destroy-Consistent stopping s t e c f =
    let told = record s { writer = notify s.writer; destructor = joining } in
    let g : ◌≡◌ {A = Outcome System} (returned told) (returned t) = rw e at f in
    let made : told ≡ t = cc in
    subst Consistent made (record {
      valid = c.valid;
      balanced = c.balanced;
      apart = notify-Apart s.writer s.logger c.apart;
      account = c.account;
    })
destroy-Consistent joining s t e c f =
    let g : ◌≡◌ {A = Outcome System} waiting (returned t) = rw e at f in absurd cc

pub step-Consistent :
    (m : Move) (s t : System) → Consistent s → step m s ≡ returned t → Consistent t
unfolding step
step-Consistent (log_text u time thread str) s t c e =
    let l = s.logger in
    let (m, e1, e2) = returned-bind (insert u time thread str l) _ t e in
    let (admits, p) = insert-Put u time thread str l m (c.valid l.curr) c.balanced e1 in
    let y = Put-Extended l.curr _ (called u l) m refl c.valid p in
    let x : Extended _ l m = record {
      curr = y.curr;
      more = y.more;
      other = y.other;
      valid = y.valid;
    } in
    let b =
      Put-Balanced l.curr _ (called u l) m p
        (ap suc (Balanced-levels _ _ _ c.balanced), omega arith) in
    let (kept, told) = call-Consistent u (line_bytes l time thread str) false s l m c admits x b in
    let made : logs u (line_bytes l time thread str) false s m s.writer ≡ t = cc in
    subst Consistent made kept
step-Consistent (log_end u time thread) s t c e =
    let l = s.logger in
    let (m, e1, e2) = returned-bind (end_line u time thread l) _ t e in
    let (admits, p) = end_line-Put u time thread l m (c.valid l.curr) c.balanced e1 in
    let y = Put-Extended l.curr _ (released l) m refl c.valid p in
    let x : Extended _ l m = record {
      curr = y.curr;
      more = y.more;
      other = y.other;
      valid = y.valid;
    } in
    let b = Put-Balanced l.curr _ (released l) m p (refl, refl) in
    let (kept, told) =
      call-Consistent u (line_bytes l time thread (10 ∷ [])) true s l m c admits x b in
    let made : logs u (line_bytes l time thread (10 ∷ [])) true s m (notify s.writer) ≡ t = cc in
    subst Consistent made told
step-Consistent write_step s t c e = run_impl-Consistent s.writer s t refl c e
step-Consistent destroy_step s t c e = destroy-Consistent s.destructor s t refl c e
step-Consistent wake s t c e =
    let told = record s { writer = notify s.writer } in
    let made : told ≡ t = cc in
    subst Consistent made (record {
      valid = c.valid;
      balanced = c.balanced;
      apart = notify-Apart s.writer s.logger c.apart;
      account = c.account;
    })

pub run-Consistent :
    (moves : List Move) (s t : System) → Consistent s → run moves s ≡ returned t → Consistent t
unfolding run
run-Consistent [] s t c e = let made : s ≡ t = cc in subst Consistent made c
run-Consistent (m ∷ moves) s t c e =
    let (u, e1, e2) = returned-bind (step m s) (run moves) t e in
    run-Consistent moves u t (step-Consistent m s u c e1) e2

pub started-Consistent :
    (level : ℕ) (fresh : Buffer) → create 1 ≡ some fresh → Consistent (started level fresh)
unfolding create contents
started-Consistent level fresh e =
    let v = create-IsValid 1 fresh (omega arith) e in
    let made : record { cap = 1; start = 0; offset = 0; store = 0 ∷ [] } ≡ fresh = cc in
    let nothing : contents fresh ≡ [] = subst (λ b. contents b ≡ []) made refl in
    record {
      valid = λ i. elim i as (λ k. IsValid (buffer_at (started level fresh).logger k)) [
        | false ↦ v
        | true ↦ v
      ];
      balanced = (refl, refl);
      apart = nothing;
      account = rw nothing;
    }

-- After any schedule of a new logger, with any threads that log and with or without the destructor:
-- both buffers are well formed; run_impl writes from the buffer that the loggers do not put to, and
-- when it does not write that buffer is empty; the mutex is locked once for each call on the open
-- line; and the bytes passed to write(2), then those of that buffer, then those of the current one
-- are the bytes of all calls in their order.
pub run-account :
    (level : ℕ) (fresh : Buffer) (moves : List Move) (t : System)
    → create 1 ≡ some fresh
    → run moves (started level fresh) ≡ returned t
    → Consistent t
run-account level fresh moves t f e =
    run-Consistent moves (started level fresh) t (started-Consistent level fresh f) e
