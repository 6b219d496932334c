-- ===== src/AsyncLogger/Lines.antt =====
-- How the texts of several threads follow one another.
use cppev.Prelude.{
  ℕ, ◌≡◌, refl, sym, ap, subst, ◌∙◌, inl, inr, Bool, true, false, List, [], ◌∷◌, ◌++◌, Option, none,
  some, ◌==◌, ==_refl, Bool-cases, if◌then◌else◌,
}
use cppev.Nio.{Outcome, returned, waiting, returned-bind}
use cppev.Buffer.{Buffer, create, size}
use cppev.AsyncLogger.{
  Holder, nobody, logging, writing_thread, Logger, buffer_at, with_buffer, insert, end_line,
  line_bytes, Writer, testing, locking, falling_asleep, asleep, woken, writing, ended, Destructor,
  not_called, stopping, joining, Text, System, is_zero, notify, write_out, run_impl, destroy,
  section, Move, log_text, log_end, write_step, destroy_step, wake, step, run, started,
}
use cppev.AsyncLogger.Locking.{Admits, Put, called, released, insert-Put, end_line-Put}
use cppev.AsyncLogger.Pending.{Apart, Consistent}
use cppev.AsyncLogger.Stepping.{section-cases, step-Consistent, started-Consistent}

-- Who is on an open line behind some texts, if none of them is in the line of another thread.
abbrev pub open_after : Option ℕ → List Text → Option (Option ℕ)
open_after o [] = some o
open_after none (t ∷ ts) = open_after (if t.ends then none else some t.thread) ts
open_after (some u) (t ∷ ts) =
    let rest = open_after (if t.ends then none else some t.thread) ts in
    if t.thread == u then rest else none

abbrev pub line_of : Holder → Option ℕ
line_of nobody = none
line_of (logging t) = some t
line_of writing_thread = none

open_after-append :
    (ts us : List Text) (o p : Option ℕ)
    → open_after o ts ≡ some p
    → open_after o (ts ++ us) ≡ open_after p us
open_after-append [] us o p e = let f : o ≡ p = cc in rw f
open_after-append (t ∷ ts) us none p e = open_after-append ts us _ p e
open_after-append (t ∷ ts) us (some u) p e = elim (Bool-cases (t.thread == u)) [
  | inl mine ↦ rw mine (open_after-append ts us _ p (rw mine at e))
  | inr other ↦ let f : ◌≡◌ {A = Option (Option ℕ)} none (some p) = rw other at e in absurd cc
]

open_after-text :
    (h : Holder) (t : Text)
    → Admits h t.thread
    → open_after (line_of h) (t ∷ []) ≡ some (if t.ends then none else some t.thread)
open_after-text h t (inl e) = rw e
open_after-text h t (inr e) = rw (e, ==_refl t.thread)

Put-holder : (i : Bool) (bytes : List ℕ) (l m : Logger) → Put i bytes l m → m.holder ≡ l.holder
Put-holder false bytes l m p = ap (λ (k : Logger). k.holder) p.same
Put-holder true bytes l m p = ap (λ (k : Logger). k.holder) p.same

write_out-line :
    (prev : Bool) (s : System)
    → ((write_out prev s).logged ≡ s.logged) × ((write_out prev s).logger.holder ≡ s.logger.holder)
write_out-line prev s = elim (Bool-cases (is_zero (size (buffer_at s.logger prev)))) [
  | inl nothing ↦ rw nothing (refl, refl)
  | inr text ↦ rw text (refl, with_buffer-holder s.logger prev _)
]
  where
    with_buffer-holder :
        (l : Logger) (i : Bool) (b : Buffer) → (with_buffer l i b).holder ≡ l.holder
    with_buffer-holder l false b = refl
    with_buffer-holder l true b = refl

-- The line of s is still the open one in t, and nothing was logged.
abbrev Quiet : System → System → Type 0
Quiet s t = (t.logged ≡ s.logged) × (line_of t.logger.holder ≡ line_of s.logger.holder)

section-Quiet : (s t : System) → section s ≡ returned t → Quiet s t
section-Quiet s t e =
    let (free, next) = section-cases s.logger.holder s t refl e in
    elim next [
      | inl f ↦ subst (Quiet s) f (refl, rw free)
      | inr f ↦ subst (Quiet s) f (refl, rw free)
    ]

run_impl-Quiet :
    (w : Writer) (s t : System)
    → s.writer ≡ w
    → Apart w s.logger
    → run_impl s ≡ returned t
    → Quiet s t
run_impl-Quiet testing s t e a f =
    let made : record s { writer = if s.logger.stop then ended else locking } ≡ t =
      let g : ◌≡◌ {A = Outcome System}
          (returned (record s { writer = if s.logger.stop then ended else locking })) (returned t) =
        rw e at f in
      cc in
    subst (Quiet s) made (refl, refl)
run_impl-Quiet locking s t e a f = section-Quiet s t (rw e at f)
run_impl-Quiet falling_asleep s t e a f =
    let slept = record s { logger = record (s.logger) { holder = nobody }; writer = asleep } in
    let g : ◌≡◌ {A = Outcome System} (returned slept) (returned t) = rw e at f in
    let made : slept ≡ t = cc in subst (Quiet s) made (refl, rw a.1)
run_impl-Quiet asleep s t e a f =
    let g : ◌≡◌ {A = Outcome System} waiting (returned t) = rw e at f in absurd cc
run_impl-Quiet woken s t e a f = section-Quiet s t (rw e at f)
run_impl-Quiet (writing prev) s t e a f =
    let g : ◌≡◌ {A = Outcome System} (returned (write_out prev s)) (returned t) = rw e at f in
    let made : write_out prev s ≡ t = cc in
    let q = write_out-line prev s in subst (Quiet s) made (q.0, ap line_of q.1)
run_impl-Quiet ended s t e a f =
    let g : ◌≡◌ {A = Outcome System} waiting (returned t) = rw e at f in absurd cc

destroy-Quiet :
    (d : Destructor) (s t : System) → s.destructor ≡ d → destroy s ≡ returned t → Quiet s t
destroy-Quiet not_called s t e f =
    let stopped = record s { logger = record (s.logger) { stop = true }; destructor = stopping } in
    let g : ◌≡◌ {A = Outcome System} (returned stopped) (returned t) = rw e at f in
    let made : stopped ≡ t = cc in subst (Quiet s) made (refl, refl)
destroy-Quiet stopping s t e f =
    let told = record s { writer = notify s.writer; destructor = joining } in
    let g : ◌≡◌ {A = Outcome System} (returned told) (returned t) = rw e at f in
    let made : told ≡ t = cc in subst (Quiet s) made (refl, refl)
destroy-Quiet joining s t e f =
    let g : ◌≡◌ {A = Outcome System} waiting (returned t) = rw e at f in absurd cc

abbrev Separate : System → Type 0
Separate s = open_after none s.logged ≡ some (line_of s.logger.holder)

Quiet-Separate : (s t : System) → Separate s → Quiet s t → Separate t
Quiet-Separate s t h q = ap (open_after none) q.0 ∙ h ∙ ap some (sym q.1)

text-Separate :
    (s : System) (u : Text)
    → Separate s
    → Admits s.logger.holder u.thread
    → open_after none (s.logged ++ u ∷ []) ≡ some (if u.ends then none else some u.thread)
text-Separate s u h a =
    open_after-append s.logged (u ∷ []) none _ h ∙ open_after-text s.logger.holder u a

step-Separate :
    (m : Move) (s t : System) → Consistent s → Separate s → step m s ≡ returned t → Separate t
unfolding step
step-Separate (log_text u time thread str) s t c h e =
    let l = s.logger in
    let (m, e1, e2) = returned-bind (insert u time thread str l) _ t e in
    let (admits, p) = insert-Put u time thread str l m (c.valid l.curr) c.balanced e1 in
    let text : Text = record { thread = u; bytes = line_bytes l time thread str; ends = false } in
    let made : record s { logger = m; logged = s.logged ++ text ∷ [] } ≡ t = cc in
    subst Separate made (
      text-Separate s text h admits
      ∙ sym (ap (λ k. some (line_of k)) (Put-holder l.curr _ (called u l) m p)))
step-Separate (log_end u time thread) s t c h e =
    let l = s.logger in
    let (m, e1, e2) = returned-bind (end_line u time thread l) _ t e in
    let (admits, p) = end_line-Put u time thread l m (c.valid l.curr) c.balanced e1 in
    let text : Text = record {
      thread = u;
      bytes = line_bytes l time thread (10 ∷ []);
      ends = true;
    } in
    let made : record s { logger = m; writer = notify s.writer; logged = s.logged ++ text ∷ [] }
        ≡ t =
      cc in
    subst Separate made (
      text-Separate s text h admits
      ∙ sym (ap (λ k. some (line_of k)) (Put-holder l.curr _ (released l) m p)))
step-Separate write_step s t c h e =
    Quiet-Separate s t h (run_impl-Quiet s.writer s t refl c.apart e)
step-Separate destroy_step s t c h e = Quiet-Separate s t h (destroy-Quiet s.destructor s t refl e)
step-Separate wake s t c h e =
    let made : record s { writer = notify s.writer } ≡ t = cc in subst Separate made h

run-Separate :
    (moves : List Move) (s t : System)
    → Consistent s
    → Separate s
    → run moves s ≡ returned t
    → Separate t
unfolding run
run-Separate [] s t c h e = let made : s ≡ t = cc in subst Separate made h
run-Separate (m ∷ moves) s t c h e =
    let (u, e1, e2) = returned-bind (step m s) (run moves) t e in
    run-Separate moves u t (step-Consistent m s u c e1) (step-Separate m s u c h e1) e2

-- Lines of different threads do not mix: whatever the schedule of a new logger, behind the first text
-- of a line all texts are of the same thread up to the one that ends the line, and a line is open
-- behind the last text just when a logging thread holds the lock, whose line it is.
pub run-lines :
    (level : ℕ) (fresh : Buffer) (moves : List Move) (t : System)
    → create 1 ≡ some fresh
    → run moves (started level fresh) ≡ returned t
    → open_after none t.logged ≡ some (line_of t.logger.holder)
run-lines level fresh moves t f e =
    run-Separate moves (started level fresh) t (started-Consistent level fresh f) refl e
