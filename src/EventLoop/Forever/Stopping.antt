-- ===== src/EventLoop/Forever/Stopping.antt =====
-- The end of loop_forever after stop_loop_forever.
use cppev.Prelude.{
  ℕ, suc, ◌≡◌, ◌≢◌, refl, subst, ◌∙◌, true, false, List, [], ◌∷◌, Option, none, some, length,
}
use cppev.EventLoop.{
  Event, readable, Callback, Epoll, Loop, ok, fd_register, remember, dispatch, p6,
}
use cppev.EventLoop.Forever.{
  At, testing, polling, handling, ended, Stage, before, flagged, finished, thrown, Pipe, Move,
  stopper, looper, Running, start, stop_step, loop_step, step, run, rounds, stop_from, loop_from,
}

module _ (e : Epoll) (call : Callback → Loop e → Loop e) (p : Pipe)
    -- No handler resets stop_, and none watches the descriptor of the pipe, which it does not know.
    (stop_kept : (c : Callback) (l : Loop e) → l.stop ≡ true → (call c l).stop ≡ true)
    (pipe_private : (c : Callback) (l : Loop e)
      → Epoll.has e l.watched p.fd ≡ false
      → Epoll.has e (call c l).watched p.fd ≡ false) where
  open e use {has, add_absent}

  abbrev pub Waits : Loop e → At → Type 0
  Waits l polling = has l.watched p.fd ≡ true
  Waits l _ = Unit {0}

  abbrev IsStaged : Stage → Loop e → At → Type 0
  IsStaged before l at = has l.watched p.fd ≡ false
  IsStaged flagged l at = (l.stop ≡ true) × (has l.watched p.fd ≡ false)
  IsStaged finished l at = (l.stop ≡ true) × Waits l at
  IsStaged thrown l at = ⊥

  abbrev Holds : Running e → Type 0
  Holds w = IsStaged w.stage w.loop w.at

  anywhere : (l : Loop e) (at : At) → has l.watched p.fd ≡ true → Waits l at
  anywhere l testing h = tt
  anywhere l polling h = h
  anywhere l (handling q) h = tt
  anywhere l ended h = tt

  pipe_registered :
      (l : Loop e)
      → has l.watched p.fd ≡ false
      → (m : Loop e) × (fd_register e l p.fd p.iop readable (some p.handler) true p6 ≡ ok m)
        × (has m.watched p.fd ≡ true)
        × (m.stop ≡ l.stop)
  unfolding fd_register
  pipe_registered l h =
      let (w, added, there) = add_absent l.watched p.fd readable h in
      (
        record (remember e l p.fd p.iop readable (some p.handler) p6) { watched = w },
        rw added,
        there,
        refl,
      )

  stop_from-Holds :
      (st : Stage) (l : Loop e) (at : At)
      → IsStaged st l at
      → Holds (stop_from e st p (record { loop = l; at = at; stage = st }))
  stop_from-Holds before l at h = (refl, h)
  stop_from-Holds flagged l at (s, h) =
      let (m, e', there, same) = pipe_registered l h in
      rw (e', Holds) (same ∙ s, anywhere m at there)
  stop_from-Holds finished l at h = h
  stop_from-Holds thrown l at h = h

  loop_from-Holds :
      (st : Stage) (at : At) (answer : Option (List (ℕ × Event))) (l : Loop e)
      → IsStaged st l at
      → Holds (loop_from e call at answer (record { loop = l; at = at; stage = st }))
  loop_from-Holds before testing answer l h = h
  loop_from-Holds flagged testing answer l h = h
  loop_from-Holds finished testing answer l (s, h) = (s, rw s tt)
  loop_from-Holds before polling none l h = h
  loop_from-Holds before polling (some ready) l h = h
  loop_from-Holds flagged polling none l h = h
  loop_from-Holds flagged polling (some ready) l h = h
  loop_from-Holds finished polling none l h = h
  loop_from-Holds finished polling (some ready) l (s, h) = (s, tt)
  loop_from-Holds before (handling []) answer l h = h
  loop_from-Holds flagged (handling []) answer l h = h
  loop_from-Holds finished (handling []) answer l h = h
  loop_from-Holds before (handling (c ∷ q)) answer l h = pipe_private c l h
  loop_from-Holds flagged (handling (c ∷ q)) answer l (s, h) = (stop_kept c l s, pipe_private c l h)
  loop_from-Holds finished (handling (c ∷ q)) answer l (s, h) = (stop_kept c l s, tt)
  loop_from-Holds before ended answer l h = h
  loop_from-Holds flagged ended answer l h = h
  loop_from-Holds finished ended answer l h = h
  loop_from-Holds thrown at answer l h = absurd h

  step-Holds : (m : Move) (w : Running e) → Holds w → Holds (step e call p m w)
  unfolding stop_step loop_step
  step-Holds stopper w h = stop_from-Holds w.stage w.loop w.at h
  step-Holds (looper answer) w h = loop_from-Holds w.stage w.at answer w.loop h

  run-Holds : (moves : List Move) (w : Running e) → Holds w → Holds (run e call p moves w)
  run-Holds [] w h = h
  run-Holds (m ∷ moves) w h = run-Holds moves (step e call p m w) (step-Holds m w h)

  -- The steps that the loop's thread needs at most once stop_ is set.
  abbrev pub steps_left : List (ℕ × Event) → Loop e → At → ℕ
  steps_left ready l testing = 1
  steps_left ready l polling = suc (suc (suc (length (dispatch ready l.fds))))
  steps_left ready l (handling q) = suc (suc (length q))
  steps_left ready l ended = 0

  abbrev pub GetsOut : List (ℕ × Event) → Loop e → At → Stage → Type 0
  GetsOut ready l at st =
      (rounds e call (steps_left ready l at) ready (record { loop = l; at = at; stage = st })).at
      ≡ ended

  handling-GetsOut :
      (ready : List (ℕ × Event)) (q : List Callback) (l : Loop e) (st : Stage)
      → l.stop ≡ true
      → (rounds e call
          (suc (suc (length q)))
          ready
          (record { loop = l; at = handling q; stage = st })).at
        ≡ ended
  unfolding rounds loop_step
  handling-GetsOut ready [] l st s = rw s
  handling-GetsOut ready (c ∷ q) l st s = handling-GetsOut ready q (call c l) st (stop_kept c l s)

  stopped-GetsOut :
      (ready : List (ℕ × Event)) (l : Loop e) (at : At) (st : Stage)
      → l.stop ≡ true
      → GetsOut ready l at st
  unfolding rounds loop_step
  stopped-GetsOut ready l testing st s = rw s
  stopped-GetsOut ready l polling st s = handling-GetsOut ready (dispatch ready l.fds) l st s
  stopped-GetsOut ready l (handling q) st s = handling-GetsOut ready q l st s
  stopped-GetsOut ready l ended st s = refl

  finished-Holds :
      (w : Running e) → w.stage ≡ finished → Holds w → (w.loop.stop ≡ true) × Waits w.loop w.at
  finished-Holds w f h = subst (λ st. IsStaged st w.loop w.at) f h

  -- With a pipe that is not watched yet, stop_loop_forever does not throw, in any interleaving.
  run-ne-thrown :
      (moves : List Move) (l : Loop e)
      → has l.watched p.fd ≡ false
      → (run e call p moves (start e l)).stage ≢ thrown
  unfolding start
  run-ne-thrown moves l h t =
      let w = run e call p moves (start e l) in
      subst (λ st. IsStaged st w.loop w.at) t (run-Holds moves (start e l) h)

  -- A thread calls stop_loop_forever with a pipe that is not watched yet, while another is in
  -- loop_forever, and no handler resets stop_ or watches the pipe. In every interleaving, once the call
  -- has returned, the loop does not wait unless the pipe is watched, and if its wait ends, it leaves
  -- loop_forever after the callbacks of the round that it is in.
  pub run-ends :
      (moves : List Move) (ready : List (ℕ × Event)) (l : Loop e)
      → has l.watched p.fd ≡ false
      → (run e call p moves (start e l)).stage ≡ finished
      → let w = run e call p moves (start e l) in
        Waits w.loop w.at × GetsOut ready w.loop w.at w.stage
  unfolding start
  run-ends moves ready l h f =
      let w = run e call p moves (start e l) in
      let (s, there) = finished-Holds w f (run-Holds moves (start e l) h) in
      (there, stopped-GetsOut ready w.loop w.at w.stage s)
