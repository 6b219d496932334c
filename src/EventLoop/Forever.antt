-- ===== src/EventLoop/Forever.antt =====
-- loop_forever and stop_loop_forever of src/include/cppev/event_loop.h: the thread of the loop and a
-- thread that stops it, as steps. Each callback is a step, and the handlers are a parameter.
pub mod Stopping
use cppev.Prelude.{
  ℕ, zero, suc, Bool, true, false, List, [], ◌∷◌, Option, none, some, if◌then◌else◌,
}
use cppev.EventLoop.{
  Event, readable, Callback, Entry, Epoll, Loop, Result, ok, threw, fd_register, dispatch, p6,
}

-- Where the thread of the loop is: at the test of stop_, in epoll_wait, among the callbacks of a round,
-- or behind the loop.
pub data At : Type 0 where
  testing polling : At
  handling : List Callback → At
  ended : At

-- How far stop_loop_forever has come: not called, behind `stop_ = true`, returned, or left by an
-- exception.
pub data Stage : Type 0 where
  before flagged finished thrown : Stage

-- The pipe of stop_loop_forever: the read end, its object, and the handler that removes it. The write
-- end is closed when the call returns, so that the read end can be read from then on.
pub record Pipe : Type 0 where
  pub fd : ℕ
  pub iop : ℕ
  pub handler : ℕ

-- What the schedule chooses: a step of the stopping thread, or one of the loop, with the events that
-- epoll_wait reports if the thread is there, none while it waits.
pub data Move : Type 0 where
  stopper : Move
  looper : Option (List (ℕ × Event)) → Move

module _ (e : Epoll) where
  pub record Running : Type 0 where
    pub loop : Loop e
    pub at : At
    pub stage : Stage

  unfoldable pub start : Loop e → Running
  start l = record { loop = record l { stop = false }; at = testing; stage = before }

  abbrev pub registered : Running → Result (Loop e) → Running
  registered w (ok l) = record w { loop = l; stage = finished }
  registered w (threw l) = record w { loop = l; stage = thrown }

  abbrev pub stop_from : Stage → Pipe → Running → Running
  stop_from before p w = record w { loop = record (w.loop) { stop = true }; stage = flagged }
  stop_from flagged p w =
      registered w (fd_register e w.loop p.fd p.iop readable (some p.handler) true p6)
  stop_from finished p w = w
  stop_from thrown p w = w

  unfoldable pub stop_step : Pipe → Running → Running
  stop_step p w = stop_from w.stage p w

  module _ (call : Callback → Loop e → Loop e) where
    -- epoll_wait, and the queue of the callbacks
    abbrev pub after_wait : Option (List (ℕ × Event)) → Running → Running
    after_wait none w = w
    after_wait (some ready) w = record w { at = handling (dispatch ready w.loop.fds) }

    abbrev pub loop_from : At → Option (List (ℕ × Event)) → Running → Running
    loop_from testing answer w = record w { at = if w.loop.stop then ended else polling }
    loop_from polling answer w = after_wait answer w
    loop_from (handling []) answer w = record w { at = testing }
    loop_from (handling (c ∷ q)) answer w = record w { loop = call c w.loop; at = handling q }
    loop_from ended answer w = w

    unfoldable pub loop_step : Option (List (ℕ × Event)) → Running → Running
    loop_step answer w = loop_from w.at answer w

    abbrev pub step : Pipe → Move → Running → Running
    step p stopper w = stop_step p w
    step p (looper answer) w = loop_step answer w

    abbrev pub run : Pipe → List Move → Running → Running
    run p [] w = w
    run p (m ∷ moves) w = run p moves (step p m w)

    -- The loop's thread alone, whose waits end with `ready`.
    unfoldable pub rounds : ℕ → List (ℕ × Event) → Running → Running
    rounds zero ready w = w
    rounds (suc n) ready w = rounds n ready (loop_step (some ready) w)
