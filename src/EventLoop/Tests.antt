-- ===== src/EventLoop/Tests.antt =====
-- The theorems on the event loop at a concrete loop.
use mathlib.Core.List.{Perm}
use cppev.Prelude.{ℕ, ◌≡◌, refl, true, false, List, [], ◌∷◌, none, some, ◌==◌, if◌then◌else◌}
use cppev.EventLoop.{
  Event, readable, Entry, Callback, ok, Loop, fd_register, fd_remove, matching, dispatch,
}
use cppev.EventLoop.Sample.{watches}
use cppev.EventLoop.Dispatch.{IsByPriority, dispatch-IsByPriority}
use cppev.EventLoop.Registry.{fd_remove-matching}
use cppev.EventLoop.Forever.{Pipe, Move, stopper, looper, start, stop_step, loop_step, run}
use cppev.EventLoop.Forever.Stopping.{Waits, GetsOut, run-ends}

abbrev entry : ℕ → ℕ → ℕ → Entry
entry fd prio handler = record {
  fd = fd;
  prio = prio;
  iop = fd;
  handler = handler;
  event = readable;
}

abbrev entries : List Entry
entries = entry 3 14 100 ∷ entry 4 20 200 ∷ entry 4 16 300 ∷ []

abbrev reported : List (ℕ × Event)
reported = (3, readable) ∷ (4, readable) ∷ (5, readable) ∷ []

abbrev call : ℕ → ℕ → ℕ → Callback
call prio iop handler = record { prio = prio; iop = iop; handler = handler }

dispatch_run : dispatch reported entries ≡ call 20 4 200 ∷ call 16 4 300 ∷ call 14 3 100 ∷ []
unfolding dispatch
dispatch_run = refl

dispatch-IsByPriority_example :
    IsByPriority (dispatch reported entries)
    × Perm (dispatch reported entries) (call 14 3 100 ∷ call 20 4 200 ∷ call 16 4 300 ∷ [])
dispatch-IsByPriority_example = dispatch-IsByPriority reported entries

-- The descriptors 3 and 4 are watched.
abbrev loop : Loop watches
loop = record {
  watched = λ k. if k == 3 then true else if k == 4 then true else false;
  fds = entries;
  owned = [];
  stop = false;
}

fd_remove-matching_example :
    (m : Loop watches) × (fd_remove watches loop 4 true true ≡ ok m)
    × (m.watched 4 ≡ false)
    × ((other : ℕ) (ev : Event)
        → matching other ev m.fds ≡ (if other == 4 then [] else matching other ev entries))
fd_remove-matching_example = fd_remove-matching watches loop 4 refl

-- A handler that leaves a mark.
abbrev note : Callback → Loop watches → Loop watches
note c l = record l { owned = c.handler ∷ l.owned }

abbrev stop_pipe : Pipe
stop_pipe = record { fd = 7; iop = 70; handler = 500 }

-- The loop waits while the other thread sets stop_, and is woken up by the descriptor 3.
abbrev schedule : List Move
schedule =
    looper none
    ∷ looper none
    ∷ stopper
    ∷ looper (some ((3, readable) ∷ []))
    ∷ stopper
    ∷ looper none
    ∷ []

run-ends_example :
    let w = run watches note stop_pipe schedule (start watches loop) in
    Waits watches note stop_pipe (λ c l h. h) (λ c l h. h) w.loop w.at
    × GetsOut watches note stop_pipe
        (λ c l h. h)
        (λ c l h. h)
        ((7, readable) ∷ [])
        w.loop
        w.at
        w.stage
unfolding start stop_step loop_step fd_register dispatch
run-ends_example =
    run-ends watches note stop_pipe (λ c l h. h) (λ c l h. h) schedule ((7, readable) ∷ []) loop
      refl refl
