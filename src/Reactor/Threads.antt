-- ===== src/Reactor/Threads.antt =====
-- The threads of a server or a client: tcp_server::run and shutdown, and tcp_client::run and shutdown
-- of src/lib/tcp.cc. A front is an acceptor or a connector, and a worker is an iohandler of tp_.
use cppev.Prelude.{ℕ, zero, suc, List, [], ◌∷◌, ◌++◌}

data Side : Type 0 where
  front worker : Side

record Thread : Type 0 where
  side : Side
  index : ℕ

-- run(), shutdown() and join() of a thread.
data Kind : Type 0 where
  run_call shutdown_call join_call : Kind

record Call : Type 0 where
  kind : Kind
  thread : Thread

-- for (int i = 0; i < n; ++i), from index i on
abbrev each : Kind → Side → ℕ → ℕ → List Call
each kind side i zero = []
each kind side i (suc n) =
    record { kind = kind; thread = record { side = side; index = i } } ∷ each kind side (suc i) n

-- run() of both classes, behind ignore_signal(SIGPIPE)
abbrev run_calls : ℕ → ℕ → List Call
run_calls workers fronts = each run_call worker 0 workers ++ each run_call front 0 fronts

-- shutdown() of both classes
abbrev shutdown_calls : ℕ → ℕ → List Call
shutdown_calls workers fronts =
    each shutdown_call front 0 fronts
    ++ (each join_call front 0 fronts
        ++ (each shutdown_call worker 0 workers ++ each join_call worker 0 workers))
