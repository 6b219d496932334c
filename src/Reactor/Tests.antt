-- ===== src/Reactor/Tests.antt =====
-- The theorems on the reactor at concrete workers, tasks and connections.
use cppev.Prelude.{
  ◌+◌, ◌≡◌, refl, true, false, List, [], ◌∷◌, none, some, arith, ◌==◌, if◌then◌else◌, replicate,
}
use cppev.Prelude.Int.{pos}
use cppev.Buffer.{Buffer, resize, clear}
use cppev.Buffer.Arrays.{slice, fill_zero}
use cppev.Sockets.Address.{ipv4}
use cppev.Sockets.Connections.{Socket, AcceptAnswer, incoming, new_socket, accept}
use cppev.Reactor.Acceptor.{ev_loads, on_acpt_readable}
use cppev.Reactor.Acceptor.Evenness.{Even, sum}
use cppev.Reactor.Acceptor.Sharing.{on_acpt_readable-Even}
use cppev.EventLoop.{Loop, readable, writable, matching, p0}
use cppev.EventLoop.Sample.{watches}
use cppev.Nio.{
  write_loop, read_loop, returned, threw, Stream, ReadAnswer, WriteAnswer, at_end, took, write_all,
  read_all, write_chunk, read_chunk,
}
use cppev.Reactor.Balance.{minloads_get_evlp}
use cppev.Reactor.Connect.{bump, Counts, client_add, requested, client_add-requested}
use cppev.Reactor.Attempts.{connected, refused, bad_address, Tasks, done, thrown, on_pipe_readable}
use cppev.Reactor.Attempts.Handling.{Outcomes, on_pipe_readable-Outcomes}
use cppev.Reactor.Handlers.{
  Conn, Callbacks, async_write, safely_close, on_acpt_writable, on_readable,
}
use cppev.Reactor.Handlers.Accepting.{accept_partial_write, accept_whole_write}
use cppev.Reactor.Handlers.Closing.{close_at_eof}

abbrev connectors : List Counts
connectors = ((1, 4) ∷ []) ∷ [] ∷ [] ∷ []

client_add-requested_example :
    (out : List Counts) × (client_add 1 8 connectors ≡ some out)
    × (requested 1 out ≡ requested 1 connectors + (if 1 == 1 then 8 else 0))
client_add-requested_example = client_add-requested 1 1 8 ((1, 4) ∷ []) ([] ∷ [] ∷ [])

abbrev hosts : Counts
hosts = (1, 2) ∷ (2, 1) ∷ []

abbrev tasks : Tasks
tasks = record {
  loads = 3 ∷ 1 ∷ [];
  assigned = [];
  failures = [];
  answers = connected ∷ refused ∷ connected ∷ [];
}

tasks_run :
    on_pipe_readable hosts tasks
    ≡ done (record {
      loads = 3 ∷ 3 ∷ [];
      assigned = (2, 1) ∷ (1, 1) ∷ [];
      failures = (1, 1) ∷ [];
      answers = [];
    })
unfolding on_pipe_readable minloads_get_evlp bump
tasks_run = refl

-- The second attempt throws, and the third request is lost.
abbrev bad_tasks : Tasks
bad_tasks = record tasks { answers = connected ∷ bad_address ∷ connected ∷ [] }

bad_tasks_run :
    on_pipe_readable hosts bad_tasks
    ≡ thrown (record {
      loads = 3 ∷ 2 ∷ [];
      assigned = (1, 1) ∷ [];
      failures = [];
      answers = connected ∷ [];
    })
unfolding on_pipe_readable minloads_get_evlp
bad_tasks_run = refl

on_pipe_readable-Outcomes_example : Outcomes hosts bad_tasks (on_pipe_readable hosts bad_tasks)
on_pipe_readable-Outcomes_example =
    on_pipe_readable-Outcomes hosts bad_tasks
      (record { answered = omega arith; room = omega arith })

abbrev empty : Buffer
empty = record { cap = 1; start = 0; offset = 0; store = 0 ∷ [] }

-- Two bytes are to be written.
abbrev pending : Buffer
pending = record { cap = 2; start = 0; offset = 2; store = 5 ∷ 6 ∷ [] }

abbrev sock : Stream
sock = record {
  fd = pos 7;
  closed = false;
  rbuffer = empty;
  wbuffer = pending;
  evlp = some 1;
  reset = false;
  eof = false;
  eop = false;
  sent = [];
}

abbrev conn : List ReadAnswer → List WriteAnswer → Conn watches
conn reads writes = record {
  loop = record { watched = λ k. k == 7; fds = []; owned = []; stop = false };
  sock = sock;
  fd = 7;
  iop = 70;
  reads = reads;
  writes = writes;
  so_error = 0;
  failures = 0;
}

abbrev callbacks : Callbacks watches
callbacks = record {
  on_accept = λ c. returned c;
  on_connect = λ c. returned c;
  on_read_complete = λ c. returned c;
  on_write_complete = λ c. returned c;
  on_closed = λ c. returned c;
  readable_handler = 100;
  writable_handler = 200;
}

abbrev part : List WriteAnswer
part = took 1 ∷ WriteAnswer.would_block ∷ []

accept_partial_write_example :
    on_acpt_writable watches
      (record callbacks { on_accept = async_write watches callbacks })
      (conn [] part)
    ≡ threw
unfolding write_all write_chunk write_loop slice
accept_partial_write_example =
    accept_partial_write watches callbacks (conn [] part) 1
      (record sock { wbuffer = record pending { start = 1 }; sent = 5 ∷ [] }) [] refl refl refl

abbrev whole : List WriteAnswer
whole = took 2 ∷ []

accept_whole_write_example :
    (d : Conn watches) × (on_acpt_writable watches
        (record callbacks {
          on_accept =
              async_write watches (record callbacks { on_write_complete = λ x. returned x });
        })
        (conn [] whole)
      ≡ returned d)
    × (d.loop.watched 7 ≡ true)
    × (matching 7 readable d.loop.fds ≡ record { prio = p0; iop = 70; handler = 100 } ∷ [])
    × (matching 7 writable d.loop.fds ≡ record { prio = p0; iop = 70; handler = 200 } ∷ [])
unfolding write_all write_chunk write_loop clear fill_zero slice
accept_whole_write_example =
    accept_whole_write watches callbacks (conn [] whole) 2
      (record sock {
        wbuffer = record pending { start = 0; offset = 0; store = 0 ∷ 0 ∷ [] };
        sent = 5 ∷ 6 ∷ [];
      })
      [] refl refl refl

abbrev last_bytes : List ReadAnswer
last_bytes = at_end ∷ []

-- The stream after the read, which has made room for 1024 bytes.
abbrev at_eof : Stream
at_eof = record sock {
  eof = true;
  rbuffer = record { cap = 1024; start = 0; offset = 0; store = replicate 1024 0 };
}

read_to_end : read_all 2 last_bytes 1024 0 sock ≡ returned (0, at_eof, [])
unfolding read_all read_chunk read_loop resize
read_to_end = refl

close_at_eof_example :
    on_readable watches
      (record callbacks {
        on_read_complete = safely_close watches callbacks;
        on_closed = λ x. returned x;
      })
      (conn last_bytes [])
    ≡ threw
close_at_eof_example =
    close_at_eof watches callbacks (conn last_bytes []) 0 at_eof [] read_to_end refl

-- Two workers, one of which has a connection.
abbrev idle : Loop watches
idle = record { watched = λ k. false; fds = []; owned = []; stop = false }

abbrev busy : Loop watches
busy = record idle {
  fds = record { fd = 3; prio = p0; iop = 3; handler = 9; event = writable } ∷ [];
}

abbrev workers : List (Loop watches)
workers = busy ∷ idle ∷ []

abbrev listening : Socket
listening = record { fd = 2; domain = ipv4; peer = none }

abbrev accepted : List Socket
accepted = new_socket listening 7 ∷ new_socket listening 8 ∷ []

on_acpt_readable-Even_example :
    (ms : List (Loop watches)) × (on_acpt_readable watches 9
        (λ fd. fd)
        100
        (some listening)
        (incoming 7 ∷ incoming 8 ∷ AcceptAnswer.would_block ∷ [])
        workers
      ≡ returned ms)
    × Even (ev_loads watches ms)
    × (sum (ev_loads watches ms) ≡ 3)
unfolding accept
on_acpt_readable-Even_example =
    on_acpt_readable-Even watches 9 (λ fd. fd) 100 listening
      (incoming 7 ∷ incoming 8 ∷ AcceptAnswer.would_block ∷ []) accepted workers refl (omega arith)
      (omega arith)
      (record {
        low = 0;
        above = (omega arith, (omega arith, tt));
        below = (omega arith, (omega arith, tt));
      })
      ((refl, (refl, tt)), (refl, tt), ((refl, (refl, tt)), tt, tt))
