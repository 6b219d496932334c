-- ===== src/Reactor/Setup.antt =====
-- How a server or a client is set up: the classes of src/include/cppev/tcp.h, and their constructors,
-- listen, listen_unix and the run_impl of the fronts in src/lib/tcp.cc. A handler, an event loop and a
-- pointer go by their addresses.
pub mod Listening
pub mod Clients
mod Tests
use cppev.Prelude.{
  ℕ, zero, suc, ◌+◌, Bool, true, false, List, [], ◌∷◌, ◌++◌, Option, none, some, if◌then◌else◌,
}
use cppev.EventLoop.{Epoll, readable, Loop, ok, fd_register, p0}
use cppev.EventLoop
use cppev.Nio.{Outcome, returned, threw, undefined, waiting, ◌>>=◌}

-- tp_shared_data
pub record SharedData : Type 0 where
  pub on_accept : ℕ
  pub on_connect : ℕ
  pub on_read_complete : ℕ
  pub on_write_complete : ℕ
  pub on_closed : ℕ
  pub evls : List ℕ
  pub external_data : ℕ

-- tp_shared_data(external_data_ptr), with the address of idle_handler
abbrev pub shared_data : ℕ → ℕ → SharedData
shared_data idle external = record {
  on_accept = idle;
  on_connect = idle;
  on_read_complete = idle;
  on_write_complete = idle;
  on_closed = idle;
  evls = [];
  external_data = external;
}

-- for (int i = 0; i < tp_.size(); ++i) data_.evls.push_back(&(tp_[i].evlp_)), from worker i on;
-- `loop_of` gives the address of the loop of a worker
unfoldable pub push_evls : (ℕ → ℕ) → ℕ → ℕ → SharedData → SharedData
push_evls loop_of i zero d = d
push_evls loop_of i (suc n) d =
    push_evls loop_of (suc i) n (record d { evls = d.evls ++ loop_of i ∷ [] })

-- How far the listening socket of an acceptor has come.
pub data Standing : Type 0 where
  unbound bound listening : Standing

-- acceptor: sock_, the null pointer before listen
pub record Acceptor : Type 0 where
  pub sock : Option ℕ
  pub standing : Standing

-- connector: the two ends of its pipe
pub record Connector : Type 0 where
  pub rdp : ℕ
  pub wrp : ℕ

pub record Server : Type 0 where
  pub data_ : SharedData
  pub workers : ℕ
  pub acpts : List Acceptor

pub record Client : Type 0 where
  pub data_ : SharedData
  pub workers : ℕ
  pub conts : List Connector

unfoldable pub tcp_server : (ℕ → ℕ) → ℕ → ℕ → ℕ → Server
unfolding push_evls
tcp_server loop_of idle thr_num external = record {
  data_ = push_evls loop_of 0 thr_num (shared_data idle external);
  workers = thr_num;
  acpts = [];
}

-- connector(data), one for each answer of get_pipes; one that throws leaves the constructor
unfoldable pub connectors : List (Outcome (ℕ × ℕ)) → Outcome (List Connector)
connectors [] = returned []
connectors (pipe ∷ pipes) = do
  ends ← pipe
  conts ← connectors pipes
  returned (record { rdp = ends.0; wrp = ends.1 } ∷ conts)

unfoldable pub tcp_client : (ℕ → ℕ) → ℕ → ℕ → ℕ → List (Outcome (ℕ × ℕ)) → Outcome Client
unfolding push_evls connectors
tcp_client loop_of idle thr_num external pipes = do
  conts ← connectors pipes
  returned record {
    data_ = push_evls loop_of 0 thr_num (shared_data idle external);
    workers = thr_num;
    conts = conts;
  }

-- What the calls of acceptor::listen or listen_unix come to: get_nsocktcp, bind or bind_unix, and
-- listen of the socket.
pub record ListenAnswers : Type 0 where
  pub made : Option ℕ
  pub binds : Bool
  pub listens : Bool

abbrev pub new_acceptor : Acceptor
new_acceptor = record { sock = none; standing = unbound }

abbrev after_socket : Option ℕ → ListenAnswers → Acceptor × Outcome (Unit {0})
after_socket none a = (new_acceptor, threw)
after_socket (some s) a =
    if a.binds
    then (if a.listens
        then (record { sock = some s; standing = listening }, returned tt)
        else (record { sock = some s; standing = bound }, threw))
    else (record { sock = some s; standing = unbound }, threw)

-- acceptor::listen and acceptor::listen_unix of a new acceptor, with its state also when they throw
unfoldable pub acceptor_listen : ListenAnswers → Acceptor × Outcome (Unit {0})
acceptor_listen a = after_socket a.made a

-- tcp_server::listen and tcp_server::listen_unix
unfoldable pub listen : ListenAnswers → Server → Server × Outcome (Unit {0})
unfolding acceptor_listen
listen a s =
    let (acceptor, end) = acceptor_listen a in (record s { acpts = s.acpts ++ acceptor ∷ [] }, end)

unfoldable pub set_on_accept : ℕ → Server → Server
set_on_accept h s = record s { data_ = record (s.data_) { on_accept = h } }

unfoldable pub set_on_read_complete : ℕ → Server → Server
set_on_read_complete h s = record s { data_ = record (s.data_) { on_read_complete = h } }

unfoldable pub set_on_write_complete : ℕ → Server → Server
set_on_write_complete h s = record s { data_ = record (s.data_) { on_write_complete = h } }

unfoldable pub set_on_closed : ℕ → Server → Server
set_on_closed h s = record s { data_ = record (s.data_) { on_closed = h } }

unfoldable pub set_on_connect : ℕ → Client → Client
set_on_connect h c = record c { data_ = record (c.data_) { on_connect = h } }

-- The calls by which an application sets up a server; it may catch what listen throws.
pub data SetupCall : Type 0 where
  accept_handler read_handler write_handler closed_handler : ℕ → SetupCall
  listens_with : ListenAnswers → SetupCall

abbrev pub configure : SetupCall → Server → Server
configure (accept_handler h) s = set_on_accept h s
configure (read_handler h) s = set_on_read_complete h s
configure (write_handler h) s = set_on_write_complete h s
configure (closed_handler h) s = set_on_closed h s
configure (listens_with a) s = (listen a s).0

abbrev pub configure_all : List SetupCall → Server → Server
configure_all [] s = s
configure_all (c ∷ cs) s = configure_all cs (configure c s)

module _ (e : Epoll) where
  abbrev registered_with : EventLoop.Result (Loop e) → Outcome (Loop e)
  registered_with (ok l) = returned l
  registered_with (EventLoop.threw l) = threw

  -- acceptor::run_impl up to loop_forever, on its loop; `fd_of` gives the descriptor of a socket, and
  -- `handler` is on_acpt_readable. The null pointer has no descriptor.
  unfoldable pub acceptor_run_impl : (ℕ → ℕ) → ℕ → Acceptor → Loop e → Outcome (Loop e)
  acceptor_run_impl fd_of handler a l = elim a.sock [
    | none ↦ undefined
    | some s ↦ registered_with (fd_register e l (fd_of s) s readable (some handler) true p0)
  ]

  -- connector::run_impl up to loop_forever; `handler` is on_pipe_readable
  unfoldable pub connector_run_impl : (ℕ → ℕ) → ℕ → Connector → Loop e → Outcome (Loop e)
  connector_run_impl fd_of handler c l =
      registered_with (fd_register e l (fd_of c.rdp) c.rdp readable (some handler) true p0)
