-- ===== src/Reactor/Setup/Listening.antt =====
-- What a server is after it was set up.
use cppev.Prelude.{
  ℕ, zero, suc, ◌≡◌, refl, sym, ap, ◌∙◌, Bool, true, false, ◌&&◌, List, [], ◌∷◌, ◌++◌, append-nil,
  append_assoc, Option, none, some, if◌then◌else◌,
}
use cppev.EventLoop.{Epoll, Loop}
use cppev.Nio.{threw, undefined}
use cppev.Reactor.Setup.{
  SharedData, shared_data, push_evls, unbound, bound, listening, Acceptor, Server, tcp_server,
  ListenAnswers, acceptor_listen, listen, set_on_accept, set_on_read_complete,
  set_on_write_complete, set_on_closed, SetupCall, accept_handler, read_handler, write_handler,
  closed_handler, listens_with, configure, configure_all, acceptor_run_impl,
}

-- The last handler that was set, or the one before.
abbrev pub last_accept : ℕ → List SetupCall → ℕ
last_accept h [] = h
last_accept h (accept_handler k ∷ cs) = last_accept k cs
last_accept h (read_handler k ∷ cs) = last_accept h cs
last_accept h (write_handler k ∷ cs) = last_accept h cs
last_accept h (closed_handler k ∷ cs) = last_accept h cs
last_accept h (listens_with a ∷ cs) = last_accept h cs

abbrev pub last_read : ℕ → List SetupCall → ℕ
last_read h [] = h
last_read h (accept_handler k ∷ cs) = last_read h cs
last_read h (read_handler k ∷ cs) = last_read k cs
last_read h (write_handler k ∷ cs) = last_read h cs
last_read h (closed_handler k ∷ cs) = last_read h cs
last_read h (listens_with a ∷ cs) = last_read h cs

abbrev pub last_write : ℕ → List SetupCall → ℕ
last_write h [] = h
last_write h (accept_handler k ∷ cs) = last_write h cs
last_write h (read_handler k ∷ cs) = last_write h cs
last_write h (write_handler k ∷ cs) = last_write k cs
last_write h (closed_handler k ∷ cs) = last_write h cs
last_write h (listens_with a ∷ cs) = last_write h cs

abbrev pub last_closed : ℕ → List SetupCall → ℕ
last_closed h [] = h
last_closed h (accept_handler k ∷ cs) = last_closed h cs
last_closed h (read_handler k ∷ cs) = last_closed h cs
last_closed h (write_handler k ∷ cs) = last_closed h cs
last_closed h (closed_handler k ∷ cs) = last_closed k cs
last_closed h (listens_with a ∷ cs) = last_closed h cs

abbrev is_made : Option ℕ → Bool
is_made none = false
is_made (some s) = true

-- The acceptor that a listen call leaves: it listens if each of the three calls succeeds.
abbrev pub acceptor_for : ListenAnswers → Acceptor
acceptor_for a = record {
  sock = a.made;
  standing =
      if is_made a.made && (a.binds && a.listens)
      then listening
      else if is_made a.made && a.binds
      then bound
      else unbound;
}

-- One for each listen call, in their order.
abbrev pub acceptors_for : List SetupCall → List Acceptor
acceptors_for [] = []
acceptors_for (accept_handler k ∷ cs) = acceptors_for cs
acceptors_for (read_handler k ∷ cs) = acceptors_for cs
acceptors_for (write_handler k ∷ cs) = acceptors_for cs
acceptors_for (closed_handler k ∷ cs) = acceptors_for cs
acceptors_for (listens_with a ∷ cs) = acceptor_for a ∷ acceptors_for cs

abbrev pub loops : (ℕ → ℕ) → ℕ → ℕ → List ℕ
loops loop_of i zero = []
loops loop_of i (suc n) = loop_of i ∷ loops loop_of (suc i) n

push_evls-loops :
    (loop_of : ℕ → ℕ) (i n : ℕ) (d : SharedData)
    → push_evls loop_of i n d ≡ record d { evls = d.evls ++ loops loop_of i n }
unfolding push_evls
push_evls-loops loop_of i zero d = ap (λ xs. record d { evls = xs }) (sym (append-nil d.evls))
push_evls-loops loop_of i (suc n) d =
    push_evls-loops loop_of (suc i) n (record d { evls = d.evls ++ loop_of i ∷ [] })
    ∙ ap (λ xs. record d { evls = xs })
        (append_assoc d.evls (loop_of i ∷ []) (loops loop_of (suc i) n))

acceptor_listen-acceptor_for :
    (a : ListenAnswers) (m : Option ℕ) (b l : Bool)
    → (acceptor_listen (record { made = m; binds = b; listens = l })).0
      ≡ acceptor_for (record { made = m; binds = b; listens = l })
unfolding acceptor_listen
acceptor_listen-acceptor_for a none b l = refl
acceptor_listen-acceptor_for a (some s) true true = refl
acceptor_listen-acceptor_for a (some s) true false = refl
acceptor_listen-acceptor_for a (some s) false l = refl

configure_all-acpts :
    (cs : List SetupCall) (s : Server) → (configure_all cs s).acpts ≡ s.acpts ++ acceptors_for cs
unfolding set_on_accept set_on_read_complete set_on_write_complete set_on_closed listen
configure_all-acpts [] s = sym (append-nil s.acpts)
configure_all-acpts (accept_handler h ∷ cs) s =
    configure_all-acpts cs (configure (accept_handler h) s)
configure_all-acpts (read_handler h ∷ cs) s = configure_all-acpts cs (configure (read_handler h) s)
configure_all-acpts (write_handler h ∷ cs) s =
    configure_all-acpts cs (configure (write_handler h) s)
configure_all-acpts (closed_handler h ∷ cs) s =
    configure_all-acpts cs (configure (closed_handler h) s)
configure_all-acpts (listens_with a ∷ cs) s =
    configure_all-acpts cs (configure (listens_with a) s)
    ∙ append_assoc s.acpts ((acceptor_listen a).0 ∷ []) (acceptors_for cs)
    ∙ ap (λ x. s.acpts ++ x ∷ acceptors_for cs)
        (acceptor_listen-acceptor_for a a.made a.binds a.listens)

configure_all-data_ :
    (cs : List SetupCall) (s : Server)
    → (configure_all cs s).data_ ≡ record (s.data_) {
      on_accept = last_accept s.data_.on_accept cs;
      on_read_complete = last_read s.data_.on_read_complete cs;
      on_write_complete = last_write s.data_.on_write_complete cs;
      on_closed = last_closed s.data_.on_closed cs;
    }
unfolding set_on_accept set_on_read_complete set_on_write_complete set_on_closed listen
configure_all-data_ [] s = refl
configure_all-data_ (accept_handler h ∷ cs) s =
    configure_all-data_ cs (configure (accept_handler h) s)
configure_all-data_ (read_handler h ∷ cs) s = configure_all-data_ cs (configure (read_handler h) s)
configure_all-data_ (write_handler h ∷ cs) s =
    configure_all-data_ cs (configure (write_handler h) s)
configure_all-data_ (closed_handler h ∷ cs) s =
    configure_all-data_ cs (configure (closed_handler h) s)
configure_all-data_ (listens_with a ∷ cs) s = configure_all-data_ cs (configure (listens_with a) s)

-- Whatever calls set up a new server, its shared data lists the loops of its workers in their order and
-- has the external data, each handler is the one that was set last, or idle_handler, and it has one
-- acceptor for each listen call, in their order, also for those that threw: an acceptor listens if the
-- socket was made, bound and put to listen.
pub configure_all-tcp_server :
    (loop_of : ℕ → ℕ) (idle thr_num external : ℕ) (cs : List SetupCall)
    → let s = configure_all cs (tcp_server loop_of idle thr_num external) in
      (s.acpts ≡ acceptors_for cs)
      × (s.data_ ≡ record (shared_data idle external) {
        evls = loops loop_of 0 thr_num;
        on_accept = last_accept idle cs;
        on_read_complete = last_read idle cs;
        on_write_complete = last_write idle cs;
        on_closed = last_closed idle cs;
      })
unfolding tcp_server
configure_all-tcp_server loop_of idle thr_num external cs = (
  configure_all-acpts cs (tcp_server loop_of idle thr_num external),
  configure_all-data_ cs (tcp_server loop_of idle thr_num external)
      ∙ ap
          (λ (d : SharedData). record d {
            on_accept = last_accept d.on_accept cs;
            on_read_complete = last_read d.on_read_complete cs;
            on_write_complete = last_write d.on_write_complete cs;
            on_closed = last_closed d.on_closed cs;
          })
          (push_evls-loops loop_of 0 thr_num (shared_data idle external)),
)

-- If socket(2) fails, listen of a server throws, but leaves an acceptor behind, whose run_impl then
-- registers a null pointer.
pub listen-acceptor_run_impl :
    (e : Epoll) (fd_of : ℕ → ℕ) (handler : ℕ) (a : ListenAnswers) (s : Server) (l : Loop e)
    → a.made ≡ none
    → ((listen a s).1 ≡ threw)
      × ((left : Acceptor) × ((listen a s).0.acpts ≡ s.acpts ++ left ∷ [])
          × (acceptor_run_impl e fd_of handler left l ≡ undefined))
unfolding listen acceptor_listen acceptor_run_impl
listen-acceptor_run_impl e fd_of handler a s l h = (rw h, ((acceptor_listen a).0, refl, rw h))
