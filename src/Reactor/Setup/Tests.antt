-- ===== src/Reactor/Setup/Tests.antt =====
-- The theorems on the set-up of a server and on the table of hosts, at concrete calls.
use mathlib.Core.Quot
use cppev.Prelude.{ℕ, ◌+◌, ◌≡◌, true, false, List, [], ◌∷◌, some}
use cppev.Reactor.Hosts.{Hosts, add_host, hosts_count, add_host-add_host}
use cppev.Reactor.Setup.{
  shared_data, tcp_server, ListenAnswers, SetupCall, accept_handler, closed_handler, listens_with,
  configure_all,
}
use cppev.Reactor.Setup.Listening.{
  last_accept, last_read, last_write, last_closed, acceptors_for, loops, configure_all-tcp_server,
}

abbrev listening_at : ListenAnswers
listening_at = record { made = some 3; binds = true; listens = true }

abbrev port_taken : ListenAnswers
port_taken = record { made = some 4; binds = false; listens = true }

abbrev set_up_calls : List SetupCall
set_up_calls =
    accept_handler 100
    ∷ listens_with port_taken
    ∷ accept_handler 200
    ∷ listens_with listening_at
    ∷ closed_handler 300
    ∷ []

abbrev loop_of : ℕ → ℕ
loop_of i = 1000 + i

configure_all-tcp_server_example :
    let s = configure_all set_up_calls (tcp_server loop_of 7 4 9) in
    (s.acpts ≡ acceptors_for set_up_calls)
    × (s.data_ ≡ record (shared_data 7 9) {
      evls = loops loop_of 0 4;
      on_accept = last_accept 7 set_up_calls;
      on_read_complete = last_read 7 set_up_calls;
      on_write_complete = last_write 7 set_up_calls;
      on_closed = last_closed 7 set_up_calls;
    })
configure_all-tcp_server_example = configure_all-tcp_server loop_of 7 4 9 set_up_calls

abbrev two_hosts : Hosts
two_hosts = Quot.mk ((5, 1) ∷ (6, 2) ∷ [])

add_host-add_host_example :
    (hosts_count 6 (add_host 5 3 two_hosts) ≡ hosts_count 6 two_hosts + 0)
    × (add_host 5 3 (add_host 6 4 two_hosts) ≡ add_host 6 4 (add_host 5 3 two_hosts))
    × (add_host 5 3 (add_host 5 4 two_hosts) ≡ add_host 5 7 two_hosts)
add_host-add_host_example = add_host-add_host 5 6 3 4 two_hosts
