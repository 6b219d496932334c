-- ===== src/Reactor/Acceptor.antt =====
-- The acceptor: acceptor::on_acpt_readable of src/lib/tcp.cc, with the event loops of the workers.
pub mod Evenness
pub mod Sharing
use cppev.Prelude.{ℕ, List, [], ◌∷◌, Option, none, some, length, get_elem?, set, true}
use cppev.EventLoop.{Epoll, writable, Loop, ok, fd_register, p0}
use cppev.EventLoop
use cppev.Nio.{Outcome, returned, threw, undefined, ◌>>=◌}
use cppev.Sockets.Connections.{Socket, AcceptAnswer, accept}
use cppev.Reactor.Balance.{minloads_get_evlp}

module _ (e : Epoll) where
  -- ev_loads() of each worker: fds_.size()
  abbrev pub ev_loads : List (Loop e) → List ℕ
  ev_loads [] = []
  ev_loads (l ∷ ls) = length l.fds ∷ ev_loads ls

  abbrev registered_at : List (Loop e) → ℕ → EventLoop.Result (Loop e) → Outcome (List (Loop e))
  registered_at ls k (ok l) = returned (set ls k l)
  registered_at ls k (EventLoop.threw l) = threw

  -- fd_register on the loop that minloads_get_evlp chooses; the null pointer has none. `handler` is
  -- the address of iohandler::on_acpt_writable, and `iop` that of the connection.
  unfoldable pub hand_over : ℕ → ℕ → ℕ → List (Loop e) → Outcome (List (Loop e))
  hand_over handler fd iop ls = elim (minloads_get_evlp (ev_loads ls)) [
    | none ↦ undefined
    | some k ↦ elim (get_elem? ls k) [
      | none ↦ undefined
      | some l ↦ registered_at ls k (fd_register e l fd iop writable (some handler) true p0)
    ]
  ]

  -- for (auto &conn : conns); `address` gives the object of a descriptor
  unfoldable pub hand_over_all : ℕ → (ℕ → ℕ) → List Socket → List (Loop e) → Outcome (List (Loop e))
  hand_over_all handler address [] ls = returned ls
  hand_over_all handler address (conn ∷ conns) ls = do
    ms ← hand_over handler conn.fd (address conn.fd) ls
    hand_over_all handler address conns ms

  -- on_acpt_readable: none is a pointer that is no nsocktcp, and `batch` is INT_MAX
  unfoldable pub on_acpt_readable :
      ℕ → (ℕ → ℕ) → ℕ → Option Socket → List AcceptAnswer → List (Loop e) → Outcome (List (Loop e))
  unfolding accept hand_over_all
  on_acpt_readable handler address batch none answers ls = threw
  on_acpt_readable handler address batch (some sock) answers ls = do
    conns ← accept sock batch answers
    hand_over_all handler address conns ls
