-- ===== src/Sockets/Connections.antt =====
-- Connections of TCP sockets: connect, connect_unix, accept and shutdown in src/lib/nio.cc.
-- The kernel's answers are arguments.
use cppev.Prelude.{
  ℕ, zero, suc, ◌≤◌, ◌≡◌, refl, ap, Bool, true, false, List, [], ◌∷◌, ◌++◌, Option, none, some,
  arith, length, if◌then◌else◌,
}
use cppev.Prelude.Int.{ℤ, pos, negsuc}
use cppev.Nio.{Outcome, returned, threw, waiting, ◌>>=◌}
use cppev.Sockets.Address.{Family, unix, Inet, set_ip_port}

-- peer_: an ip or a path, and a port, which is -1 behind a path
abbrev pub Peer : Type 0
Peer = List ℕ × ℤ

pub record Socket : Type 0 where
  pub fd : ℕ
  pub domain : Family
  pub peer : Option Peer

-- What connect(2) answers.
pub data ConnectAnswer : Type 0 where
  done in_progress failed : ConnectAnswer

abbrev pub accepted_by : ConnectAnswer → Bool
accepted_by done = true
accepted_by in_progress = true
accepted_by failed = false

unfoldable pub connect : Inet → Socket → List ℕ → ℕ → ConnectAnswer → Outcome (Bool × Socket)
unfolding set_ip_port
connect inet s ip port answer = do
  a ← set_ip_port inet s.domain (some ip) port
  returned (accepted_by answer, record s { peer = some (ip, pos port) })

unfoldable pub connect_unix : Socket → List ℕ → ConnectAnswer → Bool × Socket
connect_unix s path answer = (accepted_by answer, record s { peer = some (path, negsuc 0) })

-- What accept(2) answers: a descriptor, or -1 with an errno.
pub data AcceptAnswer : Type 0 where
  incoming : ℕ → AcceptAnswer
  would_block failed : AcceptAnswer

abbrev pub is_unix : Family → Bool
is_unix unix = true
is_unix _ = false

-- new nsocktcp(sockfd, family_), with the path of the listening socket for a local one
abbrev pub new_socket : Socket → ℕ → Socket
new_socket s fd = record {
  fd = fd;
  domain = s.domain;
  peer = if is_unix s.domain then s.peer else none;
}

abbrev pub also : Socket → Outcome (List Socket) → Outcome (List Socket)
also s rest = do socks ← rest; returned (s ∷ socks)

-- for (int i = 0; i < batch; ++i)
unfoldable pub accept : Socket → ℕ → List AcceptAnswer → Outcome (List Socket)
accept s zero answers = returned []
accept s (suc batch) [] = waiting
accept s (suc batch) (incoming fd ∷ answers) = also (new_socket s fd) (accept s batch answers)
accept s (suc batch) (would_block ∷ answers) = returned []
accept s (suc batch) (AcceptAnswer.failed ∷ answers) = threw

-- The descriptors before the first answer that is none, at most `batch`.
abbrev pub incoming_fds : ℕ → List AcceptAnswer → List ℕ
incoming_fds zero answers = []
incoming_fds (suc batch) (incoming fd ∷ answers) = fd ∷ incoming_fds batch answers
incoming_fds (suc batch) _ = []

-- The kernel gives an answer to each call, and none of them is an error.
abbrev pub Accepts : ℕ → List AcceptAnswer → Type 0
Accepts zero answers = Unit {0}
Accepts (suc batch) [] = ⊥
Accepts (suc batch) (incoming fd ∷ answers) = Accepts batch answers
Accepts (suc batch) (would_block ∷ answers) = Unit {0}
Accepts (suc batch) (AcceptAnswer.failed ∷ answers) = ⊥

abbrev pub fds_of : List Socket → List ℕ
fds_of [] = []
fds_of (s ∷ ss) = s.fd ∷ fds_of ss

-- All have the family of the listening socket, and its path if they are local.
abbrev pub AllLike : Socket → List Socket → Type 0
AllLike l [] = Unit {0}
AllLike l (s ∷ ss) =
    (s.domain ≡ l.domain) × (s.peer ≡ (if is_unix l.domain then l.peer else none)) × AllLike l ss

also_returned :
    (s : Socket) (rest : Outcome (List Socket)) (socks : List Socket)
    → rest ≡ returned socks
    → also s rest ≡ returned (s ∷ socks)
also_returned s rest socks e = rw e

-- If the kernel answers without an error, accept returns a socket for each incoming descriptor until
-- the queue is empty or the batch is full, in their order and at most a batch, each of the family of
-- the listening socket.
pub accept-AllLike :
    (s : Socket) (batch : ℕ) (answers : List AcceptAnswer)
    → Accepts batch answers
    → (socks : List Socket) × (accept s batch answers ≡ returned socks)
      × (fds_of socks ≡ incoming_fds batch answers)
      × (length socks ≤ batch)
      × AllLike s socks
unfolding accept
accept-AllLike s zero answers a = ([], refl, refl, omega arith, tt)
accept-AllLike s (suc batch) [] a = absurd a
accept-AllLike s (suc batch) (incoming fd ∷ answers) a =
    let (socks, e, fds, few, like) = accept-AllLike s batch answers a in
    (
      new_socket s fd ∷ socks,
      also_returned (new_socket s fd) (accept s batch answers) socks e,
      ap (λ r. fd ∷ r) fds,
      omega arith,
      (refl, refl, like),
    )
accept-AllLike s (suc batch) (would_block ∷ answers) a = ([], refl, refl, omega arith, tt)
accept-AllLike s (suc batch) (AcceptAnswer.failed ∷ answers) a = absurd a

-- enum class shut_mode
pub data ShutMode : Type 0 where
  shut_rd shut_wr shut_rdwr : ShutMode

-- The modes of the calls of shutdown(2). The cases have no break, so each runs into those below it.
unfoldable pub shutdown : ShutMode → List ShutMode
shutdown shut_rd = shut_rd ∷ shut_wr ∷ shut_rdwr ∷ []
shutdown shut_wr = shut_wr ∷ shut_rdwr ∷ []
shutdown shut_rdwr = shut_rdwr ∷ []

-- Whatever the mode, the last call of a shutdown is the one for both directions.
pub shutdown_both :
    (howto : ShutMode) → (before : List ShutMode) × (shutdown howto ≡ before ++ shut_rdwr ∷ [])
unfolding shutdown
shutdown_both shut_rd = (shut_rd ∷ shut_wr ∷ [], refl)
shutdown_both shut_wr = (shut_wr ∷ [], refl)
shutdown_both shut_rdwr = ([], refl)
