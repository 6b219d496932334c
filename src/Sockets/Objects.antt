-- ===== src/Sockets/Objects.antt =====
-- The objects nsocktcp and nsockudp of src/include/cppev/nio.h: how they are made, by get_nsocktcp and
-- get_nsockudp of src/lib/nio.cc, moved, and destroyed.
use cppev.Prelude.{
  ℕ, ◌≡◌, refl, Bool, true, false, List, [], ◌∷◌, ◌++◌, append-nil, Option, none, some, ◌==◌,
  if◌then◌else◌,
}
use cppev.Prelude.Int.{ℤ, pos, negsuc}
use cppev.Buffer.{Buffer, resize, move_from}
use cppev.Nio.{Outcome, returned, threw, defined, ◌>>=◌, Stream, move}
use cppev.Nio.Blocking.{Fcntl, construct}
use cppev.Sockets.Address.{Family}
use cppev.Sockets.Connections.{Peer}

-- nsocktcp: nio and nstream, with family_ and peer_
pub record TcpSocket : Type 0 where
  pub stream : Stream
  pub domain : Family
  pub peer : Option Peer

-- nsockudp: nio, with family_ and peer_
pub record UdpSocket : Type 0 where
  pub fd : ℤ
  pub closed : Bool
  pub rbuffer : Buffer
  pub wbuffer : Buffer
  pub evlp : Option ℕ
  pub domain : Family
  pub peer : Option Peer

-- nsocktcp::move for an assignment and for a construction: the target and the source
unfoldable pub move_tcp : TcpSocket → TcpSocket → TcpSocket × TcpSocket
unfolding move
move_tcp self other =
    let (stream, rest) = move self.stream other.stream in
    (
      record { stream = stream; domain = other.domain; peer = other.peer },
      record other { stream = rest },
    )

-- nsockudp::move; as in nio::move, the write buffer is taken from the read buffer.
unfoldable pub move_udp : UdpSocket → UdpSocket × UdpSocket
move_udp other =
    let taken = move_from other.rbuffer in
    let taken' = move_from taken.1 in
    (
      record other { rbuffer = taken.0; wbuffer = taken'.0 },
      record other { fd = negsuc 0; closed = true; rbuffer = taken'.1; evlp = none },
    )

abbrev is_minus_one : ℤ → Bool
is_minus_one (pos n) = false
is_minus_one (negsuc n) = n == 0

-- nio::close(): the call of close(2), unless fd_ is -1
abbrev close_calls : ℤ → List ℤ
close_calls fd = if is_minus_one fd then [] else fd ∷ []

-- ~nio(): the descriptors that it closes
unfoldable pub destroy : Stream → List ℤ
destroy s = if s.closed then [] else close_calls s.fd

abbrev destroy_udp : UdpSocket → List ℤ
destroy_udp s = if s.closed then [] else close_calls s.fd

-- After a move of nsocktcp, destroying the target and the source closes the descriptor of the source as
-- destroying the source alone would have; what the target had is closed by neither. The target has the
-- peer, the family, the flags and the read buffer of the source. The bytes that the source had still to
-- write stay in the source, and the write buffer of the target has no array.
pub move_tcp-destroy :
    (self other : TcpSocket)
    → let (target, source) = move_tcp self other in
      (destroy target.stream ++ destroy source.stream ≡ destroy other.stream)
      × (target.peer ≡ other.peer)
      × (target.domain ≡ other.domain)
      × (target.stream.eof ≡ other.stream.eof)
      × (target.stream.rbuffer ≡ other.stream.rbuffer)
      × (target.stream.wbuffer.store ≡ [])
      × (source.stream.wbuffer ≡ other.stream.wbuffer)
unfolding move_tcp destroy
move_tcp-destroy self other = (append-nil _, refl, refl, refl, refl, refl, refl)

module _ (os : Fcntl) where
  open os use {State, getfl, setfl}

  -- get_nsocktcp(f), with what socket(2) answers
  unfoldable pub get_nsocktcp : State → Option ℤ → Family → Outcome (TcpSocket × State)
  get_nsocktcp s none f = threw
  get_nsocktcp s (some fd) f = do
    made ← construct os s fd
    returned (record { stream = made.0; domain = f; peer = none }, made.1)

  -- sysconfig::udp_buffer_size
  abbrev udp_buffer_size : ℕ
  udp_buffer_size = 2048

  abbrev udp_of : Stream → Buffer → Buffer → Family → UdpSocket
  udp_of s r w f = record {
    fd = s.fd;
    closed = s.closed;
    rbuffer = r;
    wbuffer = w;
    evlp = s.evlp;
    domain = f;
    peer = none;
  }

  unfoldable pub get_nsockudp : State → Option ℤ → Family → Outcome (UdpSocket × State)
  get_nsockudp s none f = threw
  get_nsockudp s (some fd) f = do
    made ← construct os s fd
    r ← defined (resize made.0.rbuffer udp_buffer_size)
    w ← defined (resize made.0.wbuffer udp_buffer_size)
    returned (udp_of made.0 r w f, made.1)
