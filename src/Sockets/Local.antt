-- ===== src/Sockets/Local.antt =====
-- Local sockets: set_path, bind_unix, listen, sockname and peername in src/lib/nio.cc, and connpeer
-- in src/include/cppev/nio.h. The names of the file system are a parameter.
use cppev.Prelude.{
  ℕ, ◌≡◌, sym, ap, ◌∙◌, Bool, true, false, List, [], ◌∷◌, Option, none, some, take, if◌then◌else◌,
  ◌<◌, ◌≢◌, arith, inl, inr, Option-cases, length, length-take,
}
use cppev.Prelude.Int.{ℤ, pos, negsuc}
use cppev.Nio.{Outcome, returned, threw, ◌>>=◌}
use cppev.Sockets.Address.{Family, ipv4, ipv6, unix, Inet, SockAddr, query_ip_port_family}
use cppev.Sockets.Connections.{
  Peer, Socket, AcceptAnswer, accept, Accepts, incoming_fds, fds_of, AllLike, accept-AllLike,
}

-- strncpy(sun_path, path, sizeof(sun_path) - 1): sun_path has 108 bytes on Linux
abbrev pub sun_path : List ℕ → List ℕ
sun_path path = take 107 path

-- The names of local sockets: unlink(2), and bind(2) by the address, where `none` is an error. A name
-- that exists cannot be bound, binding makes it, one that was unlinked does not exist, and to unlink
-- one leaves the others.
pub record Names : Type 1 where
  pub State : Type 0
  pub exists : State → List ℕ → Bool
  pub unlink : State → List ℕ → Option State
  pub bind_name : State → ℕ → List ℕ → Option State
  pub listen_on : State → ℕ → ℕ → Option State
  pub bind_existing :
      (s : State) (fd : ℕ) (name : List ℕ) → exists s name ≡ true → bind_name s fd name ≡ none
  pub bind_makes :
      (s s' : State) (fd : ℕ) (name : List ℕ)
      → bind_name s fd name ≡ some s'
      → exists s' name ≡ true
  pub unlink_removes :
      (s s' : State) (name : List ℕ) → unlink s name ≡ some s' → exists s' name ≡ false
  pub unlink_others :
      (s s' : State) (name other : List ℕ)
      → unlink s name ≡ some s'
      → other ≢ name
      → exists s' other ≡ exists s other

module _ (names : Names) where
  open names use {
    State, exists, unlink, bind_name, listen_on, bind_existing, bind_makes, unlink_removes,
    unlink_others,
  }

  abbrev or_same : State → Option State → State
  or_same s none = s
  or_same s (some s') = s'

  -- A call that may throw, with the state that it leaves either way.
  abbrev settle : State → Option State → Outcome (Unit {0}) × State
  settle s none = (threw, s)
  settle s (some s') = (returned tt, s')

  -- bind_unix(path, remove): the socket and the state after it, also when it throws. The result of
  -- unlink is not looked at.
  unfoldable pub bind_unix : State → Socket → List ℕ → Bool → Socket × Outcome (Unit {0}) × State
  bind_unix s sock path remove =
      let s' = if remove then or_same s (unlink s path) else s in
      let (end, s'') = settle s' (bind_name s' sock.fd (sun_path path)) in
      (record sock { peer = some (path, negsuc 0) }, end, s'')

  settled : (s s' : State) (o : Option State) → settle s o ≡ (returned tt, s') → o ≡ some s'
  settled s s' none e = cc
  settled s s' (some t) e = cc

  unfoldable pub listen : State → Socket → ℕ → Outcome State
  listen s sock backlog = elim (listen_on s sock.fd backlog) [
    | none ↦ threw
    | some s' ↦ returned s'
  ]

  abbrev before_bind : State → List ℕ → Bool → State
  before_bind s path remove = if remove then or_same s (unlink s path) else s

  bound :
      (s s' : State) (a a' : Socket) (path : List ℕ) (remove : Bool)
      → bind_unix s a path remove ≡ (a', returned tt, s')
      → (bind_name (before_bind s path remove) a.fd (sun_path path) ≡ some s')
        × (a' ≡ record a { peer = some (path, negsuc 0) })
  unfolding bind_unix
  bound s s' a a' path remove e =
      let t = before_bind s path remove in
      (
        settled t s' (bind_name t a.fd (sun_path path)) (ap (λ r. (r.1, r.2)) e),
        sym (ap (λ r. r.0) e),
      )

  -- Two sockets are bound to one path one after the other. If the first bind_unix returns, the second
  -- without `remove` throws, leaves the file system as it was, and has recorded the path all the same.
  pub bind_unix-bind_unix :
      (s s' : State) (a a' b : Socket) (path : List ℕ) (remove : Bool)
      → bind_unix s a path remove ≡ (a', returned tt, s')
      → bind_unix s' b path false ≡ (record b { peer = some (path, negsuc 0) }, threw, s')
  unfolding bind_unix
  bind_unix-bind_unix s s' a a' b path remove e =
      let made = bind_makes _ s' a.fd (sun_path path) (bound s s' a a' path remove e).0 in
      rw (bind_existing s' b.fd (sun_path path) made)

  unlinked_other :
      (s : State) (name other : List ℕ)
      → other ≢ name
      → exists s other ≡ true
      → exists (or_same s (unlink s name)) other ≡ true
  unlinked_other s name other apart e = elim (Option-cases (unlink s name)) [
    | inl none_gone ↦ rw none_gone e
    | inr (t, gone) ↦ rw gone (unlink_others s t name other gone apart ∙ e)
  ]

  -- A path of more than 107 bytes is bound by its first 107, with or without `remove`: once bind_unix
  -- has returned for it, this name exists. A second bind_unix for the path, also with `remove`, then
  -- throws, whether its unlink of the whole path succeeds or not, and the name exists still.
  pub bind_unix_long :
      (s s' : State) (a a' b : Socket) (path : List ℕ) (remove : Bool)
      → 107 < length path
      → bind_unix s a path remove ≡ (a', returned tt, s')
      → (s'' : State) × (exists s' (take 107 path) ≡ true)
        × (bind_unix s' b path true ≡ (record b { peer = some (path, negsuc 0) }, threw, s''))
        × (exists s'' (take 107 path) ≡ true)
  unfolding bind_unix
  bind_unix_long s s' a a' b path remove long e =
      let made = bind_makes _ s' a.fd (sun_path path) (bound s s' a a' path remove e).0 in
      let apart : take 107 path ≢ path =
        λ same. let l = ap length same in omega (arith, length-take 107 path) in
      let there = unlinked_other s' path (take 107 path) apart made in
      (
        or_same s' (unlink s' path),
        made,
        rw (bind_existing (or_same s' (unlink s' path)) b.fd (take 107 path) there),
        there,
      )

-- sockname() and peername(), with what getsockname(2) or getpeername(2) answers, and connpeer()
module _ (inet : Inet) where
  abbrev asked : Option SockAddr → Outcome (List ℕ × ℤ × Family)
  asked none = threw
  asked (some a) = do r ← query_ip_port_family inet a; returned (r.0, pos (r.1), r.2)

  -- A peer that was never set is the empty text and zero.
  abbrev pub peer_of : Option Peer → Peer
  peer_of none = ([], pos 0)
  peer_of (some p) = p

  abbrev named : Family → Peer → Option SockAddr → Outcome (List ℕ × ℤ × Family)
  named unix p answer = returned (p.0, p.1, unix)
  named ipv4 p answer = asked answer
  named ipv6 p answer = asked answer

  unfoldable pub sockname : Socket → Option SockAddr → Outcome (List ℕ × ℤ × Family)
  sockname s answer = named s.domain (peer_of s.peer) answer

  unfoldable pub peername : Socket → Option SockAddr → Outcome (List ℕ × ℤ × Family)
  peername s answer = named s.domain (peer_of s.peer) answer

  unfoldable pub connpeer : Socket → List ℕ × ℤ × Family
  connpeer s = ((peer_of s.peer).0, (peer_of s.peer).1, s.domain)

  -- A socket that says that it is at `path`, and that its peer is.
  abbrev pub IsNamed : List ℕ → Option SockAddr → Socket → Type 0
  IsNamed path answer s =
      (sockname s answer ≡ returned (path, negsuc 0, unix))
      × (peername s answer ≡ returned (path, negsuc 0, unix))
      × (connpeer s ≡ (path, negsuc 0, unix))

  abbrev pub AllNamed : List ℕ → Option SockAddr → List Socket → Type 0
  AllNamed path answer [] = Unit {0}
  AllNamed path answer (s ∷ ss) = IsNamed path answer s × AllNamed path answer ss

  local-IsNamed :
      (path : List ℕ) (answer : Option SockAddr) (s : Socket)
      → s.domain ≡ unix
      → s.peer ≡ some (path, negsuc 0)
      → IsNamed path answer s
  unfolding sockname peername connpeer
  local-IsNamed path answer s d p = (rw (d, p), rw (d, p), rw (d, p))

  like-AllNamed :
      (path : List ℕ) (answer : Option SockAddr) (l : Socket) (socks : List Socket)
      → l.domain ≡ unix
      → l.peer ≡ some (path, negsuc 0)
      → AllLike l socks
      → AllNamed path answer socks
  like-AllNamed path answer l [] d p like = tt
  like-AllNamed path answer l (s ∷ ss) d p (d', p', like) =
      (local-IsNamed path answer s (d' ∙ d) (p' ∙ rw d p), like-AllNamed path answer l ss d p like)

-- If bind_unix returns on a local socket, accept on it, with answers of the kernel that are no errors,
-- returns a socket for each incoming descriptor; these and the bound socket all give the path, and the
-- port -1, as their own name, as the name of their peer and as connpeer.
pub accept-bind_unix :
    (names : Names) (inet : Inet) (s s' : Names.State names) (a a' : Socket) (path : List ℕ)
    (remove : Bool) (batch : ℕ) (answers : List AcceptAnswer) (answer : Option SockAddr)
    → a.domain ≡ unix
    → bind_unix names s a path remove ≡ (a', returned tt, s')
    → Accepts batch answers
    → IsNamed inet path answer a'
      × ((socks : List Socket) × (accept a' batch answers ≡ returned socks)
          × (fds_of socks ≡ incoming_fds batch answers)
          × AllNamed inet path answer socks)
accept-bind_unix names inet s s' a a' path remove batch answers answer d e ok =
    let self = (bound names s s' a a' path remove e).1 in
    let d' = ap (λ x. x.domain) self ∙ d in
    let p' = ap (λ x. x.peer) self in
    let (socks, got, fds, few, like) = accept-AllLike a' batch answers ok in
    (
      local-IsNamed inet path answer a' d' p',
      (socks, got, fds, like-AllNamed inet path answer a' socks d' p' like),
    )
